-- ===== src/Silence/Query/Select.antt =====
-- The two queries of `Mutes` of silence/silence.go, and filters of the state to compare them with.
use Prim.Native.String.{String}
use mathlib.Core.List.{append_assoc, append-nil}
use codestra_alertmanager.Prelude.{
  ℕ, ◌≡◌, refl, sym, ◌∙◌, ap, Bool, true, false, Option, none, some, List, [], ◌∷◌, ◌++◌, ◌&&◌,
  string_eq, arith, if◌then◌else◌, Bool-cases, Option-cases, inl, inr,
}
use codestra_alertmanager.Prelude.Maps.{lookup}
use codestra_alertmanager.Clock.{Time}
use codestra_alertmanager.Labels.{LabelSet, matches_any}
use codestra_alertmanager.Silence.Data.{
  Silence, MeshSilence, SilenceState, expired, get_state, contains_state, is_nil,
}
use codestra_alertmanager.Silence.Index.{VersionIndex, find_version_greater_than}
use codestra_alertmanager.Silence.Index.Search.{newer, find_version-newer, IsSorted}
use codestra_alertmanager.Silence.State.{State, Silences}
use codestra_alertmanager.Silence.Query.{
  ok, Filter, by_labels, by_state, q_ids, q_since, q_matches, q_state, passes, passes_all,
  append_if_match, scan_ids, scan_versions, scan_since, run_query, query, apply_params, apply_param,
}
use codestra_alertmanager.Silence.Consistency.{lists, is_some, IsConsistent}

-- The state of the silence with an ID; an ID with no silence is like an expired one.
abbrev pub state_of : State → Time → String → SilenceState
state_of st t k = elim (lookup k st) [ none ↦ expired | some e ↦ get_state e.silence t ]

-- Whether the matchers in the index under an ID match a label set.
abbrev pub matching : Silences → LabelSet → String → Bool
matching s lset k = elim (lookup k s.mi) [ none ↦ false | some sets ↦ matches_any sets lset ]

-- Every silence of the state has its matchers in the index.
abbrev pub IsCompiled : Silences → Type 0
IsCompiled s = (k : String) → is_some (lookup k s.st) ≡ true → is_some (lookup k s.mi) ≡ true

abbrev pub pick : List SilenceState → Time → Option MeshSilence → List Silence
pick states now none = []
pick states now (some e) =
    if contains_state states (get_state e.silence now) then e.silence ∷ [] else []

abbrev pub pick_matching :
    Silences → List SilenceState → Time → LabelSet → Option MeshSilence → List Silence
pick_matching s states now lset none = []
pick_matching s states now lset (some e) =
    if contains_state states (get_state e.silence now) && matching s lset e.silence.id
    then e.silence ∷ []
    else []

-- The silences with the given IDs in one of the given states.
abbrev pub select_ids : Silences → Time → List SilenceState → List String → List Silence
select_ids s now states [] = []
select_ids s now states (i ∷ is) = pick states now (lookup i s.st) ++ select_ids s now states is

-- The silences of an index in one of the given states whose matchers match.
abbrev pub select_versions :
    Silences → Time → List SilenceState → LabelSet → VersionIndex → List Silence
select_versions s now states lset [] = []
select_versions s now states lset (sv ∷ vi) =
    pick_matching s states now lset (lookup sv.id s.st) ++ select_versions s now states lset vi

module _ (s : Silences) (now : Time) (states : List SilenceState) where
  append_by_state :
      (res : List Silence) (sil : Silence)
      → append_if_match s now (by_state states ∷ []) res sil
        ≡ ok (if contains_state states (get_state sil now) then res ++ sil ∷ [] else res)
  unfolding append_if_match passes_all passes
  append_by_state res sil = elim (Bool-cases (contains_state states (get_state sil now))) [
    | inl e ↦ rw (e, append_if_match, passes_all, passes)
    | inr e ↦ rw (e, append_if_match, passes_all, passes)
  ]

  scan_ids_lem :
      (ids : List String) (res : List Silence)
      → scan_ids s now (by_state states ∷ []) ids res ≡ ok (res ++ select_ids s now states ids)
  unfolding scan_ids
  scan_ids_lem [] res = rw append-nil
  scan_ids_lem (i ∷ is) res = elim (Option-cases (lookup i s.st)) [
    | inl n ↦ rw (n, scan_ids) (scan_ids_lem is res)
    | inr (e, p) ↦
        rw (p, scan_ids, append_by_state res e.silence)
          (elim (Bool-cases (contains_state states (get_state e.silence now))) [
            | inl b ↦ rw b (
                scan_ids_lem is (res ++ e.silence ∷ [])
                ∙ ap ok (append_assoc res (e.silence ∷ []) (select_ids s now states is)))
            | inr b ↦ rw b (scan_ids_lem is res)
          ])
  ]

  module _ (lset : LabelSet) where
    abbrev filters : List Filter
    filters = by_state states ∷ by_labels lset ∷ []

    append_by_both :
        (res : List Silence) (sil : Silence)
        → is_some (lookup sil.id s.mi) ≡ true
        → append_if_match s now filters res sil
          ≡ ok (
              if contains_state states (get_state sil now) && matching s lset sil.id
              then res ++ sil ∷ []
              else res)
    unfolding append_if_match passes_all passes
    append_by_both res sil h = elim (Option-cases (lookup sil.id s.mi)) [
      | inl n ↦ cc (h, n)
      | inr (sets, p) ↦ ground arith
    ]

    scan_versions_lem :
        IsConsistent s
        → IsCompiled s
        → (vi : VersionIndex) (res : List Silence)
        → ((k : String) → lists vi k ≡ true → is_some (lookup k s.st) ≡ true)
        → scan_versions s now filters vi res ≡ ok (res ++ select_versions s now states lset vi)
    unfolding scan_versions
    scan_versions_lem c m [] res h = rw append-nil
    scan_versions_lem c m (sv ∷ vi) res h =
        let rest : (k : String) → lists vi k ≡ true → is_some (lookup k s.st) ≡ true =
          λ k l. h k (ground (arith, l)) in
        elim (Option-cases (lookup sv.id s.st)) [
          | inl n ↦ cc (n, h sv.id (ground (arith, string_eq.beq_iff sv.id sv.id)))
          | inr (e, p) ↦
              let i : e.silence.id ≡ sv.id = c.keyed sv.id e p in
              rw (p, scan_versions, append_by_both res e.silence (rw i (m sv.id (rw p))))
                (elim (Bool-cases (
                  contains_state states (get_state e.silence now)
                  && matching s lset e.silence.id)) [
                    | inl b ↦ rw b (
                        scan_versions_lem c m vi (res ++ e.silence ∷ []) rest
                        ∙ ap ok (
                            append_assoc res (e.silence ∷ [])
                              (select_versions s now states lset vi)))
                    | inr b ↦ rw b (scan_versions_lem c m vi res rest)
                  ])
        ]

lists-newer :
    (v : ℕ) (vi : VersionIndex) (k : String) → lists (newer v vi) k ≡ true → lists vi k ≡ true
lists-newer v [] k h = h
lists-newer v (sv ∷ vi) k h = ground (arith, lists-newer v vi k)

-- A query with `QIDs` of at least one ID and `QState` succeeds, and returns, in the order of the
-- IDs, the silences that the state has under them and that are in one of the states, with the
-- version of the store.
pub query_by_ids :
    (s : Silences) (now : Time) (i : String) (is : List String) (states : List SilenceState)
    → query s now (q_ids (i ∷ is) ∷ q_state states ∷ [])
      ≡ (ok (select_ids s now states (i ∷ is)), s.version)
unfolding query run_query apply_params apply_param
query_by_ids s now i is states = rw (scan_ids_lem s now states (i ∷ is) [])

is_nil_lem {ℓ} : {A : Type ℓ} (xs : List A) → is_nil xs ≡ true → xs ≡ []
is_nil_lem [] h = refl
is_nil_lem (x ∷ xs) h = ground arith

since_newer :
    (s : Silences) (now : Time) (v : ℕ) (states : List SilenceState) (lset : LabelSet)
    → IsSorted s.vi
    → scan_since s now (filters s now states lset) (some v)
      ≡ scan_versions s now (filters s now states lset) (newer v s.vi) []
since_newer s now v states lset sorted =
    let (found, missing) = find_version-newer v s.vi sorted in
    elim (Bool-cases (find_version_greater_than v s.vi).1) [
      | inl b ↦ rw (b, found)
      | inr b ↦
          rw (b, is_nil_lem (newer v s.vi) (ground (arith, missing))) (unfold scan_versions in refl)
    ]

-- On a consistent store with compiled matchers, a query with `QSince`, `QState` and `QMatches`
-- succeeds, and returns, in the order of the version index, the silences of the entries with a
-- higher version that are in one of the states and whose matchers match, with the version of the
-- store.
pub query_since :
    (s : Silences) (now : Time) (v : ℕ) (states : List SilenceState) (lset : LabelSet)
    → IsConsistent s
    → IsCompiled s
    → query s now (q_since v ∷ q_state states ∷ q_matches lset ∷ [])
      ≡ (ok (select_versions s now states lset (newer v s.vi)), s.version)
unfolding query run_query apply_params apply_param
query_since s now v states lset c m =
    let all : scan_versions s now (filters s now states lset) (newer v s.vi) []
        ≡ ok (select_versions s now states lset (newer v s.vi)) =
      scan_versions_lem s now states lset c m (newer v s.vi) []
        (λ k l. sym (c.listed k) ∙ lists-newer v s.vi k l) in
    ap (λ r. (r, s.version)) (since_newer s now v states lset c.sorted ∙ all)
