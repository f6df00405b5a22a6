-- ===== src/Silence/Query/Safety.antt =====
-- Queries of silence/silence.go that walk the version index and read the state without a test.
use Prim.Native.String.{String}
use codestra_alertmanager.Prelude.{
  ℕ, zero, suc, ◌+◌, ◌≡◌, ◌≢◌, refl, sym, ◌∙◌, ap, true, List, [], ◌∷◌, ◌⊎◌, string_eq, arith,
  Bool-cases, Option-cases, inl, inr, drop, length, if_elim,
}
use codestra_alertmanager.Prelude.Maps.{lookup}
use codestra_alertmanager.Clock.{Time}
use codestra_alertmanager.Silence.Data.{Silence, SilenceState, get_state, contains_state}
use codestra_alertmanager.Silence.Index.{VersionIndex, find_version_greater_than}
use codestra_alertmanager.Silence.State.{Silences}
use codestra_alertmanager.Silence.Consistency.{IsConsistent, lists, is_some}
use codestra_alertmanager.Silence.Query.{
  Result, ok, err, QueryErr, nil_dereference, Filter, by_labels, by_state, Query, QueryParam, q_ids,
  q_since, q_matches, q_state, passes, passes_all, append_if_match, scan_ids, scan_versions, scan,
  run_query, query, apply_param, apply_params, set_since, no_query, count_from, count_state, ◌>>=◌,
}
use codestra_alertmanager.Silence.Query.Select.{select_ids}

-- Not the panic.
abbrev IsSafe {ℓ} : {A : Type ℓ} → Result A → Type ℓ
IsSafe r = r ≢ err nil_dereference

Result-cases {ℓ} :
    {A : Type ℓ} (r : Result A) → ((e : QueryErr) × (r ≡ err e)) ⊎ ((a : A) × (r ≡ ok a))
Result-cases (err e) = inl (e, refl)
Result-cases (ok a) = inr (a, refl)

bind-IsSafe {ℓ κ} :
    {A : Type ℓ} {B : Type κ} (r : Result A) (f : A → Result B)
    → IsSafe r
    → ((a : A) → IsSafe (f a))
    → IsSafe (r >>= f)
bind-IsSafe (ok a) f safe rest = rest a
bind-IsSafe (err e) f safe rest = λ p. safe (ground (arith, p))

passes_all-IsSafe :
    (s : Silences) (now : Time) (sil : Silence) (fs : List Filter)
    → IsSafe (passes_all s now sil fs)
unfolding passes_all passes
passes_all-IsSafe s now sil [] = ground arith
passes_all-IsSafe s now sil (by_labels lset ∷ fs) = ground (arith, passes_all-IsSafe s now sil fs)
passes_all-IsSafe s now sil (by_state states ∷ fs) = ground (arith, passes_all-IsSafe s now sil fs)

append_if_match-IsSafe :
    (s : Silences) (now : Time) (fs : List Filter) (res : List Silence) (sil : Silence)
    → IsSafe (append_if_match s now fs res sil)
unfolding append_if_match
append_if_match-IsSafe s now fs res sil = ground (arith, passes_all-IsSafe s now sil fs)

scan_ids-IsSafe :
    (s : Silences) (now : Time) (fs : List Filter) (ids : List String) (res : List Silence)
    → IsSafe (scan_ids s now fs ids res)
unfolding scan_ids
scan_ids-IsSafe s now fs [] res = ground arith
scan_ids-IsSafe s now fs (i ∷ is) res = elim (Option-cases (lookup i s.st)) [
  | inl n ↦ rw (n, scan_ids) (scan_ids-IsSafe s now fs is res)
  | inr (e, p) ↦
      rw (p, scan_ids)
        (bind-IsSafe (append_if_match s now fs res e.silence) (scan_ids s now fs is)
          (append_if_match-IsSafe s now fs res e.silence) (λ r. scan_ids-IsSafe s now fs is r))
]

scan_versions-IsSafe :
    (s : Silences) (now : Time) (fs : List Filter) (vi : VersionIndex) (res : List Silence)
    → ((k : String) → lists vi k ≡ true → is_some (lookup k s.st) ≡ true)
    → IsSafe (scan_versions s now fs vi res)
unfolding scan_versions
scan_versions-IsSafe s now fs [] res h = ground arith
scan_versions-IsSafe s now fs (sv ∷ vi) res h = elim (Option-cases (lookup sv.id s.st)) [
  | inl n ↦ absurd (ground (arith, n, h sv.id, string_eq.beq_iff sv.id sv.id))
  | inr (e, p) ↦
      rw (p, scan_versions)
        (bind-IsSafe (append_if_match s now fs res e.silence) (scan_versions s now fs vi)
          (append_if_match-IsSafe s now fs res e.silence)
          (λ r. scan_versions-IsSafe s now fs vi r (λ k l. h k (ground arith))))
]

lists-drop :
    (n : ℕ) (vi : VersionIndex) (k : String) → lists (drop n vi) k ≡ true → lists vi k ≡ true
lists-drop zero vi k h = h
lists-drop (suc n) [] k h = h
lists-drop (suc n) (sv ∷ vi) k h = ground (arith, lists-drop n vi k)

scan-IsSafe :
    (s : Silences) (now : Time) (q : Query) (ids : List String)
    → IsConsistent s
    → IsSafe (scan s now q ids)
scan-IsSafe s now q (i ∷ is) c = scan_ids-IsSafe s now q.filters (i ∷ is) []
scan-IsSafe s now q [] c = elim (Option-cases q.since) [
  | inl n ↦ rw n (scan_versions-IsSafe s now q.filters s.vi [] (λ k l. sym (c.listed k) ∙ l))
  | inr (v, p) ↦
      let (start, found) = find_version_greater_than v s.vi in
      rw p (
        if_elim IsSafe found (scan_versions s now q.filters (drop start s.vi) []) (ok [])
          (λ _.
            scan_versions-IsSafe s now q.filters (drop start s.vi) []
              (λ k l. sym (c.listed k) ∙ lists-drop start s.vi k l))
          (λ _. ground arith))
]

set_since-IsSafe : (v : ℕ) (ids : List String) (q : Query) → IsSafe (set_since v ids q)
set_since-IsSafe v [] q = ground arith
set_since-IsSafe v (i ∷ is) q = ground arith

apply_param-IsSafe : (p : QueryParam) (q : Query) → IsSafe (apply_param p q)
unfolding apply_param
apply_param-IsSafe (q_ids []) q = ground arith
apply_param-IsSafe (q_ids (i ∷ is)) q = ground arith
apply_param-IsSafe (q_since v) q = set_since-IsSafe v q.ids q
apply_param-IsSafe (q_matches lset) q = ground arith
apply_param-IsSafe (q_state states) q = ground arith

apply_params-IsSafe : (ps : List QueryParam) (q : Query) → IsSafe (apply_params ps q)
unfolding apply_params
apply_params-IsSafe [] q = ground arith
apply_params-IsSafe (p ∷ ps) q =
    bind-IsSafe (apply_param p q) (apply_params ps) (apply_param-IsSafe p q)
      (apply_params-IsSafe ps)

-- No query of a store whose state and index agree dereferences a missing silence.
pub query-IsSafe :
    (s : Silences) (now : Time) (params : List QueryParam)
    → IsConsistent s
    → IsSafe (query s now params).0
unfolding query run_query
query-IsSafe s now params c = elim (Result-cases (apply_params params no_query)) [
  | inl (e, p) ↦ rw (p, query) (λ x. ground (arith, p, x, apply_params-IsSafe params no_query))
  | inr (q, p) ↦ rw (p, query) (scan-IsSafe s now q q.ids c)
]

abbrev pub index_ids : VersionIndex → List String
index_ids [] = []
index_ids (sv ∷ vi) = sv.id ∷ index_ids vi

count_from_lem :
    (s : Silences) (now : Time) (states : List SilenceState) (vi : VersionIndex) (n : ℕ)
    → ((k : String) → lists vi k ≡ true → is_some (lookup k s.st) ≡ true)
    → count_from s now states vi n ≡ ok (n + length (select_ids s now states (index_ids vi)))
unfolding count_from
count_from_lem s now states [] n h = ap ok (omega arith)
count_from_lem s now states (sv ∷ vi) n h = elim (Option-cases (lookup sv.id s.st)) [
  | inl m ↦ absurd (ground (arith, m, h sv.id, string_eq.beq_iff sv.id sv.id))
  | inr (e, p) ↦
      let rest = λ (i : ℕ). count_from_lem s now states vi i (λ k l. h k (ground arith)) in
      elim (Bool-cases (contains_state states (get_state e.silence now))) [
        | inl b ↦ rw (p, b, count_from) (rest (n + 1) ∙ ap ok (omega arith))
        | inr b ↦ rw (p, b, count_from) (rest n)
      ]
]

-- Where the state and the index agree, `CountState` succeeds, and counts as many silences as a
-- query for the IDs of the version index finds in those states.
pub count_state_lem :
    (s : Silences) (now : Time) (states : List SilenceState)
    → IsConsistent s
    → count_state s now states ≡ ok (length (select_ids s now states (index_ids s.vi)))
unfolding count_state
count_state_lem s now states c =
    count_from_lem s now states s.vi 0 (λ k l. sym (c.listed k) ∙ l) ∙ ap ok (omega arith)
