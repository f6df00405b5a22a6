-- ===== src/Silence/Silencer/Found.antt =====
-- The silences that the queries of `Mutes` of silence/silence.go find, by ID.
use Prim.Native.String.{String}
use codestra_alertmanager.Prelude.{
  ◌≤◌, ◌≡◌, refl, ap, Bool, true, false, some, List, [], ◌∷◌, ◌++◌, ◌==◌, ◌&&◌, ◌||◌, contains,
  All-append, string_eq, arith, if◌then◌else◌, Option-cases, inl, inr,
}
use codestra_alertmanager.Prelude.Maps.{lookup}
use codestra_alertmanager.Clock.{Time}
use codestra_alertmanager.Labels.{LabelSet}
use codestra_alertmanager.Silence.Data.{
  Silence, MeshSilence, SilenceState, active, get_state, state_beq, contains_state,
}
use codestra_alertmanager.Silence.Index.{VersionIndex}
use codestra_alertmanager.Silence.State.{State, Silences}
use codestra_alertmanager.Silence.Query.Select.{
  state_of, matching, pick, pick_matching, select_ids, select_versions,
}
use codestra_alertmanager.Silence.Consistency.{lists}
use codestra_alertmanager.Silence.Consistency.Collection.{IsKeyed}
use codestra_alertmanager.Silence.Silencer.{live_states}
use codestra_alertmanager.Silence.Silencer.Collect.{occurs, HasState, is_live}

pub occurs-append :
    (xs ys : List Silence) (k : String) → occurs (xs ++ ys) k ≡ (occurs xs k || occurs ys k)
occurs-append [] ys k = refl
occurs-append (x ∷ xs) ys k = ground (arith, occurs-append xs ys k)

-- A silence that has not ended at a time had not ended before.
pub is_live_mono :
    (st : State) (t t' : Time) (k : String)
    → t ≤ t'
    → is_live (state_of st t' k) ≡ true
    → is_live (state_of st t k) ≡ true
unfolding get_state
is_live_mono st t t' k le h = elim (Option-cases (lookup k st)) [
  | inl n ↦ ground arith
  | inr (e, p) ↦ ground arith
]

pub is_live_active : (a : SilenceState) → state_beq a active ≡ true → is_live a ≡ true
is_live_active a h = ground arith

module _ (s : Silences) (now : Time) (keyed : IsKeyed s.st) where
  occurs-pick :
      (i k : String)
      → occurs (pick live_states now (lookup i s.st)) k ≡ (i == k && is_live (state_of s.st now k))
  occurs-pick i k = elim (Option-cases (lookup i s.st)) [
    | inl n ↦ ground (arith, string_eq.beq_iff i k)
    | inr (e, p) ↦
        ground (arith, keyed i e p, string_eq.beq_iff i k, string_eq.beq_iff e.silence.id k)
  ]

  pub occurs-select_ids :
      (ids : List String) (k : String)
      → occurs (select_ids s now live_states ids) k
        ≡ (contains ids k && is_live (state_of s.st now k))
  occurs-select_ids [] k = refl
  occurs-select_ids (i ∷ is) k = ground (
    arith,
    occurs-append (pick live_states now (lookup i s.st)) (select_ids s now live_states is) k,
    occurs-pick i k,
    occurs-select_ids is k,
  )

  occurs-pick_matching :
      (lset : LabelSet) (i k : String)
      → occurs (pick_matching s live_states now lset (lookup i s.st)) k
        ≡ (i == k && (is_live (state_of s.st now k) && matching s lset k))
  occurs-pick_matching lset i k = elim (Option-cases (lookup i s.st)) [
    | inl n ↦ ground (arith, string_eq.beq_iff i k)
    | inr (e, p) ↦
        ground (arith, keyed i e p, string_eq.beq_iff i k, string_eq.beq_iff e.silence.id k)
  ]

  pub occurs-select_versions :
      (lset : LabelSet) (vi : VersionIndex) (k : String)
      → occurs (select_versions s now live_states lset vi) k
        ≡ (lists vi k && (is_live (state_of s.st now k) && matching s lset k))
  occurs-select_versions lset [] k = refl
  occurs-select_versions lset (sv ∷ vi) k = ground (
    arith,
    occurs-append (pick_matching s live_states now lset (lookup sv.id s.st))
        (select_versions s now live_states lset vi) k,
    occurs-pick_matching lset sv.id k,
    occurs-select_versions lset vi k,
  )

  module _ (t : Time) where
    same_state :
        (i : String) (e : MeshSilence)
        → lookup i s.st ≡ some e
        → get_state e.silence t ≡ state_of s.st t e.silence.id
    same_state i e p = ground (arith, p, ap (λ (j : String). lookup j s.st) (keyed i e p))

    HasState-if :
        (b : Bool) (sil : Silence)
        → get_state sil t ≡ state_of s.st t sil.id
        → HasState (state_of s.st t) t (if b then sil ∷ [] else [])
    HasState-if true sil h = (h, tt)
    HasState-if false sil h = tt

    HasState-pick :
        (i : String) → HasState (state_of s.st t) t (pick live_states now (lookup i s.st))
    HasState-pick i = elim (Option-cases (lookup i s.st)) [
      | inl n ↦ rw n tt
      | inr (e, p) ↦ rw p (
          HasState-if (contains_state live_states (get_state e.silence now)) e.silence
            (same_state i e p))
    ]

    pub HasState-select_ids :
        (ids : List String) → HasState (state_of s.st t) t (select_ids s now live_states ids)
    HasState-select_ids [] = tt
    HasState-select_ids (i ∷ is) =
        All-append _ (pick live_states now (lookup i s.st)) (select_ids s now live_states is)
          (HasState-pick i) (HasState-select_ids is)

    HasState-pick_matching :
        (lset : LabelSet) (i : String)
        → HasState (state_of s.st t) t (pick_matching s live_states now lset (lookup i s.st))
    HasState-pick_matching lset i = elim (Option-cases (lookup i s.st)) [
      | inl n ↦ rw n tt
      | inr (e, p) ↦ rw p (
          HasState-if
            (contains_state live_states (get_state e.silence now) && matching s lset e.silence.id)
            e.silence (same_state i e p))
    ]

    pub HasState-select_versions :
        (lset : LabelSet) (vi : VersionIndex)
        → HasState (state_of s.st t) t (select_versions s now live_states lset vi)
    HasState-select_versions lset [] = tt
    HasState-select_versions lset (sv ∷ vi) =
        All-append _ (pick_matching s live_states now lset (lookup sv.id s.st))
          (select_versions s now live_states lset vi) (HasState-pick_matching lset sv.id)
          (HasState-select_versions lset vi)
