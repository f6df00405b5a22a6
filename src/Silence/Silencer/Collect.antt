-- ===== src/Silence/Silencer/Collect.antt =====
-- The loop of `Mutes` of silence/silence.go that tells silences apart by their state, each ID once.
use Prim.Native.String.{String}
use codestra_alertmanager.Prelude.{
  ◌≡◌, Bool, true, false, not, List, [], ◌∷◌, ◌++◌, ◌==◌, ◌&&◌, ◌||◌, contains, any, All, string_eq,
  arith,
}
use codestra_alertmanager.Clock.{Time}
use codestra_alertmanager.Silence.Data.{
  Silence, SilenceState, expired, active, get_state, state_beq,
}
use codestra_alertmanager.Silence.Silencer.{Sorted, sort_one, sort_all}

pub contains-append :
    (xs : List String) (x k : String) → contains (xs ++ x ∷ []) k ≡ (contains xs k || x == k)
contains-append [] x k = ground arith
contains-append (y ∷ xs) x k = ground (arith, contains-append xs x k)

-- The silences of a list have, under their IDs, the states that `state` tells.
abbrev pub HasState : (String → SilenceState) → Time → List Silence → Type 0
HasState state now sils = All (λ sil. get_state sil now ≡ state sil.id) sils

abbrev pub occurs : List Silence → String → Bool
occurs sils k = any (λ sil. sil.id == k) sils

abbrev pub is_live : SilenceState → Bool
is_live expired = false
is_live _ = true

module _ (state : String → SilenceState) (now : Time) where
  sort_one-seen :
      (sil : Silence) (c : Sorted) (k : String)
      → contains (sort_one now sil c).seen k ≡ (contains c.seen k || sil.id == k)
  unfolding sort_one
  sort_one-seen sil c k = ground (arith, string_eq.beq_iff sil.id k)

  sort_one-active :
      (sil : Silence) (c : Sorted) (k : String)
      → get_state sil now ≡ state sil.id
      → contains (sort_one now sil c).active_ids k ≡ (
          contains c.active_ids k
          || (not (contains c.seen k) && (sil.id == k && state_beq (state k) active)))
  unfolding sort_one
  sort_one-active sil c k h =
      ground (arith, string_eq.beq_iff sil.id k, contains-append c.active_ids sil.id k)

  sort_one-all :
      (sil : Silence) (c : Sorted) (k : String)
      → get_state sil now ≡ state sil.id
      → contains (sort_one now sil c).all_ids k
        ≡ (contains c.all_ids k || (not (contains c.seen k) && (sil.id == k && is_live (state k))))
  unfolding sort_one
  sort_one-all sil c k h =
      ground (arith, string_eq.beq_iff sil.id k, contains-append c.all_ids sil.id k)

  -- An ID is told active exactly when it was before, or one of the silences has it, it had not been
  -- seen, and its state is active.
  pub sort_all-active :
      (sils : List Silence) (c : Sorted) (k : String)
      → HasState state now sils
      → contains (sort_all now sils c).active_ids k ≡ (
          contains c.active_ids k
          || (not (contains c.seen k) && (occurs sils k && state_beq (state k) active)))
  unfolding sort_all
  sort_all-active [] c k h = ground arith
  sort_all-active (sil ∷ rest) c k h = ground (
    arith,
    sort_all-active rest (sort_one now sil c) k h.1,
    sort_one-seen sil c k,
    sort_one-active sil c k h.0,
  )

  pub sort_all-all :
      (sils : List Silence) (c : Sorted) (k : String)
      → HasState state now sils
      → contains (sort_all now sils c).all_ids k ≡ (
          contains c.all_ids k || (not (contains c.seen k) && (occurs sils k && is_live (state k))))
  unfolding sort_all
  sort_all-all [] c k h = ground arith
  sort_all-all (sil ∷ rest) c k h = ground (
    arith,
    sort_all-all rest (sort_one now sil c) k h.1,
    sort_one-seen sil c k,
    sort_one-all sil c k h.0,
  )
