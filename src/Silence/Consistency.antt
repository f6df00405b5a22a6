-- ===== src/Silence/Consistency.antt =====
-- The agreement of the state of silence/silence.go and its version index, as a well-formedness
-- predicate.
pub mod Step
pub mod Writes
pub mod Removal
pub mod Collection
pub mod Tidy
pub mod Loading
use Prim.Native.String.{String}
use codestra_alertmanager.Prelude.{
  ℕ, suc, ◌+◌, ◌≤◌, ◌≡◌, refl, Bool, true, false, Option, none, some, List, [], ◌∷◌, ◌++◌, ◌==◌,
  string_eq, arith, if◌then◌else◌, Bool-cases,
}
use codestra_alertmanager.Prelude.Maps.{lookup}
use codestra_alertmanager.Silence.Data.{MeshSilence}
use codestra_alertmanager.Silence.Index.{SilenceVersion, VersionIndex}
use codestra_alertmanager.Silence.Index.Search.{AllFrom, IsSorted}
use codestra_alertmanager.Silence.State.{State, Silences}

abbrev pub lists : VersionIndex → String → Bool
lists [] k = false
lists (sv ∷ vi) k = if sv.id == k then true else lists vi k

abbrev pub IsUnique : VersionIndex → Type 0
IsUnique [] = Unit
IsUnique (sv ∷ vi) = (lists vi sv.id ≡ false) × IsUnique vi

abbrev pub AllTo : ℕ → VersionIndex → Type 0
AllTo v [] = Unit
AllTo v (sv ∷ vi) = (sv.version ≤ v) × AllTo v vi

abbrev pub is_some {ℓ} : {A : Type ℓ} → Option A → Bool
is_some none = false
is_some (some a) = true

-- Every silence stands under its own ID, the index lists the IDs of the state, each of them once,
-- and its versions never fall and never pass the store's version.
pub record Indexed (st : State) (version : ℕ) (vi : VersionIndex) : Type 0 where
  pub keyed : (k : String) (e : MeshSilence) → lookup k st ≡ some e → e.silence.id ≡ k
  pub listed : (k : String) → lists vi k ≡ is_some (lookup k st)
  pub unique : IsUnique vi
  pub sorted : IsSorted vi
  pub bounded : AllTo version vi

abbrev pub IsConsistent : Silences → Type 0
IsConsistent s = Indexed s.st s.version s.vi
