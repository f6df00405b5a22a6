-- ===== src/Silence/State/Merging.antt =====
-- `state.merge` of silence/silence.go: what it does to each ID.
use Prim.Native.String.{String}
use codestra_alertmanager.Prelude.{
  ◌≡◌, refl, inl, inr, Option-cases, Bool, true, false, not, Option, none, some, List, [], ◌∷◌,
  ◌==◌, ◌&&◌, string_eq, arith, Bool-cases, if◌then◌else◌,
}
use codestra_alertmanager.Prelude.Maps.{lookup, insert, lookup-insert}
use codestra_alertmanager.Clock.{Time, as_time, before}
use codestra_alertmanager.Silence.Data.{Comment, Silence, MeshSilence, upgraded, upgrade_comments}
use codestra_alertmanager.Silence.State.{State, merge}

id-upgraded : (cs : List Comment) (sil : Silence) → (upgraded cs sil).id ≡ sil.id
id-upgraded [] sil = refl
id-upgraded (c ∷ cs) sil = refl

updated_at-upgraded :
    (cs : List Comment) (sil : Silence) → (upgraded cs sil).updated_at ≡ sil.updated_at
updated_at-upgraded [] sil = refl
updated_at-upgraded (c ∷ cs) sil = refl

pub id-upgrade : (e : MeshSilence) → (upgrade_comments e).silence.id ≡ e.silence.id
unfolding upgrade_comments
id-upgrade e = id-upgraded e.silence.comments e.silence

pub updated_at-upgrade :
    (e : MeshSilence) → (upgrade_comments e).silence.updated_at ≡ e.silence.updated_at
unfolding upgrade_comments
updated_at-upgrade e = updated_at-upgraded e.silence.comments e.silence

-- The later update wins, and the one that is there wins a tie.
abbrev pub newest : MeshSilence → Option MeshSilence → Option MeshSilence
newest e none = some e
newest e (some prev) =
    if before (as_time prev.silence.updated_at) (as_time e.silence.updated_at)
    then some e
    else some prev

-- A message that has expired already is dropped.
abbrev pub accepts : MeshSilence → Time → Bool
accepts e now = not (before (as_time e.expires_at) now)

pub lookup-merge :
    (s : State) (e : MeshSilence) (now : Time) (k : String)
    → lookup k (merge s e now).0 ≡ (
        if accepts e now && e.silence.id == k
        then newest (upgrade_comments e) (lookup k s)
        else lookup k s)
unfolding merge
lookup-merge s e now k = ground (
  arith,
  id-upgrade e,
  updated_at-upgrade e,
  string_eq.beq_iff e.silence.id k,
  lookup-insert e.silence.id k (upgrade_comments e) s,
  lookup-insert (upgrade_comments e).silence.id k (upgrade_comments e) s,
)

-- The three ways in which a merge ends.
pub data MergeCase (s : State) (e : MeshSilence) (now : Time) : Type 0 where
  unchanged : merge s e now ≡ (s, false, false) → MergeCase s e now
  fresh :
      merge s e now ≡ (insert e.silence.id (upgrade_comments e) s, true, true)
      → lookup e.silence.id s ≡ none
      → MergeCase s e now
  replaced :
      merge s e now ≡ (insert e.silence.id (upgrade_comments e) s, true, false)
      → (prev : MeshSilence) → lookup e.silence.id s ≡ some prev
      → MergeCase s e now

merge-dropped :
    (s : State) (e : MeshSilence) (now : Time)
    → accepts e now ≡ false
    → merge s e now ≡ (s, false, false)
unfolding merge
merge-dropped s e now h = ground arith

merge-fresh :
    (s : State) (e : MeshSilence) (now : Time)
    → accepts e now ≡ true
    → lookup e.silence.id s ≡ none
    → merge s e now ≡ (insert e.silence.id (upgrade_comments e) s, true, true)
unfolding merge
merge-fresh s e now h n = ground (arith, id-upgrade e)

merge-older :
    (s : State) (e : MeshSilence) (now : Time) (prev : MeshSilence)
    → lookup e.silence.id s ≡ some prev
    → before (as_time prev.silence.updated_at) (as_time e.silence.updated_at) ≡ false
    → merge s e now ≡ (s, false, false)
unfolding merge
merge-older s e now prev h b = ground (arith, id-upgrade e, updated_at-upgrade e)

merge-newer :
    (s : State) (e : MeshSilence) (now : Time) (prev : MeshSilence)
    → accepts e now ≡ true
    → lookup e.silence.id s ≡ some prev
    → before (as_time prev.silence.updated_at) (as_time e.silence.updated_at) ≡ true
    → merge s e now ≡ (insert e.silence.id (upgrade_comments e) s, true, false)
unfolding merge
merge-newer s e now prev a h b = ground (arith, id-upgrade e, updated_at-upgrade e)

found_case :
    (s : State) (e : MeshSilence) (now : Time)
    → accepts e now ≡ true
    → (prev : MeshSilence) → lookup e.silence.id s ≡ some prev
    → MergeCase s e now
found_case s e now a prev h =
    elim (Bool-cases (before (as_time prev.silence.updated_at) (as_time e.silence.updated_at))) [
      | inl b ↦ replaced (merge-newer s e now prev a h b) prev h
      | inr b ↦ unchanged (merge-older s e now prev h b)
    ]

pub merge_case : (s : State) (e : MeshSilence) (now : Time) → MergeCase s e now
merge_case s e now = elim (Bool-cases (accepts e now)) [
  | inr dropped ↦ unchanged (merge-dropped s e now dropped)
  | inl taken ↦ elim (Option-cases (lookup e.silence.id s)) [
    | inl n ↦ fresh (merge-fresh s e now taken n) n
    | inr (prev, h) ↦ found_case s e now taken prev h
  ]
]
