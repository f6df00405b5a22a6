-- ===== src/Silence/Consistency/Removal.antt =====
-- `GC` of silence/silence.go and the version index: an entry taken out of its middle.
use Prim.Native.String.{String}
use mathlib.Core.List.{append_assoc, append-nil}
use codestra_alertmanager.Prelude.{
  ℕ, suc, ◌+◌, ◌≡◌, refl, true, false, some, [], ◌∷◌, ◌++◌, ◌==◌, string_eq, arith, if◌then◌else◌,
  Bool-cases, Option-cases, inl, inr, length, length-append,
}
use codestra_alertmanager.Prelude.Maps.{lookup, erase, lookup-erase}
use codestra_alertmanager.Clock.{Time}
use codestra_alertmanager.Silence.Data.{MeshSilence}
use codestra_alertmanager.Silence.Index.{SilenceVersion, VersionIndex}
use codestra_alertmanager.Silence.Index.Search.{AllFrom, IsSorted}
use codestra_alertmanager.Silence.State.{State, Silences}
use codestra_alertmanager.Silence.Operations.{Gc, gc_found, gc_one, gc_loop, gc, collectable}
use codestra_alertmanager.Silence.Consistency.{lists, IsUnique, AllTo, Indexed, IsConsistent}

module _ (sv : SilenceVersion) where
  lists-middle :
      (a b : VersionIndex) (k : String)
      → lists (a ++ sv ∷ b) k ≡ (if sv.id == k then true else lists (a ++ b) k)
  lists-middle [] b k = refl
  lists-middle (x ∷ a) b k = ground (arith, lists-middle a b k)

  IsUnique-removal :
      (a b : VersionIndex)
      → IsUnique (a ++ sv ∷ b)
      → IsUnique (a ++ b) × (lists (a ++ b) sv.id ≡ false)
  IsUnique-removal [] b u = (u.1, u.0)
  IsUnique-removal (x ∷ a) b u =
      let (unique, out) = IsUnique-removal a b u.1 in
      (
        (ground (arith, lists-middle a b x.id), unique),
        ground (
          arith,
          lists-middle a b x.id,
          string_eq.beq_iff x.id sv.id,
          string_eq.beq_iff sv.id x.id,
        ),
      )

  AllFrom-removal : (v : ℕ) (a b : VersionIndex) → AllFrom v (a ++ sv ∷ b) → AllFrom v (a ++ b)
  AllFrom-removal v [] b h = h.1
  AllFrom-removal v (x ∷ a) b h = (h.0, AllFrom-removal v a b h.1)

  IsSorted-removal : (a b : VersionIndex) → IsSorted (a ++ sv ∷ b) → IsSorted (a ++ b)
  IsSorted-removal [] b h = h.1
  IsSorted-removal (x ∷ a) b h = (AllFrom-removal x.version a b h.0, IsSorted-removal a b h.1)

  AllTo-removal : (v : ℕ) (a b : VersionIndex) → AllTo v (a ++ sv ∷ b) → AllTo v (a ++ b)
  AllTo-removal v [] b h = h.1
  AllTo-removal v (x ∷ a) b h = (h.0, AllTo-removal v a b h.1)

  erase-Indexed :
      (st : State) (version : ℕ) (a b : VersionIndex)
      → Indexed st version (a ++ sv ∷ b)
      → Indexed (erase sv.id st) version (a ++ b)
  erase-Indexed st version a b h =
      let (unique, out) = IsUnique-removal a b h.unique in
      record {
        keyed = λ k e p. ground (arith, lookup-erase sv.id k st, h.keyed k e);
        listed = λ k. ground (
          arith,
          lookup-erase sv.id k st,
          lists-middle a b k,
          h.listed k,
          string_eq.beq_iff sv.id k,
        );
        unique = unique;
        sorted = IsSorted-removal a b h.sorted;
        bounded = AllTo-removal version a b h.bounded;
      }

-- What one round of the loop leaves: the store agrees with what is kept and what is to come, and
-- the round kept the entry, or deleted it.
record Round (g : Gc) (rest : VersionIndex) (version : ℕ) (r : Gc) : Type 0 where
  agrees : Indexed r.st version (r.kept ++ rest)
  counted : r.deleted + length r.kept ≡ suc (g.deleted + length g.kept)

gc_found-Round :
    (g : Gc) (sv : SilenceVersion) (rest : VersionIndex) (version : ℕ) (e : MeshSilence)
    (now : Time)
    → lookup sv.id g.st ≡ some e
    → Indexed g.st version (g.kept ++ sv ∷ rest)
    → Round g rest version (gc_found g sv e now)
gc_found-Round g sv rest version e now p h = elim (Bool-cases (collectable e now)) [
  | inl gone ↦
      rw (gone, h.keyed sv.id e p)
        (record { agrees = erase-Indexed sv g.st version g.kept rest h; counted = omega arith })
  | inr stays ↦ rw stays (record {
    agrees = rw append_assoc h;
    counted = omega (arith, length-append {0} g.kept (sv ∷ []));
  })
]

gc_one-Round :
    (g : Gc) (sv : SilenceVersion) (rest : VersionIndex) (version : ℕ) (now : Time)
    → Indexed g.st version (g.kept ++ sv ∷ rest)
    → Round g rest version (gc_one g sv now)
unfolding gc_one
gc_one-Round g sv rest version now h = elim (Option-cases (lookup sv.id g.st)) [
  | inl n ↦ absurd (
      ground
        (arith, h.listed sv.id, lists-middle sv g.kept rest sv.id, string_eq.beq_iff sv.id sv.id))
  | inr (e, p) ↦ rw (p, gc_one) (gc_found-Round g sv rest version e now p h)
]

gc_loop-Indexed :
    (vi : VersionIndex) (g : Gc) (version : ℕ) (now : Time)
    → Indexed g.st version (g.kept ++ vi)
    → Indexed (gc_loop vi g now).st version (gc_loop vi g now).kept
unfolding gc_loop
gc_loop-Indexed [] g version now h = rw append-nil at h
gc_loop-Indexed (sv ∷ vi) g version now h =
    gc_loop-Indexed vi (gc_one g sv now) version now (gc_one-Round g sv vi version now h).agrees

gc_loop-counted :
    (vi : VersionIndex) (g : Gc) (version : ℕ) (now : Time)
    → Indexed g.st version (g.kept ++ vi)
    → (gc_loop vi g now).deleted + length (gc_loop vi g now).kept
      ≡ g.deleted + length g.kept + length vi
unfolding gc_loop
gc_loop-counted [] g version now h = omega arith
gc_loop-counted (sv ∷ vi) g version now h =
    let r = gc_one-Round g sv vi version now h in
    omega (arith, r.counted, gc_loop-counted vi (gc_one g sv now) version now r.agrees)

-- `GC` keeps the state and its version index in agreement, and the number of silences that it
-- reports as deleted is the number of entries by which the version index got shorter.
pub gc-IsConsistent :
    (s : Silences) (now : Time)
    → IsConsistent s
    → IsConsistent (gc s now).0 × ((gc s now).1 + length (gc s now).0.vi ≡ length s.vi)
unfolding gc
gc-IsConsistent s now h =
    let g : Gc = record { st = s.st; mi = s.mi; kept = []; deleted = 0; errors = 0 } in
    (gc_loop-Indexed s.vi g s.version now h, omega (arith, gc_loop-counted s.vi g s.version now h))
