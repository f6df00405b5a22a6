-- ===== src/Silence/Consistency/Collection.antt =====
-- `GC` of silence/silence.go and the state, ID by ID.
use Prim.Native.String.{String}
use codestra_alertmanager.Prelude.{
  ◌≡◌, refl, Option, none, some, [], ◌∷◌, ◌==◌, string_eq, arith, if◌then◌else◌, Option-cases,
  Bool-cases, inl, inr, ltb,
}
use codestra_alertmanager.Prelude.Maps.{lookup, lookup-erase}
use codestra_alertmanager.Clock.{Time}
use codestra_alertmanager.Silence.Data.{MeshSilence}
use codestra_alertmanager.Silence.Index.{SilenceVersion, VersionIndex}
use codestra_alertmanager.Silence.State.{State, Silences}
use codestra_alertmanager.Silence.Operations.{Gc, gc_one, gc_loop, gc, collectable}
use codestra_alertmanager.Silence.Consistency.{lists, IsConsistent}

abbrev pub IsKeyed : State → Type 0
IsKeyed st = (k : String) (e : MeshSilence) → lookup k st ≡ some e → e.silence.id ≡ k

-- What should be under an ID after a collection: a silence whose expiry time is later than `now`, so
-- that it is not zero either.
abbrev pub swept : Time → Option MeshSilence → Option MeshSilence
swept now none = none
swept now (some e) = elim e.expires_at [ none ↦ none | some t ↦ if ltb now t then some e else none ]

swept_lem :
    (now : Time) (e : MeshSilence)
    → swept now (some e) ≡ (if collectable e now then none else some e)
swept_lem now e = elim (Option-cases e.expires_at) [
  | inl n ↦ rw n refl
  | inr (t, p) ↦ rw p (ground arith)
]

swept-swept : (now : Time) (o : Option MeshSilence) → swept now (swept now o) ≡ swept now o
swept-swept now none = refl
swept-swept now (some e) = elim (Bool-cases (collectable e now)) [
  | inl gone ↦ ground (arith, swept_lem now e)
  | inr kept ↦ ground (arith, swept_lem now e)
]

gc_one-lookup :
    (g : Gc) (sv : SilenceVersion) (now : Time)
    → IsKeyed g.st
    → (k : String)
    → lookup k (gc_one g sv now).st
      ≡ (if sv.id == k then swept now (lookup k g.st) else lookup k g.st)
unfolding gc_one
gc_one-lookup g sv now h k = elim (Option-cases (lookup sv.id g.st)) [
  | inl n ↦ rw (n, gc_one) (ground (arith, string_eq.beq_iff sv.id k))
  | inr (e, p) ↦
      rw (p, gc_one)
        (ground (
          arith,
          string_eq.beq_iff sv.id k,
          h sv.id e,
          lookup-erase e.silence.id k g.st,
          swept_lem now e,
        ))
]

gc_one-IsKeyed :
    (g : Gc) (sv : SilenceVersion) (now : Time) → IsKeyed g.st → IsKeyed (gc_one g sv now).st
gc_one-IsKeyed g sv now h k e p = ground (arith, gc_one-lookup g sv now h k, h k e)

pub gc_loop-lookup :
    (vi : VersionIndex) (g : Gc) (now : Time)
    → IsKeyed g.st
    → (k : String)
    → lookup k (gc_loop vi g now).st
      ≡ (if lists vi k then swept now (lookup k g.st) else lookup k g.st)
unfolding gc_loop
gc_loop-lookup [] g now h k = refl
gc_loop-lookup (sv ∷ vi) g now h k = ground (
  arith,
  gc_loop-lookup vi (gc_one g sv now) now (gc_one-IsKeyed g sv now h) k,
  gc_one-lookup g sv now h k,
  swept-swept now (lookup k g.st),
)

-- After a `GC` of a consistent store, an ID holds what it held if the expiry time of the silence
-- is there and later than the time of the collection, and nothing otherwise.
pub lookup-gc :
    (s : Silences) (now : Time)
    → IsConsistent s
    → (k : String) → lookup k (gc s now).0.st ≡ swept now (lookup k s.st)
unfolding gc
lookup-gc s now h k = ground (
  arith,
  gc_loop-lookup s.vi (record { st = s.st; mi = s.mi; kept = []; deleted = 0; errors = 0 }) now
      h.keyed k,
  h.listed k,
)
