-- ===== src/Silence/Consistency/Step.antt =====
-- Appending to the version index, and the write that `setSilence` and `Merge` of silence/silence.go
-- share.
use Prim.Native.String.{String}
use codestra_alertmanager.Prelude.{
  ℕ, ◌+◌, ◌≤◌, ◌≡◌, refl, Bool, true, false, none, some, [], ◌∷◌, ◌++◌, ◌==◌, string_eq, arith,
  if◌then◌else◌,
}
use codestra_alertmanager.Prelude.Maps.{lookup, insert, lookup-insert}
use codestra_alertmanager.Clock.{Time}
use codestra_alertmanager.Silence.Data.{MeshSilence, upgrade_comments}
use codestra_alertmanager.Silence.Index.{SilenceVersion, VersionIndex, add_version}
use codestra_alertmanager.Silence.Index.Search.{AllFrom, IsSorted}
use codestra_alertmanager.Silence.State.{Env, State, Silences, merge, index_silence}
use codestra_alertmanager.Silence.State.Merging.{unchanged, fresh, replaced, merge_case, id-upgrade}
use codestra_alertmanager.Silence.Consistency.{lists, IsUnique, AllTo, Indexed, IsConsistent}

pub lists-append :
    (vi : VersionIndex) (sv : SilenceVersion) (k : String)
    → lists (vi ++ sv ∷ []) k ≡ (if lists vi k then true else sv.id == k)
lists-append [] sv k = ground arith
lists-append (x ∷ vi) sv k = ground (arith, lists-append vi sv k)

pub IsUnique-append :
    (vi : VersionIndex) (sv : SilenceVersion)
    → lists vi sv.id ≡ false
    → IsUnique vi
    → IsUnique (vi ++ sv ∷ [])
IsUnique-append [] sv h u = (refl, tt)
IsUnique-append (x ∷ vi) sv h u = (
  ground
      (arith, lists-append vi sv x.id, string_eq.beq_iff x.id sv.id, string_eq.beq_iff sv.id x.id),
  IsUnique-append vi sv (ground arith) u.1,
)

AllFrom-append :
    (v : ℕ) (vi : VersionIndex) (sv : SilenceVersion)
    → v ≤ sv.version
    → AllFrom v vi
    → AllFrom v (vi ++ sv ∷ [])
AllFrom-append v [] sv h a = (h, tt)
AllFrom-append v (x ∷ vi) sv h a = (a.0, AllFrom-append v vi sv h a.1)

pub IsSorted-append :
    (vi : VersionIndex) (sv : SilenceVersion)
    → AllTo sv.version vi
    → IsSorted vi
    → IsSorted (vi ++ sv ∷ [])
IsSorted-append [] sv a s = (tt, tt)
IsSorted-append (x ∷ vi) sv a s =
    (AllFrom-append x.version vi sv a.0 s.0, IsSorted-append vi sv a.1 s.1)

pub AllTo-append :
    (v : ℕ) (vi : VersionIndex) (sv : SilenceVersion)
    → sv.version ≤ v
    → AllTo v vi
    → AllTo v (vi ++ sv ∷ [])
AllTo-append v [] sv h a = (h, tt)
AllTo-append v (x ∷ vi) sv h a = (a.0, AllTo-append v vi sv h a.1)

pub AllTo-mono : (v w : ℕ) (vi : VersionIndex) → v ≤ w → AllTo v vi → AllTo w vi
AllTo-mono v w [] h a = tt
AllTo-mono v w (x ∷ vi) h a = (omega (arith, a.0), AllTo-mono v w vi h a.1)

-- A write under an ID that the state has.
pub replaced-Indexed :
    (st : State) (version : ℕ) (vi : VersionIndex) (e prev : MeshSilence) (k : String)
    → e.silence.id ≡ k
    → lookup k st ≡ some prev
    → Indexed st version vi
    → Indexed (insert k e st) version vi
replaced-Indexed st version vi e prev k i h x = record {
  keyed = λ j f p. ground (arith, lookup-insert k j e st, string_eq.beq_iff k j, x.keyed j f);
  listed = λ j. ground (arith, lookup-insert k j e st, string_eq.beq_iff k j, x.listed j);
  unique = x.unique;
  sorted = x.sorted;
  bounded = x.bounded;
}

-- A write under a new ID, with the entry of the version index that belongs to it.
pub fresh-Indexed :
    (st : State) (version : ℕ) (vi : VersionIndex) (e : MeshSilence) (k : String)
    → e.silence.id ≡ k
    → lookup k st ≡ none
    → Indexed st version vi
    → Indexed (insert k e st) (version + 1) (add_version (version + 1) k vi)
unfolding add_version
fresh-Indexed st version vi e k i h x =
    let sv : SilenceVersion = record { version = version + 1; id = k } in
    record {
      keyed = λ j f p. ground (arith, lookup-insert k j e st, string_eq.beq_iff k j, x.keyed j f);
      listed = λ j.
          ground (
            arith,
            lists-append vi sv j,
            lookup-insert k j e st,
            string_eq.beq_iff k j,
            x.listed j,
          );
      unique = IsUnique-append vi sv (ground (arith, x.listed k)) x.unique;
      sorted =
          IsSorted-append vi sv (AllTo-mono version (version + 1) vi (omega arith) x.bounded)
            x.sorted;
      bounded =
          AllTo-append (version + 1) vi sv (omega arith)
            (AllTo-mono version (version + 1) vi (omega arith) x.bounded);
    }

-- The merge, and the indexing of a silence that it added.
abbrev pub absorbed : Env → Silences → MeshSilence → State × Bool × Bool → Silences
absorbed env s e (st, changed, added) =
    if added then index_silence env (record s { st = st }) e.silence else record s { st = st }

pub absorb-IsConsistent :
    (env : Env) (s : Silences) (e : MeshSilence) (now : Time)
    → IsConsistent s
    → IsConsistent (absorbed env s e (merge s.st e now))
unfolding index_silence
absorb-IsConsistent env s e now h = elim (merge_case s.st e now) [
  | unchanged p ↦ rw p h
  | fresh p n ↦
      rw p (fresh-Indexed s.st s.version s.vi (upgrade_comments e) e.silence.id (id-upgrade e) n h)
  | replaced p prev n ↦ rw p (
      replaced-Indexed s.st s.version s.vi (upgrade_comments e) prev e.silence.id (id-upgrade e) n
        h)
]
