-- ===== src/Nflog/Log/Collection.antt =====
-- `GC` of nflog/nflog.go.
use Prim.Native.String.{String}
use codestra_alertmanager.Prelude.{
  ℕ, ◌≡◌, refl, false, Option, none, some, [], ◌∷◌, ◌+◌, string_eq, arith, if◌then◌else◌,
}
use codestra_alertmanager.Prelude.Maps.{lookup, erase}
use codestra_alertmanager.Clock.{Time, as_time, after}
use codestra_alertmanager.Nflog.Data.{MeshEntry}
use codestra_alertmanager.Nflog.Log.{State, Log, gc_loop, gc}
use codestra_alertmanager.Nflog.Log.Laws.{HasExpiry, expired_in, gc_loop-lookup}

-- A map has one entry for a key.
abbrev pub IsMap : State → Type 0
IsMap [] = Unit
IsMap ((k, e) ∷ st) = (lookup k st ≡ none) × IsMap st

abbrev pub swept : Time → Option MeshEntry → Option MeshEntry
swept now none = none
swept now (some e) = if after (as_time e.expires_at) now then some e else none

expired_in-absent :
    (st : State) (k : String) (now : Time) → lookup k st ≡ none → expired_in st k now ≡ false
unfolding lookup
expired_in-absent [] k now h = refl
expired_in-absent ((j, e) ∷ st) k now h = ground (arith, expired_in-absent st k now)

swept_lem :
    (st : State) (k : String) (now : Time)
    → IsMap st
    → (if expired_in st k now then none else lookup k st) ≡ swept now (lookup k st)
unfolding lookup
swept_lem [] k now d = refl
swept_lem ((j, e) ∷ st) k now d = ground (
  arith,
  swept_lem st k now d.1,
  string_eq.beq_iff j k,
  expired_in-absent st k now,
  expired_in-absent st j now d.0,
)

gc_loop_ok :
    (rest st : State) (n : ℕ) (now : Time) → HasExpiry rest → (gc_loop rest st n now).2 ≡ none
unfolding gc_loop
gc_loop_ok [] st n now h = refl
gc_loop_ok ((j, e) ∷ rest) st n now h =
    ground (arith, h.0, gc_loop_ok rest st n now h.1, gc_loop_ok rest (erase j st) (n + 1) now h.1)

-- Where the state of the log is a map and every entry has an expiry time that is not zero, `GC`
-- returns no error, and a key holds what it held if its entry expires after the time of the
-- collection, and nothing otherwise.
pub gc_lem :
    (l : Log) (now : Time)
    → IsMap l.st
    → HasExpiry l.st
    → ((gc l now).2 ≡ none) × ((k : String) → lookup k (gc l now).0.st ≡ swept now (lookup k l.st))
unfolding gc
gc_lem l now d h = (
  gc_loop_ok l.st l.st 0 now h,
  λ k. rw (gc_loop-lookup l.st l.st 0 now k h) (swept_lem l.st k now d),
)
