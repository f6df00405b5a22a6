-- ===== src/Nflog/Log/Laws.antt =====
-- The merge, the collection and the entries of nflog/nflog.go.
use Prim.Native.String.{String}
use codestra_alertmanager.Prelude.{
  ℕ, ◌≡◌, refl, Bool, true, false, not, Option, none, some, [], ◌∷◌, ◌==◌, ◌&&◌, ◌+◌, string_eq,
  arith, if◌then◌else◌,
}
use codestra_alertmanager.Prelude.Maps.{lookup, erase, lookup-insert, lookup-erase}
use codestra_alertmanager.Clock.{Time, as_time, before, after, is_zero}
use codestra_alertmanager.Nflog.Data.{MeshEntry}
use codestra_alertmanager.Nflog.Log.{State, entry_key, merge, gc_loop}

-- The entry with the later timestamp wins, and the one that is there wins a tie.
abbrev pub newest : MeshEntry → Option MeshEntry → Option MeshEntry
newest e none = some e
newest e (some prev) =
    if before (as_time prev.entry.timestamp) (as_time e.entry.timestamp) then some e else some prev

abbrev pub accepts : MeshEntry → Time → Bool
accepts e now = not (before (as_time e.expires_at) now)

-- There is no entry yet, or an older one.
abbrev pub is_news : MeshEntry → Option MeshEntry → Bool
is_news e none = true
is_news e (some prev) = before (as_time prev.entry.timestamp) (as_time e.entry.timestamp)

pub lookup-merge :
    (s : State) (e : MeshEntry) (now : Time) (k : String)
    → lookup k (merge s e now).0
      ≡ (if accepts e now && entry_key e == k then newest e (lookup k s) else lookup k s)
unfolding merge
lookup-merge s e now k =
    ground (arith, lookup-insert (entry_key e) k e s, string_eq.beq_iff (entry_key e) k)

-- A merge of the notification log returns true exactly when the entry has not expired and the
-- state has no entry for its key or an older one. It stores the entry under its key when it
-- returns true, and changes nothing else.
pub merge_reports :
    (s : State) (e : MeshEntry) (now : Time) (k : String)
    → ((merge s e now).1 ≡ (accepts e now && is_news e (lookup (entry_key e) s)))
      × (lookup k (merge s e now).0
          ≡ (if (merge s e now).1 && entry_key e == k then some e else lookup k s))
unfolding merge
merge_reports s e now k = (ground arith, ground (arith, lookup-insert (entry_key e) k e s))

-- Two entries merged into the notification log in either order at one time lead to states that no
-- lookup tells apart, where entries for one key with one timestamp are the same entry.
pub merge-merge :
    (s : State) (e f : MeshEntry) (now : Time)
    → (entry_key e ≡ entry_key f → as_time e.entry.timestamp ≡ as_time f.entry.timestamp → e ≡ f)
    → (k : String)
    → lookup k (merge (merge s e now).0 f now).0 ≡ lookup k (merge (merge s f now).0 e now).0
merge-merge s e f now h k = ground (
  arith,
  lookup-merge (merge s e now).0 f now k,
  lookup-merge (merge s f now).0 e now k,
  lookup-merge s e now k,
  lookup-merge s f now k,
  string_eq.beq_iff (entry_key e) k,
  string_eq.beq_iff (entry_key f) k,
)

-- Every entry of the state has an expiry time that is not zero.
abbrev pub HasExpiry : State → Type 0
HasExpiry [] = Unit
HasExpiry ((k, e) ∷ st) = (is_zero (as_time e.expires_at) ≡ false) × HasExpiry st

-- The entry that a list holds first under a key; a collection erases a key if any entry under it
-- has expired.
abbrev pub expired_in : State → String → Time → Bool
expired_in [] k now = false
expired_in ((j, e) ∷ rest) k now =
    if j == k
    then (if after (as_time e.expires_at) now then expired_in rest k now else true)
    else expired_in rest k now

pub gc_loop-lookup :
    (rest st : State) (n : ℕ) (now : Time) (k : String)
    → HasExpiry rest
    → lookup k (gc_loop rest st n now).0 ≡ (if expired_in rest k now then none else lookup k st)
unfolding gc_loop
gc_loop-lookup [] st n now k h = refl
gc_loop-lookup ((j, e) ∷ rest) st n now k h = ground (
  arith,
  h.0,
  lookup-erase j k st,
  string_eq.beq_iff j k,
  gc_loop-lookup rest st n now k h.1,
  gc_loop-lookup rest (erase j st) (n + 1) now k h.1,
)
