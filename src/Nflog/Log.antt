-- ===== src/Nflog/Log.antt =====
-- `Log` of nflog/nflog.go: the state and its merge, `Log`, `Query`, `GC`, `Merge` and the snapshot.
--
-- The lock makes each method one step, and every call of `now` inside a method is an argument.
-- Outside the model are metrics, logging and the maintenance loop. `protodelim` is `Wire`.
pub mod Laws
pub mod Collection
pub mod Snapshot
use Prim.Native.String.{String}
use codestra_alertmanager.Prelude.{
  ℕ, ◌+◌, Bool, true, false, not, Option, none, some, List, [], ◌∷◌, ◌++◌, ◌==◌, ◌&&◌, ◌||◌, length,
  ltb, string_eq, if◌then◌else◌,
}
use codestra_alertmanager.Prelude.Maps.{Map, lookup, insert, erase}
use codestra_alertmanager.Clock.{Time, Duration, Timestamp, as_time, before, after, is_zero}
use codestra_alertmanager.Nflog.Data.{Receiver, Entry, MeshEntry, Store, state_key}

abbrev pub Bytes : Type 0
Bytes = List ℕ

-- A message read from a stream. Its entry and the entry's receiver may be missing.
pub data Frame : Type 0 where
  whole : MeshEntry → Frame
  no_entry no_receiver : Frame

-- `decode` gives the messages up to the end of the stream or to the first error, which the flag
-- tells; `marshal` is `none` on an error.
pub record Wire : Type 0 where
  pub marshal : MeshEntry → Option Bytes
  pub decode : Bytes → List Frame × Bool

abbrev pub State : Type 0
State = Map String MeshEntry

pub record Log : Type 0 where
  pub retention : Duration
  pub st : State
  pub broadcast : List Bytes  -- what was handed to the broadcast function, oldest first

pub data Err : Type 0 where
  not_found no_parameters invalid_state decode_failed marshal_failed zero_expiration : Err

abbrev pub entry_key : MeshEntry → String
entry_key e = state_key e.entry.group_key e.entry.receiver

-- `state.merge`: the state, and whether the entry was merged.
unfoldable pub merge : State → MeshEntry → Time → State × Bool
merge s e now =
    if before (as_time e.expires_at) now then (s, false) else elim (lookup (entry_key e) s) [
      | none ↦ (insert (entry_key e) e s, true)
      | some prev ↦
          if before (as_time prev.entry.timestamp) (as_time e.entry.timestamp)
          then (insert (entry_key e) e s, true)
          else (s, false)
    ]

-- The expiry of a new entry: the shorter of the retention and a positive `expiry`.
unfoldable pub expires_at : Duration → Duration → Time → Time
expires_at retention expiry now =
    if ltb 0 expiry && ltb expiry retention then now + expiry else now + retention

-- The caller's store may be nil.
abbrev pub store_data : Option Store → Store
store_data none = []
store_data (some data') = data'

unfoldable pub new_entry :
    Duration → Receiver → String → List ℕ → List ℕ → Option Store → Duration → Time → MeshEntry
new_entry retention r gkey firing resolved store expiry now = record {
  entry = record {
    group_key = gkey;
    receiver = r;
    group_hash = [];
    resolved = false;
    timestamp = some now;
    firing_alerts = firing;
    resolved_alerts = resolved;
    receiver_data = store_data store;
  };
  expires_at = some (expires_at retention expiry now);
}

abbrev pub is_later : Option MeshEntry → Time → Bool
is_later none now = false
is_later (some prev) now = after (as_time prev.entry.timestamp) now

-- `Log`. `now` is the time of the entry, `merged` the time of the merge.
unfoldable pub log :
    Wire
    → Log
    → Receiver
    → String
    → List ℕ
    → List ℕ
    → Option Store
    → Duration
    → Time
    → Time
    → Log × Option Err
log w l r gkey firing resolved store expiry now merged =
    if is_later (lookup (state_key gkey r) l.st) now
    then (l, none)
    else (let e = new_entry l.retention r gkey firing resolved store expiry now in
        elim (w.marshal e) [
          | none ↦ (l, some marshal_failed)
          | some b ↦
              (record l { st = (merge l.st e merged).0; broadcast = l.broadcast ++ b ∷ [] }, none)
        ])

-- The loop of `GC` over the entries of the map: a zero expiry time ends it with an error.
unfoldable pub gc_loop : State → State → ℕ → Time → State × ℕ × Option Err
gc_loop [] st n now = (st, n, none)
gc_loop ((k, e) ∷ rest) st n now =
    let st' = if after (as_time e.expires_at) now then st else erase k st in
    let n' = if after (as_time e.expires_at) now then n else n + 1 in
    let r = gc_loop rest st' n' now in
    if is_zero (as_time e.expires_at) then (st, n, some zero_expiration) else r

-- `GC`: the log, the number of deleted entries, and the error.
unfoldable pub gc : Log → Time → Log × ℕ × Option Err
gc l now = let (st, n, err) = gc_loop l.st l.st 0 now in (record l { st = st }, n, err)

pub record Query : Type 0 where
  pub recv : Option Receiver
  pub group_key : String

-- `QReceiver` and `QGroupKey`
pub data QueryParam : Type 0 where
  q_receiver : Option Receiver → QueryParam
  q_group_key : String → QueryParam

abbrev pub apply_param : QueryParam → Query → Query
apply_param (q_receiver r) q = record q { recv = r }
apply_param (q_group_key k) q = record q { group_key = k }

abbrev pub apply_params : List QueryParam → Query → Query
apply_params [] q = q
apply_params (p ∷ ps) q = apply_params ps (apply_param p q)

pub data Answer : Type 0 where
  entries : List Entry → Answer
  failed : Err → Answer

abbrev pub answer : Log → Option Receiver → String → Answer
answer l none gkey = failed no_parameters
answer l (some r) gkey =
    if gkey == "" then failed no_parameters else elim (lookup (state_key gkey r) l.st) [
      | none ↦ failed not_found
      | some e ↦ entries (e.entry ∷ [])
    ]

-- `Query`
unfoldable pub query : Log → List QueryParam → Answer
query l params =
    let q = apply_params params (record { recv = none; group_key = "" }) in
    answer l q.recv q.group_key

abbrev pub decode_frames : List Frame → Bool → State → State × Option Err
decode_frames [] true st = (st, none)
decode_frames [] false st = (st, some decode_failed)
decode_frames (no_entry ∷ rest) complete st = (st, some invalid_state)
decode_frames (no_receiver ∷ rest) complete st = (st, some invalid_state)
decode_frames (whole e ∷ rest) complete st = decode_frames rest complete (insert (entry_key e) e st)

-- `decodeState`. The state beside an error is not used.
unfoldable pub decode_state : Wire → Bytes → State × Option Err
decode_state w b = let (frames, complete) = w.decode b in decode_frames frames complete []

-- `loadSnapshot`
unfoldable pub load_snapshot : Wire → Log → Bytes → Log × Option Err
load_snapshot w l b =
    let (st, err) = decode_state w b in
    elim err [ some e ↦ (l, some e) | none ↦ (record l { st = st }, none) ]

-- `MarshalBinary`, which `Snapshot` writes out.
unfoldable pub marshal_binary : Wire → State → Option Bytes
marshal_binary w [] = some []
marshal_binary w ((k, e) ∷ st) =
    let rest = marshal_binary w st in
    elim (w.marshal e) [
      | none ↦ none
      | some b ↦ elim rest [ none ↦ none | some bs ↦ some (b ++ bs) ]
    ]

-- `cluster.OversizedMessage`: more than half of `MaxGossipPacketSize`.
unfoldable pub oversized_message : Bytes → Bool
oversized_message b = ltb 700 (length b)

-- One round of the loop of `Merge`.
unfoldable pub merge_entry : Bytes → MeshEntry → Time → Log → Log
merge_entry b e now l =
    let (st, merged) = merge l.st e now in
    if merged && not (oversized_message b)
    then record l { st = st; broadcast = l.broadcast ++ b ∷ [] }
    else record l { st = st }

unfoldable pub merge_entries : Bytes → State → Time → Log → Log
merge_entries b [] now l = l
merge_entries b ((k, e) ∷ st) now l = merge_entries b st now (merge_entry b e now l)

-- `Merge`: the state that a peer sent is merged entry by entry.
unfoldable pub merge_peer : Wire → Log → Bytes → Time → Log × Option Err
merge_peer w l b now =
    let (st, err) = decode_state w b in
    elim err [ some e ↦ (l, some e) | none ↦ (merge_entries b st now l, none) ]
