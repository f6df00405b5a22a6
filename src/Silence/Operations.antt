-- ===== src/Silence/Operations.antt =====
-- `Set`, `GC`, `loadSnapshot`, `MarshalBinary` and `Merge` of silence/silence.go.
use Prim.Native.String.{String}
use codestra_alertmanager.Prelude.{
  ℕ, ◌+◌, Bool, true, false, not, Option, none, some, List, [], ◌∷◌, ◌++◌, ◌==◌, ◌&&◌, ◌||◌, length,
  ltb, string_eq, if◌then◌else◌,
}
use codestra_alertmanager.Prelude.Maps.{lookup, insert, erase}
use codestra_alertmanager.Clock.{Time, as_time, before, after}
use codestra_alertmanager.Silence.Data.{
  Silence, MeshSilence, get_state, expired, state_beq, postprocess, upgrade_comments,
}
use codestra_alertmanager.Silence.Validate.{is_missing, validate_silence}
use codestra_alertmanager.Silence.Index.{
  MatcherIndex, VersionIndex, SilenceVersion, add_matchers, add_version,
}
use codestra_alertmanager.Silence.State.{
  Bytes, Frame, Env, State, Silences, Err, not_found, invalid_state, uuid_failed, decode_failed,
  too_many_silences, silence_too_large, invalid_silence, expire_previous, merge, index_silence,
  get_silence, to_mesh_silence, marshal_mesh_silence, set_silence, after_set_silence, can_update,
  expire, exceeds_size, exceeds_count,
}

-- The store, the caller's silence as `Set` leaves it, and the error. The silence is a pointer that
-- `setSilence` and `merge` are given too, and `sil` is what stands behind it at the end.
pub record SetOutcome : Type 0 where
  pub silences : Silences
  pub sil : Silence
  pub err : Option Err

abbrev pub update : Env → Silences → Silence → Time → SetOutcome
update env s sil now =
    let sil' = record sil { updated_at = some now } in
    let msil = to_mesh_silence s sil' in
    if exceeds_size env s msil
    then record { silences = s; sil = sil'; err = some silence_too_large }
    else (let r = set_silence env s msil now in
        record { silences = r.silences; sil = after_set_silence env msil now; err = r.err })

-- A silence that has not expired is expired before another one replaces it.
abbrev pub expire_replaced : Env → Silences → Option Silence → Time → Time → Silences × Option Err
expire_replaced env s none later latest = (s, none)
expire_replaced env s (some prev) later latest =
    if state_beq (get_state prev later) expired then (s, none) else expire env s prev.id latest

abbrev pub store_new : Env → Silence → MeshSilence → Time → Silences × Option Err → SetOutcome
store_new env sil msil now (s, some e) = record {
  silences = s;
  sil = sil;
  err = some (expire_previous e);
}
store_new env sil msil now (s, none) =
    let r = set_silence env s msil now in
    record { silences = r.silences; sil = after_set_silence env msil now; err = r.err }

-- The silence that `Set` creates: a new ID, and no start in the past.
abbrev pub created : Silence → String → Time → Silence
created sil uid now = record sil {
  id = uid;
  starts_at = if before (as_time sil.starts_at) now then some now else sil.starts_at;
  updated_at = some now;
}

abbrev pub create :
    Env → Silences → Silence → Option Silence → Option String → Time → Time → Time → SetOutcome
create env s sil prev none now later latest =
    if exceeds_count s
    then record { silences = s; sil = sil; err = some too_many_silences }
    else record { silences = s; sil = sil; err = some uuid_failed }
create env s sil prev (some uid) now later latest =
    let sil' = created sil uid now in
    let msil = to_mesh_silence s sil' in
    if exceeds_count s
    then record { silences = s; sil = sil; err = some too_many_silences }
    else if exceeds_size env s msil
    then record { silences = s; sil = sil'; err = some silence_too_large }
    else store_new env sil' msil now (expire_replaced env s prev later latest)

abbrev pub set_valid :
    Env → Silences → Silence → Option Silence → Option String → Time → Time → Time → SetOutcome
set_valid env s sil none fresh now later latest =
    if sil.id == ""
    then create env s sil none fresh now later latest
    else record { silences = s; sil = sil; err = some not_found }
set_valid env s sil (some prev) fresh now later latest =
    if can_update prev sil now
    then update env s sil now
    else create env s sil (some prev) fresh now later latest

abbrev pub with_start : Silence → Time → Silence
with_start sil now = if is_missing sil.starts_at then record sil { starts_at = some now } else sil

-- `Set`. `fresh` is the result of `uuid.NewRandom`; the three times are the readings of the clock on
-- entry, at the test of the replaced silence's state, and in `expire`.
unfoldable pub set : Env → Silences → Silence → Option String → Time → Time → Time → SetOutcome
set env s sil fresh now later latest =
    let (checked, invalid) = validate_silence env.rules (with_start sil now) in
    elim invalid [
      | some e ↦ record { silences = s; sil = checked; err = some (invalid_silence e) }
      | none ↦ set_valid env s checked (get_silence s checked.id) fresh now later latest
    ]

-- What the loop of `GC` carries: the two maps, the version index that is kept, the number of
-- deleted silences and the number of errors.
pub record Gc : Type 0 where
  pub st : State
  pub mi : MatcherIndex
  pub kept : VersionIndex
  pub deleted : ℕ
  pub errors : ℕ

-- A missing or zero expiry time is an error, and the silence goes.
abbrev pub collectable : MeshSilence → Time → Bool
collectable e now = is_missing e.expires_at || not (after (as_time e.expires_at) now)

abbrev pub gc_found : Gc → SilenceVersion → MeshSilence → Time → Gc
gc_found g sv e now =
    if collectable e now
    then record g {
      st = erase e.silence.id g.st;
      mi = erase e.silence.id g.mi;
      deleted = g.deleted + 1;
      errors = if is_missing e.expires_at then g.errors + 1 else g.errors;
    }
    else record g { kept = g.kept ++ sv ∷ [] }

unfoldable pub gc_one : Gc → SilenceVersion → Time → Gc
gc_one g sv now = elim (lookup sv.id g.st) [
  | none ↦ record g { errors = g.errors + 1 }
  | some e ↦ gc_found g sv e now
]

unfoldable pub gc_loop : VersionIndex → Gc → Time → Gc
gc_loop [] g now = g
gc_loop (sv ∷ rest) g now = gc_loop rest (gc_one g sv now) now

-- `GC`: the store, the number of deleted silences, and the number of joined errors.
unfoldable pub gc : Silences → Time → Silences × ℕ × ℕ
gc s now =
    let g =
      gc_loop s.vi (record { st = s.st; mi = s.mi; kept = []; deleted = 0; errors = 0 }) now in
    (record s { st = g.st; mi = g.mi; vi = g.kept }, g.deleted, g.errors)

abbrev pub decode_frames : List Frame → Bool → State → State × Option Err
decode_frames [] true st = (st, none)
decode_frames [] false st = (st, some decode_failed)
decode_frames (f ∷ rest) complete st = elim f.silence [
  | none ↦ (st, some invalid_state)
  | some sil ↦
      let p = postprocess sil in
      decode_frames rest complete
        (insert p.id (record { silence = p; expires_at = f.expires_at }) st)
]

-- `decodeState`. The state beside an error is not used.
unfoldable pub decode_state : Env → Bytes → State × Option Err
decode_state env b = let (frames, complete) = env.decode b in decode_frames frames complete []

abbrev pub upgrade_all : State → State
upgrade_all [] = []
upgrade_all ((k, e) ∷ st) = (k, upgrade_comments e) ∷ upgrade_all st

-- The indices that `loadSnapshot` builds: a silence that does not compile is in neither of them.
unfoldable pub load_indices :
    Env → ℕ → State → MatcherIndex → VersionIndex → MatcherIndex × VersionIndex
load_indices env version [] mi vi = (mi, vi)
load_indices env version ((k, e) ∷ st) mi vi =
    let (mi', ok) = add_matchers env.rules.compile mi e.silence in
    load_indices env version st mi' (if ok then add_version version e.silence.id vi else vi)

-- `loadSnapshot`. The state keeps every decoded silence, since the map it is read from is the map
-- that is stored.
unfoldable pub load_snapshot : Env → Silences → Bytes → Silences × Option Err
load_snapshot env s b =
    let (st, err) = decode_state env b in
    elim err [
      | some e ↦ (s, some e)
      | none ↦
          let st' = upgrade_all st in
          let (mi, vi) = load_indices env (s.version + 1) st' [] [] in
          (record s { st = st'; mi = mi; vi = vi; version = s.version + 1 }, none)
    ]

-- `MarshalBinary`, which `Snapshot` writes out.
unfoldable pub marshal_binary : Env → State → Option Bytes
marshal_binary env [] = some []
marshal_binary env ((k, e) ∷ st) =
    let rest = marshal_binary env st in
    elim (marshal_mesh_silence env e) [
      | none ↦ none
      | some b ↦ elim rest [ none ↦ none | some bs ↦ some (b ++ bs) ]
    ]

-- `cluster.OversizedMessage`: more than half of `MaxGossipPacketSize`.
unfoldable pub oversized_message : Bytes → Bool
oversized_message b = ltb 700 (length b)

-- One round of the loop of `Merge`.
unfoldable pub merge_entry : Env → Bytes → MeshSilence → Time → Silences → Silences
merge_entry env b e now s =
    let (st, merged, added) = merge s.st e now in
    let s' = record s { st = st } in
    let indexed = if added then index_silence env s' e.silence else s' in
    if merged && not (oversized_message b)
    then record indexed { broadcast = indexed.broadcast ++ b ∷ [] }
    else indexed

unfoldable pub merge_entries : Env → Bytes → State → Time → Silences → Silences
merge_entries env b [] now s = s
merge_entries env b ((k, e) ∷ st) now s = merge_entries env b st now (merge_entry env b e now s)

-- `Merge`: the state that a peer sent is merged entry by entry.
unfoldable pub merge_peer : Env → Silences → Bytes → Time → Silences × Option Err
merge_peer env s b now =
    let (st, err) = decode_state env b in
    elim err [ some e ↦ (s, some e) | none ↦ (merge_entries env b st now s, none) ]
