-- ===== src/Silence/State.antt =====
-- `Silences` of silence/silence.go: the state, its merge, and the operations that change it.
--
-- A method takes the store and gives the new one back; the locks make each of them one step. Every
-- call of `nowUTC` inside an operation is an argument of its own. Outside the model are logging,
-- tracing, metrics, the event recorder, and slice capacities. What the operations call from other
-- packages is in `Env`.
pub mod Merging
pub mod Convergence
use Prim.Native.String.{String}
use codestra_alertmanager.Prelude.{
  ℕ, ◌+◌, ◌/◌, Bool, true, false, not, Option, none, some, List, [], ◌∷◌, ◌++◌, ◌==◌, ◌&&◌, ◌||◌,
  length, ltb, leb, nat_beq, string_eq, if◌then◌else◌,
}
use codestra_alertmanager.Prelude.Maps.{Map, lookup, insert, erase}
use codestra_alertmanager.Clock.{Time, Duration, Timestamp, as_time, before, after, is_zero, unix}
use codestra_alertmanager.Silence.Data.{
  Silence, MeshSilence, SilenceState, expired, active, pending, get_state, matcher_sets_beq,
  postprocess, prepare_for_marshalling, upgrade_comments,
}
use codestra_alertmanager.Silence.Validate.{Rules, Invalid, validate_silence}
use codestra_alertmanager.Silence.Index.{
  MatcherIndex, VersionIndex, SilenceVersion, add_matchers, add_version,
}

abbrev pub Bytes : Type 0
Bytes = List ℕ

-- A message read from a stream, where the silence may be missing.
pub record Frame : Type 0 where
  pub silence : Option Silence
  pub expires_at : Timestamp

-- `protodelim`, `proto.Size`, and the validation rules. `marshal` is `none` on an error; `decode`
-- gives the frames up to the end of the stream or to the first error, which the flag tells.
pub record Env : Type 0 where
  pub rules : Rules
  pub marshal : MeshSilence → Option Bytes
  pub decode : Bytes → List Frame × Bool
  pub size : MeshSilence → ℕ

abbrev pub State : Type 0
State = Map String MeshSilence

-- The two limits are functions that may be nil, read when a silence is set.
pub record Silences : Type 0 where
  pub retention : Duration
  pub max_silences : Option ℕ
  pub max_silence_size_bytes : Option ℕ
  pub st : State
  pub version : ℕ
  pub mi : MatcherIndex
  pub vi : VersionIndex
  pub broadcast : List Bytes  -- what was handed to the broadcast function, oldest first

pub data Err : Type 0 where
  not_found invalid_state marshal_failed uuid_failed decode_failed : Err
  too_many_silences silence_too_large : Err
  invalid_silence : Invalid → Err
  expire_previous : Err → Err

abbrev pub merge_fresh : State → MeshSilence → State × Bool × Bool
merge_fresh s e = elim (lookup e.silence.id s) [
  | none ↦ (insert e.silence.id e s, true, true)
  | some prev ↦
      if before (as_time prev.silence.updated_at) (as_time e.silence.updated_at)
      then (insert e.silence.id e s, true, false)
      else (s, false, false)
]

-- `state.merge`: the state, whether it changed, and whether a new silence was added.
unfoldable pub merge : State → MeshSilence → Time → State × Bool × Bool
merge s e now =
    if before (as_time e.expires_at) now
    then (s, false, false)
    else merge_fresh s (upgrade_comments e)

-- `indexSilence`. A silence whose matchers do not compile is in the version index only.
unfoldable pub index_silence : Env → Silences → Silence → Silences
unfolding add_matchers add_version
index_silence env s sil = record s {
  version = s.version + 1;
  vi = add_version (s.version + 1) sil.id s.vi;
  mi = (add_matchers env.rules.compile s.mi sil).0;
}

unfoldable pub get_silence : Silences → String → Option Silence
get_silence s id = elim (lookup id s.st) [ none ↦ none | some e ↦ some e.silence ]

unfoldable pub to_mesh_silence : Silences → Silence → MeshSilence
to_mesh_silence s sil = record {
  silence = sil;
  expires_at = some (as_time sil.ends_at + s.retention);
}

-- `marshalMeshSilence`
unfoldable pub marshal_mesh_silence : Env → MeshSilence → Option Bytes
unfolding prepare_for_marshalling
marshal_mesh_silence env e = env.marshal (record e { silence = prepare_for_marshalling e.silence })

pub record SetResult : Type 0 where
  pub silences : Silences
  pub changed : Bool
  pub added : Bool
  pub err : Option Err

-- What `setSilence` does after the merge.
abbrev pub after_merge : Env → Silences → MeshSilence → Bytes → State × Bool × Bool → SetResult
after_merge env s msil b (st, changed, added) =
    let merged = record s { st = st } in
    let indexed = if added then index_silence env merged msil.silence else merged in
    record {
      silences =
          if changed then record indexed { broadcast = indexed.broadcast ++ b ∷ [] } else indexed;
      changed = changed;
      added = added;
      err = none;
    }

-- `setSilence`
unfoldable pub set_silence : Env → Silences → MeshSilence → Time → SetResult
set_silence env s msil now = elim (marshal_mesh_silence env msil) [
  | none ↦ record { silences = s; changed = false; added = false; err = some marshal_failed }
  | some b ↦ after_merge env s msil b (merge s.st msil now)
]

-- What `setSilence` leaves in the silence that it is given, which the caller shares: `merge` upgrades
-- the comments in place, once it has found that the silence has not passed its retention.
unfoldable pub after_set_silence : Env → MeshSilence → Time → Silence
after_set_silence env msil now = elim (marshal_mesh_silence env msil) [
  | none ↦ msil.silence
  | some b ↦
      if before (as_time msil.expires_at) now then msil.silence else (upgrade_comments msil).silence
]

abbrev pub update_allowed : SilenceState → Silence → Silence → Time → Bool
update_allowed active a b now =
    nat_beq (unix (as_time a.starts_at)) (unix (as_time b.starts_at))
    && not (before (as_time b.ends_at) now)
update_allowed pending a b now = not (before (as_time b.starts_at) now)
update_allowed expired a b now = false

-- `canUpdate`
unfoldable pub can_update : Silence → Silence → Time → Bool
can_update a b now =
    matcher_sets_beq a.matcher_sets b.matcher_sets && update_allowed (get_state a now) a b now

-- The silence that `expire` stores in place of one in the given state.
abbrev pub ended_at : SilenceState → Silence → Time → Silence
ended_at pending sil now = record sil {
  starts_at = some now;
  ends_at = some now;
  updated_at = some now;
}
ended_at _ sil now = record sil { ends_at = some now; updated_at = some now }

abbrev pub expire_found : Env → Silences → Silence → SilenceState → Time → Silences × Option Err
expire_found env s sil expired now = (s, none)
expire_found env s sil state now =
    let r = set_silence env s (to_mesh_silence s (ended_at state sil now)) now in
    (r.silences, r.err)

-- `expire`, and `Expire` after it has taken the lock.
unfoldable pub expire : Env → Silences → String → Time → Silences × Option Err
expire env s id now = elim (get_silence s id) [
  | none ↦ (s, some not_found)
  | some sil ↦ expire_found env s sil (get_state sil now) now
]

-- `checkSizeLimits`
unfoldable pub exceeds_size : Env → Silences → MeshSilence → Bool
exceeds_size env s msil = elim s.max_silence_size_bytes [
  | none ↦ false
  | some m ↦ ltb 0 m && ltb m (env.size msil)
]

unfoldable pub exceeds_count : Silences → Bool
exceeds_count s = elim s.max_silences [ none ↦ false | some m ↦ ltb 0 m && ltb m (length s.st + 1) ]
