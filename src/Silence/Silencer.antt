-- ===== src/Silence/Silencer.antt =====
-- `Silencer` of silence/silence.go and its cache, silence/cache.go.
--
-- `Mutes` reads the store three times (its version, the cached silences, the new silences) and the
-- clock three times; other operations may run in between, so each reading is an argument. The
-- fingerprint of a label set (`model.LabelSet.Fingerprint`) is a number that the caller gives.
-- Outside the model are tracing, logging and the event recorder.
pub mod Collect
pub mod Found
pub mod Answer
use Prim.Native.String.{String}
use codestra_alertmanager.Prelude.{
  ℕ, Bool, true, false, not, Option, none, some, List, [], ◌∷◌, ◌++◌, ◌&&◌, contains, nat_beq,
  string_eq, nat_eq, if◌then◌else◌,
}
use codestra_alertmanager.Prelude.Maps.{Map, lookup, insert, erase}
use codestra_alertmanager.Clock.{Time}
use codestra_alertmanager.Labels.{LabelSet}
use codestra_alertmanager.Silence.Data.{
  Silence, SilenceState, expired, active, pending, get_state, is_nil,
}
use codestra_alertmanager.Silence.State.{Silences}
use codestra_alertmanager.Silence.Query.{
  Result, ok, err, QueryParam, q_ids, q_since, q_matches, q_state, query,
}

pub record CacheEntry : Type 0 where
  pub version : ℕ
  pub silence_ids : List String

abbrev pub Cache : Type 0
Cache = Map ℕ CacheEntry

abbrev pub no_entry : CacheEntry
no_entry = record { version = 0; silence_ids = [] }

-- `cache.get`: a fingerprint with no entry has the empty one of version 0.
unfoldable pub cache_get : ℕ → Cache → CacheEntry
cache_get fp c = elim (lookup fp c) [ none ↦ no_entry | some e ↦ e ]

-- What `Mutes` has found out about the silences: the IDs that it has seen, and of those the IDs of
-- active silences, and of active and pending ones.
pub record Sorted : Type 0 where
  pub seen : List String
  pub active_ids : List String
  pub all_ids : List String

abbrev pub sort_as : SilenceState → String → Sorted → Sorted
sort_as pending id c = record c { all_ids = c.all_ids ++ id ∷ [] }
sort_as active id c = record c {
  active_ids = c.active_ids ++ id ∷ [];
  all_ids = c.all_ids ++ id ∷ [];
}
sort_as expired id c = c

unfoldable pub sort_one : Time → Silence → Sorted → Sorted
sort_one now sil c =
    if contains c.seen sil.id
    then c
    else sort_as (get_state sil now) sil.id (record c { seen = sil.id ∷ c.seen })

unfoldable pub sort_all : Time → List Silence → Sorted → Sorted
sort_all now [] c = c
sort_all now (sil ∷ rest) c = sort_all now rest (sort_one now sil c)

abbrev pub nothing_seen : Sorted
nothing_seen = record { seen = []; active_ids = []; all_ids = [] }

-- A query that fails is logged, and gives no silences.
abbrev pub or_nothing : Result (List Silence) → List Silence
or_nothing (ok sils) = sils
or_nothing (err e) = []

abbrev pub live_states : List SilenceState
live_states = active ∷ pending ∷ []

-- The query for the cached silences; it is made only if there are any.
unfoldable pub old_silences : Silences → Time → List String → List Silence
old_silences s now [] = []
old_silences s now (i ∷ is) = or_nothing (query s now (q_ids (i ∷ is) ∷ q_state live_states ∷ [])).0

-- The query for silences that are newer than the entry, with the version it is based on.
unfoldable pub new_silences : Silences → Time → ℕ → LabelSet → List Silence × ℕ
new_silences s now version lset =
    let (r, v) = query s now (q_since version ∷ q_state live_states ∷ q_matches lset ∷ []) in
    (or_nothing r, v)

-- The cache afterwards, the answer, and the IDs that the marker gets.
pub record Verdict : Type 0 where
  pub cache : Cache
  pub muted : Bool
  pub marked : List String

abbrev pub verdict : Cache → ℕ → ℕ → Time → List Silence → Verdict
verdict c fp version now [] = record {
  cache = insert fp (record { version = version; silence_ids = [] }) c;
  muted = false;
  marked = [];
}
verdict c fp version now (sil ∷ rest) =
    let r = sort_all now (sil ∷ rest) nothing_seen in
    record {
      cache = insert fp (record { version = version; silence_ids = r.all_ids }) c;
      muted = not (is_nil r.active_ids);
      marked = r.active_ids;
    }

-- `Mutes`. `version` is what `Version()` returned, `s_old` and `s_new` are the store at the two
-- queries, `t_old` and `t_new` their times, and `now` the time at which the states are told.
unfoldable pub mutes : ℕ → Silences → Time → Silences → Time → Time → ℕ → LabelSet → Cache → Verdict
mutes version s_old t_old s_new t_new now fp lset c =
    let entry = cache_get fp c in
    let up_to_date = nat_beq entry.version version in
    let old = old_silences s_old t_old entry.silence_ids in
    let (new, new_version) = new_silences s_new t_new entry.version lset in
    if up_to_date
    then (if is_nil entry.silence_ids
        then record { cache = c; muted = false; marked = [] }
        else verdict c fp entry.version now old)
    else verdict c fp new_version now (old ++ new)

-- `PostGC`: the entries of collected alerts go.
unfoldable pub post_gc : List ℕ → Cache → Cache
post_gc [] c = c
post_gc (fp ∷ fps) c = post_gc fps (erase fp c)
