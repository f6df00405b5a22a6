-- ===== src/Silence/Silencer/Answer.antt =====
-- `Mutes` of silence/silence.go against a specification that knows neither the cache nor the version
-- index.
use Prim.Native.String.{String}
use codestra_alertmanager.Prelude.{
  ℕ, ◌≤◌, ◌≡◌, refl, ap, subst, true, false, not, List, [], ◌∷◌, ◌++◌, ◌&&◌, contains, All-append,
  string_eq, nat_eq, arith, if◌then◌else◌, Bool-cases, inl, inr, nat_beq,
}
use mathlib.Core.List.{append-nil}
use codestra_alertmanager.Prelude.Maps.{lookup, insert, lookup-insert_self}
use codestra_alertmanager.Clock.{Time}
use codestra_alertmanager.Labels.{LabelSet}
use codestra_alertmanager.Silence.Data.{Silence, active, state_beq, is_nil}
use codestra_alertmanager.Silence.Index.{VersionIndex}
use codestra_alertmanager.Silence.Index.Search.{newer}
use codestra_alertmanager.Silence.State.{Silences}
use codestra_alertmanager.Silence.Query.Select.{
  state_of, matching, select_ids, select_versions, query_by_ids, query_since, IsCompiled,
}
use codestra_alertmanager.Silence.Consistency.{lists, is_some, AllTo, IsConsistent}
use codestra_alertmanager.Silence.Silencer.{
  CacheEntry, Cache, Sorted, cache_get, Verdict, verdict, mutes, sort_all, nothing_seen,
  old_silences, new_silences, live_states, or_nothing,
}
use codestra_alertmanager.Silence.Silencer.Collect.{
  occurs, HasState, is_live, sort_all-active, sort_all-all,
}
use codestra_alertmanager.Silence.Silencer.Found.{
  occurs-append, is_live_mono, is_live_active, occurs-select_ids, occurs-select_versions,
  HasState-select_ids, HasState-select_versions,
}

-- A cache entry is current for a label set at a time: of the silences that match and have not ended,
-- it misses only ones that are newer than its version, and what it has matches.
pub record IsCurrent (s : Silences) (lset : LabelSet) (t : Time) (entry : CacheEntry) : Type 0 where
  pub seen : entry.version ≤ s.version
  pub covers :
      (k : String)
      → lists (newer entry.version s.vi) k ≡ false
      → matching s lset k ≡ true
      → is_live (state_of s.st t k) ≡ true
      → contains entry.silence_ids k ≡ true
  pub sound :
      (k : String)
      → contains entry.silence_ids k ≡ true
      → is_some (lookup k s.st) ≡ true
      → matching s lset k ≡ true

newer_none : (v w : ℕ) (vi : VersionIndex) → v ≤ w → AllTo v vi → newer w vi ≡ []
newer_none v w [] h a = refl
newer_none v w (sv ∷ vi) h a = ground (arith, newer_none v w vi)

-- With no silences found the verdict is the one of the general case.
verdict_lem :
    (c : Cache) (fp version : ℕ) (now : Time) (sils : List Silence)
    → verdict c fp version now sils ≡ record {
      cache =
          insert fp
            (record { version = version; silence_ids = (sort_all now sils nothing_seen).all_ids })
            c;
      muted = not (is_nil (sort_all now sils nothing_seen).active_ids);
      marked = (sort_all now sils nothing_seen).active_ids;
    }
unfolding sort_all
verdict_lem c fp version now [] = refl
verdict_lem c fp version now (sil ∷ rest) = refl

old_silences_lem :
    (s : Silences) (t : Time) (ids : List String)
    → old_silences s t ids ≡ select_ids s t live_states ids
unfolding old_silences
old_silences_lem s t [] = refl
old_silences_lem s t (i ∷ is) = ap (λ r. or_nothing r.0) (query_by_ids s t i is live_states)

new_silences_lem :
    (s : Silences) (t : Time) (v : ℕ) (lset : LabelSet)
    → IsConsistent s
    → IsCompiled s
    → new_silences s t v lset ≡ (select_versions s t live_states lset (newer v s.vi), s.version)
unfolding new_silences
new_silences_lem s t v lset c m =
    ap (λ r. (or_nothing r.0, r.1)) (query_since s t v live_states lset c m)

module _ (s : Silences) (lset : LabelSet) (t t_old t_new now : Time) (c : IsConsistent s)
    (m : IsCompiled s) (before_old : t ≤ t_old) (old_now : t_old ≤ now) (before_new : t ≤ t_new)
    (new_now : t_new ≤ now) (entry : CacheEntry) (current : IsCurrent s lset t entry) where
  abbrev old : List Silence
  old = select_ids s t_old live_states entry.silence_ids

  abbrev new : List Silence
  new = select_versions s t_new live_states lset (newer entry.version s.vi)

  -- A live silence is among the old and the new ones exactly when it matches.
  found_matching :
      (k : String)
      → is_live (state_of s.st now k) ≡ true
      → occurs (old ++ new) k ≡ matching s lset k
  found_matching k live = ground (
    arith,
    occurs-append old new k,
    occurs-select_ids s t_old c.keyed entry.silence_ids k,
    occurs-select_versions s t_new c.keyed lset (newer entry.version s.vi) k,
    is_live_mono s.st t_old now k old_now live,
    is_live_mono s.st t_new now k new_now live,
    is_live_mono s.st t t_old k before_old,
    current.covers k,
    current.sound k,
  )

  abbrev result : Sorted
  result = sort_all now (old ++ new) nothing_seen

  states : HasState (state_of s.st now) now (old ++ new)
  states =
      All-append _ old new (HasState-select_ids s t_old c.keyed now entry.silence_ids)
        (HasState-select_versions s t_new c.keyed now lset (newer entry.version s.vi))

  active_lem :
      (k : String)
      → contains result.active_ids k ≡ (state_beq (state_of s.st now k) active && matching s lset k)
  active_lem k = ground (
    arith,
    sort_all-active (state_of s.st now) now (old ++ new) nothing_seen k states,
    is_live_active (state_of s.st now k),
    found_matching k,
  )

  all_lem :
      (k : String)
      → contains result.all_ids k ≡ (is_live (state_of s.st now k) && matching s lset k)
  all_lem k = ground (
    arith,
    sort_all-all (state_of s.st now) now (old ++ new) nothing_seen k states,
    found_matching k,
  )

  result-IsCurrent :
      IsCurrent s lset now (record { version = s.version; silence_ids = result.all_ids })
  result-IsCurrent = record {
    seen = omega arith;
    covers = λ k l p q. ground (arith, all_lem k);
    sound = λ k p q. ground (arith, all_lem k);
  }

  -- With an entry of the store's version there is nothing new.
  nothing_new : nat_beq entry.version s.version ≡ true → old ++ new ≡ old
  nothing_new h =
      rw (newer_none s.version entry.version s.vi (ground arith) c.bounded) (append-nil old)

-- The verdict in the terms of one list of silences, on every path.
record Outcome (v : Verdict) (fp version : ℕ) (r : Sorted) : Type 0 where
  marked : v.marked ≡ r.active_ids
  muted : v.muted ≡ not (is_nil r.active_ids)
  entry : cache_get fp v.cache ≡ record { version = version; silence_ids = r.all_ids }

verdict_Outcome :
    (cache : Cache) (fp version : ℕ) (now : Time) (sils : List Silence)
    → Outcome (verdict cache fp version now sils) fp version (sort_all now sils nothing_seen)
unfolding cache_get
verdict_Outcome cache fp version now sils =
    rw verdict_lem
      (record { marked = refl; muted = refl; entry = rw (lookup-insert_self, cache_get) })

up_to_date_Outcome :
    (s : Silences) (t now : Time) (cache : Cache) (fp version : ℕ) (ids : List String)
    → cache_get fp cache ≡ record { version = version; silence_ids = ids }
    → Outcome
        (if is_nil ids
          then record { cache = cache; muted = false; marked = [] }
          else verdict cache fp version now (select_ids s t live_states ids))
        fp
        version
        (sort_all now (select_ids s t live_states ids) nothing_seen)
unfolding sort_all
up_to_date_Outcome s t now cache fp version [] h = record { marked = refl; muted = refl; entry = h }
up_to_date_Outcome s t now cache fp version (i ∷ is) h =
    verdict_Outcome cache fp version now (select_ids s t live_states (i ∷ is))

module _ (s : Silences) (lset : LabelSet) (t t_old t_new now : Time) (c : IsConsistent s)
    (m : IsCompiled s) (before_old : t ≤ t_old) (old_now : t_old ≤ now) (before_new : t ≤ t_new)
    (new_now : t_new ≤ now) (fp : ℕ) (cache : Cache)
    (current : IsCurrent s lset t (cache_get fp cache)) where
  abbrev verdict_now : Verdict
  verdict_now = mutes s.version s t_old s t_new now fp lset cache

  abbrev sorted_now : Sorted
  sorted_now =
      result s lset t t_old t_new now c m before_old old_now before_new new_now (cache_get fp cache)
        current

  mutes_Outcome : Outcome verdict_now fp s.version sorted_now
  unfolding mutes
  mutes_Outcome =
      let entry = cache_get fp cache in
      elim (Bool-cases (nat_beq entry.version s.version)) [
        | inr stale ↦
            rw (stale, new_silences_lem s t_new entry.version lset c m, old_silences_lem)
              (verdict_Outcome cache fp s.version now _)
        | inl fresh ↦
            let same : entry.version ≡ s.version = ground arith in
            rw
              (
                fresh,
                old_silences_lem,
                nothing_new s lset t t_old t_new now c m before_old old_now before_new new_now entry
                    current fresh,
              )
              (subst
                (λ (v : ℕ).
                  Outcome
                    (if is_nil entry.silence_ids
                      then record { cache = cache; muted = false; marked = [] }
                      else verdict cache fp entry.version now
                          (select_ids s t_old live_states entry.silence_ids))
                    fp v
                    (sort_all now (select_ids s t_old live_states entry.silence_ids) nothing_seen))
                same (up_to_date_Outcome s t_old now cache fp entry.version entry.silence_ids refl))
      ]

  -- In a consistent store with compiled matchers, and with a cache entry that is current for the
  -- label set at a time no later than the two queries, `Mutes` marks exactly the IDs of the
  -- silences that are active at the time of the answer and whose matchers match the label set, and
  -- it mutes exactly when there is one.
  pub mutes_answer :
      ((k : String)
        → contains verdict_now.marked k
          ≡ (state_beq (state_of s.st now k) active && matching s lset k))
      × (verdict_now.muted ≡ not (is_nil verdict_now.marked))
  mutes_answer =
      let o = mutes_Outcome in
      (
        λ k. rw o.marked (
            active_lem s lset t t_old t_new now c m before_old old_now before_new new_now
              (cache_get fp cache) current k),
        rw (o.marked, o.muted) refl,
      )

  -- In a consistent store with compiled matchers, and with a cache entry that is current for the
  -- label set at a time no later than the two queries, the cache entry of the label set that
  -- `Mutes` leaves is current at the time of the answer.
  pub mutes-IsCurrent : IsCurrent s lset now (cache_get fp verdict_now.cache)
  mutes-IsCurrent = rw mutes_Outcome.entry (
      result-IsCurrent s lset t t_old t_new now c m before_old old_now before_new new_now
        (cache_get fp cache) current)
