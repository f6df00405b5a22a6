-- ===== src/Examples/Limits.antt =====
-- The buckets of limit/bucket.go and the stores of store/store.go at concrete alerts.
use Prim.Native.String.{String}
use codestra_alertmanager.Prelude.{
  ◌<◌, ◌≡◌, refl, true, false, not, ◌||◌, ◌&&◌, List, [], ◌∷◌, arith, string_eq, nat_beq, leb,
}
use codestra_alertmanager.Prelude.Maps.{lookup, insert, erase}
use codestra_alertmanager.Clock.{Time}
use codestra_alertmanager.Labels.{label}
use codestra_alertmanager.Alert.{Alert}
use codestra_alertmanager.Limit.{new_bucket, upsert, push, pop, up, down, swap}
use codestra_alertmanager.Limit.Update.{IsWellFormed}
use codestra_alertmanager.Limit.Upsert.{upserts, upserts-IsWellFormed, upsert-Outcome, Outcome}
use codestra_alertmanager.Store.{
  Library, Alerts, get, set, empty, new_alerts, with_per_alert_limit, delete_if_not_modified,
}
use codestra_alertmanager.Store.Reach.{
  IsSound, Reach, start, after, by_set, by_delete, Reach-IsSound,
}
use codestra_alertmanager.Store.Outcome.{SetOutcome, set_lem}
use codestra_alertmanager.Store.Deletion.{left_of, delete_if_not_modified_lem}

-- Four values for two places: the second is refused, and the last one takes the place of an expired one.
abbrev calls : List (String × Time × Time)
calls = ("a", 20, 10) ∷ ("b", 12, 10) ∷ ("c", 30, 11) ∷ ("d", 40, 13) ∷ []

upserts-IsWellFormed_example : IsWellFormed (upserts (new_bucket 2) calls)
upserts-IsWellFormed_example = upserts-IsWellFormed 2 calls

stored_calls : upserts (new_bucket 2) calls ≡ record {
  index = ("a", 0) ∷ ("d", 1) ∷ [];
  items = record { value = "a"; priority = 20 } ∷ record { value = "d"; priority = 40 } ∷ [];
  capacity = 2;
}
unfolding new_bucket upsert push pop up down swap lookup insert erase
stored_calls = refl

some_room : 0 < (upserts (new_bucket 2) calls).capacity
some_room = rw stored_calls (omega arith)

upsert-Outcome_example :
    Outcome
      (upserts (new_bucket 2) calls)
      "e"
      50
      15
      (upsert (upserts (new_bucket 2) calls) "e" 50 15)
upsert-Outcome_example =
    upsert-Outcome (upserts (new_bucket 2) calls) "e" 50 15 upserts-IsWellFormed_example some_room

-- A concrete library: the fingerprint is the name of the instance.
abbrev pub plain_library : Library String
plain_library = record {
  fingerprint = λ lset. label "instance" lset;
  name = λ lset. label "alertname" lset;
  resolved_at = λ a t. not (nat_beq a.ends_at 0) && leb a.ends_at t;
}

abbrev pub alert : String → Time → Alert
alert i t = record {
  labels = ("alertname", "down") ∷ ("instance", i) ∷ [];
  annotations = [];
  starts_at = 5;
  ends_at = t;
  generator_url = "";
  updated_at = 10;
  timeout = false;
}

abbrev limited_store : Alerts String
limited_store = (set plain_library (alert "a" 20) 10 (with_per_alert_limit new_alerts 1)).0

abbrev cleared : Alerts String
cleared = delete_if_not_modified plain_library (alert "a" 20 ∷ []) true limited_store

steps_to_cleared : Reach plain_library (with_per_alert_limit new_alerts 1) cleared
steps_to_cleared =
    after (after start (by_set (with_per_alert_limit new_alerts 1) (alert "a" 20) 10))
      (by_delete limited_store (alert "a" 20 ∷ []) true)

Reach-IsSound_example : IsSound plain_library cleared
Reach-IsSound_example = Reach-IsSound plain_library 1 steps_to_cleared

set_lem_example :
    SetOutcome plain_library
      (alert "b" 30)
      11
      limited_store
      (set plain_library (alert "b" 30) 11 limited_store)
set_lem_example = set_lem plain_library (alert "b" 30) 11 limited_store (
    Reach-IsSound plain_library 1
      (after start (by_set (with_per_alert_limit new_alerts 1) (alert "a" 20) 10)))

delete_if_not_modified_example :
    ((fp : String)
      → get cleared fp ≡ left_of plain_library fp (alert "a" 20 ∷ []) (get limited_store fp))
    × (cleared.is_destroyed ≡ (limited_store.is_destroyed || (empty cleared && true)))
delete_if_not_modified_example =
    delete_if_not_modified_lem plain_library (alert "a" 20 ∷ []) true limited_store
