-- ===== src/Examples/Grouping.antt =====
-- The groups and the dispatcher of dispatch/dispatch.go at concrete alerts.
use Prim.Native.String.{String}
use codestra_alertmanager.Prelude.{
  ℕ, ◌+◌, ltb, ◌&&◌, ◌≤◌, ◌≡◌, refl, true, false, some, [], ◌∷◌, string_eq, nat_eq, pair_eq,
  nat_beq, Bool-cases, inl, inr,
}
use codestra_alertmanager.Prelude.Maps.{lookup, insert}
use codestra_alertmanager.Alert.{less}
use codestra_alertmanager.Store.{get, set, empty, new_alerts, list}
use codestra_alertmanager.Dispatch.Route.{RouteNode}
use codestra_alertmanager.Dispatch.Group.{Group, Batch, insert_alert, begin_flush, group_labels}
use codestra_alertmanager.Dispatch.Group.Flush.{Flushed, end_flush_lem}
use codestra_alertmanager.Dispatch.Dispatcher.{
  Dispatcher, Job, job, new_aggr_group, new_dispatcher, group_alert, route_alert, start, visit,
  run_ag, Reach, initially, after, by_worker, by_alert, by_start, by_visit, ended, created,
  is_at_rest, running,
}
use codestra_alertmanager.Dispatch.Dispatcher.Covers.{runs}
use codestra_alertmanager.Dispatch.Dispatcher.Private.{Holds}
use codestra_alertmanager.Dispatch.Dispatcher.Entering.{entered, group_alert-Holds}
use codestra_alertmanager.Dispatch.Dispatcher.Starting.{groups-runs}
use codestra_alertmanager.Dispatch.Dispatcher.Retries.{remaining, nothing, own, Trace-bound}
use codestra_alertmanager.Labels.{label}
use codestra_alertmanager.Alert.{Model}
use codestra_alertmanager.Dispatch.Dispatcher.Facts.{IsPlaced}
use codestra_alertmanager.Dispatch.Dispatcher.Placement.{groups-IsPlaced}
use codestra_alertmanager.Examples.Limits.{plain_library, alert}

abbrev model : Model
model = record {
  resolved = λ a. ltb 0 a.ends_at && ltb a.ends_at 200;
  valid_value = λ v. true;
  valid_name = λ n. true;
  labels_before = λ a b. false;
  string_before = λ s t. false;
}

abbrev Place : Type 0
Place = ℕ × String

abbrev node : RouteNode
node = record {
  opts = record {
    receiver = "team";
    group_by = "alertname" ∷ [];
    group_by_all = false;
    group_wait = 30;
    group_interval = 300;
    repeat_interval = 3600;
    mute_time_intervals = [];
    active_time_intervals = [];
    labels = [];
  };
  matchers = [];
  continues = false;
  idx = 2;
}

abbrev first_job : Job Place
first_job = job plain_library (alert "a" 20) node

abbrev next_step : Dispatcher String Place → Dispatcher String Place
next_step d = group_alert plain_library 1 0 10 (d.workers 0) d

abbrev given : Dispatcher String Place
given = route_alert 0 first_job new_dispatcher

abbrev grouped : Dispatcher String Place
grouped = next_step (next_step (next_step (next_step (next_step given))))

reach_grouped : Reach plain_library 1 grouped
reach_grouped =
    after
      (after
        (after
          (after
            (after (after initially (by_alert new_dispatcher 0 first_job)) (by_worker given 0 10))
            (by_worker (next_step given) 0 10))
          (by_worker (next_step (next_step given)) 0 10))
        (by_worker (next_step (next_step (next_step given))) 0 10))
      (by_worker (next_step (next_step (next_step (next_step given)))) 0 10)

made_group : grouped.workers 0 ≡ ended first_job (created 0)
unfolding group_alert route_alert new_dispatcher job insert_alert set lookup new_aggr_group
    new_alerts
made_group = refl

groups-IsPlaced_example : IsPlaced grouped first_job.place 0
groups-IsPlaced_example =
    groups-IsPlaced plain_library 1 0 first_job 0 reach_grouped (inr made_group)

abbrev all_started : Dispatcher String Place
all_started = visit (start grouped)

reach_all_started : Reach plain_library 1 all_started
reach_all_started = after (after reach_grouped (by_start grouped)) (by_visit (start grouped))

state_running : all_started.state ≡ running
unfolding group_alert route_alert new_dispatcher job insert_alert insert set lookup new_aggr_group
    new_alerts start visit run_ag group_labels label
state_running = refl

nothing_to_start : all_started.to_start ≡ []
unfolding group_alert route_alert new_dispatcher job insert_alert insert set lookup new_aggr_group
    new_alerts start visit run_ag group_labels label
nothing_to_start = refl

all_rest : (w : ℕ) → is_at_rest (all_started.workers w) ≡ true
unfolding group_alert route_alert new_dispatcher job insert_alert insert set lookup new_aggr_group
    new_alerts start visit run_ag group_labels label
all_rest w = elim (Bool-cases (nat_beq 0 w)) [ inl p ↦ rw p refl | inr p ↦ rw p refl ]

group_there : lookup (2, "") all_started.groups ≡ some 0
unfolding group_alert route_alert new_dispatcher job insert_alert insert set lookup new_aggr_group
    new_alerts start visit run_ag group_labels label
group_there = refl

groups-runs_example : runs 0 all_started ≡ true
groups-runs_example =
    groups-runs plain_library 1 (2, "") 0 reach_all_started state_running nothing_to_start all_rest
      group_there

busy : is_at_rest (given.workers 0) ≡ false
unfolding route_alert new_dispatcher
busy = refl

Trace-bound_example : 1 + remaining ((next_step given).workers 0) ≤ 209
Trace-bound_example = Trace-bound plain_library 1 {w = 0} {d = given} (own 10 nothing busy)

-- At 25 the first alert is resolved; the third comes in while the notification runs.
abbrev two_alerts : Group String
two_alerts =
    (insert_alert plain_library (alert "b" 50) 10
      (insert_alert plain_library (alert "a" 20) 10 new_aggr_group).0).0

abbrev three_alerts : Group String
three_alerts = (insert_alert plain_library (alert "c" 60) 25 two_alerts).0

abbrev flushed : Batch
flushed = record {
  alerts = alert "a" 20 ∷ record (alert "b" 50) { ends_at = 0 } ∷ [];
  resolved = alert "a" 20 ∷ [];
}

flush_begins : begin_flush plain_library model 25 two_alerts ≡ some flushed
unfolding begin_flush insert_alert insert set lookup new_aggr_group new_alerts label list empty less
flush_begins = refl

first_there : get three_alerts.store "a" ≡ some (alert "a" 20)
unfolding insert_alert insert set lookup get new_aggr_group new_alerts label
first_there = refl

end_flush_example :
    Flushed plain_library model 25 two_alerts three_alerts flushed "a" (alert "a" 20)
end_flush_example =
    end_flush_lem plain_library model 25 two_alerts three_alerts flushed "a" (alert "a" 20)
      flush_begins first_there

-- The fourth step puts the group with the alert under its place.
abbrev made_one : Dispatcher String Place
made_one = next_step (next_step given)

reach_made_one : Reach plain_library 1 made_one
reach_made_one =
    after (after (after initially (by_alert new_dispatcher 0 first_job)) (by_worker given 0 10))
      (by_worker (next_step given) 0 10)

enters : entered (made_one.workers 0) ((next_step made_one).workers 0) ≡ some (first_job, 0)
unfolding group_alert route_alert new_dispatcher job insert_alert set lookup new_aggr_group
    new_alerts
enters = refl

group_alert-Holds_example : Holds plain_library (next_step made_one) first_job 0
group_alert-Holds_example = group_alert-Holds plain_library 1 0 10 first_job 0 reach_made_one enters
