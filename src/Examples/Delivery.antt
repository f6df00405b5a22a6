-- ===== src/Examples/Delivery.antt =====
-- The stages of notify/ and the intervals of timeinterval/ at a concrete group.
use Prim.Native.String.{String}
use codestra_alertmanager.Prelude.{
  ◌≡◌, refl, true, false, not, ◌&&◌, none, some, List, [], ◌∷◌, arith, string_eq, if◌then◌else◌,
}
use codestra_alertmanager.Alert.{Alert}
use codestra_alertmanager.TimeInterval.{intervener_mutes}
use codestra_alertmanager.Prelude.Maps.{Map, lookup}
use codestra_alertmanager.TimeInterval.{
  TimeInterval, Calendar, negsuc, contains_time, days_in_month, contains_day, clamp,
}
use codestra_alertmanager.TimeInterval.Days.{HasDays, contains_time_lem, is_within}
use codestra_alertmanager.TimeInterval.Muting.{any_contains, all_known}
use codestra_alertmanager.Notify.Stages.{Context}
use codestra_alertmanager.Notify.Retry.{delivered, retry_loop}
use codestra_alertmanager.Notify.Pipeline.{Stage, multi_stage, pass, mute_stage, cluster_wait}
use codestra_alertmanager.Notify.Builder.{Parts, stages_for}
use codestra_alertmanager.Notify.Builder.Cleared.{Reaches, stages_for-Reaches}
use codestra_alertmanager.Silence.Data.{is_nil}
use codestra_alertmanager.Notify.Delivery.{World, Run, integration_stage}
use codestra_alertmanager.Notify.Delivery.Logged.{Result, integration_stage_lem}
use codestra_alertmanager.Notify.Intervals.{time_mute_stage, time_active_stage}
use codestra_alertmanager.Notify.Intervals.Passing.{is_active, muter, time_stages-pass}
use codestra_alertmanager.Examples.Notifications.{wire, stage, context, alert}

-- Two attempts: the first is retried, the second succeeds.
abbrev run : Run
run = record {
  integration = stage;
  wire = wire;
  clock = 200;
  now = 201;
  merged = 202;
  wait_done = false;
  attempts =
      record { error = some "busy"; retry = true; context_open = true }
      ∷ record { error = none; retry = false; context_open = true }
      ∷ [];
  cause = "deadline";
}

abbrev fresh : World
fresh = record { log = record { retention = 1000; st = []; broadcast = [] }; confirmed = [] }

second_attempt : retry_loop run.attempts run.cause 0 none ≡ delivered 2
unfolding retry_loop
second_attempt = refl

integration_stage_example :
    Result run fresh context (alert ∷ []) (integration_stage run fresh context (alert ∷ []))
integration_stage_example = integration_stage_lem run fresh context (alert ∷ [])

-- The last day of February 2024, a Thursday, at half past ten.
abbrev leap_day : Calendar
leap_day location t = record {
  year = 2024;
  month = 2;
  day = 29;
  weekday = 4;
  hour = 10;
  minute = 30;
}

leap_day-HasDays : HasDays leap_day
unfolding days_in_month
leap_day-HasDays location t = (ground arith, ground arith)

abbrev month_end : TimeInterval
month_end = record {
  times = some (record { start_minute = 600; end_minute = 660 } ∷ []);
  weekdays = none;
  days_of_month = some (record { begin = negsuc 1; end = negsuc 0 } ∷ []);
  months = none;
  years = none;
  location = none;
}

contains_month_end : contains_time leap_day month_end 5 ≡ true
unfolding contains_time days_in_month contains_day clamp
contains_month_end = refl

contains_time_example :
    contains_time leap_day month_end 5 ≡ is_within month_end (leap_day month_end.location 5)
contains_time_example = contains_time_lem leap_day month_end 5 leap_day-HasDays

abbrev intervals : Map String (List TimeInterval)
intervals =
    ("month-end", month_end ∷ []) ∷ ("never", record month_end { months = some [] } ∷ []) ∷ []

abbrev group : Context
group = record context {
  now = some 5;
  route_id = some "r";
  active_time_intervals = some ("month-end" ∷ []);
  mute_time_intervals = some ("never" ∷ []);
}

names_known :
    (all_known intervals leap_day 5 ("month-end" ∷ []) ≡ true)
    × (all_known intervals leap_day 5 ("never" ∷ []) ≡ true)
unfolding lookup
names_known = (refl, refl)

abbrev keep_muted : List String → String → String → List String → List String
keep_muted w route gkey names = names

time_stages-pass_example :
    (multi_stage
      (time_active_stage (muter keep_muted intervals leap_day) keep_muted
        ∷ time_mute_stage (muter keep_muted intervals leap_day) keep_muted
        ∷ [])
      []
      group
      (alert ∷ [])).1
    ≡ pass group (
        if is_active keep_muted intervals leap_day 5 ("month-end" ∷ [])
          && not (any_contains intervals leap_day 5 ("never" ∷ []))
        then alert ∷ []
        else [])
time_stages-pass_example =
    time_stages-pass keep_muted intervals leap_day group "r" "g" 5 ("month-end" ∷ []) ("never" ∷ [])
      (record {
        has_route = refl;
        has_key = refl;
        has_now = refl;
        has_active = refl;
        has_muted = refl;
      })
      [] (alert ∷ []) names_known.0 names_known.1

-- An alert that has labels is muted by the silencer, and none by the inhibitor.
abbrev parts : Parts (List String)
parts = record {
  inhibitor = λ w lset. ("inhibitor asked" ∷ w, false);
  silencer = λ w lset. ("silencer asked" ∷ w, not (is_nil lset));
  intervener = muter keep_muted intervals leap_day;
  set_muted = keep_muted;
  hash = λ a. a.starts_at;
  settle_failed = false;
}

abbrev receive : Stage (List String)
receive w ctx alerts = ("received" ∷ w, pass ctx alerts)

abbrev labelled : Alert
labelled = record alert { labels = ("job", "api") ∷ [] }

delivered_one : multi_stage (stages_for parts receive) [] group (labelled ∷ alert ∷ []) ≡ (
  "received" ∷ "silencer asked" ∷ "silencer asked" ∷ [],
  pass (record group { muted_alerts = some (5 ∷ []) }) (alert ∷ []),
)
unfolding multi_stage stages_for mute_stage time_active_stage time_mute_stage cluster_wait
    intervener_mutes contains_time contains_day days_in_month clamp lookup
delivered_one = refl

stages_for-Reaches_example :
    Reaches parts receive [] group
      (labelled ∷ alert ∷ [])
      (multi_stage (stages_for parts receive) [] group (labelled ∷ alert ∷ []))
stages_for-Reaches_example = stages_for-Reaches parts receive [] group (labelled ∷ alert ∷ [])
