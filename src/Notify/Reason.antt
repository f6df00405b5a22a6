-- ===== src/Notify/Reason.antt =====
-- `NotifyReason` of notify/notify.go and `needsUpdate` of notify/dedup_stage.go.
use codestra_alertmanager.Prelude.{
  ℕ, ◌-◌, Bool, true, false, not, Option, none, some, List, ◌&&◌, if◌then◌else◌,
}
use codestra_alertmanager.Clock.{Time, Duration, as_time, before}
use codestra_alertmanager.Silence.Data.{is_nil}
use codestra_alertmanager.Nflog.Data.{Entry, is_firing_subset, is_resolved_subset}

pub data NotifyReason : Type 0 where
  do_not_notify first_notification new_alerts_in_group new_resolved_alerts : NotifyReason
  all_alerts_resolved repeat_interval_elapsed unknown : NotifyReason

unfoldable pub should_notify : NotifyReason → Bool
should_notify do_not_notify = false
should_notify _ = true

-- `now.Add(-repeat)` may lie before the first time of the model. It is then 0, and no timestamp is
-- before either of the two.
unfoldable pub repeat_elapsed : Entry → Duration → Time → Bool
repeat_elapsed entry repeat now = before (as_time entry.timestamp) (now - repeat)

-- `needsUpdate` with the entry of the log; `send_resolved` is the integration's flag, and the two
-- sets are given by the lists they are built from.
unfoldable pub needs_update_of : Bool → Entry → List ℕ → List ℕ → Duration → Time → NotifyReason
needs_update_of send_resolved entry firing resolved repeat now =
    if not (is_firing_subset entry firing)
    then (if is_nil entry.firing_alerts then first_notification else new_alerts_in_group)
    else if is_nil firing
    then (if is_nil entry.firing_alerts then do_not_notify else all_alerts_resolved)
    else if send_resolved && not (is_resolved_subset entry resolved)
    then new_resolved_alerts
    else if repeat_elapsed entry repeat now
    then repeat_interval_elapsed
    else do_not_notify

-- `needsUpdate`
unfoldable pub needs_update : Bool → Option Entry → List ℕ → List ℕ → Duration → Time → NotifyReason
needs_update send_resolved none firing resolved repeat now =
    if is_nil firing then do_not_notify else first_notification
needs_update send_resolved (some entry) firing resolved repeat now =
    needs_update_of send_resolved entry firing resolved repeat now
