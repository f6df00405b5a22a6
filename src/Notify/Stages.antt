-- ===== src/Notify/Stages.antt =====
-- `DedupStage` of notify/dedup_stage.go and `SetNotifiesStage` of notify/set_notifies_stage.go, with
-- the values of notify/context.go that the stages read and write, and their errors.
use Prim.Native.String.{String}
use codestra_alertmanager.Prelude.{
  ℕ, ◌*◌, Bool, true, false, Option, none, some, List, [], ◌∷◌, if◌then◌else◌,
}
use codestra_alertmanager.Clock.{Time, Duration}
use codestra_alertmanager.Alert.{Alert}
use codestra_alertmanager.Nflog.Data.{Receiver, Entry, Store, new_store}
use codestra_alertmanager.Nflog.Log.{
  Wire, Log, QueryParam, q_group_key, q_receiver, Answer, entries, failed, log, query, not_found,
}
use codestra_alertmanager.Nflog.Log
use codestra_alertmanager.Notify.Reason.{
  NotifyReason, first_notification, needs_update, should_notify,
}

-- The context of a notification; a value that was not set is `none`.
pub record Context : Type 0 where
  pub group_key : Option String
  pub repeat_interval : Option Duration
  pub now : Option Time
  pub firing_alerts : Option (List ℕ)
  pub resolved_alerts : Option (List ℕ)
  pub notification_reason : Option NotifyReason
  pub nflog_store : Option Store
  pub receiver_name : Option String
  pub route_id : Option String
  pub mute_time_intervals : Option (List String)
  pub active_time_intervals : Option (List String)
  pub muted_alerts : Option (List ℕ)

pub data Err : Type 0 where
  group_key_missing repeat_interval_missing firing_alerts_missing : Err
  resolved_alerts_missing unexpected_entries : Err
  nflog_failed : Log.Err → Err
  receiver_missing receiver_stage_missing route_id_missing now_missing context_done : Err
  interval_missing : String → Err
  notify_canceled notify_unrecoverable : ℕ → String → Err
  joined : Err → Err → Err

-- `hashAlert` and `Resolved` of prometheus/common, and whether the integration sends resolved alerts.
pub record Dedup : Type 0 where
  pub send_resolved : Bool
  pub recv : Receiver
  pub hash : Alert → ℕ
  pub resolved : Alert → Bool

-- `partitionAlertsByState`: the hashes of the firing and of the resolved alerts.
unfoldable pub partition_alerts : Dedup → List Alert → List ℕ × List ℕ
partition_alerts d [] = ([], [])
partition_alerts d (a ∷ as') =
    let (firing, resolved) = partition_alerts d as' in
    if d.resolved a then (firing, d.hash a ∷ resolved) else (d.hash a ∷ firing, resolved)

-- What a stage returns: the context, the alerts that go on, and the error.
pub record Outcome : Type 0 where
  pub ctx : Context
  pub alerts : List Alert
  pub err : Option Err

abbrev pub store_for : NotifyReason → Option Entry → Store
store_for first_notification entry = new_store none
store_for _ entry = new_store entry

abbrev pub decide :
    Dedup → Context → List Alert → Duration → List ℕ → List ℕ → Time → Option Entry → Outcome
decide d ctx alerts repeat firing resolved now entry =
    let reason = needs_update d.send_resolved entry firing resolved repeat now in
    record {
      ctx = record ctx {
        firing_alerts = some firing;
        resolved_alerts = some resolved;
        notification_reason = some reason;
        nflog_store = some (store_for reason entry);
      };
      alerts = if should_notify reason then alerts else [];
      err = none;
    }

abbrev pub fail : Context → Err → Outcome
fail ctx e = record { ctx = ctx; alerts = []; err = some e }

abbrev pub is_not_found : Log.Err → Bool
is_not_found not_found = true
is_not_found _ = false

-- The `switch` on the number of entries, after the test of the error.
abbrev pub with_entries : Context → Answer → (Option Entry → Outcome) → Outcome
with_entries ctx (entries []) k = k none
with_entries ctx (entries (e ∷ [])) k = k (some e)
with_entries ctx (entries _) k = fail ctx unexpected_entries
with_entries ctx (failed e) k = if is_not_found e then k none else fail ctx (nflog_failed e)

abbrev pub or_clock : Option Time → Time → Time
or_clock none clock = clock
or_clock (some t) clock = t

abbrev pub exec_with :
    Dedup → Log → Context → List Alert → Time → String → Option Duration → Outcome
exec_with d l ctx alerts clock gkey none = fail ctx repeat_interval_missing
exec_with d l ctx alerts clock gkey (some repeat) =
    let (firing, resolved) = partition_alerts d alerts in
    let ctx' = record ctx { firing_alerts = some firing; resolved_alerts = some resolved } in
    with_entries ctx' (query l (q_group_key gkey ∷ q_receiver (some d.recv) ∷ []))
      (decide d ctx alerts repeat firing resolved (or_clock ctx.now clock))

abbrev pub exec_group : Dedup → Log → Context → List Alert → Time → Option String → Outcome
exec_group d l ctx alerts clock none = fail ctx group_key_missing
exec_group d l ctx alerts clock (some gkey) =
    exec_with d l ctx alerts clock gkey ctx.repeat_interval

-- `DedupStage.Exec`; `clock` is the reading of the stage's own clock.
unfoldable pub dedup : Dedup → Log → Context → List Alert → Time → Outcome
dedup d l ctx alerts clock = exec_group d l ctx alerts clock ctx.group_key

-- The log, and what the stage returns.
abbrev pub Logged : Type 0
Logged = Log × Outcome

abbrev pub passed : Context → List Alert → Log × Option Log.Err → Logged
passed ctx alerts (l, none) = (l, record { ctx = ctx; alerts = alerts; err = none })
passed ctx alerts (l, some e) =
    (l, record { ctx = ctx; alerts = alerts; err = some (nflog_failed e) })

abbrev pub set_notifies_repeat :
    Wire
    → Receiver
    → Log
    → Context
    → List Alert
    → Time
    → Time
    → String
    → List ℕ
    → List ℕ
    → Option Duration
    → Logged
set_notifies_repeat w r l ctx alerts now merged gkey firing resolved none =
    (l, fail ctx repeat_interval_missing)
set_notifies_repeat w r l ctx alerts now merged gkey firing resolved (some repeat) =
    passed ctx alerts (log w l r gkey firing resolved ctx.nflog_store (2 * repeat) now merged)

abbrev pub set_notifies_resolved :
    Wire
    → Receiver
    → Log
    → Context
    → List Alert
    → Time
    → Time
    → String
    → List ℕ
    → Option (List ℕ)
    → Logged
set_notifies_resolved w r l ctx alerts now merged gkey firing none =
    (l, fail ctx resolved_alerts_missing)
set_notifies_resolved w r l ctx alerts now merged gkey firing (some resolved) =
    set_notifies_repeat w r l ctx alerts now merged gkey firing resolved ctx.repeat_interval

abbrev pub set_notifies_firing :
    Wire → Receiver → Log → Context → List Alert → Time → Time → String → Option (List ℕ) → Logged
set_notifies_firing w r l ctx alerts now merged gkey none = (l, fail ctx firing_alerts_missing)
set_notifies_firing w r l ctx alerts now merged gkey (some firing) =
    set_notifies_resolved w r l ctx alerts now merged gkey firing ctx.resolved_alerts

abbrev pub set_notifies_group :
    Wire → Receiver → Log → Context → List Alert → Time → Time → Option String → Logged
set_notifies_group w r l ctx alerts now merged none = (l, fail ctx group_key_missing)
set_notifies_group w r l ctx alerts now merged (some gkey) =
    set_notifies_firing w r l ctx alerts now merged gkey ctx.firing_alerts

-- `SetNotifiesStage.Exec`: the notification is logged, to expire after twice the repeat interval. The
-- doubling of the int64 does not wrap below 146 years.
unfoldable pub set_notifies : Wire → Receiver → Log → Context → List Alert → Time → Time → Logged
set_notifies w r l ctx alerts now merged =
    set_notifies_group w r l ctx alerts now merged ctx.group_key
