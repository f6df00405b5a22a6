-- ===== src/Examples/Notifications.antt =====
-- The notification log and the deduplication at concrete entries.
use Prim.{tt}
use Prim.Native.String.{String}
use codestra_alertmanager.Prelude.{
  ◌≡◌, refl, true, false, none, some, [], ◌∷◌, ◌==◌, ◌&&◌, string_eq, arith, if◌then◌else◌,
}
use codestra_alertmanager.Prelude.Maps.{lookup}
use codestra_alertmanager.Clock.{Time}
use codestra_alertmanager.Alert.{Alert}
use codestra_alertmanager.Nflog.Data.{Receiver, MeshEntry, state_key, receiver_key, print_digits}
use codestra_alertmanager.Nflog.Log.{Wire, Log, entry_key, merge, expires_at, log, gc}
use codestra_alertmanager.Nflog.Log.Laws.{accepts, is_news, merge_reports, merge-merge}
use codestra_alertmanager.Nflog.Log.Collection.{swept, gc_lem}
use codestra_alertmanager.Notify.Reason.{do_not_notify}
use codestra_alertmanager.Notify.Stages.{
  Dedup, Context, Outcome, partition_alerts, dedup, set_notifies,
}
use codestra_alertmanager.Notify.Once.{dedup-set_notifies}

abbrev pub web : Receiver
web = record { group_name = "web"; integration = "email"; idx = 0 }

abbrev entry_at : String → Time → MeshEntry
entry_at k t = record {
  entry = record {
    group_key = k;
    receiver = web;
    group_hash = [];
    resolved = false;
    timestamp = some t;
    firing_alerts = 5 ∷ 6 ∷ [];
    resolved_alerts = [];
    receiver_data = [];
  };
  expires_at = some 900;
}

abbrev pub logged : Log
logged = record { retention = 1000; st = ("g:web/email/0", entry_at "g" 100) ∷ []; broadcast = [] }

abbrev pub wire : Wire
wire = record { marshal = λ e. some (1 ∷ []); decode = λ b. ([], true) }

merge_reports_example :
    ((merge logged.st (entry_at "g" 120) 130).1 ≡ (
      accepts (entry_at "g" 120) 130
      && is_news (entry_at "g" 120) (lookup (entry_key (entry_at "g" 120)) logged.st)))
    × (lookup "g:web/email/0" (merge logged.st (entry_at "g" 120) 130).0 ≡ (
        if (merge logged.st (entry_at "g" 120) 130).1
          && entry_key (entry_at "g" 120) == "g:web/email/0"
        then some (entry_at "g" 120)
        else lookup "g:web/email/0" logged.st))
merge_reports_example = merge_reports logged.st (entry_at "g" 120) 130 "g:web/email/0"

merge-merge_example :
    lookup "g:web/email/0"
      (merge (merge logged.st (entry_at "g" 120) 140).0 (entry_at "g" 130) 140).0
    ≡ lookup "g:web/email/0"
        (merge (merge logged.st (entry_at "g" 130) 140).0 (entry_at "g" 120) 140).0
merge-merge_example =
    merge-merge logged.st (entry_at "g" 120) (entry_at "g" 130) 140 (λ p q. ground (arith, q))
      "g:web/email/0"

gc_lem_example :
    ((gc logged 950).2 ≡ none)
    × ((k : String) → lookup k (gc logged 950).0.st ≡ swept 950 (lookup k logged.st))
unfolding lookup
gc_lem_example = gc_lem logged 950 (refl, tt) (ground arith, tt)

abbrev pub stage : Dedup
stage = record { send_resolved = true; recv = web; hash = λ a. a.starts_at; resolved = λ a. false }

abbrev pub context : Context
context = record {
  group_key = some "g";
  repeat_interval = some 50;
  now = none;
  firing_alerts = some (5 ∷ []);
  resolved_alerts = some [];
  notification_reason = none;
  nflog_store = none;
  receiver_name = none;
  route_id = none;
  mute_time_intervals = none;
  active_time_intervals = none;
  muted_alerts = none;
}

abbrev pub alert : Alert
alert = record {
  labels = [];
  annotations = [];
  starts_at = 5;
  ends_at = 0;
  generator_url = "";
  updated_at = 6;
  timeout = false;
}

abbrev written : Log × Outcome
written = set_notifies wire web logged context (alert ∷ []) 200 201

dedup-set_notifies_example :
    let out = dedup stage written.0 context (alert ∷ []) 240 in
    (out.alerts ≡ []) × (out.err ≡ none) × (out.ctx.notification_reason ≡ some do_not_notify)
unfolding lookup state_key receiver_key print_digits expires_at set_notifies log partition_alerts
dedup-set_notifies_example =
    dedup-set_notifies wire logged stage context context (alert ∷ []) (alert ∷ []) "g" 50 50
      (5 ∷ []) [] 200 201 240 refl refl refl refl refl refl refl refl (λ prev p. ground (arith, p))
      (ground arith) refl (ground arith)
