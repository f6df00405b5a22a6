-- ===== src/Notify/Delivery.antt =====
-- The stages of one integration, as `createReceiverStage` of notify/notify.go lines them up.
pub mod Logged
use Prim.Native.String.{String}
use codestra_alertmanager.Prelude.{
  ℕ, Bool, true, false, not, Option, none, some, List, [], ◌∷◌, ◌++◌, if◌then◌else◌, string_eq, ◌≡◌,
  refl, ◌⊎◌, inl, inr, arith, Bool-cases, Option-cases, ap, sym, ◌∙◌,
}
use codestra_alertmanager.Silence.Data.{is_nil}
use codestra_alertmanager.Clock.{Time}
use codestra_alertmanager.Alert.{Alert}
use codestra_alertmanager.Nflog.Log.{Wire, Log}
use codestra_alertmanager.Notify.Stages.{Context, Err, Outcome, fail, Dedup, dedup, set_notifies}
use codestra_alertmanager.Notify.Retry.{
  Attempt, Retried, retry, retry_with, retry_firing, ended, retry_loop, to_send, Ending, delivered,
  unrecoverable, canceled,
}
use codestra_alertmanager.Notify.Pipeline.{Stage, multi_stage, fanout_stage, cluster_wait, pass}

-- What the stages of an integration keep: the notification log, and the alerts of the calls of
-- `Notify` that have returned no error. A call that returned an error may have reached its receiver,
-- or not; it is not in the list.
pub record World : Type 0 where
  pub log : Log
  pub confirmed : List (List Alert)

-- One integration at one flush: its clocks, whether the context was done before the wait, and what
-- `Notify` answers.
pub record Run : Type 0 where
  pub integration : Dedup
  pub wire : Wire
  pub clock : Time
  pub now : Time
  pub merged : Time
  pub wait_done : Bool
  pub attempts : List Attempt
  pub cause : String

abbrev pub dedup_stage : Run → Stage World
dedup_stage r w ctx alerts = (w, dedup r.integration w.log ctx alerts r.clock)

abbrev pub with_confirmed : World → Option (List Alert) → World
with_confirmed w none = w
with_confirmed w (some alerts) = record w { confirmed = w.confirmed ++ alerts ∷ [] }

abbrev pub retry_stage : Run → Stage World
retry_stage r w ctx alerts =
    let done = retry r.integration ctx alerts r.attempts r.cause in
    (with_confirmed w done.confirmed, done.outcome)

abbrev pub set_notifies_stage : Run → Stage World
set_notifies_stage r w ctx alerts =
    let (l, o) = set_notifies r.wire r.integration.recv w.log ctx alerts r.now r.merged in
    (record w { log = l }, o)

-- The `MultiStage` of an integration.
unfoldable pub integration_stage : Run → Stage World
integration_stage r =
    multi_stage
      (cluster_wait r.wait_done ∷ dedup_stage r ∷ retry_stage r ∷ set_notifies_stage r ∷ [])

abbrev pub integration_stages : List Run → List (Stage World)
integration_stages [] = []
integration_stages (r ∷ rs) = integration_stage r ∷ integration_stages rs

-- `createReceiverStage`
unfoldable pub receiver_stage : List Run → Stage World
receiver_stage rs = fanout_stage (integration_stages rs)
