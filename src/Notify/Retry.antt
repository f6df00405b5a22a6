-- ===== src/Notify/Retry.antt =====
-- `RetryStage` of notify/retry_stage.go: the loop over the attempts of one integration.
--
-- An attempt is a round of the loop in which `Notify` was called: what it answered, and whether the
-- context was not done after it. The list of attempts is what the ticker allows before the context is
-- done; after it the loop finds the context done, with `cause`. An error of `Notify` is its text.
pub mod Answers
use Prim.Native.String.{String}
use codestra_alertmanager.Prelude.{
  ℕ, zero, suc, ◌+◌, Bool, true, false, not, Option, none, some, List, [], ◌∷◌, if◌then◌else◌,
}
use codestra_alertmanager.Silence.Data.{is_nil}
use codestra_alertmanager.Alert.{Alert}
use codestra_alertmanager.Notify.Stages.{
  Context, Err, Dedup, Outcome, fail, firing_alerts_missing, notify_canceled, notify_unrecoverable,
}

pub record Attempt : Type 0 where
  pub error : Option String
  pub retry : Bool
  pub context_open : Bool

-- How the loop ends: with a success, with an error that is not retried, or with the context done. The
-- number is that of the calls of `Notify`.
pub data Ending : Type 0 where
  delivered : ℕ → Ending
  unrecoverable canceled : ℕ → String → Ending

abbrev pub or_cause : Option String → String → String
or_cause none cause = cause
or_cause (some e) cause = e

-- The loop of `exec`, where `i` attempts are made and `last` is the last error that was kept.
unfoldable pub retry_loop : List Attempt → String → ℕ → Option String → Ending
retry_loop [] cause i last = canceled i (or_cause last cause)
retry_loop (a ∷ rest) cause i last = elim a.error [
  | none ↦ delivered (i + 1)
  | some e ↦
      let more = retry_loop rest cause (i + 1) (some e) in
      if not a.retry
      then unrecoverable (i + 1) e
      else if a.context_open
      then more
      else canceled (i + 1) (or_cause last cause)
]

-- The alerts that `Notify` is called with.
unfoldable pub to_send : Dedup → List Alert → List Alert
to_send d [] = []
to_send d (a ∷ as') = let rest = to_send d as' in if d.resolved a then rest else a ∷ rest

abbrev pub ended : Context → List Alert → Ending → Outcome
ended ctx alerts (delivered i) = record { ctx = ctx; alerts = alerts; err = none }
ended ctx alerts (unrecoverable i e) = record {
  ctx = ctx;
  alerts = alerts;
  err = some (notify_unrecoverable i e);
}
ended ctx alerts (canceled i e) = record {
  ctx = ctx;
  alerts = [];
  err = some (notify_canceled i e);
}

-- What the stage did: the alerts of the call of `Notify` that returned no error, if one did, and what
-- the stage returns. Whether the receiver has got something by a call that returned an error is not
-- known to the stage, and `confirmed` says nothing of those calls.
pub record Retried : Type 0 where
  pub confirmed : Option (List Alert)
  pub outcome : Outcome

abbrev pub confirmed_by : List Alert → Ending → Option (List Alert)
confirmed_by alerts (delivered i) = some alerts
confirmed_by alerts _ = none

abbrev pub retry_with : Context → List Alert → List Alert → Ending → Retried
retry_with ctx alerts sent ending = record {
  confirmed = confirmed_by sent ending;
  outcome = ended ctx alerts ending;
}

abbrev pub retry_firing :
    Dedup → Context → List Alert → List Attempt → String → Option (List ℕ) → Retried
retry_firing d ctx alerts attempts cause none = record {
  confirmed = none;
  outcome = fail ctx firing_alerts_missing;
}
retry_firing d ctx alerts attempts cause (some []) = record {
  confirmed = none;
  outcome = record { ctx = ctx; alerts = alerts; err = none };
}
retry_firing d ctx alerts attempts cause (some (h ∷ hs)) =
    retry_with ctx alerts (to_send d alerts) (retry_loop attempts cause 0 none)

-- `exec`
unfoldable pub retry : Dedup → Context → List Alert → List Attempt → String → Retried
retry d ctx alerts attempts cause =
    if d.send_resolved
    then retry_with ctx alerts alerts (retry_loop attempts cause 0 none)
    else retry_firing d ctx alerts attempts cause ctx.firing_alerts
