-- ===== src/Notify/Retry/Answers.antt =====
-- `RetryStage` of notify/retry_stage.go: what its endings return.
use Prim.Native.String.{String}
use codestra_alertmanager.Prelude.{
  ℕ, Option, none, some, List, [], ◌∷◌, string_eq, ◌≡◌, refl, inl, inr, arith, Bool-cases,
}
use codestra_alertmanager.Alert.{Alert}
use codestra_alertmanager.Notify.Stages.{Context, Err, Dedup}
use codestra_alertmanager.Notify.Retry.{
  Attempt, retry, retry_with, retry_firing, retry_loop, to_send, Ending, delivered, unrecoverable,
  canceled,
}
use codestra_alertmanager.Notify.Pipeline.{pass}

retry_with-failed :
    (ctx : Context) (alerts sent : List Alert) (en : Ending) {e : Err}
    → (retry_with ctx alerts sent en).outcome.err ≡ some e
    → (retry_with ctx alerts sent en).confirmed ≡ none
retry_with-failed ctx alerts sent (delivered i) h = absurd (ground (arith, h))
retry_with-failed ctx alerts sent (unrecoverable i t) h = refl
retry_with-failed ctx alerts sent (canceled i t) h = refl

retry_with-passed :
    (ctx : Context) (alerts sent : List Alert) (en : Ending)
    → (retry_with ctx alerts sent en).outcome.err ≡ none
    → (retry_with ctx alerts sent en).outcome ≡ pass ctx alerts
retry_with-passed ctx alerts sent (delivered i) h = refl
retry_with-passed ctx alerts sent (unrecoverable i t) h = absurd (ground (arith, h))
retry_with-passed ctx alerts sent (canceled i t) h = absurd (ground (arith, h))

retry_firing-failed :
    (d : Dedup) (ctx : Context) (alerts : List Alert) (attempts : List Attempt) (cause : String)
    (o : Option (List ℕ)) {e : Err}
    → (retry_firing d ctx alerts attempts cause o).outcome.err ≡ some e
    → (retry_firing d ctx alerts attempts cause o).confirmed ≡ none
retry_firing-failed d ctx alerts attempts cause none h = refl
retry_firing-failed d ctx alerts attempts cause (some []) h = refl
retry_firing-failed d ctx alerts attempts cause (some (x ∷ xs)) h =
    retry_with-failed ctx alerts (to_send d alerts) (retry_loop attempts cause 0 none) h

retry_firing-passed :
    (d : Dedup) (ctx : Context) (alerts : List Alert) (attempts : List Attempt) (cause : String)
    (o : Option (List ℕ))
    → (retry_firing d ctx alerts attempts cause o).outcome.err ≡ none
    → (retry_firing d ctx alerts attempts cause o).outcome ≡ pass ctx alerts
retry_firing-passed d ctx alerts attempts cause none h = absurd (ground (arith, h))
retry_firing-passed d ctx alerts attempts cause (some []) h = refl
retry_firing-passed d ctx alerts attempts cause (some (x ∷ xs)) h =
    retry_with-passed ctx alerts (to_send d alerts) (retry_loop attempts cause 0 none) h

module _ (d : Dedup) (ctx : Context) (alerts : List Alert) (attempts : List Attempt)
    (cause : String) where
  pub retry-failed :
      {e : Err}
      → (retry d ctx alerts attempts cause).outcome.err ≡ some e
      → (retry d ctx alerts attempts cause).confirmed ≡ none
  unfolding retry to_send
  retry-failed {e} h = elim (Bool-cases d.send_resolved) [
    | inl q ↦
        rw q (
          retry_with-failed ctx alerts alerts (retry_loop attempts cause 0 none) {e = e}
            (rw q at h))
    | inr q ↦
        rw q (retry_firing-failed d ctx alerts attempts cause ctx.firing_alerts {e = e} (rw q at h))
  ]

  pub retry-passed :
      (retry d ctx alerts attempts cause).outcome.err ≡ none
      → (retry d ctx alerts attempts cause).outcome ≡ pass ctx alerts
  unfolding retry to_send
  retry-passed h = elim (Bool-cases d.send_resolved) [
    | inl q ↦
        rw q (retry_with-passed ctx alerts alerts (retry_loop attempts cause 0 none) (rw q at h))
    | inr q ↦ rw q (retry_firing-passed d ctx alerts attempts cause ctx.firing_alerts (rw q at h))
  ]
