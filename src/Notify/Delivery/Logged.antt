-- ===== src/Notify/Delivery/Logged.antt =====
-- The stages of an integration: the log changes only after a notification.
use codestra_alertmanager.Prelude.{
  true, false, Option, none, some, List, [], ◌∷◌, string_eq, ◌≡◌, refl, ◌⊎◌, inl, inr, arith,
  Bool-cases, Option-cases, ap, sym, subst, ◌∙◌,
}
use codestra_alertmanager.Silence.Data.{is_nil}
use codestra_alertmanager.Alert.{Alert}
use codestra_alertmanager.Nflog.Log.{Log}
use codestra_alertmanager.Notify.Stages.{Context, Err, Outcome, fail, dedup, set_notifies}
use codestra_alertmanager.Notify.Retry.{retry}
use codestra_alertmanager.Notify.Pipeline.{multi_stage, cluster_wait, pass}
use codestra_alertmanager.Notify.Stages.{fail, context_done}
use codestra_alertmanager.Notify.Retry.Answers.{retry-failed, retry-passed}
use codestra_alertmanager.Notify.Pipeline.Steps.{
  multi_stage-empty, multi_stage-nil, multi_stage-err, multi_stage-next,
}
use codestra_alertmanager.Notify.Delivery.{
  World, Run, dedup_stage, retry_stage, set_notifies_stage, with_confirmed, integration_stage,
}

-- No call of `Notify` was confirmed and the log is as it was; and where no error is returned, no alert is
-- left to notify of.
pub record Untouched (w : World) (res : World × Outcome) : Type 0 where
  pub world_same : res.0 ≡ w
  pub nothing_due : res.1.err ≡ none → res.1.alerts ≡ []

-- The deduplication found a notification due, an attempt succeeded or there was nothing to send, and
-- then the log took the notification.
pub record Delivered (r : Run) (w : World) (ctx : Context) (alerts : List Alert)
    (res : World × Outcome) : Type 0 where
  pub due : is_nil (dedup r.integration w.log ctx alerts r.clock).alerts ≡ false
  pub attempted :
      (retry r.integration
        (dedup r.integration w.log ctx alerts r.clock).ctx
        (dedup r.integration w.log ctx alerts r.clock).alerts
        r.attempts
        r.cause).outcome
      ≡ pass
          (dedup r.integration w.log ctx alerts r.clock).ctx
          (dedup r.integration w.log ctx alerts r.clock).alerts
  pub confirmed_more :
      res.0.confirmed
      ≡ (with_confirmed w
          (retry r.integration
            (dedup r.integration w.log ctx alerts r.clock).ctx
            (dedup r.integration w.log ctx alerts r.clock).alerts
            r.attempts
            r.cause).confirmed).confirmed
  pub logged :
      res.0.log
      ≡ (set_notifies r.wire r.integration.recv w.log
          (dedup r.integration w.log ctx alerts r.clock).ctx
          (dedup r.integration w.log ctx alerts r.clock).alerts
          r.now
          r.merged).0

module _ (r : Run) (w : World) (ctx : Context) (alerts : List Alert) where
  abbrev pub Result : World × Outcome → Type 0
  Result res = Untouched w res ⊎ Delivered r w ctx alerts res

  failed : (c : Context) (e : Err) → Result (w, fail c e)
  failed c e = inl (record { world_same = refl; nothing_due = λ h. absurd (ground (arith, h)) })

  none_left : (c : Context) → Result (w, pass c [])
  none_left c = inl (record { world_same = refl; nothing_due = λ h. refl })

  log-with_confirmed : (o : Option (List Alert)) → (with_confirmed w o).log ≡ w.log
  log-with_confirmed none = refl
  log-with_confirmed (some x) = refl

  set_notifies_last :
      (c : Context) (as' : List Alert) (v : World)
      → v.log ≡ w.log
      → is_nil as' ≡ false
      → ((multi_stage (set_notifies_stage r ∷ []) v c as').0.confirmed ≡ v.confirmed)
        × ((multi_stage (set_notifies_stage r ∷ []) v c as').0.log
            ≡ (set_notifies r.wire r.integration.recv w.log c as' r.now r.merged).0)
  set_notifies_last c as' v same h =
      let logged =
        ap (λ (l : Log). (set_notifies r.wire r.integration.recv l c as' r.now r.merged).0) same in
      elim (Option-cases (set_notifies_stage r v c as').1.err) [
        | inr (e, q) ↦
            let step = multi_stage-err (set_notifies_stage r) [] v c as' h q in
            (
              ap (λ (p : World × Outcome). p.0.confirmed) step,
              ap (λ (p : World × Outcome). p.0.log) step ∙ logged,
            )
        | inl q ↦
            let step = multi_stage-next (set_notifies_stage r) [] v c as' h q in
            let o = set_notifies_stage r v c as' in
            let last = step ∙ multi_stage-empty o.0 o.1.ctx o.1.alerts in
            (
              ap (λ (p : World × Outcome). p.0.confirmed) last,
              ap (λ (p : World × Outcome). p.0.log) last ∙ logged,
            )
      ]

  retry_last :
      is_nil (dedup r.integration w.log ctx alerts r.clock).alerts ≡ false
      → Result (
          multi_stage
            (retry_stage r ∷ set_notifies_stage r ∷ [])
            w
            (dedup r.integration w.log ctx alerts r.clock).ctx
            (dedup r.integration w.log ctx alerts r.clock).alerts)
  retry_last due =
      let d = dedup r.integration w.log ctx alerts r.clock in
      let tried = retry r.integration d.ctx d.alerts r.attempts r.cause in
      elim (Option-cases tried.outcome.err) [
        | inr (e, q) ↦
            let quiet : with_confirmed w tried.confirmed ≡ w =
              ap (with_confirmed w)
                (retry-failed r.integration d.ctx d.alerts r.attempts r.cause {e = e} q) in
            subst Result
              (sym (
                multi_stage-err (retry_stage r) (set_notifies_stage r ∷ []) w d.ctx d.alerts due q
                ∙ ap (λ (v : World). (v, fail tried.outcome.ctx e)) quiet))
              (failed tried.outcome.ctx e)
        | inl q ↦
            let passed = retry-passed r.integration d.ctx d.alerts r.attempts r.cause q in
            let (confirmed_same, log_same) =
              set_notifies_last d.ctx d.alerts (with_confirmed w tried.confirmed)
                (log-with_confirmed tried.confirmed) due in
            subst Result
              (sym (
                multi_stage-next (retry_stage r) (set_notifies_stage r ∷ []) w d.ctx d.alerts due q
                ∙ ap
                    (λ (o : Outcome).
                      multi_stage (set_notifies_stage r ∷ []) (with_confirmed w tried.confirmed)
                        o.ctx o.alerts)
                    passed))
              (inr (record {
                due = due;
                attempted = passed;
                confirmed_more = confirmed_same;
                logged = log_same;
              }))
      ]

  dedup_last :
      is_nil alerts ≡ false
      → Result
          (multi_stage (dedup_stage r ∷ retry_stage r ∷ set_notifies_stage r ∷ []) w ctx alerts)
  dedup_last h =
      let d = dedup r.integration w.log ctx alerts r.clock in
      elim (Option-cases d.err) [
        | inr (e, q) ↦
            subst Result
              (sym (
                multi_stage-err (dedup_stage r) (retry_stage r ∷ set_notifies_stage r ∷ []) w ctx
                  alerts h q))
              (failed d.ctx e)
        | inl q ↦
            subst Result
              (sym (
                multi_stage-next (dedup_stage r) (retry_stage r ∷ set_notifies_stage r ∷ []) w ctx
                  alerts h q))
              (elim (Bool-cases (is_nil d.alerts)) [
                | inl idle ↦
                    subst Result
                      (sym (
                        multi_stage-nil (retry_stage r) (set_notifies_stage r ∷ []) w d.ctx d.alerts
                          idle))
                      (none_left d.ctx)
                | inr due ↦ retry_last due
              ])
      ]

  wait_passes : r.wait_done ≡ false → cluster_wait r.wait_done w ctx alerts ≡ (w, pass ctx alerts)
  unfolding cluster_wait
  wait_passes h = rw (h, cluster_wait)

  wait_fails :
      r.wait_done ≡ true → cluster_wait r.wait_done w ctx alerts ≡ (w, fail ctx context_done)
  unfolding cluster_wait
  wait_fails h = rw (h, cluster_wait)

  -- The stages of an integration either leave the notification log and the calls of `Notify` that
  -- have returned no error as they were, and then return no alerts unless they return an error; or
  -- the deduplication found alerts to notify of, the retry stage passed them without an error, the
  -- call by which it did so, if it made one, is added to those calls, and the log is what
  -- SetNotifiesStage makes of it.
  pub integration_stage_lem : Result (integration_stage r w ctx alerts)
  unfolding integration_stage
  integration_stage_lem =
      let rest = dedup_stage r ∷ retry_stage r ∷ set_notifies_stage r ∷ [] in
      elim (Bool-cases (is_nil alerts)) [
        | inl q ↦
            subst Result (sym (multi_stage-nil (cluster_wait r.wait_done) rest w ctx alerts q))
              (none_left ctx)
        | inr q ↦ elim (Bool-cases r.wait_done) [
          | inl done ↦
              let step = wait_fails done in
              subst Result
                (sym (
                  multi_stage-err (cluster_wait r.wait_done) rest w ctx alerts q
                    (ap (λ (p : World × Outcome). p.1.err) step)
                  ∙ ap (λ (p : World × Outcome). (p.0, fail p.1.ctx context_done)) step))
                (failed ctx context_done)
          | inr waited ↦
              let step = wait_passes waited in
              subst Result
                (sym (
                  multi_stage-next (cluster_wait r.wait_done) rest w ctx alerts q
                    (ap (λ (p : World × Outcome). p.1.err) step)
                  ∙ ap (λ (p : World × Outcome). multi_stage rest p.0 p.1.ctx p.1.alerts) step))
                (dedup_last q)
        ]
      ]
