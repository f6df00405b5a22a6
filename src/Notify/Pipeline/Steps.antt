-- ===== src/Notify/Pipeline/Steps.antt =====
-- `MultiStage` of notify/notify.go, one stage at a time.
use codestra_alertmanager.Prelude.{true, false, none, some, List, [], ◌∷◌, string_eq, ◌≡◌, refl}
use codestra_alertmanager.Silence.Data.{is_nil}
use codestra_alertmanager.Alert.{Alert}
use codestra_alertmanager.Notify.Stages.{Context, Err, fail}
use codestra_alertmanager.Notify.Pipeline.{Stage, multi_stage, pass}

module _ {W : Type 0} (stage : Stage W) (rest : List (Stage W)) (w : W) (ctx : Context)
    (alerts : List Alert) where
  pub multi_stage-nil :
      is_nil alerts ≡ true → multi_stage (stage ∷ rest) w ctx alerts ≡ (w, pass ctx [])
  unfolding multi_stage
  multi_stage-nil h = rw (h, multi_stage)

  pub multi_stage-err :
      is_nil alerts ≡ false
      → {e : Err} → (stage w ctx alerts).1.err ≡ some e
      → multi_stage (stage ∷ rest) w ctx alerts
        ≡ ((stage w ctx alerts).0, fail (stage w ctx alerts).1.ctx e)
  unfolding multi_stage
  multi_stage-err h q = rw (h, q, multi_stage)

  pub multi_stage-next :
      is_nil alerts ≡ false
      → (stage w ctx alerts).1.err ≡ none
      → multi_stage (stage ∷ rest) w ctx alerts
        ≡ multi_stage rest
            (stage w ctx alerts).0
            (stage w ctx alerts).1.ctx
            (stage w ctx alerts).1.alerts
  unfolding multi_stage
  multi_stage-next h q = rw (h, q, multi_stage)

pub multi_stage-empty :
    {W : Type 0} (w : W) (ctx : Context) (alerts : List Alert)
    → multi_stage [] w ctx alerts ≡ (w, pass ctx alerts)
unfolding multi_stage
multi_stage-empty w ctx alerts = refl
