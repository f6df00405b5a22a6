-- ===== src/Notify/Builder/Cleared.antt =====
-- The pipeline of notify/notify.go: the alerts that reach the stage of a receiver.
use codestra_alertmanager.Prelude.{
  ℕ, ◌≡◌, refl, ap, sym, subst, Bool, true, false, List, [], ◌∷◌, ◌⊎◌, inl, inr, Bool-cases,
  Option-cases,
}
use codestra_alertmanager.Silence.Data.{is_nil}
use codestra_alertmanager.Alert.{Alert}
use codestra_alertmanager.Notify.Stages.{Context, Outcome}
use codestra_alertmanager.Notify.Pipeline.{
  Stage, Muter, multi_stage, split_muted, mute_stage, cluster_wait,
}
use codestra_alertmanager.Notify.Pipeline.Steps.{multi_stage-nil, multi_stage-err, multi_stage-next}
use codestra_alertmanager.Notify.Intervals.{time_mute_stage, time_active_stage}
use codestra_alertmanager.Notify.Builder.{Parts, stages_for}
use codestra_alertmanager.Notify.Builder.Whole.{
  AllOrNone, cluster_wait-AllOrNone, time_active_stage-AllOrNone, time_mute_stage-AllOrNone,
}

module _ {W : Type 0} where
  -- A muter is asked about the alerts one after the other, from the world `w` to the world `v`, each
  -- time in the world that the answer before has left, and the alerts that are left are exactly those
  -- that it then answered are not muted, in their order.
  pub data Clears (muter : Muter W) : W → List Alert → W → List Alert → Type 0 where
    finished : {w : W} → Clears muter w [] w []
    muted :
        {w v : W} {a : Alert} {as' left : List Alert}
        → (muter w a.labels).1 ≡ true
        → Clears muter (muter w a.labels).0 as' v left
        → Clears muter w (a ∷ as') v left
    free :
        {w v : W} {a : Alert} {as' left : List Alert}
        → (muter w a.labels).1 ≡ false
        → Clears muter (muter w a.labels).0 as' v left
        → Clears muter w (a ∷ as') v (a ∷ left)

  split_muted-Clears :
      (muter : Muter W) (w : W) (alerts : List Alert)
      → Clears muter w alerts (split_muted muter w alerts).0 (split_muted muter w alerts).1
  split_muted-Clears muter w [] = finished
  split_muted-Clears muter w (a ∷ as') =
      let rest = split_muted-Clears muter (muter w a.labels).0 as' in
      elim (Bool-cases (muter w a.labels).1) [
        | inl p ↦ rw p (muted p rest)
        | inr p ↦ rw p (free p rest)
      ]

  mute_stage-Clears :
      (muter : Muter W) (hash : Alert → ℕ) (w : W) (ctx : Context) (alerts : List Alert)
      → Clears muter w alerts
          (mute_stage muter hash w ctx alerts).0
          (mute_stage muter hash w ctx alerts).1.alerts
  unfolding mute_stage
  mute_stage-Clears muter hash w ctx alerts =
      elim (Bool-cases (is_nil (split_muted muter w alerts).2)) [
        | inl none_muted ↦ rw (none_muted, mute_stage) (split_muted-Clears muter w alerts)
        | inr some_muted ↦ rw (some_muted, mute_stage) (split_muted-Clears muter w alerts)
      ]

  -- The world that `TimeActiveStage` and then `TimeMuteStage` leave, for the same alerts.
  abbrev after_times : Parts W → W → Context → List Alert → W
  after_times p w ctx alerts =
      let active = time_active_stage p.intervener p.set_muted w ctx alerts in
      (time_mute_stage p.intervener p.set_muted active.0 active.1.ctx alerts).0

  -- From the world `w`, the inhibitor is asked about the given alerts, then the time stages run on
  -- those that it has not muted, then the silencer is asked about these, and the outcome is that of the
  -- receiver's stage on the alerts that the silencer has not muted, in the world that it has left.
  pub record Delivers (p : Parts W) (receiver : Stage W) (w : W) (ctx : Context)
      (alerts : List Alert) (res : W × Outcome) : Type 0 where
    pub inhibited : W
    pub silenced : W
    pub active : List Alert
    pub due : List Alert
    pub later : Context
    pub by_inhibitor : Clears p.inhibitor w alerts inhibited active
    pub by_silencer :
        Clears p.silencer
          (after_times p inhibited (mute_stage p.inhibitor p.hash w ctx alerts).1.ctx active)
          active
          silenced
          due
    pub received : res ≡ multi_stage (receiver ∷ []) silenced later due

  module _ (p : Parts W) (receiver : Stage W) (w : W) (ctx : Context) (alerts : List Alert) where
    abbrev pub Reaches : W × Outcome → Type 0
    Reaches res = Delivers p receiver w ctx alerts res ⊎ (res.1.alerts ≡ [])

    -- A stage either ends the run without alerts, or hands on what it returns.
    reach_step :
        (stage : Stage W) (rest : List (Stage W)) (v : W) (c : Context) (as' : List Alert)
        → (let o = stage v c as' in Reaches (multi_stage rest o.0 o.1.ctx o.1.alerts))
        → Reaches (multi_stage (stage ∷ rest) v c as')
    reach_step stage rest v c as' then_reaches = elim (Bool-cases (is_nil as')) [
      | inl q ↦ inr (ap (λ (r : W × Outcome). r.1.alerts) (multi_stage-nil stage rest v c as' q))
      | inr q ↦ elim (Option-cases (stage v c as').1.err) [
        | inr (e, h) ↦
            inr (ap (λ (r : W × Outcome). r.1.alerts) (multi_stage-err stage rest v c as' q h))
        | inl h ↦ subst Reaches (sym (multi_stage-next stage rest v c as' q h)) then_reaches
      ]
    ]

    -- A stage that passes all its alerts or none.
    reach_all :
        (stage : Stage W) (next : Stage W) (rest : List (Stage W)) (v : W) (c : Context)
        (as' : List Alert)
        → AllOrNone as' (stage v c as').1
        → (let o = stage v c as' in Reaches (multi_stage (next ∷ rest) o.0 o.1.ctx as'))
        → Reaches (multi_stage (stage ∷ next ∷ rest) v c as')
    reach_all stage next rest v c as' passes then_reaches =
        let o = stage v c as' in
        reach_step stage (next ∷ rest) v c as' (elim passes [
          | inl q ↦
              subst (λ (bs : List Alert). Reaches (multi_stage (next ∷ rest) o.0 o.1.ctx bs))
                (sym q) then_reaches
          | inr q ↦ inr (
              ap (λ (r : W × Outcome). r.1.alerts)
                (multi_stage-nil next rest o.0 o.1.ctx o.1.alerts (ap is_nil q)))
        ])

    world-cluster_wait : (done : Bool) → (cluster_wait {W = W} done w ctx alerts).0 ≡ w
    unfolding cluster_wait
    world-cluster_wait done = refl

    ctx-cluster_wait : (done : Bool) → (cluster_wait {W = W} done w ctx alerts).1.ctx ≡ ctx
    unfolding cluster_wait
    ctx-cluster_wait true = refl
    ctx-cluster_wait false = refl

    -- The stages that `New` puts before a receiver's stage either end without alerts, or end as
    -- the receiver's stage does on the alerts that are left as follows: the inhibitor is asked
    -- about the given alerts one after the other, from the world in which the stages start; the
    -- time stages run on those that it answered are not muted; the silencer is asked about these
    -- in the same way, from the world that the time stages have left; and exactly those that it
    -- answered are not muted are left, in their order, in the world that it leaves.
    pub stages_for-Reaches : Reaches (multi_stage (stages_for p receiver) w ctx alerts)
    unfolding stages_for
    stages_for-Reaches =
        let inhibit = mute_stage p.inhibitor p.hash in
        let act = time_active_stage p.intervener p.set_muted in
        let mute = time_mute_stage p.intervener p.set_muted in
        let silence = mute_stage p.silencer p.hash in
        let o1 = inhibit w ctx alerts in
        let o2 = act o1.0 o1.1.ctx o1.1.alerts in
        let o3 = mute o2.0 o2.1.ctx o1.1.alerts in
        let o4 = silence o3.0 o3.1.ctx o1.1.alerts in
        let rest = act ∷ mute ∷ silence ∷ receiver ∷ [] in
        let arrived : Reaches (multi_stage (inhibit ∷ rest) w ctx alerts) =
          reach_step inhibit rest w ctx alerts (
            reach_all act mute (silence ∷ receiver ∷ []) o1.0 o1.1.ctx o1.1.alerts
              (time_active_stage-AllOrNone p.intervener p.set_muted o1.0 o1.1.ctx o1.1.alerts)
              (reach_all mute silence (receiver ∷ []) o2.0 o2.1.ctx o1.1.alerts
                (time_mute_stage-AllOrNone p.intervener p.set_muted o2.0 o2.1.ctx o1.1.alerts)
                (reach_step silence (receiver ∷ []) o3.0 o3.1.ctx o1.1.alerts (
                  inl (record {
                    inhibited = o1.0;
                    silenced = o4.0;
                    active = o1.1.alerts;
                    due = o4.1.alerts;
                    later = o4.1.ctx;
                    by_inhibitor = mute_stage-Clears p.inhibitor p.hash w ctx alerts;
                    by_silencer = mute_stage-Clears p.silencer p.hash o3.0 o3.1.ctx o1.1.alerts;
                    received = refl;
                  }))))) in
        let ready = cluster_wait p.settle_failed w ctx alerts in
        reach_all (cluster_wait p.settle_failed) inhibit rest w ctx alerts
          (cluster_wait-AllOrNone p.settle_failed w ctx alerts)
          (subst (λ (v : W). Reaches (multi_stage (inhibit ∷ rest) v ready.1.ctx alerts))
            (sym (world-cluster_wait p.settle_failed))
            (subst (λ (c : Context). Reaches (multi_stage (inhibit ∷ rest) w c alerts))
              (sym (ctx-cluster_wait p.settle_failed)) arrived))
