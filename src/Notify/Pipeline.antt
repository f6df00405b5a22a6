-- ===== src/Notify/Pipeline.antt =====
-- The composition of the stages: notify/notify.go, notify/mute.go and notify/cluster_stages.go.
--
-- A stage works on a world `W`: all that stages keep outside the context. Logging, tracing and metrics
-- are outside. `FanoutStage` runs its stages at once; here each runs as one step, and the order of the
-- list stands for the order of these steps.
pub mod Steps
use Prim.Native.String.{String}
use codestra_alertmanager.Prelude.{
  ℕ, Bool, true, false, not, Option, none, some, List, [], ◌∷◌, ◌++◌, if◌then◌else◌, string_eq,
}
use codestra_alertmanager.Prelude.Maps.{Map, lookup}
use codestra_alertmanager.Silence.Data.{is_nil}
use codestra_alertmanager.Clock.{Time}
use codestra_alertmanager.Labels.{LabelSet}
use codestra_alertmanager.Alert.{Alert}
use codestra_alertmanager.Notify.Stages.{
  Context, Err, Outcome, fail, receiver_missing, receiver_stage_missing, route_id_missing,
  group_key_missing, now_missing, context_done, interval_missing, joined,
}

abbrev pub Stage : Type 0 → Type 0
Stage W = W → Context → List Alert → W × Outcome

abbrev pub pass : Context → List Alert → Outcome
pass ctx alerts = record { ctx = ctx; alerts = alerts; err = none }

-- `errors.Join`
abbrev pub join_errs : Option Err → Option Err → Option Err
join_errs errs none = errs
join_errs none (some e) = some e
join_errs (some es) (some e) = some (joined es e)

-- A `Muter`.
abbrev pub Muter : Type 0 → Type 0
Muter W = W → LabelSet → W × Bool

abbrev pub hashes : (Alert → ℕ) → List Alert → List ℕ
hashes hash [] = []
hashes hash (a ∷ as') = hash a ∷ hashes hash as'

abbrev pub or_empty : Option (List ℕ) → List ℕ
or_empty none = []
or_empty (some hs) = hs

module _ {W : Type 0} where
  -- `MultiStage.Exec`
  unfoldable pub multi_stage : List (Stage W) → Stage W
  multi_stage [] w ctx alerts = (w, pass ctx alerts)
  multi_stage (stage ∷ rest) w ctx alerts =
      let (w', o) = stage w ctx alerts in
      let later = multi_stage rest w' o.ctx o.alerts in
      if is_nil alerts
      then (w, pass ctx [])
      else elim o.err [ some e ↦ (w', fail o.ctx e) | none ↦ later ]

  abbrev pub fanout_from : Option Err → List (Stage W) → W → Context → List Alert → W × Option Err
  fanout_from errs [] w ctx alerts = (w, errs)
  fanout_from errs (stage ∷ rest) w ctx alerts =
      let (w', o) = stage w ctx alerts in fanout_from (join_errs errs o.err) rest w' ctx alerts

  -- `FanoutStage.Exec`
  unfoldable pub fanout_stage : List (Stage W) → Stage W
  fanout_stage stages w ctx alerts =
      let (w', errs) = fanout_from none stages w ctx alerts in
      (w', record { ctx = ctx; alerts = alerts; err = errs })

  abbrev pub routed : Option (Stage W) → Stage W
  routed none w ctx alerts = (w, fail ctx receiver_stage_missing)
  routed (some stage) w ctx alerts = stage w ctx alerts

  -- `RoutingStage.Exec`
  unfoldable pub routing_stage : Map String (Stage W) → Stage W
  routing_stage rs w ctx alerts = elim ctx.receiver_name [
    | none ↦ (w, fail ctx receiver_missing)
    | some receiver ↦ routed (lookup receiver rs) w ctx alerts
  ]

  -- The loop of `MuteStage.Exec`: the alerts that go on, and the muted ones.
  abbrev pub split_muted : Muter W → W → List Alert → W × List Alert × List Alert
  split_muted muter w [] = (w, [], [])
  split_muted muter w (a ∷ as') =
      let (w', muted) = muter w a.labels in
      let (w'', passing, stopped) = split_muted muter w' as' in
      if muted then (w'', passing, a ∷ stopped) else (w'', a ∷ passing, stopped)

  -- `MuteStage.Exec`
  unfoldable pub mute_stage : Muter W → (Alert → ℕ) → Stage W
  mute_stage muter hash w ctx alerts =
      let (w', passing, stopped) = split_muted muter w alerts in
      if is_nil stopped then (w', pass ctx passing) else (
        w',
        pass (record ctx { muted_alerts = some (or_empty ctx.muted_alerts ++ hashes hash stopped) })
            passing,
      )

  -- `WaitReady` and `time.After` against the context: whether the context was done first.
  unfoldable pub cluster_wait : Bool → Stage W
  cluster_wait done w ctx alerts = (w, if done then fail ctx context_done else pass ctx alerts)
