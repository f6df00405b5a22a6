-- ===== src/Notify/Builder.antt =====
-- `PipelineBuilder.New` of notify/notify.go: the stages before a receiver's stage, and what they let pass.
pub mod Whole
pub mod Cleared
use Prim.Native.String.{String}
use codestra_alertmanager.Prelude.{ℕ, Bool, Option, List, [], ◌∷◌}
use codestra_alertmanager.Prelude.Maps.{Map}
use codestra_alertmanager.Alert.{Alert}
use codestra_alertmanager.Notify.Pipeline.{
  Stage, Muter, multi_stage, routing_stage, mute_stage, cluster_wait,
}
use codestra_alertmanager.Notify.Intervals.{TimeMuter, Marker, time_mute_stage, time_active_stage}

-- The inhibitor, the silencer, the intervener and the group marker, and whether the wait for the
-- cluster ended with an error.
pub record Parts (W : Type 0) : Type 0 where
  pub inhibitor : Muter W
  pub silencer : Muter W
  pub intervener : TimeMuter
  pub set_muted : Marker W
  pub hash : Alert → ℕ
  pub settle_failed : Bool

module _ {W : Type 0} where
  -- The stages of one receiver, whose own stage is the last.
  unfoldable pub stages_for : Parts W → Stage W → List (Stage W)
  stages_for p receiver =
      cluster_wait p.settle_failed
      ∷ mute_stage p.inhibitor p.hash
      ∷ time_active_stage p.intervener p.set_muted
      ∷ time_mute_stage p.intervener p.set_muted
      ∷ mute_stage p.silencer p.hash
      ∷ receiver
      ∷ []

  abbrev pub stages_of_each : Parts W → Map String (Stage W) → Map String (Stage W)
  stages_of_each p [] = []
  stages_of_each p ((name, receiver) ∷ m) =
      (name, multi_stage (stages_for p receiver)) ∷ stages_of_each p m

  -- `New`, from the stages that `createReceiverStage` makes of the receivers.
  unfoldable pub new_pipeline : Parts W → Map String (Stage W) → Stage W
  new_pipeline p receivers = routing_stage (stages_of_each p receivers)
