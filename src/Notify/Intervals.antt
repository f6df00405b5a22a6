-- ===== src/Notify/Intervals.antt =====
-- `TimeMuteStage` and `TimeActiveStage` of notify/mute.go.
--
-- `set_muted` is `SetMuted` of the group marker, which is part of the world.
pub mod Passing
use Prim.Native.String.{String}
use codestra_alertmanager.Prelude.{
  ℕ, Bool, true, false, not, Option, none, some, List, [], ◌∷◌, ◌++◌, if◌then◌else◌, string_eq,
}
use codestra_alertmanager.Silence.Data.{is_nil}
use codestra_alertmanager.Clock.{Time}
use codestra_alertmanager.Alert.{Alert}
use codestra_alertmanager.TimeInterval.{Answer, unknown_interval, contained}
use codestra_alertmanager.Notify.Stages.{
  Context, Err, Outcome, fail, route_id_missing, group_key_missing, now_missing, interval_missing,
}
use codestra_alertmanager.Notify.Pipeline.{Stage, pass}

-- A `TimeMuter`: whether the time is muted is whether the answer has a name.
abbrev pub TimeMuter : Type 0
TimeMuter = List String → Time → Answer

abbrev pub Marker : Type 0 → Type 0
Marker W = W → String → String → List String → W

-- An error beside the alerts that came in.
abbrev pub fail_with : Context → List Alert → Err → Outcome
fail_with ctx alerts e = record { ctx = ctx; alerts = alerts; err = some e }

module _ {W : Type 0} (muter : TimeMuter) (set_muted : Marker W) where
  abbrev pub mute_as : W → Context → List Alert → String → String → Answer → W × Outcome
  mute_as w ctx alerts route gkey (unknown_interval n) =
      (w, fail_with ctx alerts (interval_missing n))
  mute_as w ctx alerts route gkey (contained by) =
      (set_muted w route gkey by, if is_nil by then pass ctx alerts else pass ctx [])

  abbrev pub mute_at :
      W → Context → List Alert → String → String → List String → Option Time → W × Outcome
  mute_at w ctx alerts route gkey names none =
      (set_muted w route gkey [], fail_with ctx alerts now_missing)
  mute_at w ctx alerts route gkey [] (some now) = (set_muted w route gkey [], pass ctx alerts)
  mute_at w ctx alerts route gkey (n ∷ names) (some now) =
      mute_as w ctx alerts route gkey (muter (n ∷ names) now)

  abbrev pub mute_names :
      W → Context → List Alert → String → String → Option (List String) → W × Outcome
  mute_names w ctx alerts route gkey none = (set_muted w route gkey [], pass ctx alerts)
  mute_names w ctx alerts route gkey (some names) = mute_at w ctx alerts route gkey names ctx.now

  abbrev pub mute_group : W → Context → List Alert → String → Option String → W × Outcome
  mute_group w ctx alerts route none = (w, fail ctx group_key_missing)
  mute_group w ctx alerts route (some gkey) =
      mute_names w ctx alerts route gkey ctx.mute_time_intervals

  abbrev pub mute_route : W → Context → List Alert → Option String → W × Outcome
  mute_route w ctx alerts none = (w, fail ctx route_id_missing)
  mute_route w ctx alerts (some route) = mute_group w ctx alerts route ctx.group_key

  -- `TimeMuteStage.Exec`
  unfoldable pub time_mute_stage : Stage W
  time_mute_stage w ctx alerts = mute_route w ctx alerts ctx.route_id

  abbrev pub active_as :
      W → Context → List Alert → String → String → List String → Answer → W × Outcome
  active_as w ctx alerts route gkey names (unknown_interval n) =
      (w, fail_with ctx alerts (interval_missing n))
  active_as w ctx alerts route gkey names (contained by) =
      if is_nil by
      then (set_muted w route gkey names, pass ctx [])
      else (set_muted w route gkey [], pass ctx alerts)

  abbrev pub active_at :
      W → Context → List Alert → String → String → List String → Option Time → W × Outcome
  active_at w ctx alerts route gkey [] now = (set_muted w route gkey [], pass ctx alerts)
  active_at w ctx alerts route gkey (n ∷ names) none =
      (set_muted w route gkey [], fail_with ctx alerts now_missing)
  active_at w ctx alerts route gkey (n ∷ names) (some now) =
      active_as w ctx alerts route gkey (n ∷ names) (muter (n ∷ names) now)

  abbrev pub active_names :
      W → Context → List Alert → String → String → Option (List String) → W × Outcome
  active_names w ctx alerts route gkey none = (set_muted w route gkey [], pass ctx alerts)
  active_names w ctx alerts route gkey (some names) =
      active_at w ctx alerts route gkey names ctx.now

  abbrev pub active_group : W → Context → List Alert → String → Option String → W × Outcome
  active_group w ctx alerts route none = (w, fail ctx group_key_missing)
  active_group w ctx alerts route (some gkey) =
      active_names w ctx alerts route gkey ctx.active_time_intervals

  abbrev pub active_route : W → Context → List Alert → Option String → W × Outcome
  active_route w ctx alerts none = (w, fail ctx route_id_missing)
  active_route w ctx alerts (some route) = active_group w ctx alerts route ctx.group_key

  -- `TimeActiveStage.Exec`
  unfoldable pub time_active_stage : Stage W
  time_active_stage w ctx alerts = active_route w ctx alerts ctx.route_id
