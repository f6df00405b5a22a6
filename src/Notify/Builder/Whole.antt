-- ===== src/Notify/Builder/Whole.antt =====
-- The stages before a receiver's stage that pass all the alerts of a group or none: the wait of
-- notify/cluster_stages.go and the time stages of notify/mute.go.
use Prim.Native.String.{String}
use codestra_alertmanager.Prelude.{
  ◌≡◌, refl, Bool, true, false, Option, none, some, List, [], ◌∷◌, ◌⊎◌, inl, inr,
}
use codestra_alertmanager.Clock.{Time}
use codestra_alertmanager.Alert.{Alert}
use codestra_alertmanager.TimeInterval.{Answer, unknown_interval, contained}
use codestra_alertmanager.Notify.Stages.{Context, Outcome}
use codestra_alertmanager.Notify.Pipeline.{cluster_wait}
use codestra_alertmanager.Notify.Intervals.{
  TimeMuter, Marker, time_mute_stage, time_active_stage, mute_as, mute_at, mute_names, mute_group,
  mute_route, active_as, active_at, active_names, active_group, active_route,
}

-- All the alerts pass, or none does.
abbrev pub AllOrNone : List Alert → Outcome → Type 0
AllOrNone alerts o = (o.alerts ≡ alerts) ⊎ (o.alerts ≡ [])

module _ {W : Type 0} where
  pub cluster_wait-AllOrNone :
      (done : Bool) (w : W) (ctx : Context) (alerts : List Alert)
      → AllOrNone alerts (cluster_wait done w ctx alerts).1
  unfolding cluster_wait
  cluster_wait-AllOrNone true w ctx alerts = inr refl
  cluster_wait-AllOrNone false w ctx alerts = inl refl

  module _ (muter : TimeMuter) (set_muted : Marker W) (w : W) (ctx : Context)
      (alerts : List Alert) where
    mute_as-AllOrNone :
        (route gkey : String) (a : Answer)
        → AllOrNone alerts (mute_as muter set_muted w ctx alerts route gkey a).1
    mute_as-AllOrNone route gkey (unknown_interval n) = inl refl
    mute_as-AllOrNone route gkey (contained []) = inl refl
    mute_as-AllOrNone route gkey (contained (x ∷ xs)) = inr refl

    mute_at-AllOrNone :
        (route gkey : String) (names : List String) (now : Option Time)
        → AllOrNone alerts (mute_at muter set_muted w ctx alerts route gkey names now).1
    mute_at-AllOrNone route gkey names none = inl refl
    mute_at-AllOrNone route gkey [] (some now) = inl refl
    mute_at-AllOrNone route gkey (n ∷ names) (some now) =
        mute_as-AllOrNone route gkey (muter (n ∷ names) now)

    mute_names-AllOrNone :
        (route gkey : String) (names : Option (List String))
        → AllOrNone alerts (mute_names muter set_muted w ctx alerts route gkey names).1
    mute_names-AllOrNone route gkey none = inl refl
    mute_names-AllOrNone route gkey (some names) = mute_at-AllOrNone route gkey names ctx.now

    mute_group-AllOrNone :
        (route : String) (key : Option String)
        → AllOrNone alerts (mute_group muter set_muted w ctx alerts route key).1
    mute_group-AllOrNone route none = inr refl
    mute_group-AllOrNone route (some gkey) = mute_names-AllOrNone route gkey ctx.mute_time_intervals

    mute_route-AllOrNone :
        (route : Option String) → AllOrNone alerts (mute_route muter set_muted w ctx alerts route).1
    mute_route-AllOrNone none = inr refl
    mute_route-AllOrNone (some route) = mute_group-AllOrNone route ctx.group_key

    pub time_mute_stage-AllOrNone :
        AllOrNone alerts (time_mute_stage muter set_muted w ctx alerts).1
    unfolding time_mute_stage
    time_mute_stage-AllOrNone = mute_route-AllOrNone ctx.route_id

    active_as-AllOrNone :
        (route gkey : String) (names : List String) (a : Answer)
        → AllOrNone alerts (active_as muter set_muted w ctx alerts route gkey names a).1
    active_as-AllOrNone route gkey names (unknown_interval n) = inl refl
    active_as-AllOrNone route gkey names (contained []) = inr refl
    active_as-AllOrNone route gkey names (contained (x ∷ xs)) = inl refl

    active_at-AllOrNone :
        (route gkey : String) (names : List String) (now : Option Time)
        → AllOrNone alerts (active_at muter set_muted w ctx alerts route gkey names now).1
    active_at-AllOrNone route gkey [] now = inl refl
    active_at-AllOrNone route gkey (n ∷ names) none = inl refl
    active_at-AllOrNone route gkey (n ∷ names) (some now) =
        active_as-AllOrNone route gkey (n ∷ names) (muter (n ∷ names) now)

    active_names-AllOrNone :
        (route gkey : String) (names : Option (List String))
        → AllOrNone alerts (active_names muter set_muted w ctx alerts route gkey names).1
    active_names-AllOrNone route gkey none = inl refl
    active_names-AllOrNone route gkey (some names) = active_at-AllOrNone route gkey names ctx.now

    active_group-AllOrNone :
        (route : String) (key : Option String)
        → AllOrNone alerts (active_group muter set_muted w ctx alerts route key).1
    active_group-AllOrNone route none = inr refl
    active_group-AllOrNone route (some gkey) =
        active_names-AllOrNone route gkey ctx.active_time_intervals

    active_route-AllOrNone :
        (route : Option String)
        → AllOrNone alerts (active_route muter set_muted w ctx alerts route).1
    active_route-AllOrNone none = inr refl
    active_route-AllOrNone (some route) = active_group-AllOrNone route ctx.group_key

    pub time_active_stage-AllOrNone :
        AllOrNone alerts (time_active_stage muter set_muted w ctx alerts).1
    unfolding time_active_stage
    time_active_stage-AllOrNone = active_route-AllOrNone ctx.route_id
