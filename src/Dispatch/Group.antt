-- ===== src/Dispatch/Group.antt =====
-- `aggrGroup` of dispatch/dispatch.go: the alerts of a group, their insertion and their flush.
--
-- A flush has two parts, since alerts come in while the notification runs: `begin_flush` reads the
-- alerts that are notified of, and `end_flush` is what follows a success. `sort.Stable` is a stable
-- insertion sort by the order of `AlertSlice`. The group key, the timer, the context and the route's
-- rendered labels are outside, but for the count of the changes that make those labels stale.
pub mod Flush
pub mod Insertion
use Prim.Native.String.{String}
use codestra_alertmanager.Prelude.{
  ℕ, ◌+◌, Bool, true, false, not, Option, none, some, List, [], ◌∷◌, ◌&&◌, ◌||◌, if◌then◌else◌,
  Comparable, ◌==◌, string_eq, contains,
}
use codestra_alertmanager.Prelude.Maps.{Map, lookup, insert}
use codestra_alertmanager.Silence.Data.{is_nil}
use codestra_alertmanager.Clock.{Time}
use codestra_alertmanager.Labels.{LabelSet}
use codestra_alertmanager.Alert.{Alert, Model, less}
use codestra_alertmanager.Store.{
  Library, Alerts, Error, destroyed, get, set, delete_if_not_modified, list, empty,
}
use codestra_alertmanager.Marker.{AlertMarker, unmark}
use codestra_alertmanager.Dispatch.Route.{RouteOpts}

-- `getGroupLabels`
unfoldable pub group_labels : LabelSet → RouteOpts → LabelSet
group_labels [] opts = []
group_labels ((n, v) ∷ ls) opts =
    let rest = group_labels ls opts in
    if contains opts.group_by n || opts.group_by_all then (n, v) ∷ rest else rest

pub record Group (F : Type 0) : Type 0 where
  pub store : Alerts F
  pub marker : AlertMarker F
  pub labels_gen : ℕ

abbrev pub is_destroyed_error : Option Error → Bool
is_destroyed_error (some destroyed) = true
is_destroyed_error _ = false

-- The alerts that are notified of, and those of them that are resolved.
pub record Batch : Type 0 where
  pub alerts : List Alert
  pub resolved : List Alert

-- The loop of `flush`: an alert that is not resolved by now has no end.
abbrev pub frozen : {F : Type 0} → Library F → Time → List Alert → Batch
frozen lib now [] = record { alerts = []; resolved = [] }
frozen lib now (a ∷ as') =
    let rest = frozen lib now as' in
    if lib.resolved_at a now
    then record { alerts = a ∷ rest.alerts; resolved = a ∷ rest.resolved }
    else record { alerts = record a { ends_at = 0 } ∷ rest.alerts; resolved = rest.resolved }

abbrev pub insert_stable : Model → Alert → List Alert → List Alert
insert_stable m a [] = a ∷ []
insert_stable m a (b ∷ bs) =
    let rest = insert_stable m a bs in if less m b a then b ∷ rest else a ∷ b ∷ bs

abbrev pub sort_stable : Model → List Alert → List Alert
sort_stable m [] = []
sort_stable m (a ∷ as') = insert_stable m a (sort_stable m as')

module _ {F : Type 0} ⦃e : Comparable F⦄ (lib : Library F) where
  -- `insert`: the group after it, and whether the group was not destroyed.
  abbrev pub inserted : Group F → Alerts F × Option Error → Group F × Bool
  inserted g (s, none) = (record g { store = s; labels_gen = g.labels_gen + 1 }, true)
  inserted g (s, some err) = (record g { store = s }, not (is_destroyed_error (some err)))

  unfoldable pub insert_alert : Alert → Time → Group F → Group F × Bool
  insert_alert a now g = inserted g (set lib a now g.store)

  -- `flush` up to the call of `notify`; an empty group is not notified of.
  unfoldable pub begin_flush : Model → Time → Group F → Option Batch
  begin_flush m now g =
      if empty g.store
      then none
      else (let batch = frozen lib now (list g.store) in
          some (record batch { alerts = sort_stable m batch.alerts }))

  -- The resolved alerts that have left the store.
  abbrev pub gone : Alerts F → List Alert → List F
  gone s [] = []
  gone s (a ∷ as') =
      let rest = gone s as' in
      elim (get s (lib.fingerprint a.labels)) [
        | none ↦ lib.fingerprint a.labels ∷ rest
        | some b ↦ rest
      ]

  -- `flush` after a notification that succeeded.
  unfoldable pub end_flush : List Alert → Group F → Group F
  end_flush resolved g =
      let s = delete_if_not_modified lib resolved true g.store in
      record {
        store = s;
        marker = unmark (gone s resolved) g.marker;
        labels_gen = if is_nil resolved then g.labels_gen else g.labels_gen + 1;
      }
