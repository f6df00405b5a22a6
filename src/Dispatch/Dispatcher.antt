-- ===== src/Dispatch/Dispatcher.antt =====
-- `Dispatcher` of dispatch/dispatch.go: workers that share the groups of the routes.
--
-- A step is one access to what the workers share: the `sync.Map` of a route, the store of a group, the
-- count of the groups, the state. The maps of all the routes are one map on the route's index and the
-- fingerprint of the group labels, `Place`. A pointer to a group is a number; new groups are numbered
-- from `next`. The count of the groups is the difference of `added` and `removed`, since it may be
-- negative for a while. A flush may take out any alerts, of any group that runs. The timers, the
-- contexts, the metrics and the logs are outside; so is the deletion from the group marker.
pub mod Entering
pub mod Holding
pub mod Private
pub mod Facts
pub mod Covers
pub mod Moves
pub mod Placement
pub mod Starting
pub mod Retries
use codestra_alertmanager.Prelude.{
  ℕ, ◌+◌, ◌-◌, Bool, true, false, not, Option, none, some, List, [], ◌∷◌, ◌&&◌, if◌then◌else◌, ltb,
  leb, nat_beq, Comparable, ◌==◌,
}
use codestra_alertmanager.Prelude.Maps.{Map, keys, lookup, insert, erase}
use codestra_alertmanager.Clock.{Time}
use codestra_alertmanager.Alert.{Alert}
use codestra_alertmanager.Store.{Library, new_alerts}
use codestra_alertmanager.Dispatch.Route.{RouteNode}
use codestra_alertmanager.Dispatch.Group.{Group, group_labels, insert_alert, end_flush}

-- `newAggrGroup`
unfoldable pub new_aggr_group : {F : Type 0} → Group F
new_aggr_group = record { store = new_alerts; marker = []; labels_gen = 0 }

-- The group and its flag `running`.
pub record Cell (F : Type 0) : Type 0 where
  pub group : Group F
  pub running : Bool

pub data State : Type 0 where
  waiting_to_start running stopped : State

-- The arguments of `groupAlert` that it needs: the alert, and where its group stands.
pub record Job (P : Type 0) : Type 0 where
  pub alert : Alert
  pub place : P

unfoldable pub job : {F : Type 0} → Library F → Alert → RouteNode → Job (ℕ × F)
job lib a n = record { alert = a; place = (n.idx, lib.fingerprint (group_labels a.labels n.opts)) }

-- How `groupAlert` ends: in a group that it found or that it made, or without one.
pub data End : Type 0 where
  inserted created : ℕ → End
  over_limit gave_up : End

-- Where a worker stands in `groupAlert`: before `Load`; before the insertion into the group found;
-- before the check of the limit, with the group found; at the top of the loop, with `el` if `loaded`,
-- the group made and the retries; before the insertion into `agExisting`; before the count; before the
-- test of the state; at the end.
pub data Pc (P : Type 0) : Type 0 where
  idle : Pc P
  loading : Job P → Pc P
  trying : Job P → ℕ → Pc P
  checking : Job P → Option ℕ → Pc P
  storing : Job P → Option ℕ → ℕ → ℕ → Pc P
  joining : Job P → ℕ → ℕ → ℕ → Pc P
  counting starting : Job P → ℕ → Pc P
  ended : Job P → End → Pc P

-- `Dispatcher`, with the groups that it has made and the places that the start has still to visit.
pub record Dispatcher (F P : Type 0) : Type 0 where
  pub heap : ℕ → Cell F
  pub next : ℕ
  pub groups : Map P ℕ
  pub added : ℕ
  pub removed : ℕ
  pub uncounted : ℕ
  pub state : State
  pub to_start : List P
  pub workers : ℕ → Pc P

-- A function with a new value at one argument.
abbrev pub at {ℓ} : {A : Type ℓ} → ℕ → A → (ℕ → A) → ℕ → A
at i a f j = if nat_beq i j then a else f j

-- The loop is left after more than 100 retries.
abbrev pub retry : {P : Type 0} → Job P → Option ℕ → ℕ → ℕ → Pc P
retry j el ag retries =
    if ltb 100 (retries + 1) then ended j gave_up else storing j el ag (retries + 1)

abbrev pub loaded : {P : Type 0} → Job P → Option ℕ → Pc P
loaded j none = checking j none
loaded j (some el) = trying j el

-- `limit > 0 && current >= limit`, with a limit that is not positive as 0.
abbrev pub is_full : {F P : Type 0} → ℕ → Dispatcher F P → Bool
is_full limit d = ltb 0 limit && leb (limit + d.removed) d.added

module _ {F P : Type 0} where
  abbrev pub goto : ℕ → Pc P → Dispatcher F P → Dispatcher F P
  goto w pc d = record d { workers = at w pc d.workers }

  abbrev pub write : ℕ → Group F → Dispatcher F P → Dispatcher F P
  write g group d = record d { heap = at g (record (d.heap g) { group = group }) d.heap }

  abbrev pub allocate : Group F → Dispatcher F P → Dispatcher F P
  allocate group d = record d {
    heap = at d.next (record { group = group; running = false }) d.heap;
    next = d.next + 1;
  }

  -- `runAG`
  unfoldable pub run_ag : ℕ → Dispatcher F P → Dispatcher F P
  run_ag g d = record d { heap = at g (record (d.heap g) { running = true }) d.heap }

  -- The switch on the state at the end of `groupAlert`.
  abbrev pub started : State → ℕ → Dispatcher F P → Dispatcher F P
  started running g d = run_ag g d
  started waiting_to_start g d = d
  started stopped g d = d

  abbrev pub is_destroyed : ℕ → Dispatcher F P → Bool
  is_destroyed g d = (d.heap g).group.store.is_destroyed

  abbrev pub run_found : Option ℕ → Dispatcher F P → Dispatcher F P
  run_found none d = d
  run_found (some g) d = run_ag g d

  -- After an insertion: the end, or where the worker goes on.
  abbrev pub joined : ℕ → Job P → ℕ → Pc P → Group F × Bool → Dispatcher F P → Dispatcher F P
  joined w j g otherwise (group, ok) d =
      goto w (if ok then ended j (inserted g) else otherwise) (write g group d)

  -- The count that follows a deletion.
  unfoldable pub count_removed : Dispatcher F P → Dispatcher F P
  count_removed d =
      if ltb 0 d.uncounted
      then record d { uncounted = d.uncounted - 1; removed = d.removed + 1 }
      else d

  -- The start timer: the state changes, and then `Range` visits the places.
  abbrev pub on_start : State → Dispatcher F P → Dispatcher F P
  on_start waiting_to_start d = record d { state = running; to_start = keys d.groups }
  on_start running d = d
  on_start stopped d = d

  unfoldable pub start : Dispatcher F P → Dispatcher F P
  start d = on_start d.state d

  unfoldable pub stop : Dispatcher F P → Dispatcher F P
  stop d = record d { state = stopped }

  -- `Run` up to its first alert.
  unfoldable pub new_dispatcher : Dispatcher F P
  new_dispatcher = record {
    heap = λ g. record { group = new_aggr_group; running = false };
    next = 0;
    groups = [];
    added = 0;
    removed = 0;
    uncounted = 0;
    state = waiting_to_start;
    to_start = [];
    workers = λ w. idle;
  }

abbrev pub is_at_rest : {P : Type 0} → Pc P → Bool
is_at_rest idle = true
is_at_rest (ended j r) = true
is_at_rest _ = false

module _ {F P : Type 0} where
  -- A worker that is at rest takes the next alert and route.
  unfoldable pub route_alert : ℕ → Job P → Dispatcher F P → Dispatcher F P
  route_alert w j d = if is_at_rest (d.workers w) then goto w (loading j) d else d

module _ {F P : Type 0} ⦃p : Comparable P⦄ where
  abbrev pub points : P → ℕ → Dispatcher F P → Bool
  points k g d = elim (lookup k d.groups) [ none ↦ false | some h ↦ nat_beq h g ]

  -- `CompareAndSwap`
  abbrev pub swapped : ℕ → Job P → ℕ → ℕ → Bool → Dispatcher F P → Dispatcher F P
  swapped w j ag retries true d =
      goto w (starting j ag) (record d { groups = insert j.place ag d.groups })
  swapped w j ag retries false d = goto w (retry j none ag retries) d

  -- `LoadOrStore`
  abbrev pub stored : ℕ → Job P → ℕ → ℕ → Option ℕ → Dispatcher F P → Dispatcher F P
  stored w j ag retries none d =
      goto w (counting j ag) (record d { groups = insert j.place ag d.groups })
  stored w j ag retries (some el) d = goto w (joining j el ag retries) d

  -- `doMaintenance` at a group that it has found under a place.
  unfoldable pub do_maintenance : P → ℕ → Dispatcher F P → Dispatcher F P
  do_maintenance k g d =
      if is_destroyed g d && points k g d
      then record d { groups = erase k d.groups; uncounted = d.uncounted + 1 }
      else d

  abbrev pub visited : List P → Dispatcher F P → Dispatcher F P
  visited [] d = d
  visited (k ∷ ks) d = run_found (lookup k d.groups) (record d { to_start = ks })

  unfoldable pub visit : Dispatcher F P → Dispatcher F P
  visit d = visited d.to_start d

module _ {F P : Type 0} ⦃e : Comparable F⦄ ⦃p : Comparable P⦄ (lib : Library F) (limit : ℕ) where
  abbrev pub checked : ℕ → Job P → Option ℕ → Time → Bool → Dispatcher F P → Dispatcher F P
  checked w j el now true d = goto w (ended j over_limit) d
  checked w j el now false d =
      goto w (storing j el d.next 0) (allocate (insert_alert lib j.alert now new_aggr_group).0 d)

  -- One step of a worker in `groupAlert`.
  unfoldable pub group_alert : ℕ → Time → Pc P → Dispatcher F P → Dispatcher F P
  group_alert w now idle d = d
  group_alert w now (loading j) d = goto w (loaded j (lookup j.place d.groups)) d
  group_alert w now (trying j el) d =
      joined w j el (checking j (some el)) (insert_alert lib j.alert now (d.heap el).group) d
  group_alert w now (checking j el) d = checked w j el now (is_full limit d) d
  group_alert w now (storing j (some el) ag retries) d =
      swapped w j ag retries (points j.place el d) d
  group_alert w now (storing j none ag retries) d =
      stored w j ag retries (lookup j.place d.groups) d
  group_alert w now (joining j el ag retries) d =
      joined w j el (retry j (some el) ag retries) (insert_alert lib j.alert now (d.heap el).group)
        d
  group_alert w now (counting j ag) d = goto w (starting j ag) (record d { added = d.added + 1 })
  group_alert w now (starting j ag) d = goto w (ended j (created ag)) (started d.state ag d)
  group_alert w now (ended j r) d = d

  -- A group that runs flushes.
  unfoldable pub flush : ℕ → List Alert → Dispatcher F P → Dispatcher F P
  flush g resolved d =
      if (d.heap g).running then write g (end_flush lib resolved (d.heap g).group) d else d

  pub data Step : Dispatcher F P → Dispatcher F P → Type 0 where
    by_worker :
        (d : Dispatcher F P) (w : ℕ) (now : Time) → Step d (group_alert w now (d.workers w) d)
    by_alert : (d : Dispatcher F P) (w : ℕ) (j : Job P) → Step d (route_alert w j d)
    by_flush : (d : Dispatcher F P) (g : ℕ) (resolved : List Alert) → Step d (flush g resolved d)
    by_maintenance : (d : Dispatcher F P) (k : P) (g : ℕ) → Step d (do_maintenance k g d)
    by_count : (d : Dispatcher F P) → Step d (count_removed d)
    by_start : (d : Dispatcher F P) → Step d (start d)
    by_visit : (d : Dispatcher F P) → Step d (visit d)
    by_stop : (d : Dispatcher F P) → Step d (stop d)

  pub data Reach : Dispatcher F P → Type 0 where
    initially : Reach new_dispatcher
    after : {d d' : Dispatcher F P} → Reach d → Step d d' → Reach d'
