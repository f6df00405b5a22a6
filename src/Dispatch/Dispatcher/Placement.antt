-- ===== src/Dispatch/Dispatcher/Placement.antt =====
-- `groupAlert` of dispatch/dispatch.go: where the group of an alert stands.
use codestra_alertmanager.Prelude.{
  ℕ, ◌+◌, ◌-◌, ◌<◌, Bool, true, false, Option, none, some, List, [], ◌∷◌, ◌≡◌, refl, subst, ◌∙◌,
  arith, Comparable, Bool-cases, ◌⊎◌, inl, inr, if_elim, ltb, ◌&&◌,
}
use Prim.{tt}
use codestra_alertmanager.Prelude.Maps.{keys, lookup, insert, lookup-insert_self}
use codestra_alertmanager.Clock.{Time}
use codestra_alertmanager.Alert.{Alert}
use codestra_alertmanager.Store.{Library}
use codestra_alertmanager.Dispatch.Group.{Group, insert_alert, end_flush}
use codestra_alertmanager.Dispatch.Group.Insertion.{Kept, insert_alert-Kept, end_flush-destroyed}
use codestra_alertmanager.Dispatch.Dispatcher.{
  Dispatcher, State, Pc, Job, goto, write, allocate, is_destroyed, started, run_found,
  waiting_to_start, running, stopped, idle, loading, trying, checking, storing, joining, counting,
  starting, ended, inserted, created, over_limit, retry, loaded, points, joined, checked, swapped,
  stored, is_full, group_alert, new_aggr_group, Step, Reach, by_worker, by_alert, by_flush,
  by_maintenance, by_count, by_start, by_visit, by_stop, initially, after, route_alert, flush,
  do_maintenance, count_removed, start, on_start, visit, visited, stop, new_dispatcher, is_at_rest,
}
use codestra_alertmanager.Dispatch.Dispatcher.Moves.{
  Evolves-write, Evolves-allocate, Evolves-insert, Evolves-erase,
}
use codestra_alertmanager.Dispatch.Dispatcher.Facts.{
  IsPlaced, IsDead, Facts, placed, dead, still, IsConsistent, settled, moved, points-lookup,
  IsTabled-insert, IsTabled-erase, retry_fact, loaded_fact, run_ag-IsConsistent, started-Evolves,
  started-IsConsistent, counted-IsConsistent,
}

module _ {F P : Type 0} ⦃e : Comparable F⦄ ⦃p : Comparable P⦄ (lib : Library F) (limit : ℕ) where
  joined-IsConsistent :
      (w : ℕ) (j : Job P) (g : ℕ) (otherwise : Pc P) (r : Group F × Bool) (d : Dispatcher F P)
      → Kept lib (d.heap g).group r
      → IsConsistent d
      → IsPlaced d j.place g
      → (IsDead d g → Facts d otherwise)
      → IsConsistent (joined w j g otherwise r d)
  joined-IsConsistent w j g otherwise (group, ok) d (same, answer) c placed_at f =
      let v = Evolves-write g group d (λ gone. same ∙ gone) in
      let c' = settled c v c.tabled refl in
      elim (Bool-cases ok) [
        | inl q ↦
            rw q
              (moved w (ended j (inserted g)) c' (placed d (write g group d) v j.place g placed_at))
        | inr q ↦ rw q (
            moved w otherwise c'
              (still d (write g group d) v otherwise (f (placed_at.0, ground (arith, q, answer)))))
      ]

  checked-IsConsistent :
      (w : ℕ) (j : Job P) (el : Option ℕ) (now : Time) (b : Bool) (d : Dispatcher F P)
      → IsConsistent d
      → Facts d (checking j el)
      → IsConsistent (checked lib limit w j el now b d)
  checked-IsConsistent w j el now true d c f = moved w (ended j over_limit) c tt
  checked-IsConsistent w j none now false d c f =
      let group = (insert_alert lib j.alert now new_aggr_group).0 in
      let v = Evolves-allocate group d in
      moved w (storing j none d.next 0) (settled c v (λ k g q. ground (arith, c.tabled k g q)) refl)
        (ground arith)
  checked-IsConsistent w j (some el) now false d c f =
      let group = (insert_alert lib j.alert now new_aggr_group).0 in
      let v = Evolves-allocate group d in
      moved w (storing j (some el) d.next 0)
        (settled c v (λ k g q. ground (arith, c.tabled k g q)) refl)
        (ground arith, dead d (allocate group d) v el f)

  -- A place takes a new group, where it had none that is alive.
  replaced-IsConsistent :
      (w : ℕ) (k : P) (ag : ℕ) (pc : Pc P) (d : Dispatcher F P)
      → IsConsistent d
      → ag < d.next
      → ((g : ℕ) → lookup k d.groups ≡ some g → is_destroyed g d ≡ true)
      → (IsPlaced (record d { groups = insert k ag d.groups }) k ag
          → Facts (record d { groups = insert k ag d.groups }) pc)
      → IsConsistent (goto w pc (record d { groups = insert k ag d.groups }))
  replaced-IsConsistent w k ag pc d c n gone f =
      moved w pc (settled c (Evolves-insert k ag d gone) (IsTabled-insert k ag d c.tabled n) refl)
        (f (n, inr (lookup-insert_self k ag d.groups)))

  swapped-IsConsistent :
      (w : ℕ) (j : Job P) (el ag retries : ℕ) (d : Dispatcher F P)
      → IsConsistent d
      → Facts d (storing j (some el) ag retries)
      → IsConsistent (swapped w j ag retries (points j.place el d) d)
  swapped-IsConsistent w j el ag retries d c (n, (m, gone)) =
      elim (Bool-cases (points j.place el d)) [
        | inr q ↦ rw q (moved w (retry j none ag retries) c (retry_fact d j none ag retries n))
        | inl q ↦
            let found = points-lookup j.place el d q in
            rw q (
              replaced-IsConsistent w j.place ag (starting j ag) d c n
                (λ g h. subst (λ i. is_destroyed i d ≡ true) (ground (arith, found, h)) gone)
                (λ f. f))
      ]

  stored-IsConsistent :
      (w : ℕ) (j : Job P) (ag retries : ℕ) (o : Option ℕ) (d : Dispatcher F P)
      → IsConsistent d
      → ag < d.next
      → lookup j.place d.groups ≡ o
      → IsConsistent (stored w j ag retries o d)
  stored-IsConsistent w j ag retries none d c n q =
      replaced-IsConsistent w j.place ag (counting j ag) d c n
        (λ g h. absurd (ground (arith, h, q))) (λ f. f)
  stored-IsConsistent w j ag retries (some el) d c n q =
      moved w (joining j el ag retries) c (n, (c.tabled j.place el q, inr q))

  group_alert-IsConsistent :
      (w : ℕ) (now : Time) (pc : Pc P) (d : Dispatcher F P)
      → IsConsistent d
      → Facts d pc
      → IsConsistent (group_alert lib limit w now pc d)
  unfolding group_alert
  group_alert-IsConsistent w now idle d c f = c
  group_alert-IsConsistent w now (loading j) d c f =
      moved w (loaded j (lookup j.place d.groups)) c
        (loaded_fact d j (lookup j.place d.groups) (λ g q. (c.tabled j.place g q, inr q)))
  group_alert-IsConsistent w now (trying j el) d c f =
      joined-IsConsistent w j el (checking j (some el))
        (insert_alert lib j.alert now (d.heap el).group) d
        (insert_alert-Kept lib j.alert now (d.heap el).group) c f (λ gone. gone)
  group_alert-IsConsistent w now (checking j el) d c f =
      checked-IsConsistent w j el now (is_full limit d) d c f
  group_alert-IsConsistent w now (storing j (some el) ag retries) d c f =
      swapped-IsConsistent w j el ag retries d c f
  group_alert-IsConsistent w now (storing j none ag retries) d c f =
      stored-IsConsistent w j ag retries (lookup j.place d.groups) d c f refl
  group_alert-IsConsistent w now (joining j el ag retries) d c f =
      joined-IsConsistent w j el (retry j (some el) ag retries)
        (insert_alert lib j.alert now (d.heap el).group) d
        (insert_alert-Kept lib j.alert now (d.heap el).group) c f.1
        (λ gone. retry_fact d j (some el) ag retries (f.0, gone))
  group_alert-IsConsistent w now (counting j ag) d c f =
      moved w (starting j ag)
        (counted-IsConsistent d (d.added + 1) d.removed d.uncounted d.state d.to_start c) f
  group_alert-IsConsistent w now (starting j ag) d c f =
      moved w (ended j (created ag)) (started-IsConsistent d.state ag d c)
        (placed d (started d.state ag d) (started-Evolves d.state ag d) j.place ag f)
  group_alert-IsConsistent w now (ended j r) d c f = c

  flush-IsConsistent :
      (g : ℕ) (resolved : List Alert) (d : Dispatcher F P)
      → IsConsistent d
      → IsConsistent (flush lib limit g resolved d)
  unfolding flush
  flush-IsConsistent g resolved d c =
      if_elim IsConsistent (d.heap g).running _ d
        (λ h.
          settled c
            (Evolves-write g (end_flush lib resolved (d.heap g).group) d
              (end_flush-destroyed lib resolved (d.heap g).group))
            c.tabled refl)
        (λ h. c)

  do_maintenance-IsConsistent :
      (k : P) (g : ℕ) (d : Dispatcher F P) → IsConsistent d → IsConsistent (do_maintenance k g d)
  unfolding do_maintenance
  do_maintenance-IsConsistent k g d c =
      if_elim IsConsistent (is_destroyed g d && points k g d) _ d
        (λ h.
          let gone : is_destroyed g d ≡ true = ground (arith, h) in
          let found = points-lookup k g d (ground (arith, h)) in
          settled c
            (Evolves-erase k (d.uncounted + 1) d
              (λ i q. subst (λ x. is_destroyed x d ≡ true) (ground (arith, found, q)) gone))
            (IsTabled-erase k (d.uncounted + 1) d c.tabled) refl)
        (λ h. c)

  route_alert-IsConsistent :
      (w : ℕ) (j : Job P) (d : Dispatcher F P) → IsConsistent d → IsConsistent (route_alert w j d)
  unfolding route_alert
  route_alert-IsConsistent w j d c =
      if_elim IsConsistent (is_at_rest (d.workers w)) (goto w (loading j) d) d
        (λ h. moved w (loading j) c tt) (λ h. c)

  count_removed-IsConsistent :
      (d : Dispatcher F P) → IsConsistent d → IsConsistent (count_removed d)
  unfolding count_removed
  count_removed-IsConsistent d c =
      if_elim IsConsistent (ltb 0 d.uncounted) _ d
        (λ h. counted-IsConsistent d d.added (d.removed + 1) (d.uncounted - 1) d.state d.to_start c)
        (λ h. c)

  on_start-IsConsistent :
      (s : State) (d : Dispatcher F P) → IsConsistent d → IsConsistent (on_start s d)
  on_start-IsConsistent waiting_to_start d c =
      counted-IsConsistent d d.added d.removed d.uncounted running (keys d.groups) c
  on_start-IsConsistent running d c = c
  on_start-IsConsistent stopped d c = c

  run_found-IsConsistent :
      (o : Option ℕ) (d : Dispatcher F P) → IsConsistent d → IsConsistent (run_found o d)
  run_found-IsConsistent none d c = c
  run_found-IsConsistent (some g) d c = run_ag-IsConsistent g d c

  visited-IsConsistent :
      (ks : List P) (d : Dispatcher F P) → IsConsistent d → IsConsistent (visited ks d)
  visited-IsConsistent [] d c = c
  visited-IsConsistent (k ∷ ks) d c =
      run_found-IsConsistent (lookup k d.groups) (record d { to_start = ks })
        (counted-IsConsistent d d.added d.removed d.uncounted d.state ks c)

  Step-IsConsistent :
      {d d' : Dispatcher F P} → Step lib limit d d' → IsConsistent d → IsConsistent d'
  unfolding start visit stop
  Step-IsConsistent (by_worker d w now) c =
      group_alert-IsConsistent w now (d.workers w) d c (c.workers w)
  Step-IsConsistent (by_alert d w j) c = route_alert-IsConsistent w j d c
  Step-IsConsistent (by_flush d g resolved) c = flush-IsConsistent g resolved d c
  Step-IsConsistent (by_maintenance d k g) c = do_maintenance-IsConsistent k g d c
  Step-IsConsistent (by_count d) c = count_removed-IsConsistent d c
  Step-IsConsistent (by_start d) c = on_start-IsConsistent d.state d c
  Step-IsConsistent (by_visit d) c = visited-IsConsistent d.to_start d c
  Step-IsConsistent (by_stop d) c =
      counted-IsConsistent d d.added d.removed d.uncounted stopped d.to_start c

  new_dispatcher-IsConsistent : IsConsistent {F = F} {P = P} new_dispatcher
  unfolding new_dispatcher lookup
  new_dispatcher-IsConsistent = record {
    tabled = λ k g h. absurd (ground (arith, h));
    workers = λ w. tt;
  }

  pub Reach-IsConsistent : {d : Dispatcher F P} → Reach lib limit d → IsConsistent d
  Reach-IsConsistent initially = new_dispatcher-IsConsistent
  Reach-IsConsistent (after before step) = Step-IsConsistent step (Reach-IsConsistent before)

  pub Reach-tabled :
      {d : Dispatcher F P}
      → Reach lib limit d
      → (k : P) (g : ℕ) → lookup k d.groups ≡ some g
      → g < d.next
  Reach-tabled reach = (Reach-IsConsistent reach).tabled

  -- Whatever steps the workers, the flushes, the maintenance, the start and the stop have taken in
  -- whatever order: where a worker has put its alert into a group that it found or that it made,
  -- that group is the one that stands under the alert's place, or it has been destroyed.
  pub groups-IsPlaced :
      {d : Dispatcher F P} (w : ℕ) (j : Job P) (g : ℕ)
      → Reach lib limit d
      → (d.workers w ≡ ended j (inserted g)) ⊎ (d.workers w ≡ ended j (created g))
      → IsPlaced d j.place g
  groups-IsPlaced {d} w j g reach (inl h) = subst (Facts d) h ((Reach-IsConsistent reach).workers w)
  groups-IsPlaced {d} w j g reach (inr h) = subst (Facts d) h ((Reach-IsConsistent reach).workers w)
