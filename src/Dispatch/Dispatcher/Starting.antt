-- ===== src/Dispatch/Dispatcher/Starting.antt =====
-- `runAG` of dispatch/dispatch.go: every group of the dispatcher is run.
use codestra_alertmanager.Prelude.{
  ℕ, ◌+◌, ◌-◌, Bool, true, false, Option, none, some, List, [], ◌∷◌, ◌≡◌, refl, sym, subst, ap, ◌∙◌,
  arith, Comparable, ◌==◌, Bool-cases, ◌⊎◌, inl, inr, if_elim, ltb, ◌&&◌,
}
use codestra_alertmanager.Prelude.Maps.{Map, keys, lookup, erase, lookup-erase}
use codestra_alertmanager.Prelude.Membership.{In}
use codestra_alertmanager.Clock.{Time}
use codestra_alertmanager.Alert.{Alert}
use codestra_alertmanager.Store.{Library}
use codestra_alertmanager.Dispatch.Group.{Group, insert_alert, end_flush}
use codestra_alertmanager.Dispatch.Dispatcher.{
  Dispatcher, State, Pc, Job, goto, write, run_ag, is_destroyed, started, run_found,
  waiting_to_start, running, stopped, idle, loading, trying, checking, storing, joining, counting,
  starting, ended, created, retry, points, joined, checked, swapped, stored, is_full, group_alert,
  new_aggr_group, Step, Reach, by_worker, by_alert, by_flush, by_maintenance, by_count, by_start,
  by_visit, by_stop, initially, after, route_alert, flush, do_maintenance, count_removed, start,
  on_start, visit, visited, stop, new_dispatcher, is_at_rest,
}
use codestra_alertmanager.Dispatch.Dispatcher.Placement.{Reach-tabled}
use codestra_alertmanager.Dispatch.Dispatcher.Covers.{
  publishes, publishes_rest, own_goto, runs, Covered, runs_now, published, waits, over, listed,
  AreCovered, IsTabled, carried, runs-run_ag_self, runs-run_ag, went, replaced, Leaves,
  Leaves-count, Leaves-write, Leaves-allocate, Carries-goto, quiet, started-Covered, Leaves-started,
}

module _ {F P : Type 0} ⦃e : Comparable F⦄ ⦃p : Comparable P⦄ (lib : Library F) (limit : ℕ) where
  joined-AreCovered :
      (w : ℕ) (j : Job P) (g : ℕ) (otherwise : Pc P) (r : Group F × Bool) (d : Dispatcher F P)
      → publishes (d.workers w) ≡ none
      → AreCovered d
      → IsTabled d
      → AreCovered (joined w j g otherwise r d)
  joined-AreCovered w j g otherwise (group, ok) d n c t =
      quiet w _ (write g group d) n c t (Leaves-write g group d)

  checked-AreCovered :
      (w : ℕ) (j : Job P) (el : Option ℕ) (now : Time) (b : Bool) (d : Dispatcher F P)
      → publishes (d.workers w) ≡ none
      → AreCovered d
      → IsTabled d
      → AreCovered (checked lib limit w j el now b d)
  checked-AreCovered w j el now true d n c t =
      quiet w _ d n c t (Leaves-count d.added d.removed d.uncounted d)
  checked-AreCovered w j el now false d n c t =
      quiet w _ _ n c t (Leaves-allocate (insert_alert lib j.alert now new_aggr_group).0 d)

  swapped-AreCovered :
      (w : ℕ) (j : Job P) (ag retries : ℕ) (b : Bool) (d : Dispatcher F P)
      → publishes (d.workers w) ≡ none
      → AreCovered d
      → IsTabled d
      → AreCovered (swapped w j ag retries b d)
  swapped-AreCovered w j ag retries true d n c t =
      replaced w j.place ag (starting j ag) d n refl c t
  swapped-AreCovered w j ag retries false d n c t =
      quiet w _ d n c t (Leaves-count d.added d.removed d.uncounted d)

  stored-AreCovered :
      (w : ℕ) (j : Job P) (ag retries : ℕ) (o : Option ℕ) (d : Dispatcher F P)
      → publishes (d.workers w) ≡ none
      → AreCovered d
      → IsTabled d
      → AreCovered (stored w j ag retries o d)
  stored-AreCovered w j ag retries none d n c t = replaced w j.place ag (counting j ag) d n refl c t
  stored-AreCovered w j ag retries (some el) d n c t =
      quiet w _ d n c t (Leaves-count d.added d.removed d.uncounted d)

  group_alert-AreCovered :
      (w : ℕ) (now : Time) (pc : Pc P) (d : Dispatcher F P)
      → d.workers w ≡ pc
      → AreCovered d
      → IsTabled d
      → AreCovered (group_alert lib limit w now pc d)
  unfolding group_alert
  group_alert-AreCovered w now idle d h c t = c
  group_alert-AreCovered w now (loading j) d h c t =
      quiet w _ d (ap publishes h) c t (Leaves-count d.added d.removed d.uncounted d)
  group_alert-AreCovered w now (trying j el) d h c t =
      joined-AreCovered w j el (checking j (some el))
        (insert_alert lib j.alert now (d.heap el).group) d (ap publishes h) c t
  group_alert-AreCovered w now (checking j el) d h c t =
      checked-AreCovered w j el now (is_full limit d) d (ap publishes h) c t
  group_alert-AreCovered w now (storing j (some el) ag retries) d h c t =
      swapped-AreCovered w j ag retries (points j.place el d) d (ap publishes h) c t
  group_alert-AreCovered w now (storing j none ag retries) d h c t =
      stored-AreCovered w j ag retries (lookup j.place d.groups) d (ap publishes h) c t
  group_alert-AreCovered w now (joining j el ag retries) d h c t =
      joined-AreCovered w j el (retry j (some el) ag retries)
        (insert_alert lib j.alert now (d.heap el).group) d (ap publishes h) c t
  group_alert-AreCovered w now (counting j ag) d h c t =
      let l = Leaves-count (d.added + 1) d.removed d.uncounted d in
      went w (starting j ag) _ c t (Carries-goto w (starting j ag) _ l) refl (λ g q k.
        published w
          (ap publishes (own_goto w (starting j ag) d.workers) ∙ ap publishes (sym h) ∙ q))
  group_alert-AreCovered w now (starting j ag) d h c t =
      let d' = started d.state ag d in
      let l = Leaves-started d.state ag d in
      went w (ended j (created ag)) d' c t (Carries-goto w (ended j (created ag)) d' l) l.groups
        (λ g q k.
          let same : ag ≡ g = ground (arith, ap publishes h, q) in
          subst (Covered (goto w (ended j (created ag)) d') k) same
            (started-Covered d.state w (ended j (created ag)) ag d refl k))
  group_alert-AreCovered w now (ended j r) d h c t = c

  -- The steps of no worker, which leave what a worker has to start.
  settled :
      {d : Dispatcher F P} (d' : Dispatcher F P)
      → AreCovered d
      → IsTabled d
      → Leaves d d'
      → AreCovered d'
  settled {d} d' c t l k g h =
      let before : lookup k d.groups ≡ some g = ap (lookup k) (sym l.groups) ∙ h in
      carried k g
        (record {
          go_on = l.go_on;
          others = λ i q. ap (λ (ws : ℕ → Pc P). ws i) l.workers;
          state = l.state;
          to_start = l.to_start;
        })
        (t k g before) (λ q. published 0 (ap (λ (ws : ℕ → Pc P). publishes (ws 0)) l.workers ∙ q))
        (c k g before)

  In-keys : (k : P) (g : ℕ) (m : Map P ℕ) → lookup k m ≡ some g → In k (keys m)
  unfolding lookup
  In-keys k g [] h = absurd (ground (arith, h))
  In-keys k g ((k', g') ∷ m) h = elim (Bool-cases (k' == k)) [
    | inl same ↦ inl (sym ((p.beq_iff k' k).0 same))
    | inr other ↦ inr (In-keys k g m (ground (arith, other, h)))
  ]

  flush-AreCovered :
      (g : ℕ) (resolved : List Alert) (d : Dispatcher F P)
      → AreCovered d
      → IsTabled d
      → AreCovered (flush lib limit g resolved d)
  unfolding flush
  flush-AreCovered g resolved d c t =
      if_elim AreCovered (d.heap g).running _ d
        (λ h. settled _ c t (Leaves-write g (end_flush lib resolved (d.heap g).group) d)) (λ h. c)

  erased_lookup :
      (k k' : P) (g : ℕ) (m : Map P ℕ) → lookup k' (erase k m) ≡ some g → lookup k' m ≡ some g
  erased_lookup k k' g m h = elim (Bool-cases (k == k')) [
    | inl same ↦ absurd (ground (arith, lookup-erase k k' m, same, h))
    | inr other ↦ ground (arith, lookup-erase k k' m, other, h)
  ]

  do_maintenance-AreCovered :
      (k : P) (g : ℕ) (d : Dispatcher F P)
      → AreCovered d
      → IsTabled d
      → AreCovered (do_maintenance k g d)
  unfolding do_maintenance
  do_maintenance-AreCovered k g d c t =
      if_elim AreCovered (is_destroyed g d && points k g d) _ d
        (λ h k' i q.
          let before : lookup k' d.groups ≡ some i = erased_lookup k k' i d.groups q in
          carried {w = 0} {d' = record d { groups = erase k d.groups; uncounted = d.uncounted + 1 }}
            k' i
            (record { go_on = λ g n r. r; others = λ i q. refl; state = refl; to_start = refl })
            (t k' i before) (λ r. published 0 r) (c k' i before))
        (λ h. c)

  route_alert-AreCovered :
      (w : ℕ) (j : Job P) (d : Dispatcher F P)
      → AreCovered d
      → IsTabled d
      → AreCovered (route_alert w j d)
  unfolding route_alert
  route_alert-AreCovered w j d c t =
      if_elim AreCovered (is_at_rest (d.workers w)) (goto w (loading j) d) d
        (λ h.
          quiet w (loading j) d (publishes_rest (d.workers w) h) c t
            (Leaves-count d.added d.removed d.uncounted d))
        (λ h. c)

  count_removed-AreCovered :
      (d : Dispatcher F P) → AreCovered d → IsTabled d → AreCovered (count_removed d)
  unfolding count_removed
  count_removed-AreCovered d c t =
      if_elim AreCovered (ltb 0 d.uncounted) _ d
        (λ h. settled _ c t (Leaves-count d.added (d.removed + 1) (d.uncounted - 1) d)) (λ h. c)

  on_start-AreCovered : (s : State) (d : Dispatcher F P) → AreCovered d → AreCovered (on_start s d)
  on_start-AreCovered waiting_to_start d c = λ k g h. listed (In-keys k g d.groups h)
  on_start-AreCovered running d c = c
  on_start-AreCovered stopped d c = c

  first_of :
      (k k' : P) (ks : List P) (d : Dispatcher F P)
      → d.to_start ≡ k ∷ ks
      → In k' d.to_start
      → (k' ≡ k) ⊎ In k' ks
  first_of k k' ks d q h = subst (In k') q h

  visited-Covered :
      (k k' : P) (ks : List P) (o : Option ℕ) (g : ℕ) (d : Dispatcher F P)
      → lookup k d.groups ≡ o
      → d.to_start ≡ k ∷ ks
      → lookup k' d.groups ≡ some g
      → Covered d k' g
      → Covered (run_found o (record d { to_start = ks })) k' g
  unfolding run_ag
  visited-Covered k k' ks none g d q s h (runs_now r) = runs_now r
  visited-Covered k k' ks none g d q s h (published w r) = published w r
  visited-Covered k k' ks none g d q s h (waits r) = waits r
  visited-Covered k k' ks none g d q s h (over r) = over r
  visited-Covered k k' ks none g d q s h (listed r) = elim (first_of k k' ks d s r) [
    | inl same ↦ absurd (ground (arith, q, sym (ap (λ x. lookup x d.groups) same), h))
    | inr rest ↦ listed rest
  ]
  visited-Covered k k' ks (some i) g d q s h (runs_now r) =
      runs_now (runs-run_ag i (record d { to_start = ks }) g r)
  visited-Covered k k' ks (some i) g d q s h (published w r) = published w r
  visited-Covered k k' ks (some i) g d q s h (waits r) = waits r
  visited-Covered k k' ks (some i) g d q s h (over r) = over r
  visited-Covered k k' ks (some i) g d q s h (listed r) = elim (first_of k k' ks d s r) [
    | inl same ↦
        let found : lookup k' d.groups ≡ some i = ap (λ x. lookup x d.groups) same ∙ q in
        runs_now (
          subst (λ x. runs x (run_ag i (record d { to_start = ks })) ≡ true)
            (ground (arith, found, h)) (runs-run_ag_self i (record d { to_start = ks })))
    | inr rest ↦ listed rest
  ]

  groups-run_found : (o : Option ℕ) (d : Dispatcher F P) → (run_found o d).groups ≡ d.groups
  unfolding run_ag
  groups-run_found none d = refl
  groups-run_found (some g) d = refl

  visited-AreCovered :
      (ks : List P) (d : Dispatcher F P)
      → d.to_start ≡ ks
      → AreCovered d
      → AreCovered (visited ks d)
  visited-AreCovered [] d s c = c
  visited-AreCovered (k ∷ ks) d s c = λ k' g h.
      let same = groups-run_found (lookup k d.groups) (record d { to_start = ks }) in
      let before : lookup k' d.groups ≡ some g = ap (lookup k') (sym same) ∙ h in
      visited-Covered k k' ks (lookup k d.groups) g d refl s before (c k' g before)

  Step-AreCovered :
      {d d' : Dispatcher F P} → Step lib limit d d' → AreCovered d → IsTabled d → AreCovered d'
  unfolding start visit stop
  Step-AreCovered (by_worker d w now) c t = group_alert-AreCovered w now (d.workers w) d refl c t
  Step-AreCovered (by_alert d w j) c t = route_alert-AreCovered w j d c t
  Step-AreCovered (by_flush d g resolved) c t = flush-AreCovered g resolved d c t
  Step-AreCovered (by_maintenance d k g) c t = do_maintenance-AreCovered k g d c t
  Step-AreCovered (by_count d) c t = count_removed-AreCovered d c t
  Step-AreCovered (by_start d) c t = on_start-AreCovered d.state d c
  Step-AreCovered (by_visit d) c t = visited-AreCovered d.to_start d refl c
  Step-AreCovered (by_stop d) c t = λ k g h. over refl

  Reach-AreCovered : {d : Dispatcher F P} → Reach lib limit d → AreCovered d
  unfolding new_dispatcher
  Reach-AreCovered initially = λ k g h. waits refl
  Reach-AreCovered (after before step) =
      Step-AreCovered step (Reach-AreCovered before) (Reach-tabled lib limit before)

  Covered-runs :
      {d : Dispatcher F P} {k : P} {g : ℕ}
      → d.state ≡ running
      → d.to_start ≡ []
      → ((w : ℕ) → is_at_rest (d.workers w) ≡ true)
      → Covered d k g
      → runs g d ≡ true
  Covered-runs q s rest (runs_now r) = r
  Covered-runs {d} q s rest (published w r) =
      absurd (ground (arith, publishes_rest (d.workers w) (rest w), r))
  Covered-runs q s rest (waits r) = absurd (ground (arith, q, r))
  Covered-runs q s rest (over r) = absurd (ground (arith, q, r))
  Covered-runs {d} {k} q s rest (listed r) = elim (subst (In k) s r) [ ]

  -- Once the dispatcher runs, its start has visited every place, and no worker is in the middle of
  -- `groupAlert`, every group that stands under a place has been started, whatever the order in
  -- which the workers, the start, the flushes and the maintenance have taken their steps.
  pub groups-runs :
      {d : Dispatcher F P} (k : P) (g : ℕ)
      → Reach lib limit d
      → d.state ≡ running
      → d.to_start ≡ []
      → ((w : ℕ) → is_at_rest (d.workers w) ≡ true)
      → lookup k d.groups ≡ some g
      → runs g d ≡ true
  groups-runs k g reach q s rest h = Covered-runs q s rest (Reach-AreCovered reach k g h)
