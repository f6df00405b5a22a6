-- ===== src/Dispatch/Dispatcher/Entering.antt =====
-- `groupAlert` of dispatch/dispatch.go: the group that an alert enters holds it.
use codestra_alertmanager.Prelude.{
  ℕ, ◌+◌, ◌-◌, Bool, true, false, Option, none, some, List, [], ◌∷◌, ◌≡◌, refl, sym, subst, ap, ◌∙◌,
  arith, nat_beq, Comparable, Bool-cases, inl, inr, if_elim, if◌then◌else◌, ltb, ◌&&◌,
}
use codestra_alertmanager.Prelude.Maps.{keys, lookup}
use mathlib.Core.Option.{some-injective}
use codestra_alertmanager.Clock.{Time}
use codestra_alertmanager.Alert.{Alert}
use codestra_alertmanager.Store.{Library, get}
use codestra_alertmanager.Dispatch.Group.{Group, insert_alert, end_flush}
use codestra_alertmanager.Dispatch.Group.Insertion.{
  limit-insert_alert, get-insert_alert, limit-end_flush, insert_alert-Kept,
}
use codestra_alertmanager.Dispatch.Dispatcher.{
  Cell, Dispatcher, State, Pc, Job, at, goto, run_ag, is_destroyed, started, run_found,
  waiting_to_start, running, stopped, idle, loading, trying, checking, storing, joining, counting,
  starting, ended, inserted, gave_up, retry, points, joined, checked, swapped, stored, is_full,
  group_alert, new_aggr_group, Step, Reach, by_worker, by_alert, by_flush, by_maintenance, by_count,
  by_start, by_visit, by_stop, initially, after, route_alert, flush, do_maintenance, count_removed,
  start, on_start, visit, visited, stop, new_dispatcher, is_at_rest,
}
use codestra_alertmanager.Dispatch.Dispatcher.Facts.{IsConsistent}
use codestra_alertmanager.Dispatch.Dispatcher.Placement.{Reach-IsConsistent}
use codestra_alertmanager.Dispatch.Dispatcher.Private.{
  owned, names, Holds, IsPrivate, Spares, ArePrivate,
}
use codestra_alertmanager.Dispatch.Dispatcher.Covers.{own_goto}
use codestra_alertmanager.Dispatch.Dispatcher.Holding.{
  group_alert-ArePrivate, plain, Spares-at, Spares-erase, Spares-same, elsewhere, new_limit,
}

-- The alert and the group that a step of a worker has brought together: an insertion into a group that was
-- found, or a group with the alert that was put under its place.
abbrev pub entered : {P : Type 0} → Pc P → Pc P → Option (Job P × ℕ)
entered (trying j el) (ended j' (inserted g)) = some (j, el)
entered (joining j el ag n) (ended j' (inserted g)) = some (j, el)
entered (storing j el ag n) (counting j' g) = some (j, ag)
entered (storing j el ag n) (starting j' g) = some (j, ag)
entered _ _ = none

module _ {F P : Type 0} ⦃e : Comparable F⦄ ⦃p : Comparable P⦄ (lib : Library F) (limit : ℕ) where
  abbrev IsUnlimited : Dispatcher F P → Type 0
  IsUnlimited d = (g : ℕ) → (d.heap g).group.store.per_alert_limit ≡ 0

  IsUnlimited-at :
      (i : ℕ) (c : Cell F) (d : Dispatcher F P)
      → IsUnlimited d
      → c.group.store.per_alert_limit ≡ 0
      → (g : ℕ) → (at i c d.heap g).group.store.per_alert_limit ≡ 0
  IsUnlimited-at i c d u h g =
      if_elim (λ (x : Cell F). x.group.store.per_alert_limit ≡ 0) (nat_beq i g) c (d.heap g)
        (λ q. h) (λ q. u g)

  run_ag-IsUnlimited : (g : ℕ) (d : Dispatcher F P) → IsUnlimited d → IsUnlimited (run_ag g d)
  unfolding run_ag
  run_ag-IsUnlimited g d u = IsUnlimited-at g (record (d.heap g) { running = true }) d u (u g)

  started-IsUnlimited :
      (s : State) (g : ℕ) (d : Dispatcher F P) → IsUnlimited d → IsUnlimited (started s g d)
  started-IsUnlimited running g d u = run_ag-IsUnlimited g d u
  started-IsUnlimited waiting_to_start g d u = u
  started-IsUnlimited stopped g d u = u

  joined-IsUnlimited :
      (w : ℕ) (j : Job P) (el : ℕ) (otherwise : Pc P) (r : Group F × Bool) (d : Dispatcher F P)
      → IsUnlimited d
      → r.0.store.per_alert_limit ≡ (d.heap el).group.store.per_alert_limit
      → IsUnlimited (joined w j el otherwise r d)
  joined-IsUnlimited w j el otherwise (group, ok) d u h =
      IsUnlimited-at el (record (d.heap el) { group = group }) d u (h ∙ u el)

  checked-IsUnlimited :
      (w : ℕ) (j : Job P) (el : Option ℕ) (now : Time) (b : Bool) (d : Dispatcher F P)
      → IsUnlimited d
      → IsUnlimited (checked lib limit w j el now b d)
  checked-IsUnlimited w j el now true d u = u
  checked-IsUnlimited w j el now false d u =
      IsUnlimited-at d.next _ d u (limit-insert_alert lib j.alert now new_aggr_group ∙ new_limit F)

  swapped-IsUnlimited :
      (w : ℕ) (j : Job P) (ag n : ℕ) (b : Bool) (d : Dispatcher F P)
      → IsUnlimited d
      → IsUnlimited (swapped w j ag n b d)
  swapped-IsUnlimited w j ag n true d u = u
  swapped-IsUnlimited w j ag n false d u = u

  stored-IsUnlimited :
      (w : ℕ) (j : Job P) (ag n : ℕ) (o : Option ℕ) (d : Dispatcher F P)
      → IsUnlimited d
      → IsUnlimited (stored w j ag n o d)
  stored-IsUnlimited w j ag n none d u = u
  stored-IsUnlimited w j ag n (some el) d u = u

  group_alert-IsUnlimited :
      (w : ℕ) (now : Time) (pc : Pc P) (d : Dispatcher F P)
      → IsUnlimited d
      → IsUnlimited (group_alert lib limit w now pc d)
  unfolding group_alert
  group_alert-IsUnlimited w now idle d u = u
  group_alert-IsUnlimited w now (loading j) d u = u
  group_alert-IsUnlimited w now (trying j el) d u =
      joined-IsUnlimited w j el (checking j (some el))
        (insert_alert lib j.alert now (d.heap el).group) d u
        (limit-insert_alert lib j.alert now (d.heap el).group)
  group_alert-IsUnlimited w now (checking j el) d u =
      checked-IsUnlimited w j el now (is_full limit d) d u
  group_alert-IsUnlimited w now (storing j (some el) ag n) d u =
      swapped-IsUnlimited w j ag n (points j.place el d) d u
  group_alert-IsUnlimited w now (storing j none ag n) d u =
      stored-IsUnlimited w j ag n (lookup j.place d.groups) d u
  group_alert-IsUnlimited w now (joining j el ag n) d u =
      joined-IsUnlimited w j el (retry j (some el) ag n)
        (insert_alert lib j.alert now (d.heap el).group) d u
        (limit-insert_alert lib j.alert now (d.heap el).group)
  group_alert-IsUnlimited w now (counting j ag) d u = u
  group_alert-IsUnlimited w now (starting j ag) d u = started-IsUnlimited d.state ag d u
  group_alert-IsUnlimited w now (ended j r) d u = u

  -- What holds of the groups in every state that is reached.
  abbrev IsHolding : Dispatcher F P → Type 0
  IsHolding d = ArePrivate lib d × IsUnlimited d

  -- A change by no worker.
  aside :
      {d : Dispatcher F P} (d' : Dispatcher F P)
      → ArePrivate lib d
      → d'.workers ≡ d.workers
      → ((i : ℕ) (j : Job P) (g : ℕ) → IsPrivate lib d i j g → Spares lib g d d')
      → ArePrivate lib d'
  aside {d} d' c same f i j g h =
      let v = c i j g (ap (λ (ws : ℕ → Pc P). owned (ws i)) (sym same) ∙ h) in
      let s = f i j g v in
      let a = v.allocated in
      let r = s.grows in
      record {
        allocated = omega (arith, a, r);
        holds =
            ap (λ (x : Cell F). get x.group.store (lib.fingerprint j.alert.labels)) s.cell
            ∙ v.holds;
        still = ap (λ (x : Cell F). x.running) s.cell ∙ v.still;
        absent = λ k q. v.absent k (s.absent k q);
        unnamed = λ k. ap (λ (ws : ℕ → Pc P). names (ws k) g) same ∙ v.unnamed k;
        alone = λ k j' n q. v.alone k j' n (ap (λ (ws : ℕ → Pc P). owned (ws k)) (sym same) ∙ q);
      }

  same_aside :
      (d : Dispatcher F P) (a r u : ℕ) (s : State) (ks : List P)
      → IsHolding d
      → IsHolding (record d { added = a; removed = r; uncounted = u; state = s; to_start = ks })
  same_aside d a r u s ks (c, l) =
      (aside _ c refl (λ i j g v. Spares-same lib limit g d a r u s ks), l)

  cell_aside :
      (i : ℕ) (x : Cell F) (d : Dispatcher F P)
      → IsHolding d
      → x.group.store.per_alert_limit ≡ 0
      → ((w : ℕ) (j : Job P) (g : ℕ) → IsPrivate lib d w j g → nat_beq i g ≡ false)
      → IsHolding (record d { heap = at i x d.heap })
  cell_aside i x d (c, l) h f = (
    aside _ c refl (λ w j g v. Spares-at lib limit g i x d (f w j g v)),
    IsUnlimited-at i x d l h,
  )

  flush-IsHolding :
      (g : ℕ) (resolved : List Alert) (d : Dispatcher F P)
      → IsHolding d
      → IsHolding (flush lib limit g resolved d)
  unfolding flush
  flush-IsHolding g resolved d c =
      if_elim IsHolding (d.heap g).running _ d
        (λ h.
          cell_aside g (record (d.heap g) { group = end_flush lib resolved (d.heap g).group }) d c
            (limit-end_flush lib resolved (d.heap g).group ∙ c.1 g)
            (λ w j i v. elim (Bool-cases (nat_beq g i)) [
              | inr other ↦ other
              | inl same ↦
                  let back : i ≡ g = ground (arith, same) in
                  absurd (ground (arith, h, subst (λ x. (d.heap x).running ≡ false) back v.still))
            ]))
        (λ h. c)

  do_maintenance-IsHolding :
      (k : P) (g : ℕ) (d : Dispatcher F P) → IsHolding d → IsHolding (do_maintenance k g d)
  unfolding do_maintenance
  do_maintenance-IsHolding k g d (c, l) =
      if_elim IsHolding (is_destroyed g d && points k g d) _ d
        (λ h. (aside _ c refl (λ i j g' v. Spares-erase lib limit g' (d.uncounted + 1) k d), l))
        (λ h. (c, l))

  route_alert-IsHolding :
      (w : ℕ) (j : Job P) (d : Dispatcher F P) → IsHolding d → IsHolding (route_alert w j d)
  unfolding route_alert
  route_alert-IsHolding w j d (c, l) =
      if_elim IsHolding (is_at_rest (d.workers w)) (goto w (loading j) d) d
        (λ h. (
          plain lib limit d w (loading j) c refl refl (λ i j' g n v.
              (Spares-same lib limit g d d.added d.removed d.uncounted d.state d.to_start, refl)),
          l,
        ))
        (λ h. (c, l))

  count_removed-IsHolding : (d : Dispatcher F P) → IsHolding d → IsHolding (count_removed d)
  unfolding count_removed
  count_removed-IsHolding d c =
      if_elim IsHolding (ltb 0 d.uncounted) _ d
        (λ h. same_aside d d.added (d.removed + 1) (d.uncounted - 1) d.state d.to_start c) (λ h. c)

  on_start-IsHolding : (s : State) (d : Dispatcher F P) → IsHolding d → IsHolding (on_start s d)
  on_start-IsHolding waiting_to_start d c =
      same_aside d d.added d.removed d.uncounted running (keys d.groups) c
  on_start-IsHolding running d c = c
  on_start-IsHolding stopped d c = c

  run_found-IsHolding :
      (k : P) (o : Option ℕ) (d : Dispatcher F P)
      → lookup k d.groups ≡ o
      → IsHolding d
      → IsHolding (run_found o d)
  unfolding run_ag
  run_found-IsHolding k none d q c = c
  run_found-IsHolding k (some g) d q c =
      cell_aside g (record (d.heap g) { running = true }) d c (c.1 g)
        (λ w j i v. elsewhere lib limit k g i d (v.absent k) q)

  visited-IsHolding : (ks : List P) (d : Dispatcher F P) → IsHolding d → IsHolding (visited ks d)
  visited-IsHolding [] d c = c
  visited-IsHolding (k ∷ ks) d c =
      run_found-IsHolding k (lookup k d.groups) (record d { to_start = ks }) refl
        (same_aside d d.added d.removed d.uncounted d.state ks c)

  Step-IsHolding :
      {d d' : Dispatcher F P} → Step lib limit d d' → IsConsistent d → IsHolding d → IsHolding d'
  unfolding start visit stop
  Step-IsHolding (by_worker d w now) k (c, l) = (
    group_alert-ArePrivate lib limit w now (d.workers w) d refl c k,
    group_alert-IsUnlimited w now (d.workers w) d l,
  )
  Step-IsHolding (by_alert d w j) k c = route_alert-IsHolding w j d c
  Step-IsHolding (by_flush d g resolved) k c = flush-IsHolding g resolved d c
  Step-IsHolding (by_maintenance d i g) k c = do_maintenance-IsHolding i g d c
  Step-IsHolding (by_count d) k c = count_removed-IsHolding d c
  Step-IsHolding (by_start d) k c = on_start-IsHolding d.state d c
  Step-IsHolding (by_visit d) k c = visited-IsHolding d.to_start d c
  Step-IsHolding (by_stop d) k c = same_aside d d.added d.removed d.uncounted stopped d.to_start c

  Reach-IsHolding : {d : Dispatcher F P} → Reach lib limit d → IsHolding d
  unfolding new_dispatcher
  Reach-IsHolding initially = (λ w j g h. absurd (ground (arith, h)), λ g. new_limit F)
  Reach-IsHolding (after before step) =
      Step-IsHolding step (Reach-IsConsistent lib limit before) (Reach-IsHolding before)

  abbrev pub Entered : Dispatcher F P → ℕ → Pc P → Type 0
  Entered d' w old =
      (j : Job P) (g : ℕ) → entered old (d'.workers w) ≡ some (j, g) → Holds lib d' j g

  joined-Entered :
      (w : ℕ) (j : Job P) (el : ℕ) (old otherwise : Pc P) (now : Time) (d : Dispatcher F P)
      → IsUnlimited d
      → entered old (ended j (inserted el)) ≡ some (j, el)
      → entered old otherwise ≡ none
      → Entered (joined w j el otherwise (insert_alert lib j.alert now (d.heap el).group) d) w old
  joined-Entered w j el old otherwise now d u taken_in left_out j' g h =
      let r = insert_alert lib j.alert now (d.heap el).group in
      let q : entered old (if r.1 then ended j (inserted el) else otherwise) ≡ some (j', g) =
        sym (
          ap (entered old)
            (own_goto w (if r.1 then ended j (inserted el) else otherwise) d.workers))
        ∙ h in
      elim (Bool-cases r.1) [
        | inr refused ↦ absurd (ground (arith, left_out, q, refused))
        | inl taken ↦
            let live : (d.heap el).group.store.is_destroyed ≡ false =
              ground (arith, taken, (insert_alert-Kept lib j.alert now (d.heap el).group).1) in
            let same : (j, el) ≡ (j', g) =
              some-injective (j, el) (j', g)
                (sym taken_in
                  ∙ sym
                      (ap (λ b. entered old (if b then ended j (inserted el) else otherwise)) taken)
                  ∙ q) in
            subst (λ (x : Job P × ℕ). Holds lib (joined w j el otherwise r d) x.0 x.1) same
              (if_elim
                (λ (x : Cell F). get x.group.store (lib.fingerprint j.alert.labels) ≡ some j.alert)
                (nat_beq el el) (record (d.heap el) { group = r.0 }) (d.heap el)
                (λ p. get-insert_alert lib j.alert now (d.heap el).group (u el) live)
                (λ p. absurd (ground (arith, p))))
      ]

  entered_own :
      (j j' : Job P) (el : Option ℕ) (ag n g : ℕ) (new : Pc P)
      → entered (storing j el ag n) new ≡ some (j', g)
      → owned (storing j el ag n) ≡ some (j', g)
  entered_own j j' el ag n g (counting i k) h = h
  entered_own j j' el ag n g (starting i k) h = h
  entered_own j j' el ag n g idle h = absurd (ground (arith, h))
  entered_own j j' el ag n g (loading i) h = absurd (ground (arith, h))
  entered_own j j' el ag n g (trying i k) h = absurd (ground (arith, h))
  entered_own j j' el ag n g (checking i k) h = absurd (ground (arith, h))
  entered_own j j' el ag n g (storing i k l m) h = absurd (ground (arith, h))
  entered_own j j' el ag n g (joining i k l m) h = absurd (ground (arith, h))
  entered_own j j' el ag n g (ended i r) h = absurd (ground (arith, h))

  -- The worker's own group has its alert, before the step and after it.
  own-Entered :
      (w : ℕ) (j : Job P) (el : Option ℕ) (ag n : ℕ) (d d' : Dispatcher F P)
      → ArePrivate lib d
      → d.workers w ≡ storing j el ag n
      → d'.heap ≡ d.heap
      → Entered d' w (storing j el ag n)
  own-Entered w j el ag n d d' c q same j' g h =
      ap (λ (x : ℕ → Cell F). get (x g).group.store (lib.fingerprint j'.alert.labels)) same
      ∙ (c w j' g (ap owned q ∙ entered_own j j' el ag n g (d'.workers w) h)).holds

  heap-swapped :
      (w : ℕ) (j : Job P) (ag n : ℕ) (b : Bool) (d : Dispatcher F P)
      → (swapped w j ag n b d).heap ≡ d.heap
  heap-swapped w j ag n true d = refl
  heap-swapped w j ag n false d = refl

  heap-stored :
      (w : ℕ) (j : Job P) (ag n : ℕ) (o : Option ℕ) (d : Dispatcher F P)
      → (stored w j ag n o d).heap ≡ d.heap
  heap-stored w j ag n none d = refl
  heap-stored w j ag n (some el) d = refl

  retry_left :
      (j : Job P) (el ag n : ℕ) → entered (joining j el ag n) (retry j (some el) ag n) ≡ none
  retry_left j el ag n =
      if_elim (λ (x : Pc P). entered (joining j el ag n) x ≡ none) (ltb 100 (n + 1))
        (ended j gave_up) (storing j (some el) ag (n + 1)) (λ h. refl) (λ h. refl)

  group_alert-Entered :
      (w : ℕ) (now : Time) (pc : Pc P) (d : Dispatcher F P)
      → d.workers w ≡ pc
      → IsHolding d
      → Entered (group_alert lib limit w now pc d) w pc
  unfolding group_alert
  group_alert-Entered w now (trying j el) d q c =
      joined-Entered w j el (trying j el) (checking j (some el)) now d c.1 refl refl
  group_alert-Entered w now (joining j el ag n) d q c =
      joined-Entered w j el (joining j el ag n) (retry j (some el) ag n) now d c.1 refl
        (retry_left j el ag n)
  group_alert-Entered w now (storing j (some el) ag n) d q c =
      own-Entered w j (some el) ag n d (swapped w j ag n (points j.place el d) d) c.0 q
        (heap-swapped w j ag n (points j.place el d) d)
  group_alert-Entered w now (storing j none ag n) d q c =
      own-Entered w j none ag n d (stored w j ag n (lookup j.place d.groups) d) c.0 q
        (heap-stored w j ag n (lookup j.place d.groups) d)
  group_alert-Entered w now idle d q c = λ j' g h. absurd (ground (arith, h))
  group_alert-Entered w now (loading j) d q c = λ j' g h. absurd (ground (arith, h))
  group_alert-Entered w now (checking j el) d q c = λ j' g h. absurd (ground (arith, h))
  group_alert-Entered w now (counting j ag) d q c = λ j' g h. absurd (ground (arith, h))
  group_alert-Entered w now (starting j ag) d q c = λ j' g h. absurd (ground (arith, h))
  group_alert-Entered w now (ended j r) d q c = λ j' g h. absurd (ground (arith, h))

  -- Whatever steps have been taken before: the step by which a worker inserts its alert into a
  -- group that it found, or by which the group that it made comes under its place, leaves the
  -- alert in that group.
  pub group_alert-Holds :
      {d : Dispatcher F P} (w : ℕ) (now : Time) (j : Job P) (g : ℕ)
      → Reach lib limit d
      → entered (d.workers w) ((group_alert lib limit w now (d.workers w) d).workers w)
        ≡ some (j, g)
      → Holds lib (group_alert lib limit w now (d.workers w) d) j g
  group_alert-Holds {d} w now j g reach h =
      group_alert-Entered w now (d.workers w) d refl (Reach-IsHolding reach) j g h
