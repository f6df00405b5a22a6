-- ===== src/Dispatch/Dispatcher/Holding.antt =====
-- `groupAlert` of dispatch/dispatch.go: an alert that enters a group is there.
use codestra_alertmanager.Prelude.{
  ℕ, ◌+◌, ◌≤◌, Bool, true, false, Option, none, some, List, ◌≡◌, ◌≢◌, refl, sym, subst, ap, ◌∙◌,
  arith, nat_beq, Comparable, ◌==◌, Bool-cases, ◌⊎◌, inl, inr, if_elim, if◌then◌else◌, ltb,
}
use codestra_alertmanager.Prelude.Maps.{lookup, insert, erase, lookup-insert, lookup-erase}
use mathlib.Core.Option.{some-injective}
use codestra_alertmanager.Clock.{Time}
use codestra_alertmanager.Store.{Library, get, new_alerts}
use codestra_alertmanager.Dispatch.Group.{Group, insert_alert}
use codestra_alertmanager.Dispatch.Group.Insertion.{get-insert_alert}
use codestra_alertmanager.Dispatch.Dispatcher.{
  Cell, Dispatcher, State, Pc, Job, at, goto, write, allocate, run_ag, started, waiting_to_start,
  running, stopped, idle, loading, trying, checking, storing, joining, counting, starting, ended,
  inserted, created, over_limit, gave_up, retry, loaded, points, joined, checked, swapped, stored,
  is_full, group_alert, new_aggr_group,
}
use codestra_alertmanager.Dispatch.Dispatcher.Facts.{Facts, IsConsistent}
use codestra_alertmanager.Dispatch.Dispatcher.Private.{
  owned, names, IsPrivate, Spares, IsPrivate-goto, ArePrivate, ArePrivate-goto,
}

pub new_limit : (F : Type 0) → (new_aggr_group {F = F}).store.per_alert_limit ≡ 0
unfolding new_aggr_group new_alerts
new_limit F = refl

pub new_live : (F : Type 0) → (new_aggr_group {F = F}).store.is_destroyed ≡ false
unfolding new_aggr_group new_alerts
new_live F = refl

module _ {F P : Type 0} ⦃p : Comparable P⦄ where
  names_below :
      (d : Dispatcher F P) (pc : Pc P) (g : ℕ) → Facts d pc → d.next ≤ g → names pc g ≡ false
  names_below d idle g f h = refl
  names_below d (loading j) g f h = refl
  names_below d (trying j el) g f h = ground (arith, f.0, h)
  names_below d (checking j el) g f h = refl
  names_below d (storing j el ag n) g f h = refl
  names_below d (joining j el ag n) g f h = ground (arith, f.1.0, h)
  names_below d (counting j ag) g f h = ground (arith, f.0, h)
  names_below d (starting j ag) g f h = ground (arith, f.0, h)
  names_below d (ended j r) g f h = refl

module _ {F P : Type 0} ⦃e : Comparable F⦄ ⦃p : Comparable P⦄ (lib : Library F) (limit : ℕ) where
  pub Spares-same :
      (g : ℕ) (d : Dispatcher F P) (a r u : ℕ) (s : State) (ks : List P)
      → Spares lib g d
          (record d { added = a; removed = r; uncounted = u; state = s; to_start = ks })
  Spares-same g d a r u s ks = record {
    cell = refl;
    grows = omega arith;
    absent = λ k q. q;
    workers = refl;
  }

  pub Spares-at :
      (g i : ℕ) (c : Cell F) (d : Dispatcher F P)
      → nat_beq i g ≡ false
      → Spares lib g d (record d { heap = at i c d.heap })
  Spares-at g i c d h = record {
    cell =
        if_elim (λ (x : Cell F). x ≡ d.heap g) (nat_beq i g) c (d.heap g)
          (λ q. absurd (ground (arith, q, h))) (λ q. refl);
    grows = omega arith;
    absent = λ k q. q;
    workers = refl;
  }

  Spares-insert :
      (g ag : ℕ) (k : P) (d : Dispatcher F P)
      → nat_beq ag g ≡ false
      → Spares lib g d (record d { groups = insert k ag d.groups })
  Spares-insert g ag k d h = record {
    cell = refl;
    grows = omega arith;
    absent = λ k' q. elim (Bool-cases (k == k')) [
      | inl same ↦ absurd (ground (arith, lookup-insert k k' ag d.groups, same, q, h))
      | inr other ↦ ground (arith, lookup-insert k k' ag d.groups, other, q)
    ];
    workers = refl;
  }

  pub Spares-erase :
      (g n : ℕ) (k : P) (d : Dispatcher F P)
      → Spares lib g d (record d { groups = erase k d.groups; uncounted = n })
  Spares-erase g n k d = record {
    cell = refl;
    grows = omega arith;
    absent = λ k' q. elim (Bool-cases (k == k')) [
      | inl same ↦ absurd (ground (arith, lookup-erase k k' d.groups, same, q))
      | inr other ↦ ground (arith, lookup-erase k k' d.groups, other, q)
    ];
    workers = refl;
  }

  -- A worker without a group of its own goes on without one.
  pub plain :
      {d : Dispatcher F P} (d' : Dispatcher F P) (w : ℕ) (pc : Pc P)
      → ArePrivate lib d
      → d'.workers ≡ d.workers
      → owned pc ≡ none
      → ((i : ℕ) (j : Job P) (g : ℕ)
          → nat_beq w i ≡ false
          → IsPrivate lib d i j g
          → Spares lib g d d' × (names pc g ≡ false))
      → ArePrivate lib (goto w pc d')
  plain d' w pc c same o f =
      ArePrivate-goto lib d' w pc c same
        (λ i j g n v. ((f i j g n v).0, (f i j g n v).1, λ j' q. absurd (ground (arith, o, q))))
        (λ j g q. absurd (ground (arith, o, q)))

  -- A worker keeps the group of its own, or gives it up.
  pub keeping :
      {d : Dispatcher F P} (d' : Dispatcher F P) (w : ℕ) (pc : Pc P) (j : Job P) (ag : ℕ)
      → ArePrivate lib d
      → owned (d.workers w) ≡ some (j, ag)
      → d'.workers ≡ d.workers
      → (owned pc ≡ none) ⊎ (owned pc ≡ some (j, ag))
      → ((i : ℕ) (j : Job P) (g : ℕ)
          → IsPrivate lib d i j g
          → Spares lib g d d' × (names pc g ≡ false))
      → ArePrivate lib (goto w pc d')
  keeping {d} d' w pc j ag c h same (inl o) f = plain d' w pc c same o (λ i j' g n v. f i j' g v)
  keeping {d} d' w pc j ag c h same (inr o) f =
      ArePrivate-goto lib d' w pc c same
        (λ i j' g n v.
          let (s, q) = f i j' g v in
          let back : nat_beq i w ≡ false = ground (arith, n) in
          (s, q, λ j'' r. v.alone w j'' back (h ∙ sym o ∙ r)))
        (λ j' g r.
          let v = c w j' g (h ∙ sym o ∙ r) in
          let (s, q) = f w j' g v in
          IsPrivate-goto lib w pc v s q (λ j'' n. absurd (ground (arith, n))))

  pub elsewhere :
      (k : P) (el g : ℕ) (d : Dispatcher F P)
      → lookup k d.groups ≢ some g
      → lookup k d.groups ≡ some el
      → nat_beq el g ≡ false
  elsewhere k el g d absent q = elim (Bool-cases (nat_beq el g)) [
    | inr other ↦ other
    | inl same ↦ absurd (absent (q ∙ ap some (ground (arith, same))))
  ]

  loaded-ArePrivate :
      (w : ℕ) (j : Job P) (o : Option ℕ) (d : Dispatcher F P)
      → ArePrivate lib d
      → lookup j.place d.groups ≡ o
      → ArePrivate lib (goto w (loaded j o) d)
  loaded-ArePrivate w j none d c q =
      plain d w (checking j none) c refl refl
        (λ i j' g n v. (Spares-same g d d.added d.removed d.uncounted d.state d.to_start, refl))
  loaded-ArePrivate w j (some el) d c q = plain d w (trying j el) c refl refl (λ i j' g n v. (
    Spares-same g d d.added d.removed d.uncounted d.state d.to_start,
    elsewhere j.place el g d (v.absent j.place) q,
  ))

  joined-ArePrivate :
      (w : ℕ) (j : Job P) (el : ℕ) (otherwise : Pc P) (r : Group F × Bool) (d : Dispatcher F P)
      → ArePrivate lib d
      → ((g : ℕ) → names (d.workers w) g ≡ nat_beq el g)
      → ((g : ℕ) → names otherwise g ≡ false)
      → (owned otherwise ≡ none)
        ⊎ ((j : Job P) × (ag : ℕ) × (owned (d.workers w) ≡ some (j, ag))
            × (owned otherwise ≡ some (j, ag)))
      → ArePrivate lib (joined w j el otherwise r d)
  joined-ArePrivate w j el otherwise (group, ok) d c el_named quiet own =
      let pc = if ok then ended j (inserted el) else otherwise in
      let spare = λ (i : ℕ) (j' : Job P) (g : ℕ) (v : IsPrivate lib d i j' g).
        Spares-at g el (record (d.heap el) { group = group }) d (sym (el_named g) ∙ v.unnamed w) in
      let q = λ (g : ℕ).
        if_elim (λ (x : Pc P). names x g ≡ false) ok (ended j (inserted el)) otherwise (λ h. refl)
          (λ h. quiet g) in
      elim own [
        | inl o ↦
            plain (write el group d) w pc c refl
              (if_elim (λ (x : Pc P). owned x ≡ none) ok (ended j (inserted el)) otherwise
                (λ h. refl) (λ h. o))
              (λ i j' g n v. (spare i j' g v, q g))
        | inr (j', ag, h, o) ↦
            keeping (write el group d) w pc j' ag c h refl
              (if_elim (λ (x : Pc P). (owned x ≡ none) ⊎ (owned x ≡ some (j', ag))) ok
                (ended j (inserted el)) otherwise (λ h. inl refl) (λ h. inr o))
              (λ i j' g v. (spare i j' g v, q g))
      ]

  -- The group of a worker goes under a place.
  published-ArePrivate :
      (w : ℕ) (j : Job P) (ag : ℕ) (pc : Pc P) (d : Dispatcher F P)
      → ArePrivate lib d
      → owned (d.workers w) ≡ some (j, ag)
      → owned pc ≡ none
      → ((g : ℕ) → names pc g ≡ nat_beq ag g)
      → ArePrivate lib (goto w pc (record d { groups = insert j.place ag d.groups }))
  published-ArePrivate w j ag pc d c h o named =
      plain (record d { groups = insert j.place ag d.groups }) w pc c refl o
        (λ i j' g n v.
          let back : nat_beq i w ≡ false = ground (arith, n) in
          let other : nat_beq ag g ≡ false = elim (Bool-cases (nat_beq ag g)) [
            | inr q ↦ q
            | inl q ↦
                absurd (v.alone w j back (h ∙ ap (λ (x : ℕ). some (j, x)) (ground (arith, q))))
          ] in
          (Spares-insert g ag j.place d other, named g ∙ other))

  retry_owned :
      (j : Job P) (el : Option ℕ) (ag n : ℕ)
      → (owned (retry j el ag n) ≡ none) ⊎ (owned (retry j el ag n) ≡ some (j, ag))
  retry_owned j el ag n =
      if_elim (λ (x : Pc P). (owned x ≡ none) ⊎ (owned x ≡ some (j, ag))) (ltb 100 (n + 1))
        (ended j gave_up) (storing j el ag (n + 1)) (λ h. inl refl) (λ h. inr refl)

  retry_names : (j : Job P) (el : Option ℕ) (ag n g : ℕ) → names (retry j el ag n) g ≡ false
  retry_names j el ag n g =
      if_elim (λ (x : Pc P). names x g ≡ false) (ltb 100 (n + 1)) (ended j gave_up)
        (storing j el ag (n + 1)) (λ h. refl) (λ h. refl)

  swapped-ArePrivate :
      (w : ℕ) (j : Job P) (ag n : ℕ) (b : Bool) (d : Dispatcher F P)
      → ArePrivate lib d
      → owned (d.workers w) ≡ some (j, ag)
      → ArePrivate lib (swapped w j ag n b d)
  swapped-ArePrivate w j ag n true d c h =
      published-ArePrivate w j ag (starting j ag) d c h refl (λ g. refl)
  swapped-ArePrivate w j ag n false d c h =
      keeping d w (retry j none ag n) j ag c h refl (retry_owned j none ag n) (λ i j' g v. (
        Spares-same g d d.added d.removed d.uncounted d.state d.to_start,
        retry_names j none ag n g,
      ))

  stored-ArePrivate :
      (w : ℕ) (j : Job P) (ag n : ℕ) (o : Option ℕ) (d : Dispatcher F P)
      → ArePrivate lib d
      → owned (d.workers w) ≡ some (j, ag)
      → lookup j.place d.groups ≡ o
      → ArePrivate lib (stored w j ag n o d)
  stored-ArePrivate w j ag n none d c h q =
      published-ArePrivate w j ag (counting j ag) d c h refl (λ g. refl)
  stored-ArePrivate w j ag n (some el) d c h q =
      keeping d w (joining j el ag n) j ag c h refl (inr refl) (λ i j' g v. (
        Spares-same g d d.added d.removed d.uncounted d.state d.to_start,
        elsewhere j.place el g d (v.absent j.place) q,
      ))

  -- The group that a worker makes is its own.
  allocated-IsPrivate :
      (w : ℕ) (j : Job P) (el : Option ℕ) (now : Time) (d : Dispatcher F P)
      → ArePrivate lib d
      → IsConsistent d
      → IsPrivate lib
          (goto w
            (storing j el d.next 0)
            (allocate (insert_alert lib j.alert now new_aggr_group).0 d))
          w
          j
          d.next
  allocated-IsPrivate w j el now d c k =
      let group = (insert_alert lib j.alert now new_aggr_group).0 in
      let cell : Cell F = record { group = group; running = false } in
      let pc : Pc P = storing j el d.next 0 in
      record {
        allocated = omega arith;
        holds =
            if_elim
              (λ (x : Cell F). get x.group.store (lib.fingerprint j.alert.labels) ≡ some j.alert)
              (nat_beq d.next d.next) cell (d.heap d.next)
              (λ q. get-insert_alert lib j.alert now new_aggr_group (new_limit F) (new_live F))
              (λ q. absurd (ground (arith, q)));
        still =
            if_elim (λ (x : Cell F). x.running ≡ false) (nat_beq d.next d.next) cell (d.heap d.next)
              (λ q. refl) (λ q. absurd (ground (arith, q)));
        absent = λ k' q. let h = k.tabled k' d.next q in absurd (omega (arith, h));
        unnamed = λ i.
            if_elim (λ (x : Pc P). names x d.next ≡ false) (nat_beq w i) pc (d.workers i)
              (λ q. refl) (λ q. names_below d (d.workers i) d.next (k.workers i) (omega arith));
        alone = λ i j' n.
            if_elim (λ (x : Pc P). owned x ≢ some (j', d.next)) (nat_beq w i) pc (d.workers i)
              (λ same. absurd (ground (arith, same, n)))
              (λ other q. let h = (c i j' d.next q).allocated in omega (arith, h));
      }

  abbrev group_of : Option (Job P × ℕ) → ℕ
  group_of none = 0
  group_of (some (j, g)) = g

  checked-ArePrivate :
      (w : ℕ) (j : Job P) (el : Option ℕ) (now : Time) (b : Bool) (d : Dispatcher F P)
      → ArePrivate lib d
      → IsConsistent d
      → ArePrivate lib (checked lib limit w j el now b d)
  checked-ArePrivate w j el now true d c k =
      plain d w (ended j over_limit) c refl refl
        (λ i j' g n v. (Spares-same g d d.added d.removed d.uncounted d.state d.to_start, refl))
  checked-ArePrivate w j el now false d c k =
      let group = (insert_alert lib j.alert now new_aggr_group).0 in
      let cell : Cell F = record { group = group; running = false } in
      let pc : Pc P = storing j el d.next 0 in
      ArePrivate-goto lib (allocate group d) w pc c refl
        (λ i j' g n v.
          let h = v.allocated in
          let other : nat_beq d.next g ≡ false = ground (arith, h) in
          (
            record {
              cell = (Spares-at g d.next cell d other).cell;
              grows = omega arith;
              absent = λ k q. q;
              workers = refl;
            },
            refl,
            λ j'' q. let same = ap group_of q in omega (arith, h, same),
          ))
        (λ j' g q.
          subst (λ (x : Job P × ℕ). IsPrivate lib (goto w pc (allocate group d)) w x.0 x.1)
            (some-injective (j, d.next) (j', g) q) (allocated-IsPrivate w j el now d c k))

  leaving-ArePrivate :
      (s : State) (w : ℕ) (pc : Pc P) (ag : ℕ) (d : Dispatcher F P)
      → ArePrivate lib d
      → owned pc ≡ none
      → ((g : ℕ) → names pc g ≡ false)
      → ((g : ℕ) → names (d.workers w) g ≡ nat_beq ag g)
      → ArePrivate lib (goto w pc (started s ag d))
  unfolding run_ag
  leaving-ArePrivate running w pc ag d c o n named = plain (run_ag ag d) w pc c refl o (λ i j g q v.
      (Spares-at g ag (record (d.heap ag) { running = true }) d (sym (named g) ∙ v.unnamed w), n g))
  leaving-ArePrivate waiting_to_start w pc ag d c o n named =
      plain d w pc c refl o
        (λ i j g q v. (Spares-same g d d.added d.removed d.uncounted d.state d.to_start, n g))
  leaving-ArePrivate stopped w pc ag d c o n named =
      plain d w pc c refl o
        (λ i j g q v. (Spares-same g d d.added d.removed d.uncounted d.state d.to_start, n g))

  retry_own :
      (w : ℕ) (j : Job P) (el : Option ℕ) (ag n : ℕ) (d : Dispatcher F P)
      → owned (d.workers w) ≡ some (j, ag)
      → (owned (retry j el ag n) ≡ none)
        ⊎ ((j' : Job P) × (ag' : ℕ) × (owned (d.workers w) ≡ some (j', ag'))
            × (owned (retry j el ag n) ≡ some (j', ag')))
  retry_own w j el ag n d h = elim (retry_owned j el ag n) [
    | inl o ↦ inl o
    | inr o ↦ inr (j, ag, h, o)
  ]

  pub group_alert-ArePrivate :
      (w : ℕ) (now : Time) (pc : Pc P) (d : Dispatcher F P)
      → d.workers w ≡ pc
      → ArePrivate lib d
      → IsConsistent d
      → ArePrivate lib (group_alert lib limit w now pc d)
  unfolding group_alert
  group_alert-ArePrivate w now idle d h c k = c
  group_alert-ArePrivate w now (loading j) d h c k =
      loaded-ArePrivate w j (lookup j.place d.groups) d c refl
  group_alert-ArePrivate w now (trying j el) d h c k =
      joined-ArePrivate w j el (checking j (some el))
        (insert_alert lib j.alert now (d.heap el).group) d c (λ g. ap (λ (x : Pc P). names x g) h)
        (λ g. refl) (inl refl)
  group_alert-ArePrivate w now (checking j el) d h c k =
      checked-ArePrivate w j el now (is_full limit d) d c k
  group_alert-ArePrivate w now (storing j (some el) ag n) d h c k =
      swapped-ArePrivate w j ag n (points j.place el d) d c (ap owned h)
  group_alert-ArePrivate w now (storing j none ag n) d h c k =
      stored-ArePrivate w j ag n (lookup j.place d.groups) d c (ap owned h) refl
  group_alert-ArePrivate w now (joining j el ag n) d h c k =
      joined-ArePrivate w j el (retry j (some el) ag n)
        (insert_alert lib j.alert now (d.heap el).group) d c (λ g. ap (λ (x : Pc P). names x g) h)
        (retry_names j (some el) ag n) (retry_own w j (some el) ag n d (ap owned h))
  group_alert-ArePrivate w now (counting j ag) d h c k =
      plain (record d { added = d.added + 1 }) w (starting j ag) c refl refl
        (λ i j' g n v. (
          Spares-same g d (d.added + 1) d.removed d.uncounted d.state d.to_start,
          ap (λ (x : Pc P). names x g) (sym h) ∙ v.unnamed w,
        ))
  group_alert-ArePrivate w now (starting j ag) d h c k =
      leaving-ArePrivate d.state w (ended j (created ag)) ag d c refl (λ g. refl)
        (λ g. ap (λ (x : Pc P). names x g) h)
  group_alert-ArePrivate w now (ended j r) d h c k = c
