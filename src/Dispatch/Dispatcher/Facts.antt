-- ===== src/Dispatch/Dispatcher/Facts.antt =====
-- The groups of dispatch/dispatch.go that a worker may rely on, by where it stands.
use codestra_alertmanager.Prelude.{
  ℕ, ◌+◌, ◌<◌, true, Option, none, some, List, ◌≡◌, refl, sym, subst, arith, Comparable, ◌==◌,
  Bool-cases, Option-cases, ◌⊎◌, inl, inr, if_elim, ltb,
}
use Prim.{tt}
use codestra_alertmanager.Prelude.Maps.{lookup, insert, erase, lookup-insert, lookup-erase}
use codestra_alertmanager.Dispatch.Dispatcher.{
  Dispatcher, State, Pc, Job, goto, run_ag, is_destroyed, started, waiting_to_start, running,
  stopped, idle, loading, trying, checking, storing, joining, counting, starting, ended, inserted,
  created, over_limit, gave_up, retry, loaded, points,
}
use codestra_alertmanager.Dispatch.Dispatcher.Moves.{Evolves, Evolves-rest, Evolves-run_ag, at_elim}

module _ {F P : Type 0} ⦃p : Comparable P⦄ where
  -- The group is destroyed, or it stands under the place.
  abbrev pub IsPlaced : Dispatcher F P → P → ℕ → Type 0
  IsPlaced d k g = (g < d.next) × ((is_destroyed g d ≡ true) ⊎ (lookup k d.groups ≡ some g))

  abbrev pub IsDead : Dispatcher F P → ℕ → Type 0
  IsDead d g = (g < d.next) × (is_destroyed g d ≡ true)

  -- What a worker may rely on, by where it stands.
  abbrev pub Facts : Dispatcher F P → Pc P → Type 0
  Facts d (trying j el) = IsPlaced d j.place el
  Facts d (checking j (some el)) = IsDead d el
  Facts d (storing j none ag retries) = ag < d.next
  Facts d (storing j (some el) ag retries) = (ag < d.next) × IsDead d el
  Facts d (joining j el ag retries) = (ag < d.next) × IsPlaced d j.place el
  Facts d (counting j ag) = IsPlaced d j.place ag
  Facts d (starting j ag) = IsPlaced d j.place ag
  Facts d (ended j (inserted g)) = IsPlaced d j.place g
  Facts d (ended j (created g)) = IsPlaced d j.place g
  Facts d (ended j over_limit) = Unit
  Facts d (ended j gave_up) = Unit
  Facts d idle = Unit
  Facts d (loading j) = Unit
  Facts d (checking j none) = Unit

  module _ (d d' : Dispatcher F P) (v : Evolves d d') where
    pub placed : (k : P) (g : ℕ) → IsPlaced d k g → IsPlaced d' k g
    placed k g (h, inl gone) = (ground (arith, h, v.grows), inl (v.dead g h gone))
    placed k g (h, inr here) = (ground (arith, h, v.grows), v.kept k g here)

    pub dead : (g : ℕ) → IsDead d g → IsDead d' g
    dead g (h, gone) = (ground (arith, h, v.grows), v.dead g h gone)

    pub still : (pc : Pc P) → Facts d pc → Facts d' pc
    still (trying j el) f = placed j.place el f
    still (checking j (some el)) f = dead el f
    still (storing j none ag retries) f = ground (arith, f, v.grows)
    still (storing j (some el) ag retries) f = (ground (arith, f.0, v.grows), dead el f.1)
    still (joining j el ag retries) f = (ground (arith, f.0, v.grows), placed j.place el f.1)
    still (counting j ag) f = placed j.place ag f
    still (starting j ag) f = placed j.place ag f
    still (ended j (inserted g)) f = placed j.place g f
    still (ended j (created g)) f = placed j.place g f
    still (ended j over_limit) f = tt
    still (ended j gave_up) f = tt
    still idle f = tt
    still (loading j) f = tt
    still (checking j none) f = tt

  abbrev pub IsTabled : Dispatcher F P → Type 0
  IsTabled d = (k : P) (g : ℕ) → lookup k d.groups ≡ some g → g < d.next

  pub record IsConsistent (d : Dispatcher F P) : Type 0 where
    pub tabled : IsTabled d
    pub workers : (w : ℕ) → Facts d (d.workers w)

  -- A change of what is shared.
  pub settled :
      {d d' : Dispatcher F P}
      → IsConsistent d
      → Evolves d d'
      → IsTabled d'
      → d'.workers ≡ d.workers
      → IsConsistent d'
  settled {d} {d'} c v t same = record {
    tabled = t;
    workers = λ w.
        subst (λ (ws : ℕ → Pc P). Facts d' (ws w)) (sym same)
          (still d d' v (d.workers w) (c.workers w));
  }

  -- A worker goes on.
  pub moved :
      (w : ℕ) (pc : Pc P) {d : Dispatcher F P}
      → IsConsistent d
      → Facts d pc
      → IsConsistent (goto w pc d)
  moved w pc {d} c f =
      let v =
        Evolves-rest d d.added d.removed d.uncounted d.state d.to_start (goto w pc d).workers in
      record {
        tabled = c.tabled;
        workers = λ i.
            at_elim (Facts (goto w pc d)) w pc d.workers i (still d (goto w pc d) v pc f)
              (still d (goto w pc d) v (d.workers i) (c.workers i));
      }

  pub points-lookup :
      (k : P) (g : ℕ) (d : Dispatcher F P) → points k g d ≡ true → lookup k d.groups ≡ some g
  points-lookup k g d h = elim (Option-cases (lookup k d.groups)) [
    | inl n ↦ absurd (ground (arith, h, n))
    | inr (i, q) ↦ ground (arith, h, q)
  ]

  pub IsTabled-insert :
      (k : P) (ag : ℕ) (d : Dispatcher F P)
      → IsTabled d
      → ag < d.next
      → IsTabled (record d { groups = insert k ag d.groups })
  IsTabled-insert k ag d t n k' g h = elim (Bool-cases (k == k')) [
    | inl same ↦ ground (arith, lookup-insert k k' ag d.groups, same, h, n)
    | inr other ↦ t k' g (ground (arith, lookup-insert k k' ag d.groups, other, h))
  ]

  pub IsTabled-erase :
      (k : P) (m : ℕ) (d : Dispatcher F P)
      → IsTabled d
      → IsTabled (record d { groups = erase k d.groups; uncounted = m })
  IsTabled-erase k m d t k' g h = elim (Bool-cases (k == k')) [
    | inl same ↦ absurd (ground (arith, lookup-erase k k' d.groups, same, h))
    | inr other ↦ t k' g (ground (arith, lookup-erase k k' d.groups, other, h))
  ]

  pub retry_fact :
      (d : Dispatcher F P) (j : Job P) (el : Option ℕ) (ag retries : ℕ)
      → Facts d (storing j el ag 0)
      → Facts d (retry j el ag retries)
  retry_fact d j none ag retries f =
      if_elim (Facts d) (ltb 100 (retries + 1)) (ended j gave_up) (storing j none ag (retries + 1))
        (λ h. tt) (λ h. f)
  retry_fact d j (some el) ag retries f =
      if_elim (Facts d) (ltb 100 (retries + 1)) (ended j gave_up)
        (storing j (some el) ag (retries + 1)) (λ h. tt) (λ h. f)

  pub loaded_fact :
      (d : Dispatcher F P) (j : Job P) (o : Option ℕ)
      → ((g : ℕ) → o ≡ some g → IsPlaced d j.place g)
      → Facts d (loaded j o)
  loaded_fact d j none f = tt
  loaded_fact d j (some g) f = f g refl

  pub Evolves-refl : (d : Dispatcher F P) → Evolves d d
  Evolves-refl d = Evolves-rest d d.added d.removed d.uncounted d.state d.to_start d.workers

  pub run_ag-IsConsistent :
      (g : ℕ) (d : Dispatcher F P) → IsConsistent d → IsConsistent (run_ag g d)
  unfolding run_ag
  run_ag-IsConsistent g d c = settled c (Evolves-run_ag g d) c.tabled refl

  pub started-Evolves : (s : State) (g : ℕ) (d : Dispatcher F P) → Evolves d (started s g d)
  started-Evolves running g d = Evolves-run_ag g d
  started-Evolves waiting_to_start g d = Evolves-refl d
  started-Evolves stopped g d = Evolves-refl d

  pub started-IsConsistent :
      (s : State) (g : ℕ) (d : Dispatcher F P) → IsConsistent d → IsConsistent (started s g d)
  started-IsConsistent running g d c = run_ag-IsConsistent g d c
  started-IsConsistent waiting_to_start g d c = c
  started-IsConsistent stopped g d c = c

  -- A change of what is not in the groups.
  pub counted-IsConsistent :
      (d : Dispatcher F P) (a r u : ℕ) (s : State) (ks : List P)
      → IsConsistent d
      → IsConsistent (record d { added = a; removed = r; uncounted = u; state = s; to_start = ks })
  counted-IsConsistent d a r u s ks c =
      settled c (Evolves-rest d a r u s ks d.workers) c.tabled refl
