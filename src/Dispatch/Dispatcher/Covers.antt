-- ===== src/Dispatch/Dispatcher/Covers.antt =====
-- `runAG` of dispatch/dispatch.go: why a group runs, or will.
use codestra_alertmanager.Prelude.{
  ℕ, ◌<◌, Bool, true, false, Option, none, some, ◌≡◌, refl, sym, subst, ap, ◌∙◌, arith, nat_beq,
  Comparable, ◌==◌, Bool-cases, inl, inr, if_elim,
}
use codestra_alertmanager.Prelude.Maps.{lookup, insert, lookup-insert}
use codestra_alertmanager.Prelude.Membership.{In}
use codestra_alertmanager.Dispatch.Group.{Group}
use codestra_alertmanager.Dispatch.Dispatcher.{
  Cell, Dispatcher, State, Pc, at, goto, write, allocate, run_ag, started, waiting_to_start,
  running, stopped, idle, loading, trying, checking, storing, joining, counting, starting, ended,
  is_at_rest,
}

-- The group that a worker has put under its place and is still to start.
abbrev pub publishes : {P : Type 0} → Pc P → Option ℕ
publishes (counting j g) = some g
publishes (starting j g) = some g
publishes _ = none

pub publishes_rest : {P : Type 0} (pc : Pc P) → is_at_rest pc ≡ true → publishes pc ≡ none
publishes_rest idle h = refl
publishes_rest (loading j) h = refl
publishes_rest (trying j el) h = refl
publishes_rest (checking j el) h = refl
publishes_rest (storing j el ag n) h = refl
publishes_rest (joining j el ag n) h = refl
publishes_rest (counting j g) h = absurd (ground (arith, h))
publishes_rest (starting j g) h = absurd (ground (arith, h))
publishes_rest (ended j r) h = refl

pub others_goto :
    {P : Type 0} (w : ℕ) (pc : Pc P) (f : ℕ → Pc P) (i : ℕ)
    → nat_beq w i ≡ false
    → at w pc f i ≡ f i
others_goto w pc f i h = simp h

pub own_goto : {P : Type 0} (w : ℕ) (pc : Pc P) (f : ℕ → Pc P) → at w pc f w ≡ pc
own_goto w pc f = let same : nat_beq w w ≡ true = ground arith in simp same

module _ {F P : Type 0} ⦃p : Comparable P⦄ where
  abbrev pub runs : ℕ → Dispatcher F P → Bool
  runs g d = (d.heap g).running

  -- Why the group of a place runs, or will.
  pub data Covered (d : Dispatcher F P) (k : P) (g : ℕ) : Type 0 where
    runs_now : runs g d ≡ true → Covered d k g
    published : (w : ℕ) → publishes (d.workers w) ≡ some g → Covered d k g
    waits : d.state ≡ waiting_to_start → Covered d k g
    over : d.state ≡ stopped → Covered d k g
    listed : In k d.to_start → Covered d k g

  abbrev pub AreCovered : Dispatcher F P → Type 0
  AreCovered d = (k : P) (g : ℕ) → lookup k d.groups ≡ some g → Covered d k g

  abbrev pub IsTabled : Dispatcher F P → Type 0
  IsTabled d = (k : P) (g : ℕ) → lookup k d.groups ≡ some g → g < d.next

  -- A worker goes on, and what runs goes on running.
  pub record Carries (w : ℕ) (d d' : Dispatcher F P) : Type 0 where
    pub go_on : (g : ℕ) → g < d.next → runs g d ≡ true → runs g d' ≡ true
    pub others : (i : ℕ) → nat_beq w i ≡ false → d'.workers i ≡ d.workers i
    pub state : d'.state ≡ d.state
    pub to_start : d'.to_start ≡ d.to_start

  pub carried :
      {w : ℕ} {d d' : Dispatcher F P} (k : P) (g : ℕ)
      → Carries w d d'
      → g < d.next
      → (publishes (d.workers w) ≡ some g → Covered d' k g)
      → Covered d k g
      → Covered d' k g
  carried k g c n own (runs_now h) = runs_now (c.go_on g n h)
  carried {w} {d} {d'} k g c n own (published i h) = elim (Bool-cases (nat_beq w i)) [
    | inl same ↦ own (subst (λ x. publishes (d.workers x) ≡ some g) (sym (ground (arith, same))) h)
    | inr other ↦ published i (ap publishes (c.others i other) ∙ h)
  ]
  carried k g c n own (waits h) = waits (c.state ∙ h)
  carried k g c n own (over h) = over (c.state ∙ h)
  carried k g c n own (listed h) = listed (subst (In k) (sym c.to_start) h)

  pub runs-write :
      (g : ℕ) (group : Group F) (d : Dispatcher F P) (h : ℕ) → runs h (write g group d) ≡ runs h d
  runs-write g group d h =
      if_elim (λ (c : Cell F). c.running ≡ runs h d) (nat_beq g h)
        (record (d.heap g) { group = group }) (d.heap h)
        (λ q. ap (λ i. runs i d) (ground (arith, q))) (λ q. refl)

  pub runs-run_ag_self : (g : ℕ) (d : Dispatcher F P) → runs g (run_ag g d) ≡ true
  unfolding run_ag
  runs-run_ag_self g d =
      if_elim (λ (c : Cell F). c.running ≡ true) (nat_beq g g)
        (record (d.heap g) { running = true }) (d.heap g) (λ q. refl)
        (λ q. absurd (ground (arith, q)))

  pub runs-run_ag :
      (g : ℕ) (d : Dispatcher F P) (h : ℕ) → runs h d ≡ true → runs h (run_ag g d) ≡ true
  unfolding run_ag
  runs-run_ag g d h r =
      if_elim (λ (c : Cell F). c.running ≡ true) (nat_beq g h)
        (record (d.heap g) { running = true }) (d.heap h) (λ q. refl) (λ q. r)

  pub runs-allocate :
      (group : Group F) (d : Dispatcher F P) (h : ℕ)
      → h < d.next
      → runs h d ≡ true
      → runs h (allocate group d) ≡ true
  runs-allocate group d h n r =
      if_elim (λ (c : Cell F). c.running ≡ true) (nat_beq d.next h)
        (record { group = group; running = false }) (d.heap h) (λ q. absurd (ground (arith, q, n)))
        (λ q. r)

  -- The worker goes on after a change that leaves the places and the flags.
  pub went :
      (w : ℕ) (pc : Pc P) {d : Dispatcher F P} (d' : Dispatcher F P)
      → AreCovered d
      → IsTabled d
      → Carries w d (goto w pc d')
      → d'.groups ≡ d.groups
      → ((g : ℕ) → publishes (d.workers w) ≡ some g → (k : P) → Covered (goto w pc d') k g)
      → AreCovered (goto w pc d')
  went w pc {d} d' c t carries same own k g h =
      let before : lookup k d.groups ≡ some g = ap (lookup k) (sym same) ∙ h in
      carried k g carries (t k g before) (λ q. own g q k) (c k g before)

  -- A place takes a group, which the worker is to start.
  pub replaced :
      (w : ℕ) (k : P) (ag : ℕ) (pc : Pc P) (d : Dispatcher F P)
      → publishes (d.workers w) ≡ none
      → publishes pc ≡ some ag
      → AreCovered d
      → IsTabled d
      → AreCovered (goto w pc (record d { groups = insert k ag d.groups }))
  replaced w k ag pc d n q c t k' g h = elim (Bool-cases (k == k')) [
    | inl same ↦ published w (
        ap publishes (own_goto w pc d.workers)
        ∙ q
        ∙ ground (arith, lookup-insert k k' ag d.groups, same, h))
    | inr other ↦
        let before : lookup k' d.groups ≡ some g =
          ground (arith, lookup-insert k k' ag d.groups, other, h) in
        carried k' g
          (record {
            go_on = λ i m x. x;
            others = λ i x. others_goto w pc d.workers i x;
            state = refl;
            to_start = refl;
          })
          (t k' g before) (λ x. absurd (ground (arith, n, x))) (c k' g before)
  ]

  -- A change that leaves the places, the workers, the state and the flags that are set.
  pub record Leaves (d d' : Dispatcher F P) : Type 0 where
    pub go_on : (g : ℕ) → g < d.next → runs g d ≡ true → runs g d' ≡ true
    pub groups : d'.groups ≡ d.groups
    pub workers : d'.workers ≡ d.workers
    pub state : d'.state ≡ d.state
    pub to_start : d'.to_start ≡ d.to_start

  pub Leaves-count :
      (n m u : ℕ) (d : Dispatcher F P)
      → Leaves d (record d { added = n; removed = m; uncounted = u })
  Leaves-count n m u d = record {
    go_on = λ g n r. r;
    groups = refl;
    workers = refl;
    state = refl;
    to_start = refl;
  }

  pub Leaves-write : (g : ℕ) (group : Group F) (d : Dispatcher F P) → Leaves d (write g group d)
  Leaves-write g group d = record {
    go_on = λ h n r. runs-write g group d h ∙ r;
    groups = refl;
    workers = refl;
    state = refl;
    to_start = refl;
  }

  pub Leaves-allocate : (group : Group F) (d : Dispatcher F P) → Leaves d (allocate group d)
  Leaves-allocate group d = record {
    go_on = runs-allocate group d;
    groups = refl;
    workers = refl;
    state = refl;
    to_start = refl;
  }

  pub Leaves-run_ag : (g : ℕ) (d : Dispatcher F P) → Leaves d (run_ag g d)
  unfolding run_ag
  Leaves-run_ag g d = record {
    go_on = λ h n r. runs-run_ag g d h r;
    groups = refl;
    workers = refl;
    state = refl;
    to_start = refl;
  }

  pub Carries-goto :
      (w : ℕ) (pc : Pc P) {d : Dispatcher F P} (d' : Dispatcher F P)
      → Leaves d d'
      → Carries w d (goto w pc d')
  Carries-goto w pc d' l = record {
    go_on = l.go_on;
    others = λ i q. others_goto w pc d'.workers i q ∙ ap (λ (ws : ℕ → Pc P). ws i) l.workers;
    state = l.state;
    to_start = l.to_start;
  }

  -- A worker goes on that had nothing to start.
  pub quiet :
      (w : ℕ) (pc : Pc P) {d : Dispatcher F P} (d' : Dispatcher F P)
      → publishes (d.workers w) ≡ none
      → AreCovered d
      → IsTabled d
      → Leaves d d'
      → AreCovered (goto w pc d')
  quiet w pc d' n c t l =
      went w pc d' c t (Carries-goto w pc d' l) l.groups (λ g q. absurd (ground (arith, n, q)))

  -- The worker has still to start the group, or has seen to it.
  pub started-Covered :
      (s : State) (w : ℕ) (pc : Pc P) (g : ℕ) (d : Dispatcher F P)
      → d.state ≡ s
      → (k : P) → Covered (goto w pc (started s g d)) k g
  started-Covered running w pc g d q k = runs_now (runs-run_ag_self g d)
  started-Covered waiting_to_start w pc g d q k = waits q
  started-Covered stopped w pc g d q k = over q

  pub Leaves-started : (s : State) (g : ℕ) (d : Dispatcher F P) → Leaves d (started s g d)
  Leaves-started running g d = Leaves-run_ag g d
  Leaves-started waiting_to_start g d = Leaves-count d.added d.removed d.uncounted d
  Leaves-started stopped g d = Leaves-count d.added d.removed d.uncounted d
