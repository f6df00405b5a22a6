-- ===== src/Dispatch/Dispatcher/Moves.antt =====
-- How the groups of the dispatcher of dispatch/dispatch.go may change.
use codestra_alertmanager.Prelude.{
  ℕ, ◌≤◌, ◌<◌, true, false, some, List, ◌≡◌, sym, subst, ◌∙◌, arith, nat_beq, Comparable, ◌==◌,
  Bool-cases, ◌⊎◌, inl, inr, if_elim,
}
use codestra_alertmanager.Prelude.Maps.{lookup, insert, erase, lookup-insert, lookup-erase}
use codestra_alertmanager.Dispatch.Group.{Group}
use codestra_alertmanager.Dispatch.Dispatcher.{
  Dispatcher, State, Pc, at, write, allocate, run_ag, is_destroyed,
}

-- A property of a function with a new value.
pub at_elim {ℓ} :
    {A : Type ℓ} (Q : A → Type 0) (i : ℕ) (a : A) (f : ℕ → A) (j : ℕ)
    → Q a
    → Q (f j)
    → Q (at i a f j)
at_elim Q i a f j new old = if_elim Q (nat_beq i j) a (f j) (λ h. new) (λ h. old)

module _ {F P : Type 0} ⦃p : Comparable P⦄ where
  -- Groups stay allocated, a destroyed group stays destroyed, and a place keeps its group unless that
  -- is destroyed.
  pub record Evolves (d d' : Dispatcher F P) : Type 0 where
    pub grows : d.next ≤ d'.next
    pub dead : (g : ℕ) → g < d.next → is_destroyed g d ≡ true → is_destroyed g d' ≡ true
    pub kept :
        (k : P) (g : ℕ)
        → lookup k d.groups ≡ some g
        → (is_destroyed g d' ≡ true) ⊎ (lookup k d'.groups ≡ some g)

  -- The groups stay as they are.
  pub Evolves-rest :
      (d : Dispatcher F P) (a r u : ℕ) (s : State) (ks : List P) (ws : ℕ → Pc P)
      → Evolves d (record d {
        added = a;
        removed = r;
        uncounted = u;
        state = s;
        to_start = ks;
        workers = ws;
      })
  Evolves-rest d a r u s ks ws = record {
    grows = ground arith;
    dead = λ g h q. q;
    kept = λ k g q. inr q;
  }

  pub Evolves-write :
      (g : ℕ) (group : Group F) (d : Dispatcher F P)
      → (is_destroyed g d ≡ true → group.store.is_destroyed ≡ true)
      → Evolves d (write g group d)
  Evolves-write g group d f = record {
    grows = ground arith;
    dead = λ h n q. elim (Bool-cases (nat_beq g h)) [
      | inl same ↦
          rw (same, is_destroyed)
            (f (subst (λ i. is_destroyed i d ≡ true) (sym (ground (arith, same))) q))
      | inr other ↦ rw (other, is_destroyed) q
    ];
    kept = λ k h q. inr q;
  }

  pub Evolves-run_ag : (g : ℕ) (d : Dispatcher F P) → Evolves d (run_ag g d)
  unfolding run_ag
  Evolves-run_ag g d = record {
    grows = ground arith;
    dead = λ h n q. elim (Bool-cases (nat_beq g h)) [
      | inl same ↦
          rw (same, is_destroyed)
            (subst (λ i. is_destroyed i d ≡ true) (sym (ground (arith, same))) q)
      | inr other ↦ rw (other, is_destroyed) q
    ];
    kept = λ k h q. inr q;
  }

  pub Evolves-allocate : (group : Group F) (d : Dispatcher F P) → Evolves d (allocate group d)
  Evolves-allocate group d = record {
    grows = ground arith;
    dead = λ g n q.
        let other : nat_beq d.next g ≡ false = ground (arith, n) in rw (other, is_destroyed) q;
    kept = λ k g q. inr q;
  }

  pub Evolves-insert :
      (k : P) (ag : ℕ) (d : Dispatcher F P)
      → ((g : ℕ) → lookup k d.groups ≡ some g → is_destroyed g d ≡ true)
      → Evolves d (record d { groups = insert k ag d.groups })
  Evolves-insert k ag d f = record {
    grows = ground arith;
    dead = λ g n q. q;
    kept = λ k' g q. elim (Bool-cases (k == k')) [
      | inl same ↦
          inl (f g (subst (λ x. lookup x d.groups ≡ some g) (sym ((p.beq_iff k k').0 same)) q))
      | inr other ↦ inr (lookup-insert k k' ag d.groups ∙ rw other q)
    ];
  }

  pub Evolves-erase :
      (k : P) (n : ℕ) (d : Dispatcher F P)
      → ((g : ℕ) → lookup k d.groups ≡ some g → is_destroyed g d ≡ true)
      → Evolves d (record d { groups = erase k d.groups; uncounted = n })
  Evolves-erase k n d f = record {
    grows = ground arith;
    dead = λ g n' q. q;
    kept = λ k' g q. elim (Bool-cases (k == k')) [
      | inl same ↦
          inl (f g (subst (λ x. lookup x d.groups ≡ some g) (sym ((p.beq_iff k k').0 same)) q))
      | inr other ↦ inr (lookup-erase k k' d.groups ∙ rw other q)
    ];
  }
