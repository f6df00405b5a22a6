-- ===== src/Dispatch/Dispatcher/Private.antt =====
-- `groupAlert` of dispatch/dispatch.go: a group that a worker has made and not yet published is its own.
use codestra_alertmanager.Prelude.{
  ℕ, ◌≤◌, ◌<◌, Bool, false, Option, none, some, ◌≡◌, sym, subst, ap, ◌∙◌, arith, nat_beq,
  Comparable, Bool-cases, inl, inr, if_elim, if◌then◌else◌, ◌≢◌,
}
use codestra_alertmanager.Prelude.Maps.{lookup}
use codestra_alertmanager.Store.{Library, get}
use codestra_alertmanager.Dispatch.Dispatcher.{
  Cell, Dispatcher, Pc, Job, goto, trying, storing, joining, counting, starting,
}

-- The job and the group that a worker has made for it.
abbrev pub owned : {P : Type 0} → Pc P → Option (Job P × ℕ)
owned (storing j el ag retries) = some (j, ag)
owned (joining j el ag retries) = some (j, ag)
owned _ = none

-- The worker may write to the group or start it.
abbrev pub names : {P : Type 0} → Pc P → ℕ → Bool
names (trying j el) g = nat_beq el g
names (joining j el ag retries) g = nat_beq el g
names (counting j ag) g = nat_beq ag g
names (starting j ag) g = nat_beq ag g
names _ g = false

module _ {F P : Type 0} ⦃e : Comparable F⦄ ⦃p : Comparable P⦄ (lib : Library F) where
  abbrev pub Holds : Dispatcher F P → Job P → ℕ → Type 0
  Holds d j g = get (d.heap g).group.store (lib.fingerprint j.alert.labels) ≡ some j.alert

  -- The group has the alert, does not run, stands nowhere, and no other worker knows it.
  pub record IsPrivate (d : Dispatcher F P) (w : ℕ) (j : Job P) (g : ℕ) : Type 0 where
    pub allocated : g < d.next
    pub holds : Holds d j g
    pub still : (d.heap g).running ≡ false
    pub absent : (k : P) → lookup k d.groups ≢ some g
    pub unnamed : (i : ℕ) → names (d.workers i) g ≡ false
    pub alone : (i : ℕ) (j' : Job P) → nat_beq w i ≡ false → owned (d.workers i) ≢ some (j', g)

  -- A change spares a group.
  pub record Spares (g : ℕ) (d d' : Dispatcher F P) : Type 0 where
    pub cell : d'.heap g ≡ d.heap g
    pub grows : d.next ≤ d'.next
    pub absent : (k : P) → lookup k d'.groups ≡ some g → lookup k d.groups ≡ some g
    pub workers : d'.workers ≡ d.workers

  -- What was private stays so when a worker goes on that does not come to know the group.
  pub IsPrivate-goto :
      {d d' : Dispatcher F P} {i : ℕ} {j : Job P} {g : ℕ} (w : ℕ) (pc : Pc P)
      → IsPrivate d i j g
      → Spares g d d'
      → names pc g ≡ false
      → ((j' : Job P) → nat_beq i w ≡ false → owned pc ≢ some (j', g))
      → IsPrivate (goto w pc d') i j g
  IsPrivate-goto {d} {d'} {i} {j} {g} w pc v s n o =
      let h = v.allocated in
      let r = s.grows in
      record {
        allocated = omega (arith, h, r);
        holds =
            ap (λ (c : Cell F). get c.group.store (lib.fingerprint j.alert.labels)) s.cell
            ∙ v.holds;
        still = ap (λ (c : Cell F). c.running) s.cell ∙ v.still;
        absent = λ k q. v.absent k (s.absent k q);
        unnamed = λ k.
            if_elim (λ (x : Pc P). names x g ≡ false) (nat_beq w k) pc (d'.workers k) (λ q. n)
              (λ q. ap (λ (ws : ℕ → Pc P). names (ws k) g) s.workers ∙ v.unnamed k);
        alone = λ k j' q.
            if_elim (λ (x : Pc P). owned x ≢ some (j', g)) (nat_beq w k) pc (d'.workers k)
              (λ same. o j' (ground (arith, same, q)))
              (λ other h.
                v.alone k j' q (sym (ap (λ (ws : ℕ → Pc P). owned (ws k)) s.workers) ∙ h));
      }

  abbrev pub ArePrivate : Dispatcher F P → Type 0
  ArePrivate d = (w : ℕ) (j : Job P) (g : ℕ) → owned (d.workers w) ≡ some (j, g) → IsPrivate d w j g

  -- A worker goes on, and every private group is spared.
  pub ArePrivate-goto :
      {d : Dispatcher F P} (d' : Dispatcher F P) (w : ℕ) (pc : Pc P)
      → ArePrivate d
      → d'.workers ≡ d.workers
      → ((i : ℕ) (j : Job P) (g : ℕ)
          → nat_beq w i ≡ false
          → IsPrivate d i j g
          → Spares g d d' × (names pc g ≡ false) × ((j' : Job P) → owned pc ≢ some (j', g)))
      → ((j : Job P) (g : ℕ) → owned pc ≡ some (j, g) → IsPrivate (goto w pc d') w j g)
      → ArePrivate (goto w pc d')
  ArePrivate-goto {d} d' w pc c same spare own i j g h = elim (Bool-cases (nat_beq w i)) [
    | inl here ↦
        let e : w ≡ i = ground (arith, here) in
        let q : owned pc ≡ some (j, g) =
          sym (ap (λ b. owned (if b then pc else d'.workers i)) here) ∙ h in
        subst (λ x. IsPrivate (goto w pc d') x j g) e (own j g q)
    | inr other ↦
        let before : owned (d.workers i) ≡ some (j, g) =
          ap (λ (ws : ℕ → Pc P). owned (ws i)) (sym same)
          ∙ sym (ap (λ b. owned (if b then pc else d'.workers i)) other)
          ∙ h in
        let v = c i j g before in
        let (s, n, o) = spare i j g other v in IsPrivate-goto w pc v s n (λ j' q. o j')
  ]
