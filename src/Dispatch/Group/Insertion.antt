-- ===== src/Dispatch/Group/Insertion.antt =====
-- `insert` and `flush` of dispatch/dispatch.go: what they do to a group that is destroyed, or is not.
use codestra_alertmanager.Prelude.{
  Bool, true, false, not, Option, some, List, ◌&&◌, ◌≡◌, refl, sym, subst, ◌∙◌, arith, ltb,
  string_eq, Comparable, Bool-cases, inl, inr, if_elim,
}
use codestra_alertmanager.Prelude.Maps.{lookup, lookup-insert_self}
use codestra_alertmanager.Clock.{Time}
use codestra_alertmanager.Alert.{Alert}
use codestra_alertmanager.Store.{
  Library, Alerts, Error, get, set_admitted, is_empty, delete_each, delete_if_not_modified,
}
use codestra_alertmanager.Store.Setting.{set_destroyed, set_unlimited, set_limited}
use codestra_alertmanager.Store.Deletion.{delete_if_not_modified_lem}
use codestra_alertmanager.Dispatch.Group.{Group, inserted, insert_alert, end_flush}
use codestra_alertmanager.Dispatch.Group.Flush.{store-end_flush}

module _ {F : Type 0} ⦃e : Comparable F⦄ (lib : Library F) where
  -- The insertion keeps the flag of the store, and answers its negation.
  abbrev pub Kept : Group F → Group F × Bool → Type 0
  Kept g (g', ok) = (g'.store.is_destroyed ≡ g.store.is_destroyed) × (ok ≡ not g.store.is_destroyed)

  admitted-Kept :
      (a : Alert) (g : Group F) (s : Alerts F) (ok : Bool)
      → g.store.is_destroyed ≡ false
      → s.is_destroyed ≡ false
      → Kept g (inserted lib g (set_admitted lib a s ok))
  admitted-Kept a g s true live same = (same ∙ sym live, simp live)
  admitted-Kept a g s false live same = (same ∙ sym live, simp live)

  pub insert_alert-Kept : (a : Alert) (now : Time) (g : Group F) → Kept g (insert_alert lib a now g)
  unfolding insert_alert
  insert_alert-Kept a now g = elim (Bool-cases g.store.is_destroyed) [
    | inl gone ↦
        subst (λ (r : Alerts F × Option Error). Kept g (inserted lib g r))
          (sym (set_destroyed lib a now g.store gone)) (refl, simp gone)
    | inr live ↦ elim (Bool-cases (ltb 0 g.store.per_alert_limit)) [
      | inl bounded ↦
          subst (λ (r : Alerts F × Option Error). Kept g (inserted lib g r))
            (sym (set_limited lib a now g.store live bounded refl))
            (admitted-Kept a g _ _ live live)
      | inr unlimited ↦
          subst (λ (r : Alerts F × Option Error). Kept g (inserted lib g r))
            (sym (set_unlimited lib a now g.store live unlimited))
            (admitted-Kept a g g.store true live live)
    ]
  ]

  -- What is destroyed stays so in a flush.
  pub end_flush-destroyed :
      (resolved : List Alert) (g : Group F)
      → g.store.is_destroyed ≡ true
      → (end_flush lib resolved g).store.is_destroyed ≡ true
  end_flush-destroyed resolved g gone = ground (
    arith,
    gone,
    store-end_flush lib resolved g,
    (delete_if_not_modified_lem lib resolved true g.store).1,
  )

  limit-inserted :
      (a : Alert) (g : Group F) (s : Alerts F) (ok : Bool)
      → s.per_alert_limit ≡ g.store.per_alert_limit
      → (inserted lib g (set_admitted lib a s ok)).0.store.per_alert_limit ≡ g.store.per_alert_limit
  limit-inserted a g s true same = same
  limit-inserted a g s false same = same

  pub limit-insert_alert :
      (a : Alert) (now : Time) (g : Group F)
      → (insert_alert lib a now g).0.store.per_alert_limit ≡ g.store.per_alert_limit
  unfolding insert_alert
  limit-insert_alert a now g = elim (Bool-cases g.store.is_destroyed) [
    | inl gone ↦
        subst
          (λ (r : Alerts F × Option Error).
            (inserted lib g r).0.store.per_alert_limit ≡ g.store.per_alert_limit)
          (sym (set_destroyed lib a now g.store gone)) refl
    | inr live ↦ elim (Bool-cases (ltb 0 g.store.per_alert_limit)) [
      | inl bounded ↦
          subst
            (λ (r : Alerts F × Option Error).
              (inserted lib g r).0.store.per_alert_limit ≡ g.store.per_alert_limit)
            (sym (set_limited lib a now g.store live bounded refl)) (limit-inserted a g _ _ refl)
      | inr unlimited ↦
          subst
            (λ (r : Alerts F × Option Error).
              (inserted lib g r).0.store.per_alert_limit ≡ g.store.per_alert_limit)
            (sym (set_unlimited lib a now g.store live unlimited))
            (limit-inserted a g g.store true refl)
    ]
  ]

  -- Where there is no limit, an alert that is inserted is there.
  pub get-insert_alert :
      (a : Alert) (now : Time) (g : Group F)
      → g.store.per_alert_limit ≡ 0
      → g.store.is_destroyed ≡ false
      → get (insert_alert lib a now g).0.store (lib.fingerprint a.labels) ≡ some a
  unfolding insert_alert get
  get-insert_alert a now g unlimited live =
      subst
        (λ (r : Alerts F × Option Error).
          lookup (lib.fingerprint a.labels) (inserted lib g r).0.store.alerts ≡ some a)
        (sym (set_unlimited lib a now g.store live (ground (arith, unlimited))))
        (lookup-insert_self (lib.fingerprint a.labels) a g.store.alerts)

  pub limit-end_flush :
      (resolved : List Alert) (g : Group F)
      → (end_flush lib resolved g).store.per_alert_limit ≡ g.store.per_alert_limit
  unfolding end_flush delete_if_not_modified
  limit-end_flush resolved g =
      if_elim (λ (s : Alerts F). s.per_alert_limit ≡ g.store.per_alert_limit)
        (is_empty (delete_each lib resolved g.store.alerts) && true) _ _ (λ q. refl) (λ q. refl)
