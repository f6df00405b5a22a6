-- ===== src/Store/Deletion.antt =====
-- `DeleteIfNotModified` of store/store.go: what is deleted.
use codestra_alertmanager.Prelude.{
  Bool, false, Option, none, some, List, [], ◌∷◌, ◌&&◌, ◌||◌, string_eq, ◌≡◌, refl, ◌∙◌, ap, arith,
  nat_beq, if◌then◌else◌, Comparable, Option-cases, Bool-cases, inl, inr,
}
use codestra_alertmanager.Prelude.Equality.{◌==◌}
use codestra_alertmanager.Prelude.Maps.{Map, lookup, lookup-erase}
use codestra_alertmanager.Alert.{Alert}
use codestra_alertmanager.Store.{
  Library, Alerts, get, delete_one, delete_each, delete_if_not_modified, empty, is_empty,
}

module _ {F : Type 0} ⦃e : Comparable F⦄ (lib : Library F) where
  -- One of the alerts has the fingerprint and the time of the update of a stored alert.
  abbrev pub is_listed : F → Alert → List Alert → Bool
  is_listed fp stored [] = false
  is_listed fp stored (a ∷ as') =
      (lib.fingerprint a.labels == fp && nat_beq a.updated_at stored.updated_at)
      || is_listed fp stored as'

  -- What is left of a stored alert.
  abbrev pub left_of : F → List Alert → Option Alert → Option Alert
  left_of fp as' none = none
  left_of fp as' (some stored) = if is_listed fp stored as' then none else some stored

  lookup-delete_one :
      (a : Alert) (fp : F) (m : Map F Alert)
      → lookup fp (delete_one lib a m) ≡ left_of fp (a ∷ []) (lookup fp m)
  lookup-delete_one a fp m = elim (Option-cases (lookup (lib.fingerprint a.labels) m)) [
    | inl n ↦ rw (n, delete_one) (ground (arith, n, e.beq_iff (lib.fingerprint a.labels) fp))
    | inr (other, h) ↦
        rw (h, delete_one)
          (ground (
            arith,
            h,
            lookup-erase (lib.fingerprint a.labels) fp m,
            e.beq_iff (lib.fingerprint a.labels) fp,
          ))
  ]

  left_of-left_of :
      (fp : F) (a : Alert) (as' : List Alert) (o : Option Alert)
      → left_of fp as' (left_of fp (a ∷ []) o) ≡ left_of fp (a ∷ as') o
  left_of-left_of fp a as' none = refl
  left_of-left_of fp a as' (some stored) = ground arith

  lookup-delete_each :
      (as' : List Alert) (fp : F) (m : Map F Alert)
      → lookup fp (delete_each lib as' m) ≡ left_of fp as' (lookup fp m)
  unfolding delete_each
  lookup-delete_each [] fp m = ground arith
  lookup-delete_each (a ∷ as') fp m =
      lookup-delete_each as' fp (delete_one lib a m)
      ∙ ap (left_of fp as') (lookup-delete_one a fp m)
      ∙ left_of-left_of fp a as' (lookup fp m)

  -- `DeleteIfNotModified` removes exactly the stored alerts of which a listed alert has the
  -- fingerprint and the time of the update, and destroys the store exactly if it is left empty and
  -- that was asked for.
  pub delete_if_not_modified_lem :
      (as' : List Alert) (destroy_if_empty : Bool) (s : Alerts F)
      → ((fp : F)
          → get (delete_if_not_modified lib as' destroy_if_empty s) fp ≡ left_of fp as' (get s fp))
        × ((delete_if_not_modified lib as' destroy_if_empty s).is_destroyed ≡ (
            s.is_destroyed
            || (empty (delete_if_not_modified lib as' destroy_if_empty s) && destroy_if_empty)))
  unfolding delete_if_not_modified get empty
  delete_if_not_modified_lem as' destroy_if_empty s =
      elim (Bool-cases (is_empty (delete_each lib as' s.alerts) && destroy_if_empty)) [
        | inl q ↦ rw q (λ fp. lookup-delete_each as' fp s.alerts, ground (arith, q))
        | inr q ↦ rw q (λ fp. lookup-delete_each as' fp s.alerts, ground (arith, q))
      ]
