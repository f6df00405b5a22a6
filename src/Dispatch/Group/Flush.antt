-- ===== src/Dispatch/Group/Flush.antt =====
-- `flush` of dispatch/dispatch.go: what a flush takes out of the group.
use codestra_alertmanager.Prelude.{
  true, false, Option, none, some, List, [], ◌∷◌, ◌&&◌, ◌||◌, ◌≡◌, refl, sym, ap, ◌∙◌, subst, arith,
  nat_beq, Comparable, ◌==◌, Bool-cases, ◌⊎◌, inl, inr,
}
use codestra_alertmanager.Prelude.Membership.{In}
use codestra_alertmanager.Clock.{Time}
use codestra_alertmanager.Alert.{Alert, Model, less}
use codestra_alertmanager.Store.{Library, get, list, empty, delete_if_not_modified}
use codestra_alertmanager.Store.Deletion.{is_listed, left_of, delete_if_not_modified_lem}
use codestra_alertmanager.Dispatch.Group.{
  Group, Batch, frozen, insert_stable, sort_stable, begin_flush, end_flush,
}

In-insert_stable :
    (m : Model) (x a : Alert) (bs : List Alert) → In x (a ∷ bs) → In x (insert_stable m a bs)
In-insert_stable m x a [] h = h
In-insert_stable m x a (b ∷ bs) h = elim (Bool-cases (less m b a)) [
  | inr p ↦ rw p h
  | inl p ↦ rw p (elim h [
    | inl e ↦ inr (In-insert_stable m x a bs (inl e))
    | inr t ↦ elim t [ inl e ↦ inl e | inr u ↦ inr (In-insert_stable m x a bs (inr u)) ]
  ])
]

In-sort_stable : (m : Model) (x : Alert) (as' : List Alert) → In x as' → In x (sort_stable m as')
In-sort_stable m x [] h = h
In-sort_stable m x (a ∷ as') (inl e) = In-insert_stable m x a (sort_stable m as') (inl e)
In-sort_stable m x (a ∷ as') (inr h) =
    In-insert_stable m x a (sort_stable m as') (inr (In-sort_stable m x as' h))

module _ {F : Type 0} ⦃e : Comparable F⦄ (lib : Library F) where
  In-resolved :
      (now : Time) (a : Alert) (as' : List Alert)
      → In a (frozen lib now as').resolved
      → In a as' × (lib.resolved_at a now ≡ true) × In a (frozen lib now as').alerts
  In-resolved now a [] h = elim h [ ]
  In-resolved now a (b ∷ as') h = elim (Bool-cases (lib.resolved_at b now)) [
    | inl p ↦ elim (rw p at h) [
      | inl q ↦ rw p (inl q, ap (λ c. lib.resolved_at c now) q ∙ p, inl q)
      | inr t ↦ let (x, y, z) = In-resolved now a as' t in rw p (inr x, y, inr z)
    ]
    | inr p ↦ let (x, y, z) = In-resolved now a as' (rw p at h) in rw p (inr x, y, inr z)
  ]

  In-resolved_back :
      (now : Time) (a : Alert) (as' : List Alert)
      → In a as'
      → lib.resolved_at a now ≡ true
      → In a (frozen lib now as').resolved
  In-resolved_back now a [] h q = elim h [ ]
  In-resolved_back now a (b ∷ as') (inl same) q =
      let p : lib.resolved_at b now ≡ true = ap (λ c. lib.resolved_at c now) (sym same) ∙ q in
      rw p (inl same)
  In-resolved_back now a (b ∷ as') (inr h) q = elim (Bool-cases (lib.resolved_at b now)) [
    | inl p ↦ rw p (inr (In-resolved_back now a as' h q))
    | inr p ↦ rw p (In-resolved_back now a as' h q)
  ]

  -- A version of an alert, with the fingerprint and the time of the update of the stored one.
  abbrev pub IsVersion : F → Alert → Alert → Type 0
  IsVersion fp stored a = (lib.fingerprint a.labels ≡ fp) × (a.updated_at ≡ stored.updated_at)

  listed-IsVersion :
      (fp : F) (stored : Alert) (as' : List Alert)
      → is_listed lib fp stored as' ≡ true
      → (a : Alert) × In a as' × IsVersion fp stored a
  listed-IsVersion fp stored [] h = absurd (ground (arith, h))
  listed-IsVersion fp stored (a ∷ as') h =
      elim (Bool-cases (lib.fingerprint a.labels == fp && nat_beq a.updated_at stored.updated_at)) [
        | inl p ↦ (
          a,
          inl refl,
          (ground (arith, p, e.beq_iff (lib.fingerprint a.labels) fp), ground (arith, p)),
        )
        | inr p ↦
            let (b, x, y) = listed-IsVersion fp stored as' (ground (arith, p, h)) in (b, inr x, y)
      ]

  IsVersion-is_listed :
      (fp : F) (stored a : Alert) (as' : List Alert)
      → In a as'
      → IsVersion fp stored a
      → is_listed lib fp stored as' ≡ true
  IsVersion-is_listed fp stored a [] h v = elim h [ ]
  IsVersion-is_listed fp stored a (b ∷ as') (inl same) v =
      subst (λ c. is_listed lib fp stored (c ∷ as') ≡ true) same
        (ground (arith, v.0, v.1, e.beq_iff (lib.fingerprint a.labels) fp))
  IsVersion-is_listed fp stored a (b ∷ as') (inr h) v =
      ground (arith, IsVersion-is_listed fp stored a as' h v)

  -- The flush read a version of the stored alert that was resolved, and notified of it.
  abbrev pub WasNotified : Model → Time → Group F → Batch → F → Alert → Type 0
  WasNotified m now g batch fp stored =
      (a : Alert) × In a (list g.store)
      × IsVersion fp stored a
      × (lib.resolved_at a now ≡ true)
      × In a batch.alerts

  -- No version of the stored alert that the flush read was resolved.
  abbrev pub WasNotResolved : Time → Group F → F → Alert → Type 0
  WasNotResolved now g fp stored =
      (a : Alert) → In a (list g.store) → IsVersion fp stored a → lib.resolved_at a now ≡ false

  abbrev made : Model → Time → Group F → Batch
  made m now g =
      let batch = frozen lib now (list g.store) in
      record batch { alerts = sort_stable m batch.alerts }

  begin_flush-made :
      (m : Model) (now : Time) (g : Group F) (batch : Batch)
      → begin_flush lib m now g ≡ some batch
      → made m now g ≡ batch
  unfolding begin_flush
  begin_flush-made m now g batch h = ground (arith, h)

  pub store-end_flush :
      (resolved : List Alert) (g : Group F)
      → (end_flush lib resolved g).store ≡ delete_if_not_modified lib resolved true g.store
  unfolding end_flush
  store-end_flush resolved g = refl

  abbrev Left : Model → Time → Group F → F → Alert → Batch → Option Alert → Type 0
  Left m now g fp stored batch o =
      ((o ≡ none) × WasNotified m now g batch fp stored)
      ⊎ ((o ≡ some stored) × WasNotResolved now g fp stored)

  left_of_lem :
      (m : Model) (now : Time) (g : Group F) (fp : F) (stored : Alert)
      → Left m now g fp stored (made m now g) (left_of lib fp (made m now g).resolved (some stored))
  left_of_lem m now g fp stored =
      let as' = list g.store in
      let resolved = (frozen lib now as').resolved in
      elim (Bool-cases (is_listed lib fp stored resolved)) [
        | inl p ↦
            let (a, x, v) = listed-IsVersion fp stored resolved p in
            let (y, q, z) = In-resolved now a as' x in
            inl (simp p, (a, y, v, q, In-sort_stable m a (frozen lib now as').alerts z))
        | inr p ↦ inr (
          simp p,
          λ a y v. elim (Bool-cases (lib.resolved_at a now)) [
            | inr firing ↦ firing
            | inl q ↦ absurd (
                ground (
                  arith,
                  p,
                  IsVersion-is_listed fp stored a resolved (In-resolved_back now a as' y q) v,
                ))
          ],
        )
      ]

  -- What a flush does to an alert that the group holds when the notification has succeeded, and to the
  -- group.
  abbrev pub Flushed : Model → Time → Group F → Group F → Batch → F → Alert → Type 0
  Flushed m now g later batch fp stored =
      (((get (end_flush lib batch.resolved later).store fp ≡ none)
          × WasNotified m now g batch fp stored)
        ⊎ ((get (end_flush lib batch.resolved later).store fp ≡ some stored)
            × WasNotResolved now g fp stored))
      × ((end_flush lib batch.resolved later).store.is_destroyed
          ≡ (later.store.is_destroyed || empty (end_flush lib batch.resolved later).store))

  -- When the notification of a flush has succeeded, an alert that the group then holds is taken
  -- out exactly if the flush had read a version of it, with its fingerprint and the time of its
  -- update, that was resolved at the time of the flush, and such a version was among the alerts
  -- that were notified of; otherwise the group still holds it. The group is destroyed exactly if
  -- it was destroyed before or is left empty.
  pub end_flush_lem :
      (m : Model) (now : Time) (g later : Group F) (batch : Batch) (fp : F) (stored : Alert)
      → begin_flush lib m now g ≡ some batch
      → get later.store fp ≡ some stored
      → Flushed m now g later batch fp stored
  end_flush_lem m now g later batch fp stored began there =
      let (f, d) = delete_if_not_modified_lem lib batch.resolved true later.store in
      let same = store-end_flush batch.resolved later in
      let found : get (end_flush lib batch.resolved later).store fp
          ≡ left_of lib fp batch.resolved (some stored) =
        ap (λ s. get s fp) same ∙ f fp ∙ ap (left_of lib fp batch.resolved) there in
      (
        subst (Left m now g fp stored batch) (sym found) (
            subst (λ b. Left m now g fp stored b (left_of lib fp b.resolved (some stored)))
              (begin_flush-made m now g batch began) (left_of_lem m now g fp stored)),
        ground (arith, d, same),
      )
