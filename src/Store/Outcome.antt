-- ===== src/Store/Outcome.antt =====
-- `Set` of store/store.go: its answers, and the store after it.
use codestra_alertmanager.Prelude.{
  true, false, Option, none, some, string_eq, ◌≡◌, refl, ◌∙◌, ap, arith, sym, subst, ltb,
  if◌then◌else◌, Comparable, Bool-cases, inl, inr, ◌⊎◌, ◌<◌,
}
use codestra_alertmanager.Prelude.Equality.{◌==◌}
use codestra_alertmanager.Prelude.Maps.{lookup, insert, lookup-insert, lookup-insert_self}
use codestra_alertmanager.Clock.{Time}
use codestra_alertmanager.Alert.{Alert}
use codestra_alertmanager.Limit.{Bucket, upsert}
use codestra_alertmanager.Limit.Index.{priority_for}
use codestra_alertmanager.Limit.Upsert.{upsert-Outcome, Refused}
use codestra_alertmanager.Store.{
  Library, Alerts, Error, limited, destroyed, get, set, set_admitted, bucket_of,
}
use codestra_alertmanager.Store.Setting.{set_destroyed, set_limited, set_unlimited}
use codestra_alertmanager.Store.Reach.{IsSound, IsBucket, bucket_of-IsBucket}

module _ {F : Type 0} ⦃e : Comparable F⦄ (lib : Library F) (a : Alert) (now : Time)
    (s : Alerts F) where
  -- What `Set` does: it refuses in a destroyed store, it refuses above the limit, or it stores.
  abbrev pub SetOutcome : Alerts F × Option Error → Type 0
  SetOutcome (s', r) =
      ((r ≡ some destroyed) × (s.is_destroyed ≡ true) × (s' ≡ s))
      ⊎ (((r ≡ some limited)
            × (s'.alerts ≡ s.alerts)
            × (0 < s.per_alert_limit)
            × Refused (bucket_of s (lib.name a.labels)) (lib.fingerprint a.labels) now)
          ⊎ ((r ≡ none)
              × (s.is_destroyed ≡ false)
              × ((fp : F)
                  → get s' fp ≡ (if lib.fingerprint a.labels == fp then some a else get s fp))
              × (0 < s.per_alert_limit
                  → priority_for (bucket_of s' (lib.name a.labels)) (lib.fingerprint a.labels)
                    ≡ some a.ends_at)))

  get_stored :
      (t : Alerts F)
      → t.alerts ≡ s.alerts
      → (fp : F)
      → get (set_admitted lib a t true).0 fp
        ≡ (if lib.fingerprint a.labels == fp then some a else get s fp)
  unfolding get
  get_stored t q fp =
      lookup-insert (lib.fingerprint a.labels) fp a t.alerts
      ∙ ap (λ m. if lib.fingerprint a.labels == fp then some a else lookup fp m) q

  bucket_of_stored :
      (b : Bucket F)
      → bucket_of
          (set_admitted lib a (record s { limits = insert (lib.name a.labels) b s.limits }) true).0
          (lib.name a.labels)
        ≡ b
  unfolding bucket_of
  bucket_of_stored b = rw (lookup-insert_self (lib.name a.labels) b s.limits, bucket_of)

  limited_outcome :
      s.is_destroyed ≡ false
      → ltb 0 s.per_alert_limit ≡ true
      → IsBucket lib s.per_alert_limit (lib.name a.labels, bucket_of s (lib.name a.labels))
      → SetOutcome (set lib a now s)
  limited_outcome live bounded (well, same) =
      let b = bucket_of s (lib.name a.labels) in
      let u = upsert b (lib.fingerprint a.labels) a.ends_at now in
      let t : Alerts F = record s { limits = insert (lib.name a.labels) u.0 s.limits } in
      let pos : 0 < s.per_alert_limit = ground (arith, bounded) in
      elim (upsert-Outcome b (lib.fingerprint a.labels) a.ends_at now well
        (omega (arith, same, pos))) [
          | inl (ok, done) ↦
              subst SetOutcome
                (sym (set_limited lib a now s live bounded refl ∙ ap (set_admitted lib a t) ok))
                (inr (
                  inr (
                    refl,
                    live,
                    get_stored t refl,
                    λ p.
                        ap (λ c. priority_for c (lib.fingerprint a.labels)) (bucket_of_stored u.0)
                        ∙ done.put,
                  )))
          | inr (ok, stays, refused) ↦
              subst SetOutcome
                (sym (set_limited lib a now s live bounded refl ∙ ap (set_admitted lib a t) ok))
                (inr (inl (refl, refl, pos, refused)))
        ]

  -- In a sound store `Set` does one of three things: it fails in a destroyed store and changes
  -- nothing; it fails above the limit and leaves the alerts, when the bucket of the alert's name
  -- lacks its fingerprint and is full of items that have not expired; or it stores the alert,
  -- leaves the others, and, under a limit, has the end of the alert in the bucket.
  pub set_lem : IsSound lib s → SetOutcome (set lib a now s)
  set_lem w = elim (Bool-cases s.is_destroyed) [
    | inl gone ↦ subst SetOutcome (sym (set_destroyed lib a now s gone)) (inl (refl, gone, refl))
    | inr live ↦ elim (Bool-cases (ltb 0 s.per_alert_limit)) [
      | inl bounded ↦ limited_outcome live bounded (bucket_of-IsBucket lib s (lib.name a.labels) w)
      | inr unbounded ↦
          subst SetOutcome (sym (set_unlimited lib a now s live unbounded))
            (inr (inr (refl, live, get_stored s refl, λ p. absurd (ground (arith, unbounded, p)))))
    ]
  ]
