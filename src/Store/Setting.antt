-- ===== src/Store/Setting.antt =====
-- `Set` of store/store.go, by its branches.
use codestra_alertmanager.Prelude.{Bool, true, false, some, string_eq, ◌≡◌, ltb, Comparable}
use codestra_alertmanager.Prelude.Maps.{insert}
use codestra_alertmanager.Clock.{Time}
use codestra_alertmanager.Alert.{Alert}
use codestra_alertmanager.Limit.{Bucket, upsert}
use codestra_alertmanager.Store.{Library, Alerts, destroyed, set, set_admitted, bucket_of}

module _ {F : Type 0} ⦃e : Comparable F⦄ (lib : Library F) (a : Alert) (now : Time)
    (s : Alerts F) where
  pub set_destroyed : s.is_destroyed ≡ true → set lib a now s ≡ (s, some destroyed)
  unfolding set
  set_destroyed h = simp h

  pub set_unlimited :
      s.is_destroyed ≡ false
      → ltb 0 s.per_alert_limit ≡ false
      → set lib a now s ≡ set_admitted lib a s true
  unfolding set
  set_unlimited h k = simp (h, k)

  pub set_limited :
      s.is_destroyed ≡ false
      → ltb 0 s.per_alert_limit ≡ true
      → {u : Bucket F × Bool}
      → upsert (bucket_of s (lib.name a.labels)) (lib.fingerprint a.labels) a.ends_at now ≡ u
      → set lib a now s
        ≡ set_admitted lib a (record s { limits = insert (lib.name a.labels) u.0 s.limits }) u.1
  unfolding set
  set_limited h k {u} q = simp (h, k, q)
