-- ===== src/Store/Reach.antt =====
-- The states that a store of store/store.go reaches.
use codestra_alertmanager.Prelude.{
  ℕ, Bool, true, false, Option, List, [], ◌∷◌, ◌&&◌, String, string_eq, ◌≡◌, refl, ◌∙◌, ap, sym,
  subst, arith, All, ltb, nat_beq, Comparable, Option-cases, Bool-cases, inl, inr,
}
use codestra_alertmanager.Prelude.Maps.{Map, lookup, insert, All-insert, All-erase, All-lookup}
use Prim.{tt}
use codestra_alertmanager.Clock.{Time}
use codestra_alertmanager.Alert.{Alert}
use codestra_alertmanager.Limit.{Bucket, new_bucket, upsert, is_stale}
use codestra_alertmanager.Limit.Update.{IsWellFormed}
use codestra_alertmanager.Limit.Upsert.{
  upsert-IsWellFormed, new_bucket-IsWellFormed, capacity-upsert,
}
use codestra_alertmanager.Store.Setting.{set_destroyed, set_limited, set_unlimited}
use codestra_alertmanager.Store.{
  is_empty, Library, Alerts, Error, set, set_admitted, gc, gc_alerts, gc_limit_buckets, collect,
  fresh_buckets, bucket_of, delete_one, delete_each, delete_if_not_modified, with_per_alert_limit,
  new_alerts,
}

module _ {F : Type 0} ⦃e : Comparable F⦄ (lib : Library F) where
  abbrev pub IsKeyed : F × Alert → Type 0
  IsKeyed x = lib.fingerprint x.1.labels ≡ x.0

  abbrev pub IsBucket : ℕ → String × Bucket F → Type 0
  IsBucket limit x = IsWellFormed x.1 × (x.1.capacity ≡ limit)

  -- The alerts stand under their fingerprints, a destroyed store has none, and each bucket is
  -- well-formed with the limit as its capacity.
  pub record IsSound (s : Alerts F) : Type 0 where
    pub keyed : All IsKeyed s.alerts
    pub ended : s.is_destroyed ≡ true → s.alerts ≡ []
    pub buckets : All (IsBucket s.per_alert_limit) s.limits

  -- One call of an operation that writes to the store.
  pub data Step : Alerts F → Alerts F → Type 0 where
    by_set : (s : Alerts F) (a : Alert) (now : Time) → Step s (set lib a now s).0
    by_gc :
        (s : Alerts F) (names : String → Time) (clock : F → Time) → Step s (gc lib names clock s).0
    by_delete :
        (s : Alerts F) (as' : List Alert) (destroy_if_empty : Bool)
        → Step s (delete_if_not_modified lib as' destroy_if_empty s)

  pub data Reach (s : Alerts F) : Alerts F → Type 0 where
    start : Reach s s
    after : {t u : Alerts F} → Reach s t → Step t u → Reach s u

  capacity_new : (n : ℕ) → (new_bucket {V = F} n).capacity ≡ n
  unfolding new_bucket
  capacity_new n = refl

  empty_list : (m : Map F Alert) → is_empty m ≡ true → m ≡ []
  empty_list [] q = refl
  empty_list (x ∷ m) q = absurd (ground (arith, q))

  pub bucket_of-IsBucket :
      (s : Alerts F) (name : String)
      → IsSound s
      → IsBucket s.per_alert_limit (name, bucket_of s name)
  unfolding bucket_of
  bucket_of-IsBucket s name w = elim (Option-cases (lookup name s.limits)) [
    | inl n ↦
        rw (n, bucket_of)
          (new_bucket-IsWellFormed s.per_alert_limit, capacity_new s.per_alert_limit)
    | inr (bucket, h) ↦
        rw (h, bucket_of) (All-lookup (IsBucket s.per_alert_limit) name s.limits h w.buckets)
  ]

  admitted-IsSound :
      (a : Alert) (s : Alerts F) (ok : Bool)
      → s.is_destroyed ≡ false
      → IsSound s
      → IsSound (set_admitted lib a s ok).0
  admitted-IsSound a s true live w = record {
    keyed = All-insert IsKeyed (lib.fingerprint a.labels) a s.alerts refl w.keyed;
    ended = λ q. absurd (ground (arith, q, live));
    buckets = w.buckets;
  }
  admitted-IsSound a s false live w = w

  upserted-IsSound :
      (s : Alerts F) (name : String) (fp : F) (p now : Time)
      → IsSound s
      → IsSound (record s { limits = insert name (upsert (bucket_of s name) fp p now).0 s.limits })
  upserted-IsSound s name fp p now w =
      let (well, same) = bucket_of-IsBucket s name w in
      record {
        keyed = w.keyed;
        ended = w.ended;
        buckets =
            All-insert (IsBucket s.per_alert_limit) name (upsert (bucket_of s name) fp p now).0
              s.limits
              (
                upsert-IsWellFormed (bucket_of s name) fp p now well,
                capacity-upsert (bucket_of s name) fp p now well ∙ same,
              )
              w.buckets;
      }

  set-IsSound : (a : Alert) (now : Time) (s : Alerts F) → IsSound s → IsSound (set lib a now s).0
  set-IsSound a now s w = elim (Bool-cases s.is_destroyed) [
    | inl gone ↦
        subst (λ (r : Alerts F × Option Error). IsSound r.0) (sym (set_destroyed lib a now s gone))
          w
    | inr live ↦ elim (Bool-cases (ltb 0 s.per_alert_limit)) [
      | inl bounded ↦
          subst (λ (r : Alerts F × Option Error). IsSound r.0)
            (sym (set_limited lib a now s live bounded refl))
            (admitted-IsSound a _ _ live
              (upserted-IsSound s (lib.name a.labels) (lib.fingerprint a.labels) a.ends_at now w))
      | inr unlimited ↦
          subst (λ (r : Alerts F × Option Error). IsSound r.0)
            (sym (set_unlimited lib a now s live unlimited)) (admitted-IsSound a s true live w)
    ]
  ]

  collect-IsKeyed :
      (clock : F → Time) (m : Map F Alert) → All IsKeyed m → All IsKeyed (collect lib clock m).0
  collect-IsKeyed clock [] all = tt
  collect-IsKeyed clock ((fp, a) ∷ m) all = elim (Bool-cases (lib.resolved_at a (clock fp))) [
    | inl resolved ↦ rw resolved (collect-IsKeyed clock m all.1)
    | inr firing ↦ rw firing (all.0, collect-IsKeyed clock m all.1)
  ]

  fresh_buckets-IsBucket :
      (clock : String → Time) (n : ℕ) (m : Map String (Bucket F))
      → All (IsBucket n) m
      → All (IsBucket n) (fresh_buckets clock m)
  fresh_buckets-IsBucket clock n [] all = tt
  fresh_buckets-IsBucket clock n ((name, bucket) ∷ m) all =
      elim (Bool-cases (is_stale bucket (clock name))) [
        | inl stale ↦ rw stale (fresh_buckets-IsBucket clock n m all.1)
        | inr live ↦ rw live (all.0, fresh_buckets-IsBucket clock n m all.1)
      ]

  gc-IsSound :
      (names : String → Time) (clock : F → Time) (s : Alerts F)
      → IsSound s
      → IsSound (gc lib names clock s).0
  unfolding gc gc_alerts gc_limit_buckets
  gc-IsSound names clock s w = record {
    keyed = collect-IsKeyed clock s.alerts w.keyed;
    ended = λ q. ap (λ m. (collect lib clock m).0) (w.ended q);
    buckets = fresh_buckets-IsBucket names s.per_alert_limit s.limits w.buckets;
  }

  delete_each-IsKeyed :
      (as' : List Alert) (m : Map F Alert) → All IsKeyed m → All IsKeyed (delete_each lib as' m)
  unfolding delete_each
  delete_each-IsKeyed [] m all = all
  delete_each-IsKeyed (a ∷ as') m all =
      delete_each-IsKeyed as' (delete_one lib a m)
        (elim (Option-cases (lookup (lib.fingerprint a.labels) m)) [
          | inl n ↦ rw (n, delete_one) all
          | inr (other, h) ↦ elim (Bool-cases (nat_beq a.updated_at other.updated_at)) [
            | inl same ↦
                rw (h, same, delete_one) (All-erase IsKeyed (lib.fingerprint a.labels) m all)
            | inr newer ↦ rw (h, newer, delete_one) all
          ]
        ])

  delete_each-empty : (as' : List Alert) → delete_each lib as' [] ≡ []
  unfolding delete_each lookup
  delete_each-empty [] = refl
  delete_each-empty (a ∷ as') = delete_each-empty as'

  delete_if_not_modified-IsSound :
      (as' : List Alert) (destroy_if_empty : Bool) (s : Alerts F)
      → IsSound s
      → IsSound (delete_if_not_modified lib as' destroy_if_empty s)
  unfolding delete_if_not_modified
  delete_if_not_modified-IsSound as' destroy_if_empty s w =
      let keyed = delete_each-IsKeyed as' s.alerts w.keyed in
      elim (Bool-cases (is_empty (delete_each lib as' s.alerts) && destroy_if_empty)) [
        | inl ends ↦ rw ends (record {
          keyed = keyed;
          ended = λ q. empty_list (delete_each lib as' s.alerts) (ground (arith, ends));
          buckets = w.buckets;
        })
        | inr stays ↦ rw stays (record {
          keyed = keyed;
          ended = λ q. ap (delete_each lib as') (w.ended q) ∙ delete_each-empty as';
          buckets = w.buckets;
        })
      ]

  Step-IsSound : {s t : Alerts F} → Step s t → IsSound s → IsSound t
  Step-IsSound (by_set s a now) w = set-IsSound a now s w
  Step-IsSound (by_gc s names clock) w = gc-IsSound names clock s w
  Step-IsSound (by_delete s as' d) w = delete_if_not_modified-IsSound as' d s w

  new_alerts-IsSound : (limit : ℕ) → IsSound (with_per_alert_limit new_alerts limit)
  unfolding new_alerts with_per_alert_limit
  new_alerts-IsSound limit = record { keyed = tt; ended = λ q. refl; buckets = tt }

  -- In every state that a new store with a limit reaches by `Set`, `GC` and `DeleteIfNotModified`,
  -- each alert stands under its fingerprint, a destroyed store is empty, and each bucket is
  -- well-formed with the limit as its capacity.
  pub Reach-IsSound :
      (limit : ℕ) {s : Alerts F} → Reach (with_per_alert_limit new_alerts limit) s → IsSound s
  Reach-IsSound limit start = new_alerts-IsSound limit
  Reach-IsSound limit (after before step) = Step-IsSound step (Reach-IsSound limit before)
