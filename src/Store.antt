-- ===== src/Store.antt =====
-- store/store.go: the map of alerts with its limits for each alert name.
--
-- `model.Fingerprint` and the methods of `model.LabelSet` and `model.Alert` are of the package
-- prometheus/common: `Library` has those that the code calls. A stored alert is never written to, so
-- a pointer to it is its value. A limit that is not positive is 0. `NewAlerts` leaves the map of
-- limits nil, and nothing writes to it while the limit is 0.
pub mod Deletion
pub mod Setting
pub mod Reach
pub mod Outcome
use codestra_alertmanager.Prelude.{
  ℕ, Bool, true, false, not, Option, none, some, List, [], ◌∷◌, ◌++◌, ◌&&◌, String, string_eq,
  length, ltb, nat_beq, if◌then◌else◌, Comparable,
}
use codestra_alertmanager.Prelude.Maps.{Map, lookup, insert, erase}
use codestra_alertmanager.Clock.{Time}
use codestra_alertmanager.Labels.{LabelSet}
use codestra_alertmanager.Alert.{Alert}
use codestra_alertmanager.Limit.{Bucket, new_bucket, upsert, is_stale}

-- `LabelSet.Fingerprint`, `Alert.Name` and `Alert.ResolvedAt`; `Resolved` is `ResolvedAt` at the time
-- of the call.
pub record Library (F : Type 0) : Type 0 where
  pub fingerprint : LabelSet → F
  pub name : LabelSet → String
  pub resolved_at : Alert → Time → Bool

pub data Error : Type 0 where
  limited not_found destroyed : Error

pub record Alerts (F : Type 0) : Type 0 where
  pub alerts : Map F Alert
  pub limits : Map String (Bucket F)
  pub per_alert_limit : ℕ
  pub is_destroyed : Bool

-- `NewAlerts`
unfoldable pub new_alerts : {F : Type 0} → Alerts F
new_alerts = record { alerts = []; limits = []; per_alert_limit = 0; is_destroyed = false }

-- `WithPerAlertLimit`
unfoldable pub with_per_alert_limit : {F : Type 0} → Alerts F → ℕ → Alerts F
with_per_alert_limit s lim = record s { limits = []; per_alert_limit = lim }

module _ {F : Type 0} ⦃e : Comparable F⦄ where
  -- `Get`
  unfoldable pub get : Alerts F → F → Option Alert
  get s fp = lookup fp s.alerts

  -- The bucket of a name, a new one if there is none.
  unfoldable pub bucket_of : Alerts F → String → Bucket F
  bucket_of s name = elim (lookup name s.limits) [
    | some bucket ↦ bucket
    | none ↦ new_bucket s.per_alert_limit
  ]

  -- The alert has passed the limit of its name, or has not.
  abbrev pub set_admitted : Library F → Alert → Alerts F → Bool → Alerts F × Option Error
  set_admitted lib a s true =
      (record s { alerts = insert (lib.fingerprint a.labels) a s.alerts }, none)
  set_admitted lib a s false = (s, some limited)

  -- `Set`; `now` is the clock in `Upsert`.
  unfoldable pub set : Library F → Alert → Time → Alerts F → Alerts F × Option Error
  set lib a now s =
      if s.is_destroyed
      then (s, some destroyed)
      else if ltb 0 s.per_alert_limit
      then (let name = lib.name a.labels in
          let (bucket, ok) = upsert (bucket_of s name) (lib.fingerprint a.labels) a.ends_at now in
          set_admitted lib a (record s { limits = insert name bucket s.limits }) ok)
      else set_admitted lib a s true

  -- The loop of `gcAlerts`: the alerts that stay, and the deleted ones. `clock` is the time at which
  -- the loop meets a key.
  abbrev pub collect : Library F → (F → Time) → Map F Alert → Map F Alert × List Alert
  collect lib clock [] = ([], [])
  collect lib clock ((fp, a) ∷ m) =
      let (kept, deleted) = collect lib clock m in
      if lib.resolved_at a (clock fp) then (kept, a ∷ deleted) else ((fp, a) ∷ kept, deleted)

  unfoldable pub gc_alerts : Library F → (F → Time) → Alerts F → Alerts F × List Alert
  gc_alerts lib clock s =
      let (kept, deleted) = collect lib clock s.alerts in (record s { alerts = kept }, deleted)

  abbrev pub fresh_buckets : (String → Time) → Map String (Bucket F) → Map String (Bucket F)
  fresh_buckets clock [] = []
  fresh_buckets clock ((name, bucket) ∷ m) =
      let rest = fresh_buckets clock m in
      if is_stale bucket (clock name) then rest else (name, bucket) ∷ rest

  unfoldable pub gc_limit_buckets : (String → Time) → Alerts F → Alerts F
  gc_limit_buckets clock s = record s { limits = fresh_buckets clock s.limits }

  -- `GC`, whose callback is up to the owner of the store.
  unfoldable pub gc : Library F → (String → Time) → (F → Time) → Alerts F → Alerts F × List Alert
  gc lib names clock s = gc_alerts lib clock (gc_limit_buckets names s)

  -- The loop of `DeleteIfNotModified`.
  abbrev pub delete_one : Library F → Alert → Map F Alert → Map F Alert
  delete_one lib a m = elim (lookup (lib.fingerprint a.labels) m) [
    | none ↦ m
    | some other ↦
        if nat_beq a.updated_at other.updated_at then erase (lib.fingerprint a.labels) m else m
  ]

  unfoldable pub delete_each : Library F → List Alert → Map F Alert → Map F Alert
  delete_each lib [] m = m
  delete_each lib (a ∷ rest) m = delete_each lib rest (delete_one lib a m)

  abbrev pub is_empty : Map F Alert → Bool
  is_empty [] = true
  is_empty (x ∷ m) = false

  -- `DeleteIfNotModified`
  unfoldable pub delete_if_not_modified : Library F → List Alert → Bool → Alerts F → Alerts F
  delete_if_not_modified lib as' destroy_if_empty s =
      let left = delete_each lib as' s.alerts in
      if is_empty left && destroy_if_empty
      then record s { alerts = left; is_destroyed = true }
      else record s { alerts = left }

  abbrev pub values : Map F Alert → List Alert
  values [] = []
  values ((fp, a) ∷ m) = a ∷ values m

  -- `List`, `Empty` and `Len`
  unfoldable pub list : Alerts F → List Alert
  list s = values s.alerts

  unfoldable pub empty : Alerts F → Bool
  empty s = is_empty s.alerts

  unfoldable pub len : Alerts F → ℕ
  len s = length s.alerts
