-- ===== src/Alert/Merging.antt =====
-- `Merge` of alert/alert.go.
use codestra_alertmanager.Prelude.{◌≡◌, ◌≢◌, ◌≤◌, arith, ◌⊎◌}
use codestra_alertmanager.Alert.{Alert, Model, merge, merge_younger}

-- Two alerts that were updated at different times merge to the same alert in either order.
pub merge_comm : (m : Model) (a o : Alert) → a.updated_at ≢ o.updated_at → merge m a o ≡ merge m o a
unfolding merge
merge_comm m a o ne = ground arith

-- The merged alert starts at the earlier start, was updated no earlier than either of the two, and
-- ends at the end of one of the two.
pub merge_times :
    (m : Model) (a o : Alert)
    → ((merge m a o).starts_at ≤ a.starts_at)
      × ((merge m a o).starts_at ≤ o.starts_at)
      × (((merge m a o).starts_at ≡ a.starts_at) ⊎ ((merge m a o).starts_at ≡ o.starts_at))
      × (a.updated_at ≤ (merge m a o).updated_at)
      × (o.updated_at ≤ (merge m a o).updated_at)
      × (((merge m a o).ends_at ≡ a.ends_at) ⊎ ((merge m a o).ends_at ≡ o.ends_at))
unfolding merge merge_younger
merge_times m a o = ground arith
