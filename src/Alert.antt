-- ===== src/Alert.antt =====
-- alert/: the internal alert, its merge and its validation, and the state of an alert.
--
-- `model.Alert` and `model.LabelSet` are of the package prometheus/common: their fields are those
-- that the code reads, and their methods are the parameters of `Model`.
pub mod Merging
use Prim.Native.String.{String}
use codestra_alertmanager.Prelude.{
  ℕ, Bool, true, false, not, Option, none, some, List, [], ◌∷◌, ◌==◌, ◌&&◌, string_eq,
  if◌then◌else◌, ltb,
}
use codestra_alertmanager.Prelude.Maps.{Map, lookup}
use codestra_alertmanager.Clock.{Time, before, after, is_zero}
use codestra_alertmanager.Labels.{LabelSet}

pub record Alert : Type 0 where
  pub labels : LabelSet
  pub annotations : LabelSet
  pub starts_at : Time
  pub ends_at : Time
  pub generator_url : String
  pub updated_at : Time
  pub timeout : Bool

-- `Resolved` at the time of the call, `IsValid` of a label value, `LabelSet.Before`, the order of
-- strings, and `compat.IsValidLabelName`, which feature flags choose.
pub record Model : Type 0 where
  pub resolved : Alert → Bool
  pub valid_value : String → Bool
  pub valid_name : String → Bool
  pub labels_before : LabelSet → LabelSet → Bool
  pub string_before : String → String → Bool

-- `Merge` once its argument `o` is the younger alert.
unfoldable pub merge_younger : Model → Alert → Alert → Alert
merge_younger m a o =
    let started =
      if before a.starts_at o.starts_at then record o { starts_at = a.starts_at } else o in
    if m.resolved o
    then (if m.resolved a && after a.ends_at o.ends_at
        then record started { ends_at = a.ends_at }
        else started)
    else if after a.ends_at o.ends_at && not a.timeout
    then record started { ends_at = a.ends_at }
    else started

-- `Merge`: an older argument trades places with the receiver, once.
unfoldable pub merge : Model → Alert → Alert → Alert
merge m a o = if before o.updated_at a.updated_at then merge_younger m o a else merge_younger m a o

pub data Invalid : Type 0 where
  no_start end_before_start no_labels label_name label_value : Invalid
  annotation_name annotation_value : Invalid

-- `validateLs`; the errors are those of the labels or of the annotations.
unfoldable pub validate_ls : Model → Invalid → Invalid → LabelSet → Option Invalid
validate_ls m name value [] = none
validate_ls m name value ((n, v) ∷ ls) =
    let rest = validate_ls m name value ls in
    if m.valid_name n then (if m.valid_value v then rest else some value) else some name

abbrev pub validate_sets : Model → LabelSet → LabelSet → Option Invalid
validate_sets m [] annotations = some no_labels
validate_sets m (l ∷ ls) annotations = elim (validate_ls m label_name label_value (l ∷ ls)) [
  | some e ↦ some e
  | none ↦ validate_ls m annotation_name annotation_value annotations
]

-- `Validate`
unfoldable pub validate : Model → Alert → Option Invalid
validate m a =
    if is_zero a.starts_at
    then some no_start
    else if not (is_zero a.ends_at) && before a.ends_at a.starts_at
    then some end_before_start
    else validate_sets m a.labels a.annotations

-- One round of the loop of `AlertSlice.Less` over the keys that decide first: `none` goes on.
abbrev pub less_by_key : Model → Option String → Option String → Option Bool
less_by_key m none none = none
less_by_key m none (some v) = some false
less_by_key m (some u) none = some true
less_by_key m (some u) (some v) = if u == v then none else some (m.string_before u v)

-- `AlertSlice.Less`
unfoldable pub less : Model → Alert → Alert → Bool
less m a b = elim (less_by_key m (lookup "job" a.labels) (lookup "job" b.labels)) [
  | some r ↦ r
  | none ↦ elim (less_by_key m (lookup "instance" a.labels) (lookup "instance" b.labels)) [
    | some r ↦ r
    | none ↦ m.labels_before a.labels b.labels
  ]
]

-- `Alerts`: an end time that is not reached is not exposed.
unfoldable pub exposed : Model → List Alert → List Alert
exposed m [] = []
exposed m (a ∷ as') = (if m.resolved a then a else record a { ends_at = 0 }) ∷ exposed m as'

-- `AlertState` and its `Compare`, with -1, 0 and 1 as the constructors of a comparison.
pub data AlertState : Type 0 where
  unprocessed active suppressed : AlertState

pub data Comparison : Type 0 where
  lower same higher : Comparison

abbrev pub priority : AlertState → ℕ
priority suppressed = 2
priority active = 1
priority unprocessed = 0

unfoldable pub compare_states : AlertState → AlertState → Comparison
compare_states s other =
    if ltb (priority s) (priority other)
    then lower
    else if ltb (priority other) (priority s)
    then higher
    else same
