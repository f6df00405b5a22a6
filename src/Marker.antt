-- ===== src/Marker.antt =====
-- marker/: the status of alerts and of groups, as the notification pipeline leaves it.
--
-- A nil slice is `none`; `Status` of an alert returns empty slices for nil ones, so a nil slice that is
-- set may be taken for an empty one.
use Prim.Native.String.{String}
use codestra_alertmanager.Prelude.{
  Bool, true, false, not, Option, none, some, List, [], ◌∷◌, ◌&&◌, ◌||◌, if◌then◌else◌, Comparable,
  ◌==◌, string_eq, ◌≡◌, ◌↔◌, arith, subst, ap, ◌∙◌,
}
use codestra_alertmanager.Prelude.Maps.{Map, lookup, insert, erase}
use codestra_alertmanager.Silence.Data.{is_nil}
use codestra_alertmanager.Alert.{AlertState, unprocessed, active, suppressed}

-- `alertStatus`
pub record AlertStatus : Type 0 where
  pub silenced_by : Option (List String)
  pub inhibited_by : Option (List String)

abbrev pub or_nil : Option (List String) → List String
or_nil none = []
or_nil (some xs) = xs

-- `alertStatus.state`
unfoldable pub state_of : AlertStatus → AlertState
state_of s =
    if not (is_nil (or_nil s.silenced_by)) || not (is_nil (or_nil s.inhibited_by))
    then suppressed
    else active

-- `alert.AlertStatus`
pub record Status : Type 0 where
  pub state : AlertState
  pub silenced : List String
  pub inhibited : List String

abbrev pub no_status : AlertStatus
no_status = record { silenced_by = none; inhibited_by = none }

abbrev pub or_new : Option AlertStatus → AlertStatus
or_new none = no_status
or_new (some s) = s

abbrev pub AlertMarker : Type 0 → Type 0
AlertMarker F = Map F AlertStatus

abbrev pub shown : Option AlertStatus → Status
shown none = record { state = unprocessed; silenced = []; inhibited = [] }
shown (some s) = record {
  state = state_of s;
  silenced = or_nil s.silenced_by;
  inhibited = or_nil s.inhibited_by;
}

module _ {F : Type 0} ⦃e : Comparable F⦄ where
  unfoldable pub set_silenced : F → List String → AlertMarker F → AlertMarker F
  set_silenced fp by m = insert fp (record (or_new (lookup fp m)) { silenced_by = some by }) m

  unfoldable pub set_inhibited : F → List String → AlertMarker F → AlertMarker F
  set_inhibited fp by m = insert fp (record (or_new (lookup fp m)) { inhibited_by = some by }) m

  unfoldable pub status : F → AlertMarker F → Status
  status fp m = shown (lookup fp m)

  -- `Delete`
  unfoldable pub unmark : List F → AlertMarker F → AlertMarker F
  unmark [] m = m
  unmark (fp ∷ fps) m = unmark fps (erase fp m)

-- `groupMarkerKey`
pub record GroupKey : Type 0 where
  pub route_id : String
  pub group_key : String

abbrev pub same_key : GroupKey → GroupKey → Bool
same_key a b = (a.route_id == b.route_id) && (a.group_key == b.group_key)

pub same_key_iff : (a b : GroupKey) → same_key a b ≡ true ↔ (a ≡ b)
same_key_iff a b = (
  λ h.
      let p : a.route_id ≡ b.route_id =
        ground (arith, h, string_eq.beq_iff a.route_id b.route_id) in
      let q : a.group_key ≡ b.group_key =
        ground (arith, h, string_eq.beq_iff a.group_key b.group_key) in
      ap (λ (r : String). record { route_id = r; group_key = a.group_key }) p
      ∙ ap (λ (k : String). record { route_id = b.route_id; group_key = k }) q,
  λ p.
      subst (λ c. same_key a c ≡ true) p
        (ground (
          arith,
          string_eq.beq_iff a.route_id a.route_id,
          string_eq.beq_iff a.group_key a.group_key,
        )),
)

instance abbrev pub group_key_eq : Comparable GroupKey
group_key_eq = record { beq = same_key; beq_iff = same_key_iff }

-- The names of the intervals that mute a group.
abbrev pub GroupMarker : Type 0
GroupMarker = Map GroupKey (List String)

abbrev pub muted_of : Option (List String) → Option (List String) × Bool
muted_of none = (none, false)
muted_of (some names) = (some names, not (is_nil names))

unfoldable pub muted : GroupKey → GroupMarker → Option (List String) × Bool
muted k m = muted_of (lookup k m)

unfoldable pub set_muted : GroupKey → List String → GroupMarker → GroupMarker
set_muted k names m = insert k names m

unfoldable pub delete_by_group_key : GroupKey → GroupMarker → GroupMarker
delete_by_group_key k m = erase k m
