-- ===== src/Nflog/Data.antt =====
-- The messages of nflog/nflogpb, the receiver data store of nflog/nflog.go, and the keys of the log.
--
-- A float64 and an int64 are only stored and handed back, so each is the number of its bit pattern.
use Prim.Native.String.{String, ◌++◌}
use codestra_alertmanager.Prelude.{
  ℕ, zero, suc, ◌/◌, ◌%◌, Bool, true, false, Option, none, some, List, [], ◌∷◌, ltb, contains,
  nat_eq, string_eq, if◌then◌else◌,
}
use codestra_alertmanager.Prelude.Maps.{Map, lookup, insert, erase}
use codestra_alertmanager.Clock.{Timestamp}

pub record Receiver : Type 0 where
  pub group_name : String
  pub integration : String
  pub idx : ℕ  -- uint32

-- The `oneof` of `ReceiverDataValue`, which may be unset.
pub data DataValue : Type 0 where
  str_val : String → DataValue
  int_val double_val : ℕ → DataValue
  unset : DataValue

pub record Entry : Type 0 where
  pub group_key : String
  pub receiver : Receiver
  pub group_hash : List ℕ
  pub resolved : Bool
  pub timestamp : Timestamp
  pub firing_alerts : List ℕ
  pub resolved_alerts : List ℕ
  pub receiver_data : Map String DataValue

pub record MeshEntry : Type 0 where
  pub entry : Entry
  pub expires_at : Timestamp

-- `isSubset(set, subset)`, the set being given by the list it is built from.
unfoldable pub is_subset : List ℕ → List ℕ → Bool
is_subset set [] = true
is_subset set (k ∷ subset) =
    let rest = is_subset set subset in if contains set k then rest else false

-- `Entry.IsFiringSubset` and `Entry.IsResolvedSubset`
unfoldable pub is_firing_subset : Entry → List ℕ → Bool
is_firing_subset e subset = is_subset e.firing_alerts subset

unfoldable pub is_resolved_subset : Entry → List ℕ → Bool
is_resolved_subset e subset = is_subset e.resolved_alerts subset

abbrev pub Store : Type 0
Store = Map String DataValue

-- `NewStore`
unfoldable pub new_store : Option Entry → Store
new_store none = []
new_store (some e) = e.receiver_data

abbrev pub as_int : DataValue → Option ℕ
as_int (int_val n) = some n
as_int _ = none

abbrev pub as_float : DataValue → Option ℕ
as_float (double_val x) = some x
as_float _ = none

abbrev pub as_str : DataValue → Option String
as_str (str_val s) = some s
as_str _ = none

-- `GetInt`, `GetFloat` and `GetStr`; `none` is the flag false.
unfoldable pub get_int : Store → String → Option ℕ
get_int s key = elim (lookup key s) [ none ↦ none | some v ↦ as_int v ]

unfoldable pub get_float : Store → String → Option ℕ
get_float s key = elim (lookup key s) [ none ↦ none | some v ↦ as_float v ]

unfoldable pub get_str : Store → String → Option String
get_str s key = elim (lookup key s) [ none ↦ none | some v ↦ as_str v ]

-- `SetInt`, `SetFloat`, `SetStr` and `Delete`
unfoldable pub set_int : Store → String → ℕ → Store
set_int s key n = insert key (int_val n) s

unfoldable pub set_float : Store → String → ℕ → Store
set_float s key x = insert key (double_val x) s

unfoldable pub set_str : Store → String → String → Store
set_str s key v = insert key (str_val v) s

unfoldable pub delete : Store → String → Store
delete s key = erase key s

abbrev pub digit : ℕ → String
digit zero = "0"
digit (suc zero) = "1"
digit (suc (suc zero)) = "2"
digit (suc (suc (suc zero))) = "3"
digit (suc (suc (suc (suc zero)))) = "4"
digit (suc (suc (suc (suc (suc zero))))) = "5"
digit (suc (suc (suc (suc (suc (suc zero)))))) = "6"
digit (suc (suc (suc (suc (suc (suc (suc zero))))))) = "7"
digit (suc (suc (suc (suc (suc (suc (suc (suc zero)))))))) = "8"
digit _ = "9"

-- `%d` of a uint32: ten digits are enough.
unfoldable pub print_digits : ℕ → ℕ → String
print_digits zero n = ""
print_digits (suc fuel) n =
    let rest = print_digits fuel (n / 10) in if ltb n 10 then digit n else rest ++ digit (n % 10)

-- `receiverKey` and `stateKey`
unfoldable pub receiver_key : Receiver → String
receiver_key r = r.group_name ++ ("/" ++ (r.integration ++ ("/" ++ print_digits 10 r.idx)))

unfoldable pub state_key : String → Receiver → String
state_key k r = k ++ (":" ++ receiver_key r)
