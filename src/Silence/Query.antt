-- ===== src/Silence/Query.antt =====
-- Queries of silence/silence.go: the parameters, `Query`, `QueryOne` and `CountState`.
pub mod Select
pub mod Safety
use Prim.Native.String.{String}
use codestra_alertmanager.Prelude.{
  ℕ, suc, ◌+◌, Bool, true, false, Option, none, some, List, [], ◌∷◌, ◌++◌, ◌&&◌, ltb, drop,
  string_eq, if◌then◌else◌,
}
use codestra_alertmanager.Prelude.Maps.{lookup}
use codestra_alertmanager.Clock.{Time}
use codestra_alertmanager.Labels.{LabelSet, matches_any}
use codestra_alertmanager.Silence.Data.{Silence, SilenceState, get_state, contains_state}
use codestra_alertmanager.Silence.Index.{VersionIndex, find_version_greater_than}
use codestra_alertmanager.Silence.State.{State, Silences}

-- The errors of a query; `nil_dereference` is the panic on an index entry that the state lacks.
pub data QueryErr : Type 0 where
  no_ids since_with_ids matchers_not_found nil_dereference silence_not_found : QueryErr

pub data Filter : Type 0 where
  by_labels : LabelSet → Filter
  by_state : List SilenceState → Filter

pub record Query : Type 0 where
  pub ids : List String
  pub since : Option ℕ
  pub filters : List Filter

-- `QIDs`, `QSince`, `QMatches` and `QState`.
pub data QueryParam : Type 0 where
  q_ids : List String → QueryParam
  q_since : ℕ → QueryParam
  q_matches : LabelSet → QueryParam
  q_state : List SilenceState → QueryParam

pub data Result {ℓ} (A : Type ℓ) : Type ℓ where
  ok : A → Result A
  err : QueryErr → Result A

infixl 5 ◌>>=◌
abbrev pub ◌>>=◌ {ℓ κ} : {A : Type ℓ} {B : Type κ} → Result A → (A → Result B) → Result B
ok a >>= f = f a
err e >>= f = err e

abbrev pub add_ids : List String → Query → Result Query
add_ids [] q = err no_ids
add_ids (i ∷ is) q = elim q.since [
  | some v ↦ err since_with_ids
  | none ↦ ok (record q { ids = q.ids ++ (i ∷ is) })
]

abbrev pub set_since : ℕ → List String → Query → Result Query
set_since v [] q = ok (record q { since = some v })
set_since v (i ∷ is) q = err since_with_ids

unfoldable pub apply_param : QueryParam → Query → Result Query
apply_param (q_ids ids) q = add_ids ids q
apply_param (q_since v) q = set_since v q.ids q
apply_param (q_matches lset) q = ok (record q { filters = q.filters ++ by_labels lset ∷ [] })
apply_param (q_state states) q = ok (record q { filters = q.filters ++ by_state states ∷ [] })

unfoldable pub apply_params : List QueryParam → Query → Result Query
apply_params [] q = ok q
apply_params (p ∷ ps) q = apply_param p q >>= apply_params ps

-- A filter's answer; the matchers come from the index, and it is an error when they are not there.
unfoldable pub passes : Silences → Time → Silence → Filter → Result Bool
passes s now sil (by_labels lset) = elim (lookup sil.id s.mi) [
  | none ↦ err matchers_not_found
  | some sets ↦ ok (matches_any sets lset)
]
passes s now sil (by_state states) = ok (contains_state states (get_state sil now))

-- The loop of `appendIfFiltersMatch`: the first error or failing filter ends it.
unfoldable pub passes_all : Silences → Time → Silence → List Filter → Result Bool
passes_all s now sil [] = ok true
passes_all s now sil (f ∷ fs) =
    let rest = passes_all s now sil fs in
    elim (passes s now sil f) [ err e ↦ err e | ok b ↦ if b then rest else ok false ]

unfoldable pub append_if_match :
    Silences → Time → List Filter → List Silence → Silence → Result (List Silence)
append_if_match s now fs res sil = elim (passes_all s now sil fs) [
  | err e ↦ err e
  | ok b ↦ ok (if b then res ++ sil ∷ [] else res)
]

-- IDs that the state lacks are passed over.
unfoldable pub scan_ids :
    Silences → Time → List Filter → List String → List Silence → Result (List Silence)
scan_ids s now fs [] res = ok res
scan_ids s now fs (i ∷ is) res = elim (lookup i s.st) [
  | none ↦ scan_ids s now fs is res
  | some e ↦ append_if_match s now fs res e.silence >>= scan_ids s now fs is
]

unfoldable pub scan_versions :
    Silences → Time → List Filter → VersionIndex → List Silence → Result (List Silence)
scan_versions s now fs [] res = ok res
scan_versions s now fs (sv ∷ rest) res = elim (lookup sv.id s.st) [
  | none ↦ err nil_dereference
  | some e ↦ append_if_match s now fs res e.silence >>= scan_versions s now fs rest
]

abbrev pub scan_since : Silences → Time → List Filter → Option ℕ → Result (List Silence)
scan_since s now fs none = scan_versions s now fs s.vi []
scan_since s now fs (some v) =
    let (start, found) = find_version_greater_than v s.vi in
    if found then scan_versions s now fs (drop start s.vi) [] else ok []

abbrev pub scan : Silences → Time → Query → List String → Result (List Silence)
scan s now q [] = scan_since s now q.filters q.since
scan s now q (i ∷ is) = scan_ids s now q.filters (i ∷ is) []

-- `query`. The version that the result is based on is the store's, on every path.
unfoldable pub run_query : Silences → Time → Query → Result (List Silence) × ℕ
run_query s now q = (scan s now q q.ids, s.version)

abbrev pub no_query : Query
no_query = record { ids = []; since = none; filters = [] }

-- `Query`
unfoldable pub query : Silences → Time → List QueryParam → Result (List Silence) × ℕ
query s now params = elim (apply_params params no_query) [
  | err e ↦ (err e, s.version)
  | ok q ↦ run_query s now q
]

abbrev pub first_of_result : List Silence → Result Silence
first_of_result [] = err silence_not_found
first_of_result (sil ∷ rest) = ok sil

-- `QueryOne`
unfoldable pub query_one : Silences → Time → List QueryParam → Result Silence
query_one s now params = (query s now params).0 >>= first_of_result

unfoldable pub count_from : Silences → Time → List SilenceState → VersionIndex → ℕ → Result ℕ
count_from s now states [] n = ok n
count_from s now states (sv ∷ rest) n = elim (lookup sv.id s.st) [
  | none ↦ err nil_dereference
  | some e ↦
      count_from s now states rest
        (if contains_state states (get_state e.silence now) then n + 1 else n)
]

-- `CountState`
unfoldable pub count_state : Silences → Time → List SilenceState → Result ℕ
count_state s now states = count_from s now states s.vi 0
