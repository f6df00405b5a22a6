-- ===== src/Silence/Validate.antt =====
-- Validation of a silence before it is stored: `validateMatcher`, `matchesEmpty` and
-- `validateSilence` of silence/silence.go.
--
-- What the validation calls outside this file is a parameter: `compat.IsValidLabelName` (chosen by
-- feature flags), `model.LabelValue.IsValid`, and the standard library's `regexp.Compile`.
use Prim.Native.String.{String}
use codestra_alertmanager.Prelude.{
  Bool, true, false, Option, none, some, List, [], ◌∷◌, ◌==◌, ◌&&◌, string_eq, if◌then◌else◌,
}
use codestra_alertmanager.Clock.{Timestamp, as_time, before, is_zero}
use codestra_alertmanager.Labels.{Compile}
use codestra_alertmanager.Silence.Data.{
  Matcher, MatcherType, MatcherSet, Silence, equal, regexp, not_equal, not_regexp, unknown,
  postprocess,
}

pub record Rules : Type 0 where
  pub valid_label_name : String → Bool
  pub valid_label_value : String → Bool
  pub compile : Compile

-- The errors of `validateSilence`, one for each message.
pub data Invalid : Type 0 where
  label_name label_value regular_expression matcher_type : Invalid
  no_matcher_sets empty_matcher_set all_match_empty : Invalid
  zero_start zero_end end_before_start : Invalid

abbrev pub compiles : Compile → String → Bool
compiles compile pattern = elim (compile pattern) [ none ↦ false | some re ↦ true ]

abbrev pub pattern_error : MatcherType → Rules → String → Option Invalid
pattern_error equal r p = if r.valid_label_value p then none else some label_value
pattern_error not_equal r p = if r.valid_label_value p then none else some label_value
pattern_error regexp r p = if compiles r.compile p then none else some regular_expression
pattern_error not_regexp r p = if compiles r.compile p then none else some regular_expression
pattern_error (unknown n) r p = some matcher_type

-- `validateMatcher`; `none` is the nil error.
unfoldable pub validate_matcher : Rules → Matcher → Option Invalid
validate_matcher r m =
    if r.valid_label_name m.name then pattern_error m.type r m.pattern else some label_name

abbrev pub matches_empty_as : MatcherType → Rules → String → Bool
matches_empty_as equal r p = p == ""
matches_empty_as regexp r p = elim (r.compile p) [ none ↦ false | some re ↦ re "" ]
matches_empty_as _ r p = false

-- `matchesEmpty`. `regexp.MatchString` reports false beside an error.
unfoldable pub matches_empty : Rules → Matcher → Bool
matches_empty r m = matches_empty_as m.type r m.pattern

-- The loop over one matcher set; `empty` is `allMatchEmpty`.
unfoldable pub validate_matchers : Rules → Bool → List Matcher → Option Invalid
validate_matchers r empty [] = if empty then some all_match_empty else none
validate_matchers r empty (m ∷ ms) =
    let rest = validate_matchers r (empty && matches_empty r m) ms in
    elim (validate_matcher r m) [ none ↦ rest | some e ↦ some e ]

unfoldable pub validate_matcher_set : Rules → List Matcher → Option Invalid
validate_matcher_set r [] = some empty_matcher_set
validate_matcher_set r (m ∷ ms) = validate_matchers r true (m ∷ ms)

unfoldable pub validate_matcher_sets : Rules → List MatcherSet → Option Invalid
validate_matcher_sets r [] = none
validate_matcher_sets r (ms ∷ rest) =
    let later = validate_matcher_sets r rest in
    elim (validate_matcher_set r ms.matchers) [ none ↦ later | some e ↦ some e ]

abbrev pub is_missing : Timestamp → Bool
is_missing none = true
is_missing (some t) = is_zero t

unfoldable pub validate_times : Silence → Option Invalid
validate_times s =
    if is_missing s.starts_at
    then some zero_start
    else if is_missing s.ends_at
    then some zero_end
    else if before (as_time s.ends_at) (as_time s.starts_at)
    then some end_before_start
    else none

abbrev pub validate_sets : Rules → List MatcherSet → Option Invalid
validate_sets r [] = some no_matcher_sets
validate_sets r (ms ∷ rest) = validate_matcher_sets r (ms ∷ rest)

-- `validateSilence` rewrites the silence through its pointer first, so it comes back too.
unfoldable pub validate_silence : Rules → Silence → Silence × Option Invalid
validate_silence r sil =
    let s = postprocess sil in
    (s, elim (validate_sets r s.matcher_sets) [ none ↦ validate_times s | some e ↦ some e ])
