-- ===== src/Labels.antt =====
-- pkg/labels/matcher.go: label matchers and their evaluation.
--
-- The regular expression engine is the standard library's `regexp`: `compile pattern` is `none`
-- where `regexp.Compile` returns an error, and otherwise `MatchString` of the compiled pattern.
-- The field `re` is unexported, so only `NewMatcher` sets it. It is nil just for the two types that
-- never read it; the model puts `no_regexp` there.
pub mod Laws
use codestra_alertmanager.Prelude.{
  String, Bool, true, false, not, Option, none, some, List, [], ◌∷◌, ◌==◌, ◌&&◌, ◌||◌, string_eq,
}
use codestra_alertmanager.Prelude.Maps.{Map, lookup}
use Prim.Native.String.{◌++◌}

abbrev pub LabelSet : Type 0
LabelSet = Map String String

pub data MatchType : Type 0 where
  equal not_equal regexp not_regexp : MatchType

abbrev pub Regexp : Type 0
Regexp = String → Bool

abbrev pub Compile : Type 0
Compile = String → Option Regexp

abbrev pub no_regexp : Regexp
no_regexp s = false

pub record Matcher : Type 0 where
  pub type : MatchType
  pub name : String
  pub value : String
  pub re : Regexp

-- The pattern is anchored at both ends.
abbrev pub anchored : String → String
anchored v = "^(?:" ++ (v ++ ")$")

-- `NewMatcher`; `none` is the error of `regexp.Compile`.
unfoldable pub new_matcher : Compile → MatchType → String → String → Option Matcher
new_matcher compile equal n v = some (record { type = equal; name = n; value = v; re = no_regexp })
new_matcher compile not_equal n v =
    some (record { type = not_equal; name = n; value = v; re = no_regexp })
new_matcher compile t n v = elim (compile (anchored v)) [
  | none ↦ none
  | some re ↦ some (record { type = t; name = n; value = v; re = re })
]

-- `Matcher.Matches`, the `switch` on the type.
abbrev pub matches_as : MatchType → Matcher → String → Bool
matches_as equal m s = s == m.value
matches_as not_equal m s = not (s == m.value)
matches_as regexp m s = m.re s
matches_as not_regexp m s = not (m.re s)

unfoldable pub matches : Matcher → String → Bool
matches m s = matches_as m.type m s

-- A label that the set does not have reads as the empty string.
unfoldable pub label : String → LabelSet → String
label n lset = elim (lookup n lset) [ none ↦ "" | some v ↦ v ]

-- `Matchers.Matches`: all matchers are fulfilled.
unfoldable pub matches_all : List Matcher → LabelSet → Bool
matches_all [] lset = true
matches_all (m ∷ ms) lset = matches m (label m.name lset) && matches_all ms lset

-- `MatcherSet.Matches`: at least one of the sets is fulfilled.
unfoldable pub matches_any : List (List Matcher) → LabelSet → Bool
matches_any [] lset = false
matches_any (ms ∷ rest) lset = matches_all ms lset || matches_any rest lset
