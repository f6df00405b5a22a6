-- ===== src/Labels/Laws.antt =====
-- pkg/labels/matcher.go: what the matchers made by `NewMatcher` decide.
use codestra_alertmanager.Prelude.{
  String, ◌≡◌, refl, Bool, true, false, not, some, ◌==◌, string_eq, arith,
}
use codestra_alertmanager.Labels.{
  MatchType, equal, not_equal, regexp, not_regexp, Compile, Matcher, new_matcher, matches,
}

-- The opposite type of a match.
abbrev pub negate : MatchType → MatchType
negate equal = not_equal
negate not_equal = equal
negate regexp = not_regexp
negate not_regexp = regexp

not-not : (b : Bool) → b ≡ not (not b)
not-not true = refl
not-not false = refl

-- A matcher of the opposite type, made from the same name and pattern, gives the opposite answer
-- to every value.
pub matches-negate :
    (compile : Compile) (t : MatchType) (n v : String) {m m' : Matcher}
    → new_matcher compile t n v ≡ some m
    → new_matcher compile (negate t) n v ≡ some m'
    → (s : String) → matches m' s ≡ not (matches m s)
unfolding new_matcher matches
matches-negate compile equal n v h k s = ground arith
matches-negate compile not_equal n v h k s = ground (arith, not-not (s == v))
matches-negate compile regexp n v h k s = ground arith
matches-negate compile not_regexp n v h k s = ground arith
