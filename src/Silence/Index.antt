-- ===== src/Silence/Index.antt =====
-- The two indices of silence/silence.go: `matcherIndex` (compiled matchers by silence ID) and
-- `versionIndex` (silence IDs by the version at which they were added).
pub mod Search
use Prim.Native.String.{String}
use codestra_alertmanager.Prelude.{
  ℕ, zero, suc, ◌+◌, ◌-◌, ◌/◌, Bool, true, false, Option, none, some, List, [], ◌∷◌, ◌++◌, length,
  get_elem?, ltb, leb, string_eq, if◌then◌else◌,
}
use codestra_alertmanager.Prelude.Maps.{Map, lookup, insert}
use codestra_alertmanager.Labels
use codestra_alertmanager.Labels.{MatchType, Compile, new_matcher}
use codestra_alertmanager.Silence.Data.{
  Matcher, MatcherType, MatcherSet, Silence, equal, regexp, not_equal, not_regexp, unknown,
}

abbrev pub MatcherIndex : Type 0
MatcherIndex = Map String (List (List Labels.Matcher))

-- The `switch` on the type of a stored matcher; `none` is its default, an error.
unfoldable pub match_type : MatcherType → Option MatchType
match_type equal = some MatchType.equal
match_type not_equal = some MatchType.not_equal
match_type regexp = some MatchType.regexp
match_type not_regexp = some MatchType.not_regexp
match_type (unknown n) = none

unfoldable pub compile_matcher : Compile → Matcher → Option Labels.Matcher
unfolding match_type
compile_matcher compile m = elim (match_type m.type) [
  | none ↦ none
  | some t ↦ new_matcher compile t m.name m.pattern
]

unfoldable pub compile_matchers : Compile → List Matcher → Option (List Labels.Matcher)
compile_matchers compile [] = some []
compile_matchers compile (m ∷ ms) =
    let rest = compile_matchers compile ms in
    elim (compile_matcher compile m) [
      | none ↦ none
      | some c ↦ elim rest [ none ↦ none | some cs ↦ some (c ∷ cs) ]
    ]

unfoldable pub compile_sets : Compile → List MatcherSet → Option (List (List Labels.Matcher))
compile_sets compile [] = some []
compile_sets compile (ms ∷ rest) =
    let later = compile_sets compile rest in
    elim (compile_matchers compile ms.matchers) [
      | none ↦ none
      | some c ↦ elim later [ none ↦ none | some cs ↦ some (c ∷ cs) ]
    ]

-- `matcherIndex.add`: the index, and whether the matchers compiled. It writes nothing on an error.
unfoldable pub add_matchers : Compile → MatcherIndex → Silence → MatcherIndex × Bool
add_matchers compile mi sil = elim (compile_sets compile sil.matcher_sets) [
  | none ↦ (mi, false)
  | some set ↦ (insert sil.id set mi, true)
]

pub record SilenceVersion : Type 0 where
  pub version : ℕ
  pub id : String

abbrev pub VersionIndex : Type 0
VersionIndex = List SilenceVersion

-- `versionIndex.add`
unfoldable pub add_version : ℕ → String → VersionIndex → VersionIndex
add_version version id vi = vi ++ record { version = version; id = id } ∷ []

abbrev pub newer_at : ℕ → VersionIndex → ℕ → Bool
newer_at version vi i = elim (get_elem? vi i) [ none ↦ false | some sv ↦ ltb version sv.version ]

-- `sort.Search(n, f)`: `for i < j { h := (i + j) / 2; if !f(h) { i = h + 1 } else { j = h } }`. The
-- interval at least halves, so as many rounds as its length are enough.
unfoldable pub search_between : ℕ → (ℕ → Bool) → ℕ → ℕ → ℕ
search_between zero f i j = i
search_between (suc fuel) f i j =
    let h = (i + j) / 2 in
    elim (ltb i j) [
      | false ↦ i
      | true ↦ elim (f h) [
        | false ↦ search_between fuel f (h + 1) j
        | true ↦ search_between fuel f i h
      ]
    ]

-- `findVersionGreaterThan`: the start, and whether it is an index of the slice.
unfoldable pub find_version_greater_than : ℕ → VersionIndex → ℕ × Bool
find_version_greater_than version vi =
    let start = search_between (length vi) (newer_at version vi) 0 (length vi) in
    (start, ltb start (length vi))
