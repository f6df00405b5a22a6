-- ===== src/TimeInterval/Muting.antt =====
-- `Intervener.Mutes` of timeinterval/timeinterval.go.
use Prim.Native.String.{String}
use codestra_alertmanager.Prelude.{
  ◌≡◌, refl, Bool, true, false, not, ◌&&◌, ◌||◌, Option, none, some, List, [], ◌∷◌, ◌++◌, arith,
  string_eq, Option-cases, inl, inr,
}
use codestra_alertmanager.Prelude.Maps.{Map, lookup}
use codestra_alertmanager.Silence.Data.{is_nil}
use codestra_alertmanager.Clock.{Time}
use codestra_alertmanager.TimeInterval.{
  TimeInterval, Calendar, contains_time, Answer, unknown_interval, contained, names_of, prepend,
  intervener_mutes,
}

module _ (intervals : Map String (List TimeInterval)) (calendar : Calendar) (now : Time) where
  abbrev pub contains_any : List TimeInterval → Bool
  contains_any [] = false
  contains_any (ti ∷ tis) = contains_time calendar ti now || contains_any tis

  abbrev pub configured_contains : Option (List TimeInterval) → Bool
  configured_contains none = false
  configured_contains (some tis) = contains_any tis

  -- An interval of one of the names contains the time.
  abbrev pub any_contains : List String → Bool
  any_contains [] = false
  any_contains (n ∷ ns) = configured_contains (lookup n intervals) || any_contains ns

  abbrev pub all_known : List String → Bool
  all_known [] = true
  all_known (n ∷ ns) = elim (lookup n intervals) [ none ↦ false | some tis ↦ all_known ns ]

  is_nil-names_of :
      (name : String) (tis : List TimeInterval)
      → is_nil (names_of calendar now name tis) ≡ not (contains_any tis)
  is_nil-names_of name [] = refl
  is_nil-names_of name (ti ∷ tis) = ground (arith, is_nil-names_of name tis)

  is_nil-append : (xs ys : List String) → is_nil (xs ++ ys) ≡ (is_nil xs && is_nil ys)
  is_nil-append [] ys = refl
  is_nil-append (x ∷ xs) ys = refl

  -- What the answer of the intervener says.
  abbrev pub AnswerFor : List String → Answer → Type 0
  AnswerFor names (unknown_interval n) = (all_known names ≡ false) × (lookup n intervals ≡ none)
  AnswerFor names (contained found) =
      (all_known names ≡ true) × (is_nil found ≡ not (any_contains names))

  prepend-AnswerFor :
      (n : String) (names : List String) (tis : List TimeInterval) (a : Answer)
      → lookup n intervals ≡ some tis
      → AnswerFor names a
      → AnswerFor (n ∷ names) (prepend (names_of calendar now n tis) a)
  prepend-AnswerFor n names tis (unknown_interval m) h (known, missing) =
      (ground (arith, h, known), missing)
  prepend-AnswerFor n names tis (contained found) h (known, same) = (
    ground (arith, h, known),
    ground
        (arith, h, same, is_nil-names_of n tis, is_nil-append (names_of calendar now n tis) found),
  )

  pub intervener_mutes-AnswerFor :
      (names : List String) → AnswerFor names (intervener_mutes intervals calendar names now)
  unfolding intervener_mutes
  intervener_mutes-AnswerFor [] = (refl, refl)
  intervener_mutes-AnswerFor (n ∷ names) = elim (Option-cases (lookup n intervals)) [
    | inl q ↦ rw (q, intervener_mutes) (ground (arith, q), q)
    | inr (tis, q) ↦
        rw (q, intervener_mutes)
          (prepend-AnswerFor n names tis (intervener_mutes intervals calendar names now) q
            (intervener_mutes-AnswerFor names))
  ]
