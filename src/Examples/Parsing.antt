-- ===== src/Examples/Parsing.antt =====
-- The lexer and the parser of matcher/parse/ at concrete inputs.
use Prim.Native.String.{String, ◌++◌}
use codestra_alertmanager.Prelude.{
  ℕ, ◌+◌, ◌-◌, ◌*◌, ◌≡◌, refl, true, none, some, List, [], ◌∷◌, arith, nat_beq, length, take, drop,
  if◌then◌else◌,
}
use codestra_alertmanager.Labels.{new_matcher, no_regexp, equal}
use codestra_alertmanager.Parse.Lexer.{
  Unicode, IsDecoder, new_lexer, next, rewind, emit, skip, scan, scan_loop, scan_operator,
  scan_quoted, scan_unquoted, skip_quoted, skip_unquoted, peek, accept as accept_rune,
  expect as expect_rune,
}
use codestra_alertmanager.Parse.Lexer.Bounds.{Scans}
use codestra_alertmanager.Parse.Lexer.Scanning.{scan-Scans}
use codestra_alertmanager.Parse.Parser.{
  Library, ok, unquote_token, expect, expect_peek, accept, accept_peek, at_open_brace,
}
use codestra_alertmanager.Parse.States.{
  parse, parse_matchers, parse_open_brace, parse_close_brace, parse_matcher, parse_end_of_matcher,
  parse_comma, parse_eof, new_parser,
}
use codestra_alertmanager.Parse.States.Total.{
  is_result, new_lexer-IsWithin, parse_matchers-is_result,
}

-- Every byte is a rune, and a blank is the only space.
abbrev ascii_decode : List ℕ → ℕ × ℕ
ascii_decode [] = (65533, 0)
ascii_decode (b ∷ s) = (b, 1)

abbrev ascii : Unicode
ascii = record { decode = ascii_decode; is_space = λ r. nat_beq r b' ' }

ascii-IsDecoder : IsDecoder ascii
ascii-IsDecoder [] h = absurd (omega (arith, h))
ascii-IsDecoder (b ∷ s) h = (omega arith, omega arith)

abbrev letter : ℕ → String
letter b = if nat_beq b b'a' then "a" else if nat_beq b b'b' then "b" else "c"

abbrev letters : List ℕ → String
letters [] = ""
letters (b ∷ s) = letter b ++ letters s

abbrev library : Library
library = record {
  unicode = ascii;
  unquote = λ s. some (take (length s - 2) (drop 1 s));
  valid = λ s. true;
  text = letters;
  compile = λ p. none;
}

-- {a="b", b=a}
abbrev two_matchers : List ℕ
two_matchers =
    b'{' ∷ b'a' ∷ b'=' ∷ b'"' ∷ b'b' ∷ b'"' ∷ b',' ∷ b' ' ∷ b'b' ∷ b'=' ∷ b'a' ∷ b'}' ∷ []

scan-Scans_example : Scans (new_lexer two_matchers) (scan ascii 13 (new_lexer two_matchers))
scan-Scans_example =
    scan-Scans ascii ascii-IsDecoder 13 (new_lexer two_matchers) (new_lexer-IsWithin two_matchers)
      (ground arith)

parse_matchers_example :
    (is_result (parse_matchers library two_matchers) ≡ true)
    × (parse_matchers library two_matchers
        ≡ parse library
            (length two_matchers + 1)
            (3 * length two_matchers + 5)
            at_open_brace
            (new_parser two_matchers))
parse_matchers_example = parse_matchers-is_result library two_matchers ascii-IsDecoder

both_read :
    parse_matchers library two_matchers
    ≡ ok (
        record { type = equal; name = "a"; value = "b"; re = no_regexp }
        ∷ record { type = equal; name = "b"; value = "a"; re = no_regexp }
        ∷ [])
unfolding parse_matchers parse parse_open_brace parse_close_brace parse_matcher parse_end_of_matcher
    parse_comma parse_eof expect expect_peek accept accept_peek unquote_token new_matcher scan peek
    scan_loop next rewind emit skip scan_operator scan_quoted scan_unquoted skip_quoted
    skip_unquoted accept_rune expect_rune
both_read = refl
