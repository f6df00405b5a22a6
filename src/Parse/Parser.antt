-- ===== src/Parse/Parser.antt =====
-- `parser` of matcher/parse/parse.go: what it accepts and expects of the lexer.
--
-- `strconv.Unquote` and `utf8.ValidString` are parameters, as are the decoder of the lexer and
-- `regexp.Compile`. An error has the token or the error of the lexer that its text is made of, and the
-- errors that it wraps. A panic of a state is an outcome, which `Matchers` turns into an error.
pub mod Taking
use Prim.Native.String.{String}
use codestra_alertmanager.Prelude.{
  ℕ, zero, suc, ◌+◌, ◌*◌, Bool, true, false, not, Option, none, some, List, [], ◌∷◌, ◌++◌, ◌&&◌,
  ◌||◌, if◌then◌else◌, length,
}
use codestra_alertmanager.Labels.{
  Matcher, MatchType, Compile, new_matcher, equal, not_equal, regexp, not_regexp,
}
use codestra_alertmanager.Parse.Lexer.{
  Unicode, Lexer, LexError, Token, TokenKind, Position, new_lexer, position, no_token, scan, peek,
  eof, open_brace, close_brace, comma, equals, not_equals, matches, not_matches, quoted, unquoted,
}

-- The library's functions; `text` is the conversion of bytes to a string.
pub record Library : Type 0 where
  pub unicode : Unicode
  pub unquote : List ℕ → Option (List ℕ)
  pub valid : List ℕ → Bool
  pub text : List ℕ → String
  pub compile : Compile

-- What an error says beside what it wraps.
pub data Reason : Type 0 where
  expected_eof no_open_brace no_close_brace no_label_name no_label_value no_operator : Reason
  expected_comma expected_comma_or_close_brace expected_matcher_or_close_brace : Reason

pub data ParseError : Type 0 where
  lexed : LexError → ParseError
  end_of_input : ParseError
  unexpected invalid_value : Token → ParseError
  wrapped : ParseError → Reason → ParseError
  not_at_end : Token → Reason → ParseError
  wrapped_at : ℕ → ParseError → Reason → ParseError
  stray_brace : ℕ → Reason → ParseError
  bad_matcher no_matchers parser_panic : ParseError
  expected_one : ℕ → ParseError

-- A result, an error, a panic, or no fuel.
pub data Outcome {ℓ} (A : Type ℓ) : Type ℓ where
  ok : A → Outcome A
  fail : ParseError → Outcome A
  panic unfinished : Outcome A

abbrev pub is_kind : TokenKind → TokenKind → Bool
is_kind eof eof = true
is_kind open_brace open_brace = true
is_kind close_brace close_brace = true
is_kind comma comma = true
is_kind equals equals = true
is_kind not_equals not_equals = true
is_kind matches matches = true
is_kind not_matches not_matches = true
is_kind quoted quoted = true
is_kind unquoted unquoted = true
is_kind _ _ = false

-- `slices.Contains`
abbrev pub is_one_of : List TokenKind → TokenKind → Bool
is_one_of [] k = false
is_one_of (x ∷ xs) k = is_kind x k || is_one_of xs k

-- `errors.Is(err, errEOF)`
abbrev pub is_end : ParseError → Bool
is_end end_of_input = true
is_end (wrapped e r) = is_end e
is_end (wrapped_at column e r) = is_end e
is_end _ = false

-- The states, by the function that a state is.
pub data State : Type 0 where
  at_open_brace at_close_brace at_matcher at_end_of_matcher at_comma at_eof : State

pub record Parser : Type 0 where
  pub matchers : List Matcher
  pub has_open_brace : Bool
  pub lexer : Lexer

module _ (lib : Library) where
  -- `token.unquote`
  unfoldable pub unquote_token : Token → Option (List ℕ)
  unquote_token t =
      if is_kind t.kind quoted
      then elim (lib.unquote t.value) [
        | none ↦ none
        | some s ↦ if lib.valid s then some s else none
      ]
      else some t.value

abbrev pub expected_peek : List TokenKind → Option LexError → Token → Outcome Token
expected_peek kinds (some e) t = fail (lexed e)
expected_peek kinds none t =
    if is_kind t.kind eof
    then fail end_of_input
    else if is_one_of kinds t.kind
    then ok t
    else fail (unexpected t)

abbrev pub peeked : List TokenKind → Lexer → Option (Lexer × Token) → Lexer × Outcome Token
peeked kinds l none = (l, unfinished)
peeked kinds l (some (l', t)) = (l', expected_peek kinds l'.err t)

-- The scan of a token that was peeked at.
abbrev pub rescanned : {A : Type 0} → A → Lexer → Option (Lexer × Token) → Lexer × Outcome A
rescanned a l none = (l, unfinished)
rescanned a l (some (l', t)) = (l', elim l'.err [ none ↦ ok a | some e ↦ panic ])

abbrev pub accepted_peek : List TokenKind → Option LexError → Token → Outcome Bool
accepted_peek kinds (some e) t = fail (lexed e)
accepted_peek kinds none t =
    if is_kind t.kind eof then fail end_of_input else ok (is_one_of kinds t.kind)

abbrev pub accept_peeked : List TokenKind → Lexer → Option (Lexer × Token) → Lexer × Outcome Bool
accept_peeked kinds l none = (l, unfinished)
accept_peeked kinds l (some (l', t)) = (l', accepted_peek kinds l'.err t)

module _ (u : Unicode) (n : ℕ) where
  -- `expectPeek`
  unfoldable pub expect_peek : List TokenKind → Lexer → Lexer × Outcome Token
  expect_peek kinds l = peeked kinds l (peek u n l)

  abbrev pub expected : Lexer × Outcome Token → Lexer × Outcome Token
  expected (l, ok t) = rescanned t l (scan u n l)
  expected (l, fail e) = (l, fail e)
  expected (l, panic) = (l, panic)
  expected (l, unfinished) = (l, unfinished)

  -- `expect`
  unfoldable pub expect : List TokenKind → Lexer → Lexer × Outcome Token
  expect kinds l = expected (expect_peek kinds l)

  -- `acceptPeek`
  unfoldable pub accept_peek : List TokenKind → Lexer → Lexer × Outcome Bool
  accept_peek kinds l = accept_peeked kinds l (peek u n l)

  abbrev pub accepted : Lexer × Outcome Bool → Lexer × Outcome Bool
  accepted (l, ok true) = rescanned true l (scan u n l)
  accepted (l, ok false) = (l, ok false)
  accepted (l, fail e) = (l, fail e)
  accepted (l, panic) = (l, panic)
  accepted (l, unfinished) = (l, unfinished)

  -- `accept`
  unfoldable pub accept : List TokenKind → Lexer → Lexer × Outcome Bool
  accept kinds l = accepted (accept_peek kinds l)
