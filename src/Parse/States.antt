-- ===== src/Parse/States.antt =====
-- The states of `parser` of matcher/parse/parse.go, its loop, and `Matchers` and `Matcher`.
pub mod Reading
pub mod Total
use codestra_alertmanager.Prelude.{
  ℕ, zero, suc, ◌+◌, ◌*◌, Bool, true, false, Option, none, some, List, [], ◌∷◌, ◌++◌, if◌then◌else◌,
  length,
}
use codestra_alertmanager.Labels.{
  Matcher, MatchType, new_matcher, equal, not_equal, regexp, not_regexp,
}
use codestra_alertmanager.Parse.Lexer.{
  Lexer, LexError, Token, TokenKind, new_lexer, position, scan, eof, open_brace, close_brace, comma,
  equals, not_equals, matches, not_matches, quoted, unquoted,
}
use codestra_alertmanager.Parse.Parser.{
  Library, ParseError, Reason, Outcome, ok, fail, panic, unfinished, State, Parser, is_kind, is_end,
  unquote_token, accept, accept_peek, expect, expect_peek, at_open_brace, at_close_brace,
  at_matcher, at_end_of_matcher, at_comma, at_eof, expected_eof, no_open_brace, no_close_brace,
  no_label_name, no_label_value, no_operator, expected_comma, expected_comma_or_close_brace,
  expected_matcher_or_close_brace, lexed, wrapped, wrapped_at, invalid_value, not_at_end,
  stray_brace, bad_matcher, no_matchers, parser_panic, expected_one,
}

-- What follows a result; the error of the step before is wrapped.
abbrev pub after :
    {A B : Type 0}
    → Lexer × Outcome A
    → (ParseError → ParseError)
    → (Lexer → A → Lexer × Outcome B)
    → Lexer × Outcome B
after (l, ok a) wrap f = f l a
after (l, fail e) wrap f = (l, fail (wrap e))
after (l, panic) wrap f = (l, panic)
after (l, unfinished) wrap f = (l, unfinished)

-- The switch on the operator; its default is a panic.
abbrev pub match_type : TokenKind → Option MatchType
match_type equals = some equal
match_type not_equals = some not_equal
match_type matches = some regexp
match_type not_matches = some not_regexp
match_type _ = none

abbrev pub unquoted_or :
    {A : Type 0}
    → Lexer
    → Token
    → Option (List ℕ)
    → (List ℕ → Lexer × Outcome A)
    → Lexer × Outcome A
unquoted_or l t none f = (l, fail (invalid_value t))
unquoted_or l t (some s) f = f s

abbrev pub made : Lexer → Option Matcher → Lexer × Outcome Matcher
made l none = (l, fail bad_matcher)
made l (some m) = (l, ok m)

abbrev pub with_matcher : Parser → Lexer × Outcome Matcher → Parser × Outcome (Option State)
with_matcher p (l, ok m) =
    (record p { matchers = p.matchers ++ m ∷ []; lexer = l }, ok (some at_end_of_matcher))
with_matcher p (l, fail e) = (record p { lexer = l }, fail e)
with_matcher p (l, panic) = (record p { lexer = l }, panic)
with_matcher p (l, unfinished) = (record p { lexer = l }, unfinished)

-- An error at the end of the input leads to a state, and another one is returned.
abbrev pub unless_end : State → ParseError → Outcome (Option State)
unless_end st e = if is_end e then ok (some st) else fail e

abbrev pub after_brace : Outcome Bool → Outcome (Option State)
after_brace (ok has_close) = ok (some (if has_close then at_close_brace else at_matcher))
after_brace (fail e) = unless_end at_close_brace e
after_brace panic = panic
after_brace unfinished = unfinished

abbrev pub closed : Bool → Lexer × Outcome Token → Outcome (Option State)
closed true (l, ok t) = ok (some at_eof)
closed true (l, fail e) = fail (wrapped_at (position l).column_end e no_close_brace)
closed false (l, ok t) = fail (stray_brace (position l).column_end no_open_brace)
closed false (l, fail e) = ok (some at_eof)
closed b (l, panic) = panic
closed b (l, unfinished) = unfinished

abbrev pub ended_matcher : Outcome Token → Outcome (Option State)
ended_matcher (ok t) =
    if is_kind t.kind comma
    then ok (some at_comma)
    else if is_kind t.kind close_brace
    then ok (some at_close_brace)
    else panic
ended_matcher (fail e) =
    if is_end e then ok (some at_close_brace) else fail (wrapped e expected_comma_or_close_brace)
ended_matcher panic = panic
ended_matcher unfinished = unfinished

abbrev pub after_comma : Outcome Token → Outcome (Option State)
after_comma (ok t) = ok (some (if is_kind t.kind close_brace then at_close_brace else at_matcher))
after_comma (fail e) =
    if is_end e then ok (some at_close_brace) else fail (wrapped e expected_matcher_or_close_brace)
after_comma panic = panic
after_comma unfinished = unfinished

abbrev pub at_the_end : Option LexError → Token → Outcome (Option State)
at_the_end (some e) t = fail (wrapped (lexed e) expected_eof)
at_the_end none t = if is_kind t.kind eof then ok none else fail (not_at_end t expected_eof)

abbrev pub eof_scanned : Parser → Option (Lexer × Token) → Parser × Outcome (Option State)
eof_scanned p none = (p, unfinished)
eof_scanned p (some (l, t)) = (record p { lexer = l }, at_the_end l.err t)

abbrev pub resumed :
    (State → Outcome (List Matcher))
    → Outcome (Option State)
    → List Matcher
    → Outcome (List Matcher)
resumed f (ok none) ms = ok ms
resumed f (ok (some st)) ms = f st
resumed f (fail e) ms = fail e
resumed f panic ms = panic
resumed f unfinished ms = unfinished

module _ (lib : Library) (n : ℕ) where
  abbrev pub parse_value : List ℕ → Option MatchType → Lexer → Lexer × Outcome Matcher
  parse_value name none l = (l, panic)
  parse_value name (some ty) l =
      after (expect lib.unicode n (unquoted ∷ quoted ∷ []) l) (λ e. wrapped e no_label_value)
        (λ l' t.
          unquoted_or l' t (unquote_token lib t)
            (λ value. made l' (new_matcher lib.compile ty (lib.text name) (lib.text value))))

  abbrev pub parse_operator : List ℕ → Lexer → Lexer × Outcome Matcher
  parse_operator name l =
      after (expect lib.unicode n (equals ∷ not_equals ∷ matches ∷ not_matches ∷ []) l)
        (λ e. wrapped e no_operator) (λ l' t. parse_value name (match_type t.kind) l')

  abbrev pub parse_name : Lexer → Lexer × Outcome Matcher
  parse_name l =
      after (expect lib.unicode n (quoted ∷ unquoted ∷ []) l) (λ e. wrapped e no_label_name)
        (λ l' t. unquoted_or l' t (unquote_token lib t) (λ name. parse_operator name l'))

  unfoldable pub parse_matcher : Parser → Parser × Outcome (Option State)
  parse_matcher p = with_matcher p (parse_name p.lexer)

  abbrev pub opened : Parser → Lexer × Outcome Bool → Parser × Outcome (Option State)
  opened p (l, ok b) =
      let (l', o) = accept_peek lib.unicode n (close_brace ∷ []) l in
      (record p { has_open_brace = b; lexer = l' }, after_brace o)
  opened p (l, fail e) = (record p { has_open_brace = false; lexer = l }, unless_end at_eof e)
  opened p (l, panic) = (record p { lexer = l }, panic)
  opened p (l, unfinished) = (record p { lexer = l }, unfinished)

  unfoldable pub parse_open_brace : Parser → Parser × Outcome (Option State)
  parse_open_brace p = opened p (accept lib.unicode n (open_brace ∷ []) p.lexer)

  unfoldable pub parse_close_brace : Parser → Parser × Outcome (Option State)
  parse_close_brace p =
      let r = expect lib.unicode n (close_brace ∷ []) p.lexer in
      (record p { lexer = r.0 }, closed p.has_open_brace r)

  unfoldable pub parse_end_of_matcher : Parser → Parser × Outcome (Option State)
  parse_end_of_matcher p =
      let r = expect_peek lib.unicode n (comma ∷ close_brace ∷ []) p.lexer in
      (record p { lexer = r.0 }, ended_matcher r.1)

  abbrev pub comma_taken : Parser → Lexer × Outcome Token → Parser × Outcome (Option State)
  comma_taken p (l, ok t) =
      let r = expect_peek lib.unicode n (close_brace ∷ unquoted ∷ quoted ∷ []) l in
      (record p { lexer = r.0 }, after_comma r.1)
  comma_taken p (l, fail e) = (record p { lexer = l }, fail (wrapped e expected_comma))
  comma_taken p (l, panic) = (record p { lexer = l }, panic)
  comma_taken p (l, unfinished) = (record p { lexer = l }, unfinished)

  unfoldable pub parse_comma : Parser → Parser × Outcome (Option State)
  parse_comma p = comma_taken p (expect lib.unicode n (comma ∷ []) p.lexer)

  unfoldable pub parse_eof : Parser → Parser × Outcome (Option State)
  parse_eof p = eof_scanned p (scan lib.unicode n p.lexer)

  abbrev pub parse_state : State → Parser → Parser × Outcome (Option State)
  parse_state at_open_brace p = parse_open_brace p
  parse_state at_close_brace p = parse_close_brace p
  parse_state at_matcher p = parse_matcher p
  parse_state at_end_of_matcher p = parse_end_of_matcher p
  parse_state at_comma p = parse_comma p
  parse_state at_eof p = parse_eof p

  -- The loop of `parse`, with fuel for its states.
  unfoldable pub parse : ℕ → State → Parser → Outcome (List Matcher)
  parse zero st p = unfinished
  parse (suc m) st p =
      let (p', o) = parse_state st p in resumed (λ st'. parse m st' p') o p'.matchers

-- `recover`
abbrev pub recovered : Outcome (List Matcher) → Outcome (List Matcher)
recovered (ok ms) = ok ms
recovered (fail e) = fail e
recovered panic = fail parser_panic
recovered unfinished = unfinished

abbrev pub new_parser : List ℕ → Parser
new_parser input = record { matchers = []; has_open_brace = false; lexer = new_lexer input }

-- `Matchers`, with more fuel than the input can take.
unfoldable pub parse_matchers : Library → List ℕ → Outcome (List Matcher)
parse_matchers lib input =
    recovered (parse lib (length input + 1) (3 * length input + 5) at_open_brace (new_parser input))

abbrev pub only : Outcome (List Matcher) → Outcome Matcher
only (ok []) = fail no_matchers
only (ok (m ∷ [])) = ok m
only (ok (m ∷ m' ∷ ms)) = fail (expected_one (length (m ∷ m' ∷ ms)))
only (fail e) = fail e
only panic = panic
only unfinished = unfinished

-- `Matcher`
unfoldable pub parse_one : Library → List ℕ → Outcome Matcher
parse_one lib input = only (parse_matchers lib input)
