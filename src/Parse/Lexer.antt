-- ===== src/Parse/Lexer.antt =====
-- `lexer` of matcher/parse/lexer.go, with the tokens of matcher/parse/token.go.
--
-- A string is the list of its bytes, and a rune is a number; the rune `eof` is `none`. The decoder of
-- unicode/utf8 and `unicode.IsSpace` are parameters. An error has its position and not the input, which
-- is that of the lexer. The loops run on fuel, and answer `none` without it.
pub mod Moves
pub mod Bounds
pub mod Scanning
use codestra_alertmanager.Prelude.{
  ℕ, zero, suc, ◌+◌, ◌-◌, ◌≤◌, ◌<◌, Bool, true, false, not, Option, none, some, List, [], ◌∷◌, ◌&&◌,
  ◌||◌, if◌then◌else◌, ltb, leb, nat_beq, length, drop, take, contains, nat_eq,
}

pub record Unicode : Type 0 where
  -- `utf8.DecodeRuneInString`: the rune and its width.
  pub decode : List ℕ → ℕ × ℕ
  pub is_space : ℕ → Bool

-- A string that is not empty starts with a rune, which is not wider than the string.
abbrev pub IsDecoder : Unicode → Type 0
IsDecoder u = (s : List ℕ) → 0 < length s → (0 < (u.decode s).1) × ((u.decode s).1 ≤ length s)

pub data TokenKind : Type 0 where
  eof open_brace close_brace comma equals not_equals matches not_matches quoted unquoted : TokenKind

pub record Position : Type 0 where
  pub offset_start : ℕ
  pub offset_end : ℕ
  pub column_start : ℕ
  pub column_end : ℕ

pub record Token : Type 0 where
  pub kind : TokenKind
  pub value : List ℕ
  pub position : Position

abbrev pub no_position : Position
no_position = record { offset_start = 0; offset_end = 0; column_start = 0; column_end = 0 }

-- `token{}`
abbrev pub no_token : Token
no_token = record { kind = eof; value = []; position = no_position }

pub data LexError : Type 0 where
  expected_error : List ℕ → Position → LexError
  invalid_input unterminated : Position → LexError

pub record Lexer : Type 0 where
  pub input : List ℕ
  pub err : Option LexError
  pub start : ℕ
  pub pos : ℕ
  pub width : ℕ
  pub column : ℕ
  pub cols : ℕ

-- `lexer{input: input}`
abbrev pub new_lexer : List ℕ → Lexer
new_lexer input = record {
  input = input;
  err = none;
  start = 0;
  pos = 0;
  width = 0;
  column = 0;
  cols = 0;
}

abbrev pub slice : List ℕ → ℕ → ℕ → List ℕ
slice s i j = take (j - i) (drop i s)

abbrev pub position : Lexer → Position
position l = record {
  offset_start = l.start;
  offset_end = l.pos;
  column_start = l.column;
  column_end = l.cols;
}

unfoldable pub emit : TokenKind → Lexer → Lexer × Token
emit k l = (
  record l { start = l.pos; column = l.cols },
  record { kind = k; value = slice l.input l.start l.pos; position = position l },
)

unfoldable pub skip : Lexer → Lexer
skip l = record l { start = l.pos; column = l.cols }

unfoldable pub rewind : Lexer → Lexer
rewind l = record l { pos = l.pos - l.width; cols = if ltb 0 l.width then l.cols - 1 else l.cols }

-- `strings.ContainsRune`, which finds no `eof`.
abbrev pub contains_rune : List ℕ → Option ℕ → Bool
contains_rune valid none = false
contains_rune valid (some r) = contains valid r

abbrev pub accepted : List ℕ → Lexer × Option ℕ → Lexer × Bool
accepted valid (l, r) = if contains_rune valid r then (l, true) else (rewind l, false)

abbrev pub expected : List ℕ → Lexer × Bool → Lexer × Option LexError
expected valid (l, true) = (l, none)
expected valid (l, false) = (l, some (expected_error valid (position l)))

-- What a scanner returns: a token, or an error for the lexer to keep.
abbrev pub emitted : Lexer × Token → Lexer × Token × Option LexError
emitted (l, t) = (l, t, none)

abbrev pub refused : LexError → Lexer → Lexer × Token × Option LexError
refused e l = (l, no_token, some e)

abbrev pub quoted_step : Bool → Option Lexer → Lexer × Option ℕ → Option Lexer
quoted_step is_escaped rest (l, none) = some l
quoted_step is_escaped rest (l, some r) =
    if not is_escaped && nat_beq r b'"' then some (rewind l) else rest

abbrev pub escapes : Bool → Option ℕ → Bool
escapes is_escaped none = false
escapes is_escaped (some r) = not is_escaped && nat_beq r b'\\'

abbrev pub unquoted_end : Option Lexer → Option (Lexer × Token × Option LexError)
unquoted_end none = none
unquoted_end (some l) = some (emitted (emit unquoted l))

-- The lexer keeps the error of a scanner.
abbrev pub scanned : Option (Lexer × Token × Option LexError) → Option (Lexer × Token)
scanned none = none
scanned (some (l, t, e)) = some (record l { err = e }, t)

abbrev pub restored : Lexer → Option (Lexer × Token) → Option (Lexer × Token)
restored l none = none
restored l (some (l', t)) = some (record l { err = l'.err }, t)

abbrev pub quoted_end : Lexer × Option LexError → Lexer × Token × Option LexError
quoted_end (l, none) = emitted (emit quoted l)
quoted_end (l, some e) = refused (unterminated (position l)) l

module _ (u : Unicode) where
  abbrev pub is_reserved : ℕ → Bool
  is_reserved r =
      u.is_space r
      || contains (b'{' ∷ b'}' ∷ b'!' ∷ b'=' ∷ b'~' ∷ b',' ∷ b'\\' ∷ b'"' ∷ b'\'' ∷ b'`' ∷ []) r

  unfoldable pub next : Lexer → Lexer × Option ℕ
  next l =
      if leb (length l.input) l.pos
      then (record l { width = 0 }, none)
      else (let (r, width) = u.decode (drop l.pos l.input) in
          (record l { width = width; pos = l.pos + width; cols = l.cols + 1 }, some r))

  unfoldable pub accept : List ℕ → Lexer → Lexer × Bool
  accept valid l = accepted valid (next l)

  unfoldable pub expect : List ℕ → Lexer → Lexer × Option LexError
  expect valid l = expected valid (accept valid l)

  -- After the first rune, the kind without the second and the kinds with it.
  abbrev pub after_bang : Lexer → Lexer × Token × Option LexError
  after_bang l =
      let (l', is_equals) = accept (b'=' ∷ []) l in
      let (l'', is_tilde) = accept (b'~' ∷ []) l' in
      if is_equals
      then emitted (emit not_equals l')
      else if is_tilde
      then emitted (emit not_matches l'')
      else refused (expected_error (b'=' ∷ b'~' ∷ []) (position l'')) l''

  abbrev pub after_equals : Lexer → Lexer × Token × Option LexError
  after_equals l =
      let (l', is_tilde) = accept (b'~' ∷ []) l in
      if is_tilde then emitted (emit matches l') else emitted (emit equals l')

  unfoldable pub scan_operator : Lexer → Lexer × Token × Option LexError
  scan_operator l =
      let (l', is_bang) = accept (b'!' ∷ []) l in
      let (l'', is_equals) = accept (b'=' ∷ []) l' in
      if is_bang
      then after_bang l'
      else if is_equals
      then after_equals l''
      else refused (expected_error (b'!' ∷ b'=' ∷ []) (position l'')) l''

  -- The loop of `scanQuoted`.
  unfoldable pub skip_quoted : ℕ → Bool → Lexer → Option Lexer
  skip_quoted zero is_escaped l = none
  skip_quoted (suc n) is_escaped l =
      quoted_step is_escaped (skip_quoted n (escapes is_escaped (next l).1) (next l).0) (next l)

  abbrev pub quoted_start :
      Option Lexer → Lexer × Option LexError → Option (Lexer × Token × Option LexError)
  quoted_start rest (l, some e) = some (refused e l)
  quoted_start none (l, none) = none
  quoted_start (some l') (l, none) = some (quoted_end (expect (b'"' ∷ []) l'))

  unfoldable pub scan_quoted : ℕ → Lexer → Option (Lexer × Token × Option LexError)
  scan_quoted n l =
      let opened = expect (b'"' ∷ []) l in quoted_start (skip_quoted n false opened.0) opened

  abbrev pub unquoted_step : Option Lexer → Lexer × Option ℕ → Option Lexer
  unquoted_step rest (l, none) = some l
  unquoted_step rest (l, some r) = if is_reserved r then some (rewind l) else rest

  -- The loop of `scanUnquoted`.
  unfoldable pub skip_unquoted : ℕ → Lexer → Option Lexer
  skip_unquoted zero l = none
  skip_unquoted (suc n) l = unquoted_step (skip_unquoted n (next l).0) (next l)

  unfoldable pub scan_unquoted : ℕ → Lexer → Option (Lexer × Token × Option LexError)
  scan_unquoted n l = unquoted_end (skip_unquoted n l)

  -- The switch on the rune, from its case of a quote on; `l` is the lexer after the rune.
  abbrev pub scan_word : ℕ → Option (Lexer × Token) → Lexer → ℕ → Option (Lexer × Token)
  scan_word n rest l r =
      if nat_beq r b'"'
      then scanned (scan_quoted n (rewind l))
      else if not (is_reserved r)
      then scanned (scan_unquoted n (rewind l))
      else if u.is_space r
      then rest
      else some (record l { err = some (invalid_input (position l)) }, no_token)

  abbrev pub scan_rune : ℕ → Option (Lexer × Token) → Lexer → ℕ → Option (Lexer × Token)
  scan_rune n rest l r =
      if nat_beq r b'{'
      then some (emit open_brace l)
      else if nat_beq r b'}'
      then some (emit close_brace l)
      else if nat_beq r b','
      then some (emit comma l)
      else if nat_beq r b'=' || nat_beq r b'!'
      then scanned (some (scan_operator (rewind l)))
      else scan_word n rest l r

  abbrev pub scan_step : ℕ → Option (Lexer × Token) → Lexer × Option ℕ → Option (Lexer × Token)
  scan_step n rest (l, none) = some (l, no_token)
  scan_step n rest (l, some r) = scan_rune n rest l r

  -- The loop of `scan`, with fuel for it and for the loops of the scanners.
  unfoldable pub scan_loop : ℕ → ℕ → Lexer → Option (Lexer × Token)
  scan_loop n zero l = none
  scan_loop n (suc m) l = scan_step n (scan_loop n m (skip (next l).0)) (next l)

  abbrev pub scan_unless : Option LexError → ℕ → Lexer → Option (Lexer × Token)
  scan_unless (some e) n l = some (l, no_token)
  scan_unless none n l = scan_loop n n l

  -- `scan`; its error is the one that the lexer then has.
  unfoldable pub scan : ℕ → Lexer → Option (Lexer × Token)
  scan n l = scan_unless l.err n l

  unfoldable pub peek : ℕ → Lexer → Option (Lexer × Token)
  peek n l = restored l (scan n l)
