-- ===== src/Parse/Parser/Taking.antt =====
-- `accept`, `acceptPeek`, `expect` and `expectPeek` of matcher/parse/parse.go: a token that was peeked at
-- is there to be scanned.
use codestra_alertmanager.Prelude.{
  ℕ, ◌≤◌, ◌<◌, Bool, true, false, Option, none, some, List, ◌≡◌, refl, sym, ap, ◌∙◌, subst, arith,
  if_elim, length, Option-cases, inl, inr,
}
use Prim.{tt}
use codestra_alertmanager.Parse.Lexer.{
  Unicode, IsDecoder, Lexer, LexError, Token, TokenKind, no_token, scan, peek, restored, eof,
  open_brace, close_brace, comma, equals, not_equals, matches, not_matches, quoted, unquoted,
}
use codestra_alertmanager.Parse.Lexer.Bounds.{
  ErrIsIn, IsWithin, is_eof, Scans, scans_token, scans_end, scans_error,
}
use codestra_alertmanager.Parse.Lexer.Scanning.{scan-Scans}
use codestra_alertmanager.Parse.Parser.{
  Outcome, ok, fail, panic, ParseError, lexed, end_of_input, unexpected, is_kind, is_one_of,
  expected_peek, peeked, expect_peek, rescanned, expected, expect, accepted_peek, accept_peeked,
  accept_peek, accepted, accept,
}

pub is_kind-eof : (k : TokenKind) → is_kind k eof ≡ is_eof k
is_kind-eof eof = refl
is_kind-eof open_brace = refl
is_kind-eof close_brace = refl
is_kind-eof comma = refl
is_kind-eof equals = refl
is_kind-eof not_equals = refl
is_kind-eof matches = refl
is_kind-eof not_matches = refl
is_kind-eof quoted = refl
is_kind-eof unquoted = refl

-- A lexer further on in the same input.
pub record Keeps (l l' : Lexer) : Type 0 where
  pub within : IsWithin l'
  pub input : l'.input ≡ l.input
  pub forward : l.pos ≤ l'.pos

pub Keeps-trans : {a b c : Lexer} → Keeps a b → Keeps b c → Keeps a c
Keeps-trans v w =
    let p = v.forward in
    let q = w.forward in
    record { within = w.within; input = w.input ∙ v.input; forward = omega (arith, p, q) }

-- A result with what holds of it, or an error.
pub data Settles {A : Type 0} (Q : Lexer → A → Type 0) (l : Lexer)
    : Lexer × Outcome A → Type 0 where
  settles_ok : (l' : Lexer) (a : A) → Keeps l l' → Q l' a → Settles Q l (l', ok a)
  settles_fail : (l' : Lexer) (e : ParseError) → Keeps l l' → Settles Q l (l', fail e)

module _ (u : Unicode) (d : IsDecoder u) (n : ℕ) where
  -- The lexer scans a token without an error.
  pub record Again (l : Lexer) (t : Token) : Type 0 where
    pub later : Lexer
    pub scans : scan u n l ≡ some (later, t)
    pub clean : later.err ≡ none
    pub keeps : Keeps l later
    pub progress : l.pos < later.pos

  scan_failed : (l : Lexer) (e : LexError) → l.err ≡ some e → scan u n l ≡ some (l, no_token)
  unfolding scan
  scan_failed l e h = rw h refl

  abbrev err_of : Option (Lexer × Token) → Option LexError
  err_of none = none
  err_of (some (l, t)) = l.err

  clean_before :
      (l l' : Lexer) (t : Token) → scan u n l ≡ some (l', t) → l'.err ≡ none → l.err ≡ none
  clean_before l l' t q h = elim (Option-cases l.err) [
    | inl clean ↦ clean
    | inr (e, bad) ↦
        absurd (ground (arith, sym bad ∙ ap err_of (sym (scan_failed l e bad)) ∙ ap err_of q ∙ h))
  ]

  with_err : (l : Lexer) (e : Option LexError) → l.err ≡ e → record l { err = e } ≡ l
  with_err l e h = ap (λ (o : Option LexError). record l { err = o }) (sym h)

  kept_err :
      (l : Lexer) (e : Option LexError)
      → IsWithin l
      → ErrIsIn l.input e
      → Keeps l (record l { err = e })
  kept_err l e w h = record {
    within = record { here = w.here; error = h };
    input = refl;
    forward = omega arith;
  }

  -- What a peek of a lexer comes to, by what it scans.
  data Peeks (l : Lexer) : Option (Lexer × Token) → Type 0 where
    peeks_token :
        (t : Token) → is_eof t.kind ≡ false → l.err ≡ none → Again l t → Peeks l (some (l, t))
    peeks_end : (l' : Lexer) → l'.err ≡ none → Keeps l l' → Peeks l (some (l', no_token))
    peeks_error :
        (l' : Lexer) (e : LexError) → l'.err ≡ some e → Keeps l l' → Peeks l (some (l', no_token))

  restored-Peeks :
      (l : Lexer) {o : Option (Lexer × Token)}
      → IsWithin l
      → scan u n l ≡ o
      → Scans l o
      → Peeks l (restored l o)
  restored-Peeks l within q (scans_token l' t w i h k) =
      let clean = clean_before l l' t q h in
      let more = k.progress in
      let same : record l { err = l'.err } ≡ l = with_err l l'.err (clean ∙ sym h) in
      subst (λ (x : Lexer). Peeks l (some (x, t))) (sym same)
        (peeks_token t k.kind clean (record {
          later = l';
          scans = q;
          clean = h;
          keeps = record { within = w; input = i; forward = omega (arith, more) };
          progress = more;
        }))
  restored-Peeks l within q (scans_end l' w i h e) =
      peeks_end (record l { err = l'.err }) h
        (kept_err l l'.err within (subst (ErrIsIn l.input) (sym h) tt))
  restored-Peeks l within q (scans_error l' e w i h) =
      peeks_error (record l { err = l'.err }) e h
        (kept_err l l'.err within (subst (λ s. ErrIsIn s l'.err) i w.error))

  peek-Peeks : (l : Lexer) → IsWithin l → length l.input < n → Peeks l (peek u n l)
  unfolding peek
  peek-Peeks l w fuel = restored-Peeks l w refl (scan-Scans u d n l w fuel)

  Keeps-refl : (l : Lexer) → IsWithin l → Keeps l l
  Keeps-refl l w = record { within = w; input = refl; forward = omega arith }

  -- The token is of one of the kinds, and will be scanned.
  abbrev pub IsPeeked : List TokenKind → Lexer → Token → Type 0
  IsPeeked kinds l t = (is_one_of kinds t.kind ≡ true) × Again l t

  peeked-Settles :
      (kinds : List TokenKind) (l : Lexer) {o : Option (Lexer × Token)}
      → IsWithin l
      → Peeks l o
      → Settles (IsPeeked kinds) l (peeked kinds l o)
  peeked-Settles kinds l w (peeks_token t h clean again) =
      let here = Keeps-refl l w in
      let Q = λ (o : Outcome Token). Settles (IsPeeked kinds) l (l, o) in
      subst (λ e. Q (expected_peek kinds e t)) (sym clean)
        (if_elim Q (is_kind t.kind eof) (fail end_of_input) _
          (λ p. settles_fail l end_of_input here)
          (λ p.
            if_elim Q (is_one_of kinds t.kind) (ok t) (fail (unexpected t))
              (λ q. settles_ok l t here (q, again)) (λ q. settles_fail l (unexpected t) here)))
  peeked-Settles kinds l w (peeks_end l' h keeps) =
      subst (λ e. Settles (IsPeeked kinds) l (l', expected_peek kinds e no_token)) (sym h)
        (settles_fail l' end_of_input keeps)
  peeked-Settles kinds l w (peeks_error l' e h keeps) =
      subst (λ e. Settles (IsPeeked kinds) l (l', expected_peek kinds e no_token)) (sym h)
        (settles_fail l' (lexed e) keeps)

  pub expect_peek-Settles :
      (kinds : List TokenKind) (l : Lexer)
      → IsWithin l
      → length l.input < n
      → Settles (IsPeeked kinds) l (expect_peek u n kinds l)
  unfolding expect_peek
  expect_peek-Settles kinds l w fuel = peeked-Settles kinds l w (peek-Peeks l w fuel)

  -- The token is of one of the kinds, and the lexer has gone on.
  abbrev pub IsTaken : Lexer → List TokenKind → Lexer → Token → Type 0
  IsTaken l kinds l' t = (is_one_of kinds t.kind ≡ true) × l.pos < l'.pos

  rescanned-Settles :
      {A : Type 0} (Q : Lexer → A → Type 0) (a : A) (l l' : Lexer) (t : Token)
      {o : Option (Lexer × Token)}
      → scan u n l' ≡ o
      → Keeps l l'
      → Again l' t
      → ((l'' : Lexer) → l.pos < l''.pos → Q l'' a)
      → Settles Q l (rescanned a l' o)
  rescanned-Settles Q a l l' t q v again f =
      let w = again.keeps in
      let more = again.progress in
      let before = v.forward in
      subst (λ o. Settles Q l (rescanned a l' o)) (sym again.scans ∙ q)
        (subst (λ e. Settles Q l (again.later, elim e [ none ↦ ok a | some x ↦ panic ]))
          (sym again.clean)
          (settles_ok again.later a (Keeps-trans v w)
            (f again.later (omega (arith, more, before)))))

  expected-Settles :
      (kinds : List TokenKind) (l : Lexer) {x : Lexer × Outcome Token}
      → Settles (IsPeeked kinds) l x
      → Settles (IsTaken l kinds) l (expected u n x)
  expected-Settles kinds l (settles_ok l' t v (k, again)) =
      rescanned-Settles (IsTaken l kinds) t l l' t refl v again (λ l'' more. (k, more))
  expected-Settles kinds l (settles_fail l' e v) = settles_fail l' e v

  pub expect-Settles :
      (kinds : List TokenKind) (l : Lexer)
      → IsWithin l
      → length l.input < n
      → Settles (IsTaken l kinds) l (expect u n kinds l)
  unfolding expect
  expect-Settles kinds l w fuel = expected-Settles kinds l (expect_peek-Settles kinds l w fuel)

  -- Nothing is asked of an answer but that a token can be scanned.
  abbrev pub IsAnswer : Lexer → Bool → Type 0
  IsAnswer l b = (t : Token) × Again l t

  abbrev pub IsAny : Lexer → Bool → Type 0
  IsAny l b = Unit

  accept_peeked-Settles :
      (kinds : List TokenKind) (l : Lexer) {o : Option (Lexer × Token)}
      → IsWithin l
      → Peeks l o
      → Settles IsAnswer l (accept_peeked kinds l o)
  accept_peeked-Settles kinds l w (peeks_token t h clean again) =
      let here = Keeps-refl l w in
      let Q = λ (o : Outcome Bool). Settles IsAnswer l (l, o) in
      subst (λ e. Q (accepted_peek kinds e t)) (sym clean)
        (if_elim Q (is_kind t.kind eof) (fail end_of_input) _
          (λ p. settles_fail l end_of_input here)
          (λ p. settles_ok l (is_one_of kinds t.kind) here (t, again)))
  accept_peeked-Settles kinds l w (peeks_end l' h keeps) =
      subst (λ e. Settles IsAnswer l (l', accepted_peek kinds e no_token)) (sym h)
        (settles_fail l' end_of_input keeps)
  accept_peeked-Settles kinds l w (peeks_error l' e h keeps) =
      subst (λ e. Settles IsAnswer l (l', accepted_peek kinds e no_token)) (sym h)
        (settles_fail l' (lexed e) keeps)

  pub accept_peek-Settles :
      (kinds : List TokenKind) (l : Lexer)
      → IsWithin l
      → length l.input < n
      → Settles IsAnswer l (accept_peek u n kinds l)
  unfolding accept_peek
  accept_peek-Settles kinds l w fuel = accept_peeked-Settles kinds l w (peek-Peeks l w fuel)

  accepted-Settles :
      (l : Lexer) {x : Lexer × Outcome Bool}
      → Settles IsAnswer l x
      → Settles IsAny l (accepted u n x)
  accepted-Settles l (settles_ok l' true v (t, again)) =
      rescanned-Settles IsAny true l l' t refl v again (λ l'' more. tt)
  accepted-Settles l (settles_ok l' false v h) = settles_ok l' false v tt
  accepted-Settles l (settles_fail l' e v) = settles_fail l' e v

  pub accept-Settles :
      (kinds : List TokenKind) (l : Lexer)
      → IsWithin l
      → length l.input < n
      → Settles IsAny l (accept u n kinds l)
  unfolding accept
  accept-Settles kinds l w fuel = accepted-Settles l (accept_peek-Settles kinds l w fuel)
