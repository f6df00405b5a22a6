-- ===== src/Parse/States/Total.antt =====
-- `parse` of matcher/parse/parse.go comes to an end, and no state panics.
use codestra_alertmanager.Prelude.{
  ℕ, zero, suc, ◌+◌, ◌-◌, ◌*◌, ◌<◌, Bool, true, false, Option, none, some, List, [], ◌∷◌, ◌≡◌, refl,
  ap, arith, if_elim, length, ◌⊎◌, inl, inr,
}
use Prim.{tt}
use codestra_alertmanager.Labels.{Matcher}
use codestra_alertmanager.Parse.Lexer.{
  IsDecoder, Lexer, LexError, Token, TokenKind, new_lexer, eof, open_brace, close_brace, comma,
  equals, not_equals, matches, not_matches, quoted, unquoted,
}
use codestra_alertmanager.Parse.Lexer.Bounds.{IsWithin, Scans, scans_token, scans_end, scans_error}
use codestra_alertmanager.Parse.Lexer.Scanning.{scan-Scans}
use codestra_alertmanager.Parse.Parser.{
  Library, ParseError, Outcome, ok, fail, panic, unfinished, State, Parser, is_kind, is_one_of,
  is_end, at_open_brace, at_close_brace, at_matcher, at_end_of_matcher, at_comma, at_eof,
}
use codestra_alertmanager.Parse.Parser.Taking.{
  Keeps, Keeps-trans, Settles, settles_ok, settles_fail, IsTaken, IsPeeked, IsAnswer, IsAny,
  expect-Settles, expect_peek-Settles, accept-Settles, accept_peek-Settles,
}
use codestra_alertmanager.Parse.States.{
  with_matcher, parse_matcher, unless_end, after_brace, opened, parse_open_brace, closed,
  parse_close_brace, ended_matcher, parse_end_of_matcher, after_comma, comma_taken, parse_comma,
  at_the_end, eof_scanned, parse_eof, parse_state, resumed, parse, recovered, new_parser,
  parse_matchers,
}
use codestra_alertmanager.Parse.States.Reading.{IsFurther, fuel_of, name-Settles}

-- What the input has left, with what the state may still do without it.
abbrev rank : State → ℕ
rank at_eof = 0
rank at_close_brace = 1
rank at_matcher = 2
rank at_comma = 2
rank at_end_of_matcher = 3
rank at_open_brace = 4

abbrev measure : State → Lexer → ℕ
measure st l = rank st + 3 * (length l.input - l.pos)

-- A state goes on to one with a smaller measure, stops, or returns an error.
data Goes (m : ℕ) (l : Lexer) : Parser × Outcome (Option State) → Type 0 where
  goes_on :
      (p : Parser) (st : State)
      → Keeps l p.lexer
      → measure st p.lexer < m
      → Goes m l (p, ok (some st))
  stops : (p : Parser) → Goes m l (p, ok none)
  errs : (p : Parser) (e : ParseError) → Goes m l (p, fail e)

-- A state of a lower rank, or one after a token.
lower :
    {m : ℕ} {l : Lexer} (p : Parser) (st : State)
    → Keeps l p.lexer
    → rank st + 3 * (length l.input - l.pos) < m
    → Goes m l (p, ok (some st))
lower p st v h =
    let f = v.forward in let i = ap length v.input in goes_on p st v (omega (arith, h, f, i))

further :
    {m : ℕ} {l : Lexer} (p : Parser) (st : State)
    → Keeps l p.lexer
    → l.pos < p.lexer.pos
    → rank st + 3 * (length l.input - l.pos) < m + 3
    → Goes m l (p, ok (some st))
further p st v n h =
    let b = v.within.here.bound in
    let i = ap length v.input in goes_on p st v (omega (arith, h, n, b, i))

module _ (lib : Library) (d : IsDecoder lib.unicode) (n : ℕ) where
  matcher-Goes :
      (p : Parser) {x : Lexer × Outcome Matcher}
      → Settles (IsFurther lib d n p.lexer) p.lexer x
      → Goes (measure at_matcher p.lexer) p.lexer (with_matcher p x)
  matcher-Goes p (settles_ok l' m v h) = further _ at_end_of_matcher v h (omega arith)
  matcher-Goes p (settles_fail l' e v) = errs _ e

  unless_end-Goes :
      (m : ℕ) (l : Lexer) (p : Parser) (st : State) (e : ParseError)
      → Keeps l p.lexer
      → rank st + 3 * (length l.input - l.pos) < m
      → Goes m l (p, unless_end st e)
  unless_end-Goes m l p st e v h =
      if_elim (λ (o : Outcome (Option State)). Goes m l (p, o)) (is_end e) (ok (some st)) (fail e)
        (λ q. lower p st v h) (λ q. errs p e)

  brace-Goes :
      (p : Parser) (l : Lexer) (b : Bool) {x : Lexer × Outcome Bool}
      → Keeps p.lexer l
      → Settles (IsAnswer lib.unicode d n) l x
      → Goes
          (measure at_open_brace p.lexer)
          p.lexer
          (record p { has_open_brace = b; lexer = x.0 }, after_brace x.1)
  brace-Goes p l b v (settles_ok l' has_close w h) =
      if_elim
        (λ (st : State).
          Goes (measure at_open_brace p.lexer) p.lexer
            (record p { has_open_brace = b; lexer = l' }, ok (some st)))
        has_close at_close_brace at_matcher
        (λ q. lower _ at_close_brace (Keeps-trans v w) (omega arith))
        (λ q. lower _ at_matcher (Keeps-trans v w) (omega arith))
  brace-Goes p l b v (settles_fail l' e w) =
      unless_end-Goes _ p.lexer (record p { has_open_brace = b; lexer = l' }) at_close_brace e
        (Keeps-trans v w) (omega arith)

  opened-Goes :
      (p : Parser) {x : Lexer × Outcome Bool}
      → length p.lexer.input < n
      → Settles (IsAny lib.unicode d n) p.lexer x
      → Goes (measure at_open_brace p.lexer) p.lexer (opened lib n p x)
  opened-Goes p fuel (settles_ok l' b v h) =
      brace-Goes p l' b v (
        accept_peek-Settles lib.unicode d n (close_brace ∷ []) l' v.within (fuel_of lib d n v fuel))
  opened-Goes p fuel (settles_fail l' e v) =
      unless_end-Goes _ p.lexer (record p { has_open_brace = false; lexer = l' }) at_eof e v
        (omega arith)

  closed-Goes :
      (p : Parser) (b : Bool) {x : Lexer × Outcome Token}
      → Settles (IsTaken lib.unicode d n p.lexer (close_brace ∷ [])) p.lexer x
      → Goes (measure at_close_brace p.lexer) p.lexer (record p { lexer = x.0 }, closed b x)
  closed-Goes p true (settles_ok l' t v h) = lower _ at_eof v (omega arith)
  closed-Goes p true (settles_fail l' e v) = errs _ _
  closed-Goes p false (settles_ok l' t v h) = errs _ _
  closed-Goes p false (settles_fail l' e v) = lower _ at_eof v (omega arith)

  ended_kind :
      (k : TokenKind)
      → is_one_of (comma ∷ close_brace ∷ []) k ≡ true
      → (is_kind k comma ≡ true) ⊎ (is_kind k close_brace ≡ true)
  ended_kind comma h = inl refl
  ended_kind close_brace h = inr refl
  ended_kind eof h = absurd (ground (arith, h))
  ended_kind open_brace h = absurd (ground (arith, h))
  ended_kind equals h = absurd (ground (arith, h))
  ended_kind not_equals h = absurd (ground (arith, h))
  ended_kind matches h = absurd (ground (arith, h))
  ended_kind not_matches h = absurd (ground (arith, h))
  ended_kind quoted h = absurd (ground (arith, h))
  ended_kind unquoted h = absurd (ground (arith, h))

  ended-Goes :
      (p : Parser) {x : Lexer × Outcome Token}
      → Settles (IsPeeked lib.unicode d n (comma ∷ close_brace ∷ [])) p.lexer x
      → Goes
          (measure at_end_of_matcher p.lexer)
          p.lexer
          (record p { lexer = x.0 }, ended_matcher x.1)
  ended-Goes p (settles_ok l' t v (k, again)) =
      let p' : Parser = record p { lexer = l' } in
      let Q =
        λ (o : Outcome (Option State)). Goes (measure at_end_of_matcher p.lexer) p.lexer (p', o) in
      if_elim Q (is_kind t.kind comma) (ok (some at_comma)) _
        (λ q. lower p' at_comma v (omega arith))
        (λ q.
          if_elim Q (is_kind t.kind close_brace) (ok (some at_close_brace)) panic
            (λ q'. lower p' at_close_brace v (omega arith))
            (λ q'. absurd (ground (arith, q, q', ended_kind t.kind k))))
  ended-Goes p (settles_fail l' e v) =
      let p' : Parser = record p { lexer = l' } in
      if_elim
        (λ (o : Outcome (Option State)). Goes (measure at_end_of_matcher p.lexer) p.lexer (p', o))
        (is_end e) (ok (some at_close_brace)) (fail _)
        (λ q. lower p' at_close_brace v (omega arith)) (λ q. errs p' _)

  after_comma-Goes :
      (p : Parser) (l : Lexer) {x : Lexer × Outcome Token}
      → Keeps p.lexer l
      → p.lexer.pos < l.pos
      → Settles (IsPeeked lib.unicode d n (close_brace ∷ unquoted ∷ quoted ∷ [])) l x
      → Goes (measure at_comma p.lexer) p.lexer (record p { lexer = x.0 }, after_comma x.1)
  after_comma-Goes p l v h (settles_ok l' t w k) =
      let f = w.forward in
      let p' : Parser = record p { lexer = l' } in
      if_elim (λ (st : State). Goes (measure at_comma p.lexer) p.lexer (p', ok (some st)))
        (is_kind t.kind close_brace) at_close_brace at_matcher
        (λ q. further p' at_close_brace (Keeps-trans v w) (omega (arith, h, f)) (omega arith))
        (λ q. further p' at_matcher (Keeps-trans v w) (omega (arith, h, f)) (omega arith))
  after_comma-Goes p l v h (settles_fail l' e w) =
      let p' : Parser = record p { lexer = l' } in
      if_elim (λ (o : Outcome (Option State)). Goes (measure at_comma p.lexer) p.lexer (p', o))
        (is_end e) (ok (some at_close_brace)) (fail _)
        (λ q. lower p' at_close_brace (Keeps-trans v w) (omega arith)) (λ q. errs p' _)

  comma-Goes :
      (p : Parser) {x : Lexer × Outcome Token}
      → length p.lexer.input < n
      → Settles (IsTaken lib.unicode d n p.lexer (comma ∷ [])) p.lexer x
      → Goes (measure at_comma p.lexer) p.lexer (comma_taken lib n p x)
  comma-Goes p fuel (settles_ok l' t v h) = after_comma-Goes p l' v h.1 (
      expect_peek-Settles lib.unicode d n (close_brace ∷ unquoted ∷ quoted ∷ []) l' v.within
        (fuel_of lib d n v fuel))
  comma-Goes p fuel (settles_fail l' e v) = errs _ _

  at_the_end-Goes :
      (m : ℕ) (l : Lexer) (p : Parser) (e : Option LexError) (t : Token)
      → Goes m l (p, at_the_end e t)
  at_the_end-Goes m l p (some e) t = errs p _
  at_the_end-Goes m l p none t =
      if_elim (λ (o : Outcome (Option State)). Goes m l (p, o)) (is_kind t.kind eof) (ok none)
        (fail _) (λ q. stops p) (λ q. errs p _)

  eof-Goes :
      (m : ℕ) (p : Parser) {o : Option (Lexer × Token)}
      → Scans p.lexer o
      → Goes m p.lexer (eof_scanned p o)
  eof-Goes m p (scans_token l' t w i q k) = at_the_end-Goes m p.lexer _ l'.err t
  eof-Goes m p (scans_end l' w i q e) = at_the_end-Goes m p.lexer _ l'.err _
  eof-Goes m p (scans_error l' e w i q) = at_the_end-Goes m p.lexer _ l'.err _

  state-Goes :
      (st : State) (p : Parser)
      → IsWithin p.lexer
      → length p.lexer.input < n
      → Goes (measure st p.lexer) p.lexer (parse_state lib n st p)
  unfolding parse_open_brace parse_close_brace parse_matcher parse_end_of_matcher parse_comma
      parse_eof
  state-Goes at_open_brace p w fuel =
      opened-Goes p fuel (accept-Settles lib.unicode d n (open_brace ∷ []) p.lexer w fuel)
  state-Goes at_close_brace p w fuel =
      closed-Goes p p.has_open_brace
        (expect-Settles lib.unicode d n (close_brace ∷ []) p.lexer w fuel)
  state-Goes at_matcher p w fuel = matcher-Goes p (name-Settles lib d n p.lexer w fuel)
  state-Goes at_end_of_matcher p w fuel =
      ended-Goes p (expect_peek-Settles lib.unicode d n (comma ∷ close_brace ∷ []) p.lexer w fuel)
  state-Goes at_comma p w fuel =
      comma-Goes p fuel (expect-Settles lib.unicode d n (comma ∷ []) p.lexer w fuel)
  state-Goes at_eof p w fuel =
      eof-Goes (measure at_eof p.lexer) p (scan-Scans lib.unicode d n p.lexer w fuel)

-- The loop has a result.
abbrev pub is_result : Outcome (List Matcher) → Bool
is_result (ok ms) = true
is_result (fail e) = true
is_result panic = false
is_result unfinished = false

module _ (lib : Library) (d : IsDecoder lib.unicode) (n : ℕ) where
  resumed-is_result :
      {m : ℕ} {l : Lexer} (f : Parser → State → Outcome (List Matcher))
      {x : Parser × Outcome (Option State)}
      → Goes m l x
      → ((p : Parser) (st : State)
          → Keeps l p.lexer
          → measure st p.lexer < m
          → is_result (f p st) ≡ true)
      → is_result (resumed (f x.0) x.1 x.0.matchers) ≡ true
  resumed-is_result f (goes_on p st v h) g = g p st v h
  resumed-is_result f (stops p) g = refl
  resumed-is_result f (errs p e) g = refl

  parse-is_result :
      (m : ℕ) (st : State) (p : Parser)
      → IsWithin p.lexer
      → length p.lexer.input < n
      → measure st p.lexer < m
      → is_result (parse lib n m st p) ≡ true
  unfolding parse
  parse-is_result zero st p w fuel h = absurd (omega (arith, h))
  parse-is_result (suc m) st p w fuel h =
      resumed-is_result (λ p' st'. parse lib n m st' p') (state-Goes lib d n st p w fuel)
        (λ p' st' v less.
          parse-is_result m st' p' v.within (fuel_of lib d n v fuel) (omega (arith, less, h)))

recovered-same :
    (o : Outcome (List Matcher))
    → is_result o ≡ true
    → is_result (recovered o) ≡ true × (recovered o ≡ o)
recovered-same (ok ms) h = (refl, refl)
recovered-same (fail e) h = (refl, refl)
recovered-same panic h = absurd (ground (arith, h))
recovered-same unfinished h = absurd (ground (arith, h))

pub new_lexer-IsWithin : (input : List ℕ) → IsWithin (new_lexer input)
new_lexer-IsWithin input = record {
  here = record { offsets = omega arith; bound = omega arith; columns = omega arith };
  error = tt;
}

-- For every input, whatever the functions of the libraries answer, as long as the decoder takes at
-- least one byte and no more than there are, `Matchers` returns matchers or an error: the fuel is
-- enough, no state panics, and the result is that of `parse`, without a recovery from a panic.
pub parse_matchers-is_result :
    (lib : Library) (input : List ℕ)
    → IsDecoder lib.unicode
    → (is_result (parse_matchers lib input) ≡ true)
      × (parse_matchers lib input
          ≡ parse lib (length input + 1) (3 * length input + 5) at_open_brace (new_parser input))
unfolding parse_matchers
parse_matchers-is_result lib input d = recovered-same _ (
    parse-is_result lib d (length input + 1) (3 * length input + 5) at_open_brace (new_parser input)
      (new_lexer-IsWithin input) (omega arith) (omega arith))
