-- ===== src/Parse/States/Reading.antt =====
-- `parseMatcher` of matcher/parse/parse.go: it reads a matcher or returns an error.
use codestra_alertmanager.Prelude.{
  ℕ, ◌<◌, true, Option, none, some, List, [], ◌∷◌, ◌≡◌, refl, sym, ap, subst, arith, length,
}
use codestra_alertmanager.Labels.{
  Matcher, MatchType, new_matcher, equal, not_equal, regexp, not_regexp,
}
use codestra_alertmanager.Parse.Lexer.{
  IsDecoder, Lexer, Token, TokenKind, eof, open_brace, close_brace, comma, equals, not_equals,
  matches, not_matches, quoted, unquoted,
}
use codestra_alertmanager.Parse.Lexer.Bounds.{IsWithin}
use codestra_alertmanager.Parse.Parser.{Library, ParseError, Outcome, is_one_of, unquote_token}
use codestra_alertmanager.Parse.Parser.Taking.{
  Keeps, Keeps-trans, Settles, settles_ok, settles_fail, expect-Settles,
}
use codestra_alertmanager.Parse.States.{
  after, match_type, unquoted_or, made, parse_value, parse_operator, parse_name,
}

after-Settles :
    {A B : Type 0} {Q : Lexer → A → Type 0} (R : Lexer → B → Type 0) (l : Lexer)
    {x : Lexer × Outcome A} (wrap : ParseError → ParseError) (f : Lexer → A → Lexer × Outcome B)
    → Settles Q l x
    → ((l' : Lexer) (a : A) → Keeps l l' → Q l' a → Settles R l (f l' a))
    → Settles R l (after x wrap f)
after-Settles R l wrap f (settles_ok l' a v q) g = g l' a v q
after-Settles R l wrap f (settles_fail l' e v) g = settles_fail l' (wrap e) v

operator_type :
    (k : TokenKind)
    → is_one_of (equals ∷ not_equals ∷ matches ∷ not_matches ∷ []) k ≡ true
    → (ty : MatchType) × (match_type k ≡ some ty)
operator_type equals h = (equal, refl)
operator_type not_equals h = (not_equal, refl)
operator_type matches h = (regexp, refl)
operator_type not_matches h = (not_regexp, refl)
operator_type eof h = absurd (ground (arith, h))
operator_type open_brace h = absurd (ground (arith, h))
operator_type close_brace h = absurd (ground (arith, h))
operator_type comma h = absurd (ground (arith, h))
operator_type quoted h = absurd (ground (arith, h))
operator_type unquoted h = absurd (ground (arith, h))

module _ (lib : Library) (d : IsDecoder lib.unicode) (n : ℕ) where
  -- The lexer has gone on.
  abbrev pub IsFurther : {A : Type 0} → Lexer → Lexer → A → Type 0
  IsFurther l l' a = l.pos < l'.pos

  pub fuel_of : {l l' : Lexer} → Keeps l l' → length l.input < n → length l'.input < n
  fuel_of v h = let i = ap length v.input in omega (arith, h, i)

  made-Settles :
      (l l' : Lexer) (o : Option Matcher)
      → Keeps l l'
      → l.pos < l'.pos
      → Settles (IsFurther l) l (made l' o)
  made-Settles l l' none v h = settles_fail l' _ v
  made-Settles l l' (some m) v h = settles_ok l' m v h

  unquoted-Settles :
      (l l' : Lexer) (t : Token) (o : Option (List ℕ)) (f : List ℕ → Lexer × Outcome Matcher)
      → Keeps l l'
      → ((s : List ℕ) → Settles (IsFurther l) l (f s))
      → Settles (IsFurther l) l (unquoted_or l' t o f)
  unquoted-Settles l l' t none f v g = settles_fail l' _ v
  unquoted-Settles l l' t (some s) f v g = g s

  -- The lexer has started at another place.
  Settles-from :
      {l l' : Lexer} {x : Lexer × Outcome Matcher}
      → Keeps l l'
      → Settles (IsFurther l') l' x
      → Settles (IsFurther l) l x
  Settles-from v (settles_ok l'' m w h) =
      let f = v.forward in settles_ok l'' m (Keeps-trans v w) (omega (arith, f, h))
  Settles-from v (settles_fail l'' e w) = settles_fail l'' e (Keeps-trans v w)

  value-Settles :
      (name : List ℕ) (ty : MatchType) (l : Lexer)
      → IsWithin l
      → length l.input < n
      → Settles (IsFurther l) l (parse_value lib n name (some ty) l)
  value-Settles name ty l w fuel =
      after-Settles (IsFurther l) l _ _
        (expect-Settles lib.unicode d n (unquoted ∷ quoted ∷ []) l w fuel)
        (λ l' t v q. unquoted-Settles l l' t (unquote_token lib t) _ v (λ value.
          made-Settles l l' (new_matcher lib.compile ty (lib.text name) (lib.text value)) v q.1))

  operator-Settles :
      (name : List ℕ) (l : Lexer)
      → IsWithin l
      → length l.input < n
      → Settles (IsFurther l) l (parse_operator lib n name l)
  operator-Settles name l w fuel =
      after-Settles (IsFurther l) l _ _
        (expect-Settles lib.unicode d n (equals ∷ not_equals ∷ matches ∷ not_matches ∷ []) l w fuel)
        (λ l' t v q.
          let (ty, h) = operator_type t.kind q.0 in
          subst (λ o. Settles (IsFurther l) l (parse_value lib n name o l')) (sym h)
            (Settles-from v (value-Settles name ty l' v.within (fuel_of v fuel))))

  pub name-Settles :
      (l : Lexer) → IsWithin l → length l.input < n → Settles (IsFurther l) l (parse_name lib n l)
  name-Settles l w fuel =
      after-Settles (IsFurther l) l _ _
        (expect-Settles lib.unicode d n (quoted ∷ unquoted ∷ []) l w fuel)
        (λ l' t v q.
          unquoted-Settles l l' t (unquote_token lib t) _ v
            (λ name. Settles-from v (operator-Settles name l' v.within (fuel_of v fuel))))
