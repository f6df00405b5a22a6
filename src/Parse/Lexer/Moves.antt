-- ===== src/Parse/Lexer/Moves.antt =====
-- How the cursor of the lexer of matcher/parse/lexer.go moves.
use codestra_alertmanager.Prelude.{
  ℕ, zero, suc, ◌+◌, ◌-◌, ◌≤◌, ◌<◌, Bool, true, false, not, Option, none, some, List, [], ◌∷◌, ◌&&◌,
  ◌≡◌, refl, sym, ap, ◌∙◌, subst, arith, if◌then◌else◌, if_elim, ltb, leb, nat_beq, length, drop,
  Bool-cases, inl, inr,
}
use codestra_alertmanager.Parse.Lexer.{
  Unicode, IsDecoder, Lexer, LexError, Position, invalid_input, unterminated, next, rewind, accept,
  accepted, expect, expected, contains_rune, is_reserved, position, expected_error, skip_quoted,
  quoted_step, escapes, skip_unquoted, unquoted_step,
}

length-drop : (n : ℕ) (s : List ℕ) → length (drop n s) ≡ length s - n
length-drop zero s = omega arith
length-drop (suc n) [] = omega arith
length-drop (suc n) (x ∷ s) = omega (arith, length-drop n s)

abbrev pub position_of : LexError → Position
position_of (expected_error valid p) = p
position_of (invalid_input p) = p
position_of (unterminated p) = p

-- The lexer after a rune of some width.
abbrev pub advanced : ℕ → Lexer → Lexer
advanced w l = record l { width = w; pos = l.pos + w; cols = l.cols + 1 }

-- The cursor has gone on, within the input; the token, the input and the error are the same.
pub record Extends (l l' : Lexer) : Type 0 where
  pub input : l'.input ≡ l.input
  pub err : l'.err ≡ l.err
  pub start : l'.start ≡ l.start
  pub column : l'.column ≡ l.column
  pub forward : l.pos ≤ l'.pos
  pub right : l.cols ≤ l'.cols
  pub bound : l'.pos ≤ length l.input

pub Extends-width :
    (w : ℕ) (l : Lexer) → l.pos ≤ length l.input → Extends l (record l { width = w })
Extends-width w l h = record {
  input = refl;
  err = refl;
  start = refl;
  column = refl;
  forward = omega arith;
  right = omega arith;
  bound = h;
}

pub Extends-advanced : (w : ℕ) (l : Lexer) → l.pos + w ≤ length l.input → Extends l (advanced w l)
Extends-advanced w l h = record {
  input = refl;
  err = refl;
  start = refl;
  column = refl;
  forward = omega arith;
  right = omega arith;
  bound = h;
}

pub Extends-trans : {a b c : Lexer} → Extends a b → Extends b c → Extends a c
Extends-trans {a} {b} {c} v w = record {
  input = w.input ∙ v.input;
  err = w.err ∙ v.err;
  start = w.start ∙ v.start;
  column = w.column ∙ v.column;
  forward = let p = v.forward in let q = w.forward in omega (arith, p, q);
  right = let p = v.right in let q = w.right in omega (arith, p, q);
  bound = let p = w.bound in let q = ap length v.input in omega (arith, p, q);
}

-- What `next` does: nothing at the end, and else it takes a rune.
pub data Next (l : Lexer) : Lexer × Option ℕ → Type 0 where
  at_end : length l.input ≤ l.pos → Next l (record l { width = 0 }, none)
  at_rune : (w r : ℕ) → 0 < w → l.pos + w ≤ length l.input → Next l (advanced w l, some r)

pub rewind-advanced : (w : ℕ) (l : Lexer) → 0 < w → rewind (advanced w l) ≡ record l { width = w }
unfolding rewind
rewind-advanced w l h =
    let p : l.pos + w - w ≡ l.pos = omega arith in
    let c : (if ltb 0 w then l.cols + 1 - 1 else l.cols + 1) ≡ l.cols = ground (arith, h) in
    ap
      (λ (n : ℕ). record l {
        width = w;
        pos = n;
        cols = if ltb 0 w then l.cols + 1 - 1 else l.cols + 1;
      })
      p
    ∙ ap (λ (n : ℕ). record l { width = w; cols = n }) c

module _ (u : Unicode) (d : IsDecoder u) where
  pub next-Next : (l : Lexer) → Next l (next u l)
  unfolding next
  next-Next l = elim (Bool-cases (leb (length l.input) l.pos)) [
    | inl p ↦ rw p (at_end (ground (arith, p)))
    | inr p ↦
        let s = drop l.pos l.input in
        let n : 0 < length s = ground (arith, p, length-drop l.pos l.input) in
        let (wide, narrow) = d s n in
        rw p (
          at_rune (u.decode s).1 (u.decode s).0 wide
            (omega (arith, narrow, length-drop l.pos l.input, n)))
  ]

module _ (l : Lexer) where
  pub Next-Extends : {x : Lexer × Option ℕ} → Next l x → l.pos ≤ length l.input → Extends l x.0
  Next-Extends (at_end e) h = Extends-width 0 l h
  Next-Extends (at_rune w r n b) h = Extends-advanced w l b

  pub rewind-Extends : (w : ℕ) → 0 < w → l.pos ≤ length l.input → Extends l (rewind (advanced w l))
  rewind-Extends w n h = subst (Extends l) (sym (rewind-advanced w l n)) (Extends-width w l h)

  -- A test goes on; it has taken a rune where it holds.
  abbrev pub Tested : Lexer × Bool → Type 0
  Tested (l', ok) = Extends l l' × (ok ≡ true → l.pos < l'.pos)

  rewind_end : l.pos ≤ length l.input → Extends l (rewind (record l { width = 0 }))
  unfolding rewind
  rewind_end h = record {
    input = refl;
    err = refl;
    start = refl;
    column = refl;
    forward = omega arith;
    right = omega arith;
    bound = omega (arith, h);
  }

  accepted-Tested :
      (valid : List ℕ) {x : Lexer × Option ℕ}
      → Next l x
      → l.pos ≤ length l.input
      → Tested (accepted valid x)
  accepted-Tested valid (at_end e) h = (rewind_end h, λ q. absurd (ground (arith, q)))
  accepted-Tested valid (at_rune w r n b) h =
      if_elim Tested (contains_rune valid (some r)) (advanced w l, true)
        (rewind (advanced w l), false) (λ q. (Extends-advanced w l b, λ p. omega (arith, n)))
        (λ q. (rewind-Extends w n h, λ p. absurd (ground (arith, p))))

  -- A loop comes to an end.
  pub data Done : Option Lexer → Type 0 where
    done : (l' : Lexer) → Extends l l' → Done (some l')

pub Done-trans : {l l' : Lexer} {o : Option Lexer} → Extends l l' → Done l' o → Done l o
Done-trans v (done l'' w) = done l'' (Extends-trans v w)

-- An expected rune is taken, or the error says where the lexer stands.
abbrev pub Expects : Lexer → Lexer × Option LexError → Type 0
Expects l (l', none) = Extends l l' × l.pos < l'.pos
Expects l (l', some e) = Extends l l' × position_of e ≡ position l'

expected-Expects :
    (valid : List ℕ) (l : Lexer) (x : Lexer × Bool) → Tested l x → Expects l (expected valid x)
expected-Expects valid l (l', true) (v, f) = (v, f refl)
expected-Expects valid l (l', false) (v, f) = (v, refl)

quoted_step-Done :
    (l : Lexer) (b : Bool) (rest : Option Lexer) {x : Lexer × Option ℕ}
    → Next l x
    → l.pos ≤ length l.input
    → (l.pos < x.0.pos → Done x.0 rest)
    → Done l (quoted_step b rest x)
quoted_step-Done l b rest (at_end e) h f = done (record l { width = 0 }) (Extends-width 0 l h)
quoted_step-Done l b rest (at_rune w r n bound) h f =
    if_elim (Done l) (not b && nat_beq r b'"') (some (rewind (advanced w l))) rest
      (λ q. done (rewind (advanced w l)) (rewind-Extends l w n h))
      (λ q. Done-trans (Extends-advanced w l bound) (f (omega (arith, n))))

module _ (u : Unicode) (d : IsDecoder u) where
  pub accept-Tested :
      (valid : List ℕ) (l : Lexer) → l.pos ≤ length l.input → Tested l (accept u valid l)
  unfolding accept
  accept-Tested valid l h = accepted-Tested l valid (next-Next u d l) h

  pub expect-Expects :
      (valid : List ℕ) (l : Lexer) → l.pos ≤ length l.input → Expects l (expect u valid l)
  unfolding expect
  expect-Expects valid l h = expected-Expects valid l (accept u valid l) (accept-Tested valid l h)

  pub skip_quoted-Done :
      (n : ℕ) (b : Bool) (l : Lexer)
      → l.pos ≤ length l.input
      → length l.input < n + l.pos
      → Done l (skip_quoted u n b l)
  unfolding skip_quoted
  skip_quoted-Done zero b l h fuel = absurd (omega (arith, h, fuel))
  skip_quoted-Done (suc n) b l h fuel =
      let v = Next-Extends l (next-Next u d l) h in
      let same = ap length v.input in
      let bound = v.bound in
      quoted_step-Done l b (skip_quoted u n (escapes b (next u l).1) (next u l).0) (next-Next u d l)
        h
        (λ more.
          skip_quoted-Done n (escapes b (next u l).1) (next u l).0 (omega (arith, bound, same))
            (omega (arith, fuel, more, same)))

  unquoted_step-Done :
      (l : Lexer) (rest : Option Lexer) {x : Lexer × Option ℕ}
      → Next l x
      → l.pos ≤ length l.input
      → (l.pos < x.0.pos → Done x.0 rest)
      → Done l (unquoted_step u rest x)
  unquoted_step-Done l rest (at_end e) h f = done (record l { width = 0 }) (Extends-width 0 l h)
  unquoted_step-Done l rest (at_rune w r n bound) h f =
      if_elim (Done l) (is_reserved u r) (some (rewind (advanced w l))) rest
        (λ q. done (rewind (advanced w l)) (rewind-Extends l w n h))
        (λ q. Done-trans (Extends-advanced w l bound) (f (omega (arith, n))))

  pub skip_unquoted-Done :
      (n : ℕ) (l : Lexer)
      → l.pos ≤ length l.input
      → length l.input < n + l.pos
      → Done l (skip_unquoted u n l)
  unfolding skip_unquoted
  skip_unquoted-Done zero l h fuel = absurd (omega (arith, h, fuel))
  skip_unquoted-Done (suc n) l h fuel =
      let v = Next-Extends l (next-Next u d l) h in
      let same = ap length v.input in
      let bound = v.bound in
      unquoted_step-Done l (skip_unquoted u n (next u l).0) (next-Next u d l) h (λ more.
        skip_unquoted-Done n (next u l).0 (omega (arith, bound, same))
          (omega (arith, fuel, more, same)))
