-- ===== src/Parse/Lexer/Scanning.antt =====
-- `scan` of matcher/parse/lexer.go: it ends, and its tokens and its errors lie within the input.
use codestra_alertmanager.Prelude.{
  ℕ, zero, suc, ◌+◌, ◌≤◌, ◌<◌, false, not, Option, none, some, List, ◌||◌, ◌≡◌, refl, sym, ap, ◌∙◌,
  subst, arith, if_elim, nat_beq, length,
}
use Prim.{tt}
use codestra_alertmanager.Parse.Lexer.{
  Unicode, IsDecoder, Lexer, LexError, Token, TokenKind, next, rewind, is_reserved, position,
  no_token, open_brace, close_brace, comma, invalid_input, skip, emit, scan_operator, scan_quoted,
  scan_unquoted, scanned, scan_rune, scan_word, scan_step, slice, scan_loop, scan_unless, scan,
}
use codestra_alertmanager.Parse.Lexer.Moves.{
  Extends, Extends-width, Extends-advanced, Next, at_end, at_rune, advanced, rewind-advanced,
  next-Next, Next-Extends,
}
use codestra_alertmanager.Parse.Lexer.Bounds.{
  IsIn, ErrIsIn, IsWithin, is_eof, Scans, scans_token, scans_end, scans_error, Found, found,
  Scanner-later, scan_operator-Scanner, scan_quoted-Found, scan_unquoted-Found, emit-Scans,
  scanned-Scans, after_IsIn,
}

-- The lexer skips what stands before a token.
Scans-skip :
    {l l' : Lexer} {o : Option (Lexer × Token)}
    → Extends l l'
    → l.start ≤ l.pos
    → Scans (skip l') o
    → Scans l o
unfolding skip
Scans-skip v h (scans_token l'' t w i q k) =
    let f = v.forward in
    let later = k.later in
    let more = k.progress in
    scans_token l'' t w (i ∙ v.input) q (record {
      kind = k.kind;
      inside = subst (λ s. IsIn s t.position) v.input k.inside;
      value =
          k.value
          ∙ ap (λ (x : List ℕ). slice x t.position.offset_start t.position.offset_end) v.input;
      nonempty = k.nonempty;
      later = omega (arith, later, f, h);
      progress = omega (arith, more, f);
      ends = k.ends;
    })
Scans-skip v h (scans_end l'' w i q e) = scans_end l'' w (i ∙ v.input) q (e ∙ ap length v.input)
Scans-skip v h (scans_error l'' e w i q) = scans_error l'' e w (i ∙ v.input) q

skip-IsWithin : (l l' : Lexer) → IsWithin l → l.err ≡ none → Extends l l' → IsWithin (skip l')
unfolding skip
skip-IsWithin l l' w q v = record {
  here = record {
    offsets = omega arith;
    bound = (after_IsIn l w l' v).bound;
    columns = omega arith;
  };
  error = subst (ErrIsIn l'.input) (sym (v.err ∙ q)) tt;
}

module _ (u : Unicode) (d : IsDecoder u) where
  Found-scanned :
      {l l' : Lexer} {o : Option (Lexer × Token × Option LexError)}
      → IsWithin l
      → Extends l l'
      → Found u d l' o
      → Scans l (scanned o)
  Found-scanned {l} w v (found x) = scanned-Scans l w (Scanner-later u d v x)

  brace-Scans :
      (l l' : Lexer) (k : TokenKind)
      → IsWithin l
      → l.err ≡ none
      → Extends l l'
      → l.pos < l'.pos
      → is_eof k ≡ false
      → Scans l (some (emit k l'))
  unfolding emit
  brace-Scans l l' k within clean v n h = emit-Scans l within l' k l'.err (v.err ∙ clean) v n h

  -- A rune after the lexer, of some width, and fuel for the input.
  record IsBefore (n w r : ℕ) (l : Lexer) : Type 0 where
    wide : 0 < w
    bound : l.pos + w ≤ length l.input
    fuel : length l.input < n
    within : IsWithin l
    clean : l.err ≡ none
    rune : next u l ≡ (advanced w l, some r)

  rewound :
      (n w r : ℕ) (l : Lexer) → IsBefore n w r l → record l { width = w } ≡ rewind (advanced w l)
  rewound n w r l b = sym (rewind-advanced w l b.wide)

  at_rewound : (n w r : ℕ) (l : Lexer) → IsBefore n w r l → Extends l (record l { width = w })
  at_rewound n w r l b =
      let wide = b.wide in let bound = b.bound in Extends-width w l (omega (arith, bound))

  next-width : (w : ℕ) (l : Lexer) → next u (record l { width = w }) ≡ next u l
  unfolding next
  next-width w l = refl

  quoted-Scans :
      (n w r : ℕ) (l : Lexer)
      → IsBefore n w r l
      → Scans l (scanned (scan_quoted u n (rewind (advanced w l))))
  quoted-Scans n w r l b =
      let v = at_rewound n w r l b in
      let fuel = b.fuel in
      subst (λ x. Scans l (scanned (scan_quoted u n x))) (rewound n w r l b)
        (Found-scanned b.within v
          (scan_quoted-Found u d n (record l { width = w }) v.bound (omega (arith, fuel))))

  unquoted-Scans :
      (n w r : ℕ) (l : Lexer)
      → IsBefore n w r l
      → is_reserved u r ≡ false
      → Scans l (scanned (scan_unquoted u n (rewind (advanced w l))))
  unquoted-Scans n w r l b free =
      let fuel = b.fuel in
      subst (λ x. Scans l (scanned (scan_unquoted u n x))) (rewound n w r l b)
        (Found-scanned b.within (at_rewound n w r l b) (
          scan_unquoted-Found u d n w r (record l { width = w }) b.wide b.bound
            (omega (arith, fuel)) (next-width w l ∙ b.rune) free))

  operator-Scans :
      (n w r : ℕ) (l : Lexer)
      → IsBefore n w r l
      → Scans l (scanned (some (scan_operator u (rewind (advanced w l)))))
  operator-Scans n w r l b =
      let v = at_rewound n w r l b in
      subst (λ x. Scans l (scanned (some (scan_operator u x)))) (rewound n w r l b)
        (scanned-Scans l b.within
          (Scanner-later u d v (scan_operator-Scanner u d (record l { width = w }) v.bound)))

  invalid-Scans :
      (l l' : Lexer)
      → IsWithin l
      → Extends l l'
      → Scans l (some (record l' { err = some (invalid_input (position l')) }, no_token))
  invalid-Scans l l' within v =
      scans_error (record l' { err = some (invalid_input (position l')) })
        (invalid_input (position l'))
        (record { here = after_IsIn l within l' v; error = after_IsIn l within l' v }) v.input refl

  scan_word-Scans :
      (n w r : ℕ) (l : Lexer) (rest : Option (Lexer × Token))
      → IsBefore n w r l
      → Scans (skip (advanced w l)) rest
      → Scans l (scan_word u n rest (advanced w l) r)
  scan_word-Scans n w r l rest b later =
      let v = Extends-advanced w l b.bound in
      if_elim (Scans l) (nat_beq r b'"') _ _ (λ p. quoted-Scans n w r l b)
        (λ p.
          if_elim (Scans l) (not (is_reserved u r)) _ _
            (λ p'. unquoted-Scans n w r l b (ground (arith, p')))
            (λ p'.
              if_elim (Scans l) (u.is_space r) _ _ (λ q. Scans-skip v b.within.here.offsets later)
                (λ q. invalid-Scans l (advanced w l) b.within v)))

  scan_rune-Scans :
      (n w r : ℕ) (l : Lexer) (rest : Option (Lexer × Token))
      → IsBefore n w r l
      → Scans (skip (advanced w l)) rest
      → Scans l (scan_rune u n rest (advanced w l) r)
  scan_rune-Scans n w r l rest b later =
      let v = Extends-advanced w l b.bound in
      let wide = b.wide in
      let more : l.pos < l.pos + w = omega (arith, wide) in
      let brace = λ (k : TokenKind) (h : is_eof k ≡ false).
        brace-Scans l (advanced w l) k b.within b.clean v more h in
      if_elim (Scans l) (nat_beq r b'{') _ _ (λ p. brace open_brace refl)
        (λ p.
          if_elim (Scans l) (nat_beq r b'}') _ _ (λ p. brace close_brace refl)
            (λ p.
              if_elim (Scans l) (nat_beq r b',') _ _ (λ p. brace comma refl)
                (λ p.
                  if_elim (Scans l) (nat_beq r b'=' || nat_beq r b'!') _ _
                    (λ p. operator-Scans n w r l b) (λ p. scan_word-Scans n w r l rest b later))))

  scan_step-Scans :
      (n : ℕ) (l : Lexer) (rest : Option (Lexer × Token)) {x : Lexer × Option ℕ}
      → Next l x
      → next u l ≡ x
      → IsWithin l
      → l.err ≡ none
      → length l.input < n
      → (l.pos < x.0.pos → Scans (skip x.0) rest)
      → Scans l (scan_step u n rest x)
  scan_step-Scans n l rest (at_end e) q within clean fuel f =
      let b = within.here.bound in
      scans_end (record l { width = 0 }) (record { here = within.here; error = within.error }) refl
        clean (omega (arith, e, b))
  scan_step-Scans n l rest (at_rune w r wide bound) q within clean fuel f =
      scan_rune-Scans n w r l rest
        (record {
          wide = wide;
          bound = bound;
          fuel = fuel;
          within = within;
          clean = clean;
          rune = q;
        })
        (f (omega (arith, wide)))

  scan_loop-Scans :
      (n m : ℕ) (l : Lexer)
      → IsWithin l
      → l.err ≡ none
      → length l.input < n
      → length l.input < m + l.pos
      → Scans l (scan_loop u n m l)
  unfolding scan_loop skip
  scan_loop-Scans n zero l within clean fuel enough =
      let b = within.here.bound in absurd (omega (arith, b, enough))
  scan_loop-Scans n (suc m) l within clean fuel enough =
      let v = Next-Extends l (next-Next u d l) within.here.bound in
      let i = ap length v.input in
      let l' = skip (next u l).0 in
      scan_step-Scans n l (scan_loop u n m l') (next-Next u d l) refl within clean fuel (λ more.
        scan_loop-Scans n m l' (skip-IsWithin l (next u l).0 within clean v) (v.err ∙ clean)
          (omega (arith, fuel, i)) (omega (arith, enough, more, i)))

  scan_unless-Scans :
      (n : ℕ) (l : Lexer) (o : Option LexError)
      → l.err ≡ o
      → IsWithin l
      → length l.input < n
      → Scans l (scan_unless u o n l)
  scan_unless-Scans n l (some e) q within fuel = scans_error l e within refl q
  scan_unless-Scans n l none q within fuel =
      scan_loop-Scans n n l within q fuel (omega (arith, fuel))

  -- With more fuel than the input has bytes, and a decoder that takes at least one byte and no
  -- more than there are, `scan` returns: a token that is the slice of the input between its
  -- offsets, not empty, within the input and not before where the lexer stood, after which the
  -- lexer goes on; or the end of the input; or an error whose position is within the input. The
  -- lexer then stands within the input again.
  pub scan-Scans : (n : ℕ) (l : Lexer) → IsWithin l → length l.input < n → Scans l (scan u n l)
  unfolding scan
  scan-Scans n l within fuel = scan_unless-Scans n l l.err refl within fuel
