-- ===== src/Parse/Lexer/Bounds.antt =====
-- The scanners of matcher/parse/lexer.go: what they give, and that it lies within the input.
use codestra_alertmanager.Prelude.{
  ℕ, zero, suc, ◌+◌, ◌≤◌, ◌<◌, Bool, true, false, Option, none, some, List, [], ◌∷◌, ◌≡◌, refl, sym,
  ap, subst, arith, if_elim, length,
}
use Prim.{tt}
use codestra_alertmanager.Parse.Lexer.{
  Unicode, IsDecoder, Lexer, LexError, Token, TokenKind, Position, next, accept, expect,
  is_reserved, position, slice, no_token, eof, equals, not_equals, matches, not_matches, quoted,
  unquoted, unterminated, emit, emitted, refused, after_bang, after_equals, scan_operator,
  skip_quoted, quoted_end, quoted_start, scan_quoted, skip_unquoted, unquoted_end, scan_unquoted,
  scanned,
}
use codestra_alertmanager.Parse.Lexer.Moves.{
  Extends, Extends-advanced, Extends-trans, advanced, position_of, Done, done, accept-Tested,
  Expects, expect-Expects, skip_quoted-Done, skip_unquoted-Done,
}

abbrev pub is_eof : TokenKind → Bool
is_eof eof = true
is_eof _ = false

-- The positions in the input of a slice.
pub record IsIn (s : List ℕ) (p : Position) : Type 0 where
  pub offsets : p.offset_start ≤ p.offset_end
  pub bound : p.offset_end ≤ length s
  pub columns : p.column_start ≤ p.column_end

abbrev pub ErrIsIn : List ℕ → Option LexError → Type 0
ErrIsIn s none = Unit
ErrIsIn s (some e) = IsIn s (position_of e)

pub record IsWithin (l : Lexer) : Type 0 where
  pub here : IsIn l.input (position l)
  pub error : ErrIsIn l.input l.err

-- A token that is not at the end: the slice of the input between its offsets, which is not empty, and
-- after which the lexer goes on.
pub record IsToken (l l' : Lexer) (t : Token) : Type 0 where
  pub kind : is_eof t.kind ≡ false
  pub inside : IsIn l.input t.position
  pub value : t.value ≡ slice l.input t.position.offset_start t.position.offset_end
  pub nonempty : t.position.offset_start < t.position.offset_end
  pub later : l.start ≤ t.position.offset_start
  pub progress : l.pos < l'.pos
  pub ends : (l'.start ≡ t.position.offset_end) × (l'.pos ≡ t.position.offset_end)

-- What `scan` gives: a token, the end of the input, or an error.
pub data Scans (l : Lexer) : Option (Lexer × Token) → Type 0 where
  scans_token :
      (l' : Lexer) (t : Token)
      → IsWithin l'
      → l'.input ≡ l.input
      → l'.err ≡ none
      → IsToken l l' t
      → Scans l (some (l', t))
  scans_end :
      (l' : Lexer)
      → IsWithin l'
      → l'.input ≡ l.input
      → l'.err ≡ none
      → l'.pos ≡ length l.input
      → Scans l (some (l', no_token))
  scans_error :
      (l' : Lexer) (e : LexError)
      → IsWithin l'
      → l'.input ≡ l.input
      → l'.err ≡ some e
      → Scans l (some (l', no_token))

-- What a scanner gives, by where it stands.
pub data Scanner (l : Lexer) : Lexer × Token × Option LexError → Type 0 where
  gives :
      (l' : Lexer) (k : TokenKind)
      → Extends l l'
      → l.pos < l'.pos
      → is_eof k ≡ false
      → Scanner l (emitted (emit k l'))
  refuses :
      (l' : Lexer) (e : LexError)
      → Extends l l'
      → position_of e ≡ position l'
      → Scanner l (refused e l')

Extends-IsIn :
    {l l' : Lexer} → IsIn l.input (position l) → Extends l l' → IsIn l'.input (position l')
Extends-IsIn {l} {l'} w v =
    let a = w.offsets in
    let c = w.columns in
    let f = v.forward in
    let r = v.right in
    let b = v.bound in
    let i = ap length v.input in
    let s = v.start in
    let k = v.column in
    record {
      offsets = omega (arith, a, f, s);
      bound = omega (arith, b, i);
      columns = omega (arith, c, r, k);
    }

module _ (u : Unicode) (d : IsDecoder u) where
  -- A scanner after the first part of its token.
  pub Scanner-later :
      {l l' : Lexer} {x : Lexer × Token × Option LexError}
      → Extends l l'
      → Scanner l' x
      → Scanner l x
  Scanner-later v (gives l'' k w n q) =
      let f = v.forward in gives l'' k (Extends-trans v w) (omega (arith, f, n)) q
  Scanner-later v (refuses l'' e w q) = refuses l'' e (Extends-trans v w) q

  bound_of : {l l' : Lexer} → Extends l l' → l'.pos ≤ length l'.input
  bound_of v = let b = v.bound in let i = ap length v.input in omega (arith, b, i)

  -- The token has begun before the lexer stands where it does.
  after_bang-Scanner : (l l' : Lexer) → Extends l l' → l.pos < l'.pos → Scanner l (after_bang u l')
  after_bang-Scanner l l' v n =
      let a = accept-Tested u d (b'=' ∷ []) l' (bound_of v) in
      let b = accept-Tested u d (b'~' ∷ []) (accept u (b'=' ∷ []) l').0 (bound_of a.0) in
      let f = a.0.forward in
      let g = b.0.forward in
      if_elim (Scanner l) (accept u (b'=' ∷ []) l').1 _ _
        (λ q.
          gives (accept u (b'=' ∷ []) l').0 not_equals (Extends-trans v a.0) (omega (arith, n, f))
            refl)
        (λ q.
          if_elim (Scanner l) (accept u (b'~' ∷ []) (accept u (b'=' ∷ []) l').0).1 _ _
            (λ q'.
              gives (accept u (b'~' ∷ []) (accept u (b'=' ∷ []) l').0).0 not_matches
                (Extends-trans v (Extends-trans a.0 b.0)) (omega (arith, n, f, g)) refl)
            (λ q'.
              refuses (accept u (b'~' ∷ []) (accept u (b'=' ∷ []) l').0).0 _
                (Extends-trans v (Extends-trans a.0 b.0)) refl))

  after_equals-Scanner :
      (l l' : Lexer) → Extends l l' → l.pos < l'.pos → Scanner l (after_equals u l')
  after_equals-Scanner l l' v n =
      let a = accept-Tested u d (b'~' ∷ []) l' (bound_of v) in
      let f = a.0.forward in
      if_elim (Scanner l) (accept u (b'~' ∷ []) l').1 _ _
        (λ q.
          gives (accept u (b'~' ∷ []) l').0 matches (Extends-trans v a.0) (omega (arith, n, f))
            refl)
        (λ q.
          gives (accept u (b'~' ∷ []) l').0 equals (Extends-trans v a.0) (omega (arith, n, f)) refl)

  pub scan_operator-Scanner : (l : Lexer) → l.pos ≤ length l.input → Scanner l (scan_operator u l)
  unfolding scan_operator
  scan_operator-Scanner l h =
      let a = accept-Tested u d (b'!' ∷ []) l h in
      let l1 = (accept u (b'!' ∷ []) l).0 in
      let b = accept-Tested u d (b'=' ∷ []) l1 (bound_of a.0) in
      let f = a.0.forward in
      if_elim (Scanner l) (accept u (b'!' ∷ []) l).1 _ _ (λ q. after_bang-Scanner l l1 a.0 (a.1 q))
        (λ q.
          if_elim (Scanner l) (accept u (b'=' ∷ []) l1).1 _ _
            (λ q'.
              let g = b.1 q' in
              after_equals-Scanner l (accept u (b'=' ∷ []) l1).0 (Extends-trans a.0 b.0)
                (omega (arith, f, g)))
            (λ q'. refuses (accept u (b'=' ∷ []) l1).0 _ (Extends-trans a.0 b.0) refl))

  pub data Found (l : Lexer) : Option (Lexer × Token × Option LexError) → Type 0 where
    found : {x : Lexer × Token × Option LexError} → Scanner l x → Found l (some x)

  quoted_end-Scanner :
      {l l' : Lexer} (x : Lexer × Option LexError)
      → Extends l l'
      → Expects l' x
      → Scanner l (quoted_end x)
  quoted_end-Scanner (l'', none) v (w, n) =
      let f = v.forward in gives l'' quoted (Extends-trans v w) (omega (arith, f, n)) refl
  quoted_end-Scanner (l'', some e) v (w, q) =
      refuses l'' (unterminated (position l'')) (Extends-trans v w) refl

  quoted_rest :
      {l l' : Lexer} (rest : Option Lexer)
      → Extends l l'
      → Done l' rest
      → Found l (quoted_start u rest (l', none))
  quoted_rest {l} {l'} rest v (done l'' w) =
      let v' = Extends-trans v w in
      found (
        quoted_end-Scanner (expect u (b'"' ∷ []) l'') v'
          (expect-Expects u d (b'"' ∷ []) l'' (bound_of v')))

  quoted_start-Found :
      {l : Lexer} (rest : Option Lexer) (x : Lexer × Option LexError)
      → Expects l x
      → (Extends l x.0 → l.pos < x.0.pos → Done x.0 rest)
      → Found l (quoted_start u rest x)
  quoted_start-Found rest (l', some e) (v, q) f = found (refuses l' e v q)
  quoted_start-Found rest (l', none) (v, n) f = quoted_rest rest v (f v n)

  pub scan_quoted-Found :
      (n : ℕ) (l : Lexer)
      → l.pos ≤ length l.input
      → length l.input < n + l.pos
      → Found l (scan_quoted u n l)
  unfolding scan_quoted
  scan_quoted-Found n l h fuel =
      let opened = expect u (b'"' ∷ []) l in
      quoted_start-Found (skip_quoted u n false opened.0) opened
        (expect-Expects u d (b'"' ∷ []) l h)
        (λ v more.
          let i = ap length v.input in
          skip_quoted-Done u d n false opened.0 (bound_of v) (omega (arith, fuel, more, i)))

  skip_unquoted_first :
      (m : ℕ) (l l' : Lexer) (r : ℕ)
      → next u l ≡ (l', some r)
      → is_reserved u r ≡ false
      → skip_unquoted u (suc m) l ≡ skip_unquoted u m l'
  unfolding skip_unquoted
  skip_unquoted_first m l l' r q h = rw (q, h) refl

  unquoted_end-Found :
      {l l' : Lexer} (o : Option Lexer)
      → Extends l l'
      → l.pos < l'.pos
      → Done l' o
      → Found l (unquoted_end o)
  unquoted_end-Found o v n (done l'' w) =
      let f = w.forward in found (gives l'' unquoted (Extends-trans v w) (omega (arith, n, f)) refl)

  pub scan_unquoted-Found :
      (n w r : ℕ) (l : Lexer)
      → 0 < w
      → l.pos + w ≤ length l.input
      → length l.input < n + l.pos
      → next u l ≡ (advanced w l, some r)
      → is_reserved u r ≡ false
      → Found l (scan_unquoted u n l)
  unfolding scan_unquoted
  scan_unquoted-Found zero w r l h b fuel q k = absurd (omega (arith, h, b, fuel))
  scan_unquoted-Found (suc m) w r l h b fuel q k =
      rw (skip_unquoted_first m l (advanced w l) r q k) (
        unquoted_end-Found (skip_unquoted u m (advanced w l)) (Extends-advanced w l b)
          (omega (arith, h)) (skip_unquoted-Done u d m (advanced w l) b (omega (arith, h, fuel))))

module _ (l : Lexer) (within : IsWithin l) where
  -- The lexer after a token, or after an error.
  pub after_IsIn : (l' : Lexer) → Extends l l' → IsIn l'.input (position l')
  after_IsIn l' v = Extends-IsIn within.here v

  pub emit-Scans :
      (l' : Lexer) (k : TokenKind) (e : Option LexError)
      → e ≡ none
      → Extends l l'
      → l.pos < l'.pos
      → is_eof k ≡ false
      → Scans l (some (record (emit k l').0 { err = e }, (emit k l').1))
  unfolding emit
  emit-Scans l' k e q v n h =
      let inside = after_IsIn l' v in
      let i = ap length v.input in
      let a = inside.offsets in
      let b = inside.bound in
      let c = inside.columns in
      let s = v.start in
      let o = within.here.offsets in
      scans_token _ _
        (record {
          here = record { offsets = omega arith; bound = b; columns = omega arith };
          error = subst (ErrIsIn l'.input) (sym q) tt;
        })
        v.input q
        (record {
          kind = h;
          inside = record { offsets = a; bound = omega (arith, b, i); columns = c };
          value = ap (λ (x : List ℕ). slice x l'.start l'.pos) v.input;
          nonempty = omega (arith, n, s, o);
          later = omega (arith, s);
          progress = n;
          ends = (refl, refl);
        })

  pub scanned-Scans :
      {x : Lexer × Token × Option LexError} → Scanner l x → Scans l (scanned (some x))
  scanned-Scans (gives l' k v n q) = emit-Scans l' k none refl v n q
  scanned-Scans (refuses l' e v q) =
      scans_error (record l' { err = some e }) e
        (record { here = after_IsIn l' v; error = subst (IsIn l'.input) (sym q) (after_IsIn l' v) })
        v.input refl
