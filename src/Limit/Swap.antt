-- ===== src/Limit/Swap.antt =====
-- `sortedItems.Swap` of limit/bucket.go: the slice and the index after it.
use codestra_alertmanager.Prelude.{
  ℕ, zero, suc, ◌-◌, ◌≤◌, ◌<◌, ◌≡◌, refl, ap, ◌∙◌, Option, none, some, List, [], ◌∷◌, ◌++◌, length,
  get_elem?, nat_beq, arith, if◌then◌else◌, Comparable, Option-cases, inl, inr,
}
use codestra_alertmanager.Prelude.Maps.{insert}
use codestra_alertmanager.Limit.{Item, Bucket, set_elem, drop_last, swap}

module _ {ℓ} {A : Type ℓ} where
  pub length-set_elem : (xs : List A) (i : ℕ) (a : A) → length (set_elem xs i a) ≡ length xs
  length-set_elem [] i a = refl
  length-set_elem (x ∷ xs) zero a = refl
  length-set_elem (x ∷ xs) (suc i) a = ap suc (length-set_elem xs i a)

  pub get_elem?-set_elem :
      (xs : List A) (i : ℕ) (a : A) (k : ℕ)
      → i < length xs
      → get_elem? (set_elem xs i a) k ≡ (if nat_beq k i then some a else get_elem? xs k)
  get_elem?-set_elem [] i a k h = absurd (ground arith)
  get_elem?-set_elem (x ∷ xs) zero a zero h = refl
  get_elem?-set_elem (x ∷ xs) zero a (suc k) h = ground arith
  get_elem?-set_elem (x ∷ xs) (suc i) a zero h = ground arith
  get_elem?-set_elem (x ∷ xs) (suc i) a (suc k) h = ground (arith, get_elem?-set_elem xs i a k)

  pub get_elem?-some : (xs : List A) (i : ℕ) → i < length xs → (a : A) × (get_elem? xs i ≡ some a)
  get_elem?-some [] i h = absurd (ground arith)
  get_elem?-some (x ∷ xs) zero h = (x, refl)
  get_elem?-some (x ∷ xs) (suc i) h = get_elem?-some xs i (omega arith)

  pub get_elem?-none : (xs : List A) (i : ℕ) → length xs ≤ i → get_elem? xs i ≡ none
  get_elem?-none [] i h = refl
  get_elem?-none (x ∷ xs) zero h = absurd (omega arith)
  get_elem?-none (x ∷ xs) (suc i) h = get_elem?-none xs i (omega arith)

  pub get_elem?-lt : (xs : List A) (i : ℕ) {a : A} → get_elem? xs i ≡ some a → i < length xs
  get_elem?-lt [] i h = absurd (ground (arith, h))
  get_elem?-lt (x ∷ xs) zero h = omega arith
  get_elem?-lt (x ∷ xs) (suc i) h = omega (arith, get_elem?-lt xs i h)

  pub get_elem?-append :
      (xs : List A) (a : A) (k : ℕ)
      → get_elem? (xs ++ a ∷ []) k ≡ (if nat_beq k (length xs) then some a else get_elem? xs k)
  get_elem?-append [] a zero = ground arith
  get_elem?-append [] a (suc k) = ground arith
  get_elem?-append (x ∷ xs) a zero = ground arith
  get_elem?-append (x ∷ xs) a (suc k) = ground (arith, get_elem?-append xs a k)

  pub get_elem?-drop_last :
      (xs : List A) (k : ℕ)
      → get_elem? (drop_last xs) k ≡ (if nat_beq (suc k) (length xs) then none else get_elem? xs k)
  get_elem?-drop_last [] k = ground arith
  get_elem?-drop_last (x ∷ []) zero = ground arith
  get_elem?-drop_last (x ∷ []) (suc k) = ground arith
  get_elem?-drop_last (x ∷ y ∷ xs) zero = ground arith
  get_elem?-drop_last (x ∷ y ∷ xs) (suc k) = ground (arith, get_elem?-drop_last (y ∷ xs) k)

  pub length-drop_last : (xs : List A) → length (drop_last xs) ≡ length xs - 1
  length-drop_last [] = refl
  length-drop_last (x ∷ []) = refl
  length-drop_last (x ∷ y ∷ xs) = omega (arith, length-drop_last (y ∷ xs))

abbrev pub value_of {ℓ} : {V : Type ℓ} → Option (Item V) → Option V
value_of none = none
value_of (some x) = some x.value

abbrev pub value_at {ℓ} : {V : Type ℓ} → List (Item V) → ℕ → Option V
value_at xs i = value_of (get_elem? xs i)

module _ {ℓ} {V : Type ℓ} where
  pub value_at-lt : (xs : List (Item V)) (i : ℕ) {v : V} → value_at xs i ≡ some v → i < length xs
  value_at-lt [] i h = absurd (ground (arith, h))
  value_at-lt (x ∷ xs) zero h = omega arith
  value_at-lt (x ∷ xs) (suc i) h = omega (arith, value_at-lt xs i h)

  pub value_at-some :
      (xs : List (Item V)) (i : ℕ) → i < length xs → (v : V) × (value_at xs i ≡ some v)
  value_at-some xs i h = let (x, p) = get_elem?-some xs i h in (x.value, ap value_of p)

module _ {ℓ} {V : Type ℓ} ⦃e : Comparable V⦄ (b : Bucket V) (i j : ℕ) where
  pub swap_lem :
      (x y : Item V)
      → get_elem? b.items i ≡ some x
      → get_elem? b.items j ≡ some y
      → swap b i j ≡ record b {
        index = insert x.value j (insert y.value i b.index);
        items = set_elem (set_elem b.items i y) j x;
      }
  unfolding swap
  swap_lem x y p q = rw (p, q)

  pub capacity-swap : (swap b i j).capacity ≡ b.capacity
  unfolding swap
  capacity-swap = elim (Option-cases (get_elem? b.items i)) [
    | inl n ↦ rw n
    | inr (x, p) ↦ elim (Option-cases (get_elem? b.items j)) [
      | inl n ↦ rw (p, n)
      | inr (y, q) ↦ rw (p, q)
    ]
  ]

  pub length-swap : length (swap b i j).items ≡ length b.items
  unfolding swap
  length-swap = elim (Option-cases (get_elem? b.items i)) [
    | inl n ↦ rw n
    | inr (x, p) ↦ elim (Option-cases (get_elem? b.items j)) [
      | inl n ↦ rw (p, n)
      | inr (y, q) ↦
          rw (p, q) (length-set_elem (set_elem b.items i y) j x ∙ length-set_elem b.items i y)
    ]
  ]

  pub get_elem?-swap :
      (k : ℕ)
      → i < length b.items
      → j < length b.items
      → get_elem? (swap b i j).items k ≡ (
          if nat_beq k j
          then get_elem? b.items i
          else if nat_beq k i
          then get_elem? b.items j
          else get_elem? b.items k)
  get_elem?-swap k hi hj =
      let (x, p) = get_elem?-some b.items i hi in
      let (y, q) = get_elem?-some b.items j hj in
      rw (swap_lem x y p q) (
        ground (
          arith,
          p,
          q,
          get_elem?-set_elem (set_elem b.items i y) j x k,
          get_elem?-set_elem b.items i y k,
          length-set_elem b.items i y,
        ))
