-- ===== src/Limit/Order.antt =====
-- `up` and `down` of container/heap as limit/bucket.go uses them: the heap order.
use codestra_alertmanager.Prelude.{
  ℕ, zero, suc, ◌+◌, ◌*◌, ◌≤◌, ◌<◌, ◌≡◌, ◌≢◌, ap, ◌∙◌, not, ◌||◌, List, length, nat_beq, leb, arith,
  if◌then◌else◌, Comparable, Bool-cases, inl, inr, ◌⊎◌,
}
use codestra_alertmanager.Limit.{
  Item, Bucket, parent, priority_of, priority_at, swap, item_less, up, down, least_child,
}
use codestra_alertmanager.Limit.Swap.{get_elem?-swap, length-swap}

-- The edges of the tree over the first `n` elements, from a parent to a child, never fall.
abbrev pub IsHeap {ℓ} : {V : Type ℓ} → List (Item V) → ℕ → Type 0
IsHeap xs n = (c : ℕ) → 0 < c → c < n → priority_at xs (parent c) ≤ priority_at xs c

-- All edges are in order but those to `i`, and those past it.
pub record AllButAbove {ℓ} {V : Type ℓ} (xs : List (Item V)) (n i : ℕ) : Type 0 where
  pub edges : (c : ℕ) → 0 < c → c < n → c ≢ i → priority_at xs (parent c) ≤ priority_at xs c
  pub past :
      (c : ℕ) → 0 < c → c < n → parent c ≡ i → 0 < i → priority_at xs (parent i) ≤ priority_at xs c

-- All edges are in order but those from `i`, and those past it.
pub record AllButBelow {ℓ} {V : Type ℓ} (xs : List (Item V)) (n i : ℕ) : Type 0 where
  pub edges : (c : ℕ) → 0 < c → c < n → parent c ≢ i → priority_at xs (parent c) ≤ priority_at xs c
  pub past :
      (c : ℕ) → 0 < c → c < n → parent c ≡ i → 0 < i → priority_at xs (parent i) ≤ priority_at xs c

module _ {ℓ} {V : Type ℓ} ⦃e : Comparable V⦄ where
  pub priority_at-swap :
      (b : Bucket V) (i j k : ℕ)
      → i < length b.items
      → j < length b.items
      → priority_at (swap b i j).items k ≡ (
          if nat_beq k j
          then priority_at b.items i
          else if nat_beq k i
          then priority_at b.items j
          else priority_at b.items k)
  priority_at-swap b i j k hi hj = ap priority_of (get_elem?-swap b i j k hi hj) ∙ ground (arith)

  pub up-IsHeap :
      (fuel : ℕ) (b : Bucket V) (j n : ℕ)
      → j < fuel
      → j < n
      → n ≤ length b.items
      → AllButAbove b.items n j
      → IsHeap (up fuel b j).items n
  unfolding up
  up-IsHeap zero b j n f h l v = absurd (omega arith)
  up-IsHeap (suc fuel) b j n f h l v =
      elim (Bool-cases (nat_beq (parent j) j || not (item_less b j (parent j)))) [
        | inl stop ↦ rw (stop, up) (λ c p q. ground (arith, stop, v.edges c))
        | inr rise ↦
            let at = λ (k : ℕ). priority_at-swap b (parent j) j k (omega arith) (omega arith) in
            let less : priority_at b.items j < priority_at b.items (parent j) =
              ground (arith, rise) in
            let pos : parent j ≢ j = ground (arith, rise) in
            rw (rise, up)
              (up-IsHeap fuel (swap b (parent j) j) (parent j) n (omega arith) (omega arith)
                (omega (arith, length-swap b (parent j) j))
                (record {
                  edges = λ c p q r.
                      ground (arith, at c, at (parent c), v.edges c, v.past c, less, pos);
                  past = λ c p q r s. ground (
                    arith,
                    at c,
                    at (parent (parent j)),
                    v.edges c,
                    v.edges (parent j),
                    less,
                    pos,
                  );
                }))
      ]

  pub least_child_lem :
      (b : Bucket V) (i n : ℕ)
      → 2 * i + 1 < n
      → (least_child b i n < n)
        × ((least_child b i n ≡ 2 * i + 1) ⊎ (least_child b i n ≡ 2 * i + 2))
  least_child_lem b i n h = ground arith

  pub least_child-le :
      (b : Bucket V) (i n c : ℕ)
      → 0 < c
      → c < n
      → parent c ≡ i
      → priority_at b.items (least_child b i n) ≤ priority_at b.items c
  least_child-le b i n c p q r =
      let two : (c ≡ 2 * i + 1) ⊎ (c ≡ 2 * i + 2) = ground arith in
      elim two [ inl l ↦ rw l (ground (arith, l)) | inr l ↦ ground (arith, l) ]

  swap-AllButBelow :
      (b : Bucket V) (i j n : ℕ)
      → i < j
      → j < n
      → parent j ≡ i
      → n ≤ length b.items
      → AllButBelow b.items n i
      → priority_at b.items j < priority_at b.items i
      → ((c : ℕ) → 0 < c → c < n → parent c ≡ i → priority_at b.items j ≤ priority_at b.items c)
      → AllButBelow (swap b i j).items n j
  swap-AllButBelow b i j n hij hj pj l v less least =
      let at = λ (k : ℕ). priority_at-swap b i j k (omega arith) (omega arith) in
      record {
        edges = λ c p q r. ground (arith, at c, at (parent c), v.edges c, v.past j, least c, less);
        past = λ c p q r s. ground (arith, at c, at (parent j), v.edges c, less);
      }

  pub down-IsHeap :
      (fuel : ℕ) (b : Bucket V) (i n : ℕ)
      → n ≤ i + fuel
      → n ≤ length b.items
      → AllButBelow b.items n i
      → IsHeap (down fuel b i n).0.items n
  unfolding down
  down-IsHeap zero b i n f l v = λ c p q. v.edges c p q (omega arith)
  down-IsHeap (suc fuel) b i n f l v =
      elim (Bool-cases (leb n (2 * i + 1) || not (item_less b (least_child b i n) i))) [
        | inl stop ↦
            rw (stop, down) (λ c p q. ground (arith, stop, v.edges c, least_child-le b i n c))
        | inr sink ↦
            let child = least_child_lem b i n (ground (arith, sink)) in
            rw (sink, down)
              (down-IsHeap fuel (swap b i (least_child b i n)) (least_child b i n) n
                (omega (arith, child.0, child.1))
                (omega (arith, length-swap b i (least_child b i n)))
                (swap-AllButBelow b i (least_child b i n) n (omega (arith, child.1)) child.0
                  (omega (arith, child.1)) l v (ground (arith, sink))
                  (λ c. least_child-le b i n c)))
      ]
