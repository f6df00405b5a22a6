-- ===== src/Limit/Update.antt =====
-- `update` of limit/bucket.go: `heap.Fix` after a change of priority.
use codestra_alertmanager.Prelude.{
  ℕ, zero, suc, ◌+◌, ◌*◌, ◌≤◌, ◌<◌, ◌≡◌, ◌≢◌, refl, sym, true, false, not, ◌||◌, List, length,
  nat_beq, ltb, leb, arith, Comparable, Bool-cases, inl, inr,
}
use codestra_alertmanager.Limit.{
  Item, Bucket, parent, priority_at, item_less, up, down, least_child, fix_at,
}
use codestra_alertmanager.Limit.Order.{IsHeap, up-IsHeap, down-IsHeap}
use codestra_alertmanager.Limit.Index.{
  IsIndexed, Rearranged, Rearranged-trans, up-Rearranged, down-Rearranged,
}

-- A bucket whose index agrees with its slice, in heap order, and within its capacity.
pub record IsWellFormed {V : Type 0} ⦃e : Comparable V⦄ (b : Bucket V) : Type 0 where
  pub order : IsHeap b.items (length b.items)
  pub bound : length b.items ≤ b.capacity
  pub indexed : IsIndexed b

-- All edges are in order but those at `i`, and those past it.
pub record AllButAt {ℓ} {V : Type ℓ} (xs : List (Item V)) (n i : ℕ) : Type 0 where
  pub edges :
      (c : ℕ) → 0 < c → c < n → c ≢ i → parent c ≢ i → priority_at xs (parent c) ≤ priority_at xs c
  pub past :
      (c : ℕ) → 0 < c → c < n → parent c ≡ i → 0 < i → priority_at xs (parent i) ≤ priority_at xs c

module _ {V : Type 0} ⦃e : Comparable V⦄ where
  up-IsHeap_same :
      (b : Bucket V) (i n : ℕ)
      → i < n
      → n ≤ length b.items
      → IsHeap b.items n
      → IsHeap (up (suc i) b i).items n
  up-IsHeap_same b i n l m h = up-IsHeap (suc i) b i n (omega arith) l m (record {
    edges = λ c p q r. h c p q;
    past = λ c p q r s. ground (arith, h c p q, h i s l, r);
  })

  down_stays :
      (fuel : ℕ) (b : Bucket V) (i n : ℕ)
      → ((c : ℕ) → 0 < c → c < n → parent c ≡ i → priority_at b.items i ≤ priority_at b.items c)
      → down fuel b i n ≡ (b, i)
  unfolding down
  down_stays zero b i n h = refl
  down_stays (suc fuel) b i n h =
      let stop : (leb n (2 * i + 1) || not (item_less b (least_child b i n) i)) ≡ true =
        ground (arith, h (2 * i + 1), h (2 * i + 2)) in
      rw (stop, down)

  -- Where the priority at `i` is not before its parent's, `down` restores the order.
  fix_at-IsHeap_later :
      (b : Bucket V) (i n : ℕ)
      → i < n
      → n ≡ length b.items
      → IsIndexed b
      → AllButAt b.items n i
      → (0 < i → priority_at b.items (parent i) ≤ priority_at b.items i)
      → IsHeap (fix_at b i).items n
  unfolding fix_at
  fix_at-IsHeap_later b i n l m w v later =
      let k = length b.items in
      let sunk = down-Rearranged k b i k (omega arith) w in
      let h : IsHeap (down k b i k).0.items n = rw m (
        down-IsHeap k b i k (omega arith) (omega arith) (
          rw (sym m)
            (record { edges = λ c p q r. ground (arith, v.edges c, later); past = v.past }))) in
      elim (Bool-cases (ltb i (down k b i k).1)) [
        | inl moved ↦ rw moved h
        | inr stays ↦
            rw stays (up-IsHeap_same (down k b i k).0 i n l (omega (arith, sunk.length_same)) h)
      ]

  -- Where it is before its parent's, `down` does nothing and `up` restores the order.
  fix_at-IsHeap_earlier :
      (b : Bucket V) (i n : ℕ)
      → i < n
      → n ≡ length b.items
      → AllButAt b.items n i
      → 0 < i
      → priority_at b.items i < priority_at b.items (parent i)
      → IsHeap (fix_at b i).items n
  unfolding fix_at
  fix_at-IsHeap_earlier b i n l m v pos earlier =
      let k = length b.items in
      let least : (c : ℕ)
          → 0 < c
          → c < k
          → parent c ≡ i
          → priority_at b.items i ≤ priority_at b.items c =
        λ c p q r. ground (arith, v.past c) in
      let same : ltb i i ≡ false = ground arith in
      rw (down_stays k b i k least, same)
        (up-IsHeap (suc i) b i n (omega arith) l (omega arith)
          (record { edges = λ c p q r. ground (arith, v.edges c, v.past c); past = v.past }))

  pub fix_at-IsHeap :
      (b : Bucket V) (i n : ℕ)
      → i < n
      → n ≡ length b.items
      → IsIndexed b
      → AllButAt b.items n i
      → IsHeap (fix_at b i).items n
  fix_at-IsHeap b i n l m w v =
      elim (Bool-cases
        (nat_beq i 0 || leb (priority_at b.items (parent i)) (priority_at b.items i))) [
          | inl below ↦ fix_at-IsHeap_later b i n l m w v (λ p. ground (arith, below))
          | inr above ↦
              fix_at-IsHeap_earlier b i n l m v (ground (arith, above)) (ground (arith, above))
        ]

  pub fix_at-Rearranged :
      (b : Bucket V) (i : ℕ) → i < length b.items → IsIndexed b → Rearranged b (fix_at b i)
  unfolding fix_at
  fix_at-Rearranged b i l w =
      let sunk = down-Rearranged (length b.items) b i (length b.items) (omega arith) w in
      elim (Bool-cases (ltb i (down (length b.items) b i (length b.items)).1)) [
        | inl moved ↦ rw moved sunk
        | inr stays ↦ rw stays (
            Rearranged-trans sunk (
              up-Rearranged (suc i) (down (length b.items) b i (length b.items)).0 i
                (omega (arith, sunk.length_same)) sunk.indexed))
      ]
