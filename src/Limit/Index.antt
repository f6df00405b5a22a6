-- ===== src/Limit/Index.antt =====
-- The index of a bucket of limit/bucket.go agrees with the slice, and rearranging keeps it so.
use codestra_alertmanager.Prelude.{
  ℕ, zero, suc, ◌+◌, ◌*◌, ◌≤◌, ◌<◌, ◌≡◌, refl, sym, ap, ◌∙◌, not, ◌||◌, Option, none, some, List,
  length, nat_beq, leb, arith, if◌then◌else◌, Comparable, Bool-cases, Option-cases, inl, inr,
}
use codestra_alertmanager.Prelude.Equality.{◌==◌}
use codestra_alertmanager.Prelude.Maps.{lookup, insert, lookup-insert}
use codestra_alertmanager.Clock.{Time}
use codestra_alertmanager.Limit.{
  Item, Bucket, parent, priority_at, swap, item_less, up, down, least_child,
}
use codestra_alertmanager.Limit.Swap.{
  value_at, value_of, value_at-lt, value_at-some, get_elem?-swap, get_elem?-some, length-swap,
  capacity-swap, swap_lem,
}
use codestra_alertmanager.Limit.Order.{least_child_lem, priority_at-swap}

module _ {V : Type 0} ⦃e : Comparable V⦄ where
  -- The index has a position for a value exactly where the slice has that value.
  pub record IsIndexed (b : Bucket V) : Type 0 where
    pub there : (v : V) (i : ℕ) → lookup v b.index ≡ some i → value_at b.items i ≡ some v
    pub back : (v : V) (i : ℕ) → value_at b.items i ≡ some v → lookup v b.index ≡ some i

  -- The priority under which a bucket holds a value.
  abbrev pub priority_in : List (Item V) → Option ℕ → Option Time
  priority_in xs none = none
  priority_in xs (some i) = some (priority_at xs i)

  unfoldable pub priority_for : Bucket V → V → Option Time
  priority_for b v = priority_in b.items (lookup v b.index)

  -- The same content in another order.
  pub record Rearranged (b b' : Bucket V) : Type 0 where
    pub capacity_same : b'.capacity ≡ b.capacity
    pub length_same : length b'.items ≡ length b.items
    pub indexed : IsIndexed b'
    pub priority_same : (v : V) → priority_for b' v ≡ priority_for b v

  pub value_at-swap :
      (b : Bucket V) (i j k : ℕ)
      → i < length b.items
      → j < length b.items
      → value_at (swap b i j).items k ≡ (
          if nat_beq k j
          then value_at b.items i
          else if nat_beq k i
          then value_at b.items j
          else value_at b.items k)
  value_at-swap b i j k hi hj = ap value_of (get_elem?-swap b i j k hi hj) ∙ ground arith

  lookup-swap :
      (b : Bucket V) (i j : ℕ) {x y : V} (v : V)
      → value_at b.items i ≡ some x
      → value_at b.items j ≡ some y
      → lookup v (swap b i j).index
        ≡ (if x == v then some j else if y == v then some i else lookup v b.index)
  lookup-swap b i j {x} {y} v p q =
      let (s, ps) = get_elem?-some b.items i (value_at-lt b.items i p) in
      let (t, qt) = get_elem?-some b.items j (value_at-lt b.items j q) in
      rw
        (
          swap_lem b i j s t ps qt,
          lookup-insert s.value v j (insert t.value i b.index),
          lookup-insert t.value v i b.index,
        )
        (ground (arith, ps, qt, p, q))

  pub swap-IsIndexed :
      (b : Bucket V) (i j : ℕ)
      → i < length b.items
      → j < length b.items
      → IsIndexed b
      → IsIndexed (swap b i j)
  swap-IsIndexed b i j hi hj w =
      let (x, p) = value_at-some b.items i hi in
      let (y, q) = value_at-some b.items j hj in
      record {
        there = λ v k h. ground (
          arith,
          h,
          lookup-swap b i j v p q,
          value_at-swap b i j k hi hj,
          p,
          q,
          w.there v k,
          e.beq_iff x v,
          e.beq_iff y v,
          w.back x i p,
          w.back y j q,
        );
        back = λ v k h. ground (
          arith,
          h,
          lookup-swap b i j v p q,
          value_at-swap b i j k hi hj,
          p,
          q,
          w.back v k,
          e.beq_iff x v,
          e.beq_iff y v,
          w.back x i p,
          w.back y j q,
        );
      }

  pub priority_for_lem :
      (b : Bucket V) (v : V) (i : ℕ)
      → lookup v b.index ≡ some i
      → priority_for b v ≡ some (priority_at b.items i)
  unfolding priority_for
  priority_for_lem b v i h = rw h refl

  pub priority_for-none : (b : Bucket V) (v : V) → lookup v b.index ≡ none → priority_for b v ≡ none
  unfolding priority_for
  priority_for-none b v h = rw h refl

  priority_for-swap :
      (b : Bucket V) (i j : ℕ)
      → i < length b.items
      → j < length b.items
      → IsIndexed b
      → (v : V) → priority_for (swap b i j) v ≡ priority_for b v
  priority_for-swap b i j hi hj w v =
      let (x, p) = value_at-some b.items i hi in
      let (y, q) = value_at-some b.items j hj in
      let px = w.back x i p in
      let py = w.back y j q in
      let at = λ (k : ℕ). priority_at-swap b i j k hi hj in
      let found = lookup-swap b i j v p q in
      elim (Option-cases (lookup v b.index)) [
        | inl n ↦
            priority_for-none (swap b i j) v
              (ground (arith, found, n, px, py, e.beq_iff x v, e.beq_iff y v))
            ∙ sym (priority_for-none b v n)
        | inr (k, m) ↦ elim (Bool-cases (x == v)) [
          | inl same ↦
              priority_for_lem (swap b i j) v j (ground (arith, found, same))
              ∙ ap some (ground (arith, at j, same, px, m, e.beq_iff x v))
              ∙ sym (priority_for_lem b v k m)
          | inr first ↦ elim (Bool-cases (y == v)) [
            | inl same ↦
                priority_for_lem (swap b i j) v i (ground (arith, found, first, same))
                ∙ ap some (ground (arith, at i, same, px, py, m, e.beq_iff y v))
                ∙ sym (priority_for_lem b v k m)
            | inr second ↦
                priority_for_lem (swap b i j) v k (ground (arith, found, first, second, m))
                ∙ ap some (
                    ground (
                      arith,
                      at k,
                      first,
                      second,
                      p,
                      q,
                      m,
                      w.there v k m,
                      e.beq_iff x v,
                      e.beq_iff y v,
                    ))
                ∙ sym (priority_for_lem b v k m)
          ]
        ]
      ]

  pub Rearranged-refl : (b : Bucket V) → IsIndexed b → Rearranged b b
  Rearranged-refl b w = record {
    capacity_same = refl;
    length_same = refl;
    indexed = w;
    priority_same = λ v. refl;
  }

  pub Rearranged-trans : {a b c : Bucket V} → Rearranged a b → Rearranged b c → Rearranged a c
  Rearranged-trans r s = record {
    capacity_same = s.capacity_same ∙ r.capacity_same;
    length_same = s.length_same ∙ r.length_same;
    indexed = s.indexed;
    priority_same = λ v. s.priority_same v ∙ r.priority_same v;
  }

  pub swap-Rearranged :
      (b : Bucket V) (i j : ℕ)
      → i < length b.items
      → j < length b.items
      → IsIndexed b
      → Rearranged b (swap b i j)
  swap-Rearranged b i j hi hj w = record {
    capacity_same = capacity-swap b i j;
    length_same = length-swap b i j;
    indexed = swap-IsIndexed b i j hi hj w;
    priority_same = priority_for-swap b i j hi hj w;
  }

  pub up-Rearranged :
      (fuel : ℕ) (b : Bucket V) (j : ℕ)
      → j < length b.items
      → IsIndexed b
      → Rearranged b (up fuel b j)
  unfolding up
  up-Rearranged zero b j h w = Rearranged-refl b w
  up-Rearranged (suc fuel) b j h w =
      elim (Bool-cases (nat_beq (parent j) j || not (item_less b j (parent j)))) [
        | inl stop ↦ rw (stop, up) (Rearranged-refl b w)
        | inr rise ↦
            let step = swap-Rearranged b (parent j) j (omega arith) h w in
            rw (rise, up)
              (Rearranged-trans step (
                up-Rearranged fuel (swap b (parent j) j) (parent j)
                  (omega (arith, length-swap b (parent j) j)) step.indexed))
      ]

  pub down-Rearranged :
      (fuel : ℕ) (b : Bucket V) (i n : ℕ)
      → n ≤ length b.items
      → IsIndexed b
      → Rearranged b (down fuel b i n).0
  unfolding down
  down-Rearranged zero b i n l w = Rearranged-refl b w
  down-Rearranged (suc fuel) b i n l w =
      elim (Bool-cases (leb n (2 * i + 1) || not (item_less b (least_child b i n) i))) [
        | inl stop ↦ rw (stop, down) (Rearranged-refl b w)
        | inr sink ↦
            let inside : 2 * i + 1 < n = ground (arith, sink) in
            let child = least_child_lem b i n inside in
            let step =
              swap-Rearranged b i (least_child b i n) (omega arith) (omega (arith, child.0)) w in
            rw (sink, down)
              (Rearranged-trans step (
                down-Rearranged fuel (swap b i (least_child b i n)) (least_child b i n) n
                  (omega (arith, length-swap b i (least_child b i n))) step.indexed))
      ]

  -- Nothing at or past `n` moves.
  pub value_at-down :
      (fuel : ℕ) (b : Bucket V) (i n k : ℕ)
      → n ≤ k
      → n ≤ length b.items
      → value_at (down fuel b i n).0.items k ≡ value_at b.items k
  unfolding down
  value_at-down zero b i n k h l = refl
  value_at-down (suc fuel) b i n k h l =
      elim (Bool-cases (leb n (2 * i + 1) || not (item_less b (least_child b i n) i))) [
        | inl stop ↦ rw (stop, down)
        | inr sink ↦
            let inside : 2 * i + 1 < n = ground (arith, sink) in
            let child = least_child_lem b i n inside in
            rw (sink, down)
              (value_at-down fuel (swap b i (least_child b i n)) (least_child b i n) n k h
                  (omega (arith, length-swap b i (least_child b i n)))
                ∙ ground (
                  arith,
                  value_at-swap b i (least_child b i n) k (omega arith) (omega (arith, child.0)),
                  child.0,
                  child.1,
                ))
      ]
