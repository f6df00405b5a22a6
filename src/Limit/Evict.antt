-- ===== src/Limit/Evict.antt =====
-- `heap.Pop` of limit/bucket.go: the eviction of the first item of a bucket.
use codestra_alertmanager.Prelude.{
  ℕ, suc, ◌-◌, ◌≡◌, ◌≢◌, ◌∙◌, none, some, length, arith, Comparable,
}
use codestra_alertmanager.Prelude.Maps.{lookup, erase, lookup-erase}
use codestra_alertmanager.Limit.{Bucket, parent, drop_last, swap, down, pop}
use codestra_alertmanager.Limit.Swap.{value_at, value_at-lt, get_elem?-drop_last, length-drop_last}
use codestra_alertmanager.Limit.Order.{priority_at-swap, IsHeap, AllButBelow, down-IsHeap}
use codestra_alertmanager.Limit.Index.{
  IsIndexed, Rearranged-trans, down-Rearranged, priority_for, swap-Rearranged, value_at-down,
  value_at-swap,
}
use codestra_alertmanager.Limit.Update.{IsWellFormed}
use codestra_alertmanager.Limit.Contents.{priority_for-known}

module _ {V : Type 0} ⦃e : Comparable V⦄ where
  -- `v` has left the bucket and the other values are as they were.
  pub record Evicted (b b' : Bucket V) (v : V) : Type 0 where
    pub well : IsWellFormed b'
    pub capacity_same : b'.capacity ≡ b.capacity
    pub shorter : suc (length b'.items) ≡ length b.items
    pub gone : lookup v b'.index ≡ none
    pub others : (w : V) → v ≢ w → priority_for b' w ≡ priority_for b w

  root_swap-AllButBelow :
      (b : Bucket V) (n : ℕ)
      → suc n ≡ length b.items
      → IsHeap b.items (length b.items)
      → AllButBelow (swap b 0 n).items n 0
  root_swap-AllButBelow b n m h =
      let at = λ (k : ℕ). priority_at-swap b 0 n k (omega arith) (omega arith) in
      record {
        edges = λ c p q r. ground (arith, at c, at (parent c), h c);
        past = λ c p q r s. ground arith;
      }

  -- The last position, which has `v`, is cut off, and the index loses `v`.
  cut-IsIndexed :
      (b : Bucket V) (v : V) (n : ℕ)
      → suc n ≡ length b.items
      → value_at b.items n ≡ some v
      → IsIndexed b
      → IsIndexed (record b { items = drop_last b.items; index = erase v b.index })
  cut-IsIndexed b v n m p w =
      let at = λ (k : ℕ). get_elem?-drop_last b.items k in
      let found = λ (u : V). lookup-erase v u b.index in
      record {
        there =
            λ u k l. ground (arith, at k, found u, l, w.there u k, w.back v n p, e.beq_iff v u, m);
        back = λ u k l.
            ground (arith, at k, found u, l, w.back u k, p, m, e.beq_iff v u, w.back v n p);
      }

  pub pop-Evicted :
      (b : Bucket V) (v : V) → IsWellFormed b → value_at b.items 0 ≡ some v → Evicted b (pop b v) v
  unfolding pop
  pop-Evicted b v w h =
      let n = length b.items - 1 in
      let pos = value_at-lt b.items 0 h in
      let whole : suc n ≡ length b.items = omega arith in
      let s = swap-Rearranged b 0 n pos (omega arith) w.indexed in
      let ls = s.length_same in
      let c = (down (suc n) (swap b 0 n) 0 n).0 in
      let r =
        Rearranged-trans s
          (down-Rearranged (suc n) (swap b 0 n) 0 n (omega (arith, ls)) s.indexed) in
      let order : IsHeap c.items n =
        down-IsHeap (suc n) (swap b 0 n) 0 n (omega arith) (omega (arith, ls))
          (root_swap-AllButBelow b n whole w.order) in
      let end : value_at c.items n ≡ some v =
        value_at-down (suc n) (swap b 0 n) 0 n n (omega arith) (omega (arith, ls))
        ∙ ground (arith, value_at-swap b 0 n n pos (omega arith), h) in
      let len : suc (length (drop_last c.items)) ≡ length b.items =
        omega (arith, length-drop_last c.items, r.length_same) in
      let m : suc n ≡ length c.items = omega (arith, r.length_same) in
      let found = λ (u : V). lookup-erase v u c.index in
      record {
        well = record {
          order = λ j p q. ground (
            arith,
            get_elem?-drop_last c.items j,
            get_elem?-drop_last c.items (parent j),
            order j,
            len,
            r.length_same,
          );
          bound = omega (arith, len, r.capacity_same, w.bound);
          indexed = cut-IsIndexed c v n m end r.indexed;
        };
        capacity_same = r.capacity_same;
        shorter = len;
        gone = ground (arith, found v, e.beq_iff v v);
        others = λ u d.
            priority_for-known c (record c { items = drop_last c.items; index = erase v c.index }) u
              (ground (arith, found u, e.beq_iff v u, d))
              (λ k q.
                ground (arith, get_elem?-drop_last c.items k, r.indexed.there u k q, end, d, m))
            ∙ r.priority_same u;
      }
