-- ===== src/Limit/Contents.antt =====
-- What `update`, `heap.Push` and `heap.Pop` of limit/bucket.go leave in a bucket.
use codestra_alertmanager.Prelude.{
  ℕ, suc, ◌+◌, ◌<◌, ◌≡◌, ◌≢◌, refl, sym, ap, ◌∙◌, none, some, [], ◌∷◌, ◌++◌, length, get_elem?,
  nat_beq, arith, if◌then◌else◌, Comparable, Option-cases, inl, inr, length-append,
}
use codestra_alertmanager.Prelude.Maps.{lookup, insert, lookup-insert}
use codestra_alertmanager.Clock.{Time}
use codestra_alertmanager.Limit.{
  Item, Bucket, parent, priority_at, set_elem, fix_at, update_item, push,
}
use codestra_alertmanager.Limit.Swap.{
  get_elem?-some, get_elem?-lt, get_elem?-set_elem, length-set_elem, value_at-lt, get_elem?-append,
}
use codestra_alertmanager.Limit.Order.{up-IsHeap}
use codestra_alertmanager.Limit.Index.{
  IsIndexed, up-Rearranged, priority_for, priority_for_lem, priority_for-none,
}
use codestra_alertmanager.Limit.Update.{IsWellFormed, fix_at-IsHeap, fix_at-Rearranged}

module _ {V : Type 0} ⦃e : Comparable V⦄ where
  -- An operation has put `p` under `v` and left the other values alone.
  pub record Put (b b' : Bucket V) (v : V) (p : Time) : Type 0 where
    pub well : IsWellFormed b'
    pub capacity_same : b'.capacity ≡ b.capacity
    pub put : priority_for b' v ≡ some p
    pub others : (w : V) → v ≢ w → priority_for b' w ≡ priority_for b w

  pub priority_for-known :
      (b c : Bucket V) (w : V)
      → lookup w c.index ≡ lookup w b.index
      → ((k : ℕ) → lookup w b.index ≡ some k → priority_at c.items k ≡ priority_at b.items k)
      → priority_for c w ≡ priority_for b w
  priority_for-known b c w same at = elim (Option-cases (lookup w b.index)) [
    | inl n ↦ priority_for-none c w (same ∙ n) ∙ sym (priority_for-none b w n)
    | inr (k, m) ↦
        priority_for_lem c w k (same ∙ m) ∙ ap some (at k m) ∙ sym (priority_for_lem b w k m)
  ]

  -- `item.priority = priority`, before `heap.Fix`
  set_priority-IsIndexed :
      (b : Bucket V) (i : ℕ) (x : Item V) (p : Time)
      → get_elem? b.items i ≡ some x
      → IsIndexed b
      → IsIndexed (record b { items = set_elem b.items i (record x { priority = p }) })
  set_priority-IsIndexed b i x p h w =
      let at = λ (k : ℕ).
        get_elem?-set_elem b.items i (record x { priority = p }) k (get_elem?-lt b.items i h) in
      record {
        there = λ v k l. ground (arith, at k, w.there v k l, h);
        back = λ v k l. w.back v k (ground (arith, at k, l, h));
      }

  set_priority-Put :
      (b : Bucket V) (v : V) (i : ℕ) (x : Item V) (p : Time)
      → IsWellFormed b
      → lookup v b.index ≡ some i
      → get_elem? b.items i ≡ some x
      → Put b (fix_at (record b { items = set_elem b.items i (record x { priority = p }) }) i) v p
  set_priority-Put b v i x p w h q =
      let c : Bucket V = record b { items = set_elem b.items i (record x { priority = p }) } in
      let l = get_elem?-lt b.items i q in
      let n = length-set_elem b.items i (record x { priority = p }) in
      let at : (k : ℕ)
          → priority_at c.items k ≡ (if nat_beq k i then p else priority_at b.items k) =
        λ k. ground (arith, get_elem?-set_elem b.items i (record x { priority = p }) k l) in
      let cw = set_priority-IsIndexed b i x p q w.indexed in
      let r = fix_at-Rearranged c i (omega (arith, n)) cw in
      record {
        well = record {
          order =
              rw (r.length_same, n)
                (fix_at-IsHeap c i (length b.items) l (sym n) cw (record {
                  edges = λ j s t o u. ground (arith, at j, at (parent j), w.order j s t);
                  past = λ j s t o u.
                      ground (arith, at j, at (parent i), w.order j s t, w.order i u l);
                }));
          bound = omega (arith, r.length_same, n, r.capacity_same, w.bound);
          indexed = r.indexed;
        };
        capacity_same = r.capacity_same;
        put = r.priority_same v ∙ priority_for_lem c v i h ∙ ap some (ground (arith, at i));
        others = λ u d.
            r.priority_same u
            ∙ priority_for-known b c u refl
                (λ k m. ground (arith, at k, w.indexed.there v i h, w.indexed.there u k m, d));
      }

  pub update_item-Put :
      (b : Bucket V) (v : V) (i : ℕ) (p : Time)
      → IsWellFormed b
      → lookup v b.index ≡ some i
      → Put b (update_item b i p) v p
  unfolding update_item
  update_item-Put b v i p w h =
      let (x, q) = get_elem?-some b.items i (value_at-lt b.items i (w.indexed.there v i h)) in
      rw q (set_priority-Put b v i x p w h q)

  append-IsIndexed :
      (b : Bucket V) (v : V) (p : Time)
      → lookup v b.index ≡ none
      → IsIndexed b
      → IsIndexed (record b {
        index = insert v (length b.items) b.index;
        items = b.items ++ record { value = v; priority = p } ∷ [];
      })
  append-IsIndexed b v p h w =
      let at = λ (k : ℕ). get_elem?-append b.items (record { value = v; priority = p }) k in
      let found = λ (u : V). lookup-insert v u (length b.items) b.index in
      record {
        there = λ u k l.
            ground (
              arith,
              at k,
              found u,
              l,
              h,
              e.beq_iff v u,
              w.there u k,
              value_at-lt b.items k {v = u},
            );
        back = λ u k l.
            ground (
              arith,
              at k,
              found u,
              l,
              h,
              e.beq_iff v u,
              w.back u k,
              value_at-lt b.items k {v = u},
            );
      }

  pub push-Put :
      (b : Bucket V) (v : V) (p : Time)
      → IsWellFormed b
      → lookup v b.index ≡ none
      → length b.items < b.capacity
      → Put b (push b v p) v p
  unfolding push
  push-Put b v p w h l =
      let n = length b.items in
      let c : Bucket V = record b {
        index = insert v n b.index;
        items = b.items ++ record { value = v; priority = p } ∷ [];
      } in
      let at : (k : ℕ)
          → priority_at c.items k ≡ (if nat_beq k n then p else priority_at b.items k) =
        λ k. ground (arith, get_elem?-append b.items (record { value = v; priority = p }) k) in
      let m : length c.items ≡ n + 1 =
        length-append b.items (record { value = v; priority = p } ∷ []) in
      let cw = append-IsIndexed b v p h w.indexed in
      let r = up-Rearranged (suc n) c n (omega (arith, m)) cw in
      let found = λ (u : V). lookup-insert v u n b.index in
      record {
        well = record {
          order =
              rw (r.length_same, m)
                (up-IsHeap (suc n) c n (n + 1) (omega arith) (omega arith) (omega (arith, m))
                  (record {
                    edges = λ j s t o. ground (arith, at j, at (parent j), w.order j);
                    past = λ j s t o u. ground arith;
                  }));
          bound = omega (arith, r.length_same, m, r.capacity_same, l);
          indexed = r.indexed;
        };
        capacity_same = r.capacity_same;
        put =
            r.priority_same v
            ∙ priority_for_lem c v n (ground (arith, found v, e.beq_iff v v))
            ∙ ap some (ground (arith, at n));
        others = λ u d.
            r.priority_same u
            ∙ priority_for-known b c u (ground (arith, found u, e.beq_iff v u, d))
                (λ k q. ground (arith, at k, w.indexed.there u k q, value_at-lt b.items k {v = u}));
      }
