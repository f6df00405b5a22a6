-- ===== src/Limit/Upsert.antt =====
-- `Upsert` of limit/bucket.go: what a bucket has after it, and when it refuses.
use codestra_alertmanager.Prelude.{
  ℕ, zero, suc, ◌≤◌, ◌<◌, ◌≡◌, ◌≢◌, refl, sym, ap, ◌∙◌, Bool, true, false, none, some, List, [],
  ◌∷◌, length, ltb, arith, Comparable, Bool-cases, Option-cases, inl, inr, ◌⊎◌,
}
use codestra_alertmanager.Prelude.Equality.{◌==◌}
use codestra_alertmanager.Prelude.Maps.{lookup}
use codestra_alertmanager.Clock.{Time}
use codestra_alertmanager.Limit.{
  Item, Bucket, parent, priority_at, push, pop, upsert, is_expired, new_bucket,
}
use codestra_alertmanager.Limit.Swap.{value_at, value_of, get_elem?-some}
use codestra_alertmanager.Limit.Order.{IsHeap}
use codestra_alertmanager.Limit.Index.{priority_for, priority_for_lem, priority_for-none}
use codestra_alertmanager.Limit.Update.{IsWellFormed}
use codestra_alertmanager.Limit.Contents.{Put, update_item-Put, push-Put}
use codestra_alertmanager.Limit.Evict.{pop-Evicted}

module _ {V : Type 0} ⦃e : Comparable V⦄ where
  root_least :
      (xs : List (Item V)) (n fuel c : ℕ)
      → c < fuel
      → c < n
      → IsHeap xs n
      → priority_at xs 0 ≤ priority_at xs c
  root_least xs n zero c f l h = absurd (omega arith)
  root_least xs n (suc fuel) zero f l h = omega arith
  root_least xs n (suc fuel) (suc c) f l h = omega (
    arith,
    h (suc c) (omega arith) l,
    root_least xs n fuel (parent (suc c)) (omega arith) (omega arith) h,
  )

  -- Each value that `b'` has besides `v` was in `b` under the same priority, and a value that has
  -- left was the first of a full bucket and had expired.
  pub record Upserted (b b' : Bucket V) (v : V) (p now : Time) : Type 0 where
    pub well : IsWellFormed b'
    pub capacity_same : b'.capacity ≡ b.capacity
    pub put : priority_for b' v ≡ some p
    pub others :
        (w : V)
        → v ≢ w
        → (priority_for b' w ≡ priority_for b w)
          ⊎ ((priority_for b' w ≡ none)
              × (length b.items ≡ b.capacity)
              × (lookup v b.index ≡ none)
              × (value_at b.items 0 ≡ some w)
              × (priority_at b.items 0 < now))

  -- Why a bucket refuses a value.
  pub record Refused (b : Bucket V) (v : V) (now : Time) : Type 0 where
    pub absent : lookup v b.index ≡ none
    pub full : length b.items ≡ b.capacity
    pub live : (i : ℕ) → i < length b.items → now ≤ priority_at b.items i

  Put-Upserted :
      {b b' : Bucket V} {v : V} {p : Time} (now : Time) → Put b b' v p → Upserted b b' v p now
  Put-Upserted now u = record {
    well = u.well;
    capacity_same = u.capacity_same;
    put = u.put;
    others = λ w d. inl (u.others w d);
  }

  -- A refusal, with the bucket as it was, or the value stored.
  abbrev pub Outcome : Bucket V → V → Time → Time → Bucket V × Bool → Type 0
  Outcome b v p now (b', ok) =
      ((ok ≡ true) × Upserted b b' v p now) ⊎ ((ok ≡ false) × (b' ≡ b) × Refused b v now)

  priority_for-absent : (b : Bucket V) (v : V) → priority_for b v ≡ none → lookup v b.index ≡ none
  priority_for-absent b v h = elim (Option-cases (lookup v b.index)) [
    | inl n ↦ n
    | inr (k, m) ↦ absurd (ground (arith, h, priority_for_lem b v k m))
  ]

  upsert_evicting :
      (b : Bucket V) (v x : V) (p now : Time)
      → IsWellFormed b
      → lookup v b.index ≡ none
      → length b.items ≡ b.capacity
      → value_at b.items 0 ≡ some x
      → priority_at b.items 0 < now
      → Upserted b (push (pop b x) v p) v p now
  upsert_evicting b v x p now w h full root old =
      let out = pop-Evicted b x w root in
      let differs : x ≢ v = λ q. ground (arith, h, q, w.indexed.back x 0 root) in
      let absent : lookup v (pop b x).index ≡ none =
        priority_for-absent (pop b x) v (out.others v differs ∙ priority_for-none b v h) in
      let put =
        push-Put (pop b x) v p out.well absent
          (omega (arith, out.shorter, out.capacity_same, full)) in
      record {
        well = put.well;
        capacity_same = put.capacity_same ∙ out.capacity_same;
        put = put.put;
        others = λ u d. elim (Bool-cases (x == u)) [
          | inl same ↦
              let q : x ≡ u = (e.beq_iff x u).0 same in
              inr (
                put.others u d ∙ priority_for-none (pop b x) u (rw (sym q) out.gone),
                full,
                h,
                rw (sym q) root,
                old,
              )
          | inr other ↦
              inl (put.others u d ∙ out.others u (λ q. ground (arith, other, e.beq_iff x u, q)))
        ];
      }

  -- In a well-formed bucket with a capacity `Upsert` either stores the value under its priority,
  -- keeping every other value under its own, except that a full bucket may lose its first item,
  -- which has expired; or it refuses and changes nothing, when the value is not there and the
  -- bucket is full of items none of which has expired.
  pub upsert-Outcome :
      (b : Bucket V) (v : V) (p now : Time)
      → IsWellFormed b
      → 0 < b.capacity
      → Outcome b v p now (upsert b v p now)
  unfolding upsert
  upsert-Outcome b v p now w pos =
      let some_room : ltb b.capacity 1 ≡ false = ground arith in
      elim (Option-cases (lookup v b.index)) [
        | inr (i, h) ↦
            rw (some_room, h) (inl (refl, Put-Upserted now (update_item-Put b v i p w h)))
        | inl h ↦ elim (Bool-cases (ltb (length b.items) b.capacity)) [
          | inl room ↦
              rw (some_room, h, room)
                (inl (refl, Put-Upserted now (push-Put b v p w h (ground (arith, room)))))
          | inr none_left ↦
              let (x, q) = get_elem?-some b.items 0 (ground (arith, none_left)) in
              let full : length b.items ≡ b.capacity = ground (arith, none_left, w.bound) in
              elim (Bool-cases (is_expired x now)) [
                | inl old ↦
                    rw (some_room, h, none_left, q, old)
                      (inl (
                        refl,
                        upsert_evicting b v x.value p now w h full (ap value_of q)
                            (ground (arith, old, q)),
                      ))
                | inr live ↦
                    rw (some_room, h, none_left, q, live)
                      (inr (
                        refl,
                        refl,
                        record {
                          absent = h;
                          full = full;
                          live = λ i l. ground (
                            arith,
                            live,
                            q,
                            root_least b.items (length b.items) (suc i) i (omega arith) l w.order,
                          );
                        },
                      ))
              ]
        ]
      ]

  upsert_none_fits :
      (b : Bucket V) (v : V) (p now : Time)
      → ltb b.capacity 1 ≡ true
      → upsert b v p now ≡ (b, false)
  unfolding upsert
  upsert_none_fits b v p now h = rw h

  pub upsert-IsWellFormed :
      (b : Bucket V) (v : V) (p now : Time) → IsWellFormed b → IsWellFormed (upsert b v p now).0
  upsert-IsWellFormed b v p now w = elim (Bool-cases (ltb b.capacity 1)) [
    | inl none_fits ↦ rw (upsert_none_fits b v p now none_fits) w
    | inr fits ↦ elim (upsert-Outcome b v p now w (ground (arith, fits))) [
      | inl (q, u) ↦ u.well
      | inr (q, same, r) ↦ rw same w
    ]
  ]

  pub capacity-upsert :
      (b : Bucket V) (v : V) (p now : Time)
      → IsWellFormed b
      → (upsert b v p now).0.capacity ≡ b.capacity
  capacity-upsert b v p now w = elim (Bool-cases (ltb b.capacity 1)) [
    | inl none_fits ↦ rw (upsert_none_fits b v p now none_fits)
    | inr fits ↦ elim (upsert-Outcome b v p now w (ground (arith, fits))) [
      | inl (q, u) ↦ u.capacity_same
      | inr (q, same, r) ↦ rw same
    ]
  ]

  pub new_bucket-IsWellFormed : (n : ℕ) → IsWellFormed (new_bucket {V = V} n)
  unfolding new_bucket lookup
  new_bucket-IsWellFormed n = record {
    order = λ c p q. absurd (omega arith);
    bound = omega arith;
    indexed = record { there = λ v i h. ground (arith, h); back = λ v i h. ground (arith, h) };
  }

  -- Calls of `Upsert` one after another: the value, its priority, and the clock.
  abbrev pub upserts : Bucket V → List (V × Time × Time) → Bucket V
  upserts b [] = b
  upserts b ((v, p, now) ∷ calls) = upserts (upsert b v p now).0 calls

  upserts_from-IsWellFormed :
      (b : Bucket V) (calls : List (V × Time × Time))
      → IsWellFormed b
      → IsWellFormed (upserts b calls)
  upserts_from-IsWellFormed b [] w = w
  upserts_from-IsWellFormed b ((v, p, now) ∷ calls) w =
      upserts_from-IsWellFormed (upsert b v p now).0 calls (upsert-IsWellFormed b v p now w)

  -- After any calls of `Upsert` from a new bucket, the slice is in heap order, has no more items
  -- than the capacity, and agrees with the index.
  pub upserts-IsWellFormed :
      (capacity : ℕ) (calls : List (V × Time × Time))
      → IsWellFormed (upserts (new_bucket {V = V} capacity) calls)
  upserts-IsWellFormed capacity calls =
      upserts_from-IsWellFormed (new_bucket capacity) calls (new_bucket-IsWellFormed capacity)
