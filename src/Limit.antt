-- ===== src/Limit.antt =====
-- limit/bucket.go: a bucket of values, each with the time at which it expires, over a heap.
--
-- A value names its item, since the index has one item for each value: the map `index` gives the
-- field `index` of the item that a value points to, and `Swap` and `Push` write that field. The heap
-- procedures are those of container/heap. They swap within the slice; `swap` leaves the bucket alone
-- where Go would panic. `heap.Fix` is called with the stored index.
pub mod Swap
pub mod Order
pub mod Index
pub mod Update
pub mod Contents
pub mod Evict
pub mod Upsert
use codestra_alertmanager.Prelude.{
  ℕ, zero, suc, ◌+◌, ◌-◌, ◌*◌, ◌/◌, Bool, true, false, not, Option, none, some, List, [], ◌∷◌, ◌++◌,
  ◌||◌, ◌&&◌, length, get_elem?, ltb, leb, nat_beq, if◌then◌else◌, Comparable,
}
use codestra_alertmanager.Prelude.Maps.{Map, lookup, insert, erase}
use codestra_alertmanager.Clock.{Time, before}

pub record Item {ℓ} (V : Type ℓ) : Type ℓ where
  pub value : V
  pub priority : Time

-- `item.expired`
abbrev pub is_expired {ℓ} : {V : Type ℓ} → Item V → Time → Bool
is_expired x now = before x.priority now

pub record Bucket {ℓ} (V : Type ℓ) : Type ℓ where
  pub index : Map V ℕ
  pub items : List (Item V)
  pub capacity : ℕ

-- The index of a parent; Go's `(0 - 1) / 2` is 0.
abbrev pub parent : ℕ → ℕ
parent j = (j - 1) / 2

-- A write out of bounds changes nothing.
abbrev pub set_elem {ℓ} : {A : Type ℓ} → List A → ℕ → A → List A
set_elem [] i a = []
set_elem (x ∷ xs) zero a = a ∷ xs
set_elem (x ∷ xs) (suc i) a = x ∷ set_elem xs i a

abbrev pub priority_of {ℓ} : {V : Type ℓ} → Option (Item V) → Time
priority_of none = 0
priority_of (some x) = x.priority

abbrev pub priority_at {ℓ} : {V : Type ℓ} → List (Item V) → ℕ → Time
priority_at xs i = priority_of (get_elem? xs i)

-- `append` without the last element, `old[0 : n-1]`.
abbrev pub drop_last {ℓ} : {A : Type ℓ} → List A → List A
drop_last [] = []
drop_last (x ∷ []) = []
drop_last (x ∷ y ∷ xs) = x ∷ drop_last (y ∷ xs)

module _ {ℓ} {V : Type ℓ} ⦃e : Comparable V⦄ where
  -- `sortedItems.Less` and `sortedItems.Swap`
  abbrev pub item_less : Bucket V → ℕ → ℕ → Bool
  item_less b i j = before (priority_at b.items i) (priority_at b.items j)

  abbrev pub swapped : Bucket V → ℕ → ℕ → Option (Item V) → Option (Item V) → Bucket V
  swapped b i j (some x) (some y) = record b {
    index = insert x.value j (insert y.value i b.index);
    items = set_elem (set_elem b.items i y) j x;
  }
  swapped b i j x y = b

  unfoldable pub swap : Bucket V → ℕ → ℕ → Bucket V
  swap b i j = swapped b i j (get_elem? b.items i) (get_elem? b.items j)

  -- `up` of container/heap, on fuel.
  unfoldable pub up : ℕ → Bucket V → ℕ → Bucket V
  up zero b j = b
  up (suc fuel) b j =
      let i = parent j in
      elim (nat_beq i j || not (item_less b j i)) [ true ↦ b | false ↦ up fuel (swap b i j) i ]

  -- The child that is not the later one.
  abbrev pub least_child : Bucket V → ℕ → ℕ → ℕ
  least_child b i n =
      let left = 2 * i + 1 in
      if ltb (left + 1) n && item_less b (left + 1) left then left + 1 else left

  -- `down` of container/heap, on fuel: the bucket, and where the item has come to.
  unfoldable pub down : ℕ → Bucket V → ℕ → ℕ → Bucket V × ℕ
  down zero b i n = (b, i)
  down (suc fuel) b i n =
      let j = least_child b i n in
      elim (leb n (2 * i + 1) || not (item_less b j i)) [
        | true ↦ (b, i)
        | false ↦ down fuel (swap b i j) j n
      ]

  -- `heap.Fix`
  unfoldable pub fix_at : Bucket V → ℕ → Bucket V
  fix_at b i =
      let (sunk, k) = down (length b.items) b i (length b.items) in
      if ltb i k then sunk else up (suc i) sunk i

  -- `sortedItems.update`: the new priority, and the order restored.
  abbrev pub with_priority : Bucket V → ℕ → Time → Option (Item V) → Bucket V
  with_priority b i p none = b
  with_priority b i p (some x) = record b { items = set_elem b.items i (record x { priority = p }) }

  unfoldable pub update_item : Bucket V → ℕ → Time → Bucket V
  update_item b i p = fix_at (with_priority b i p (get_elem? b.items i)) i

  -- `b.index[value] = item` and `heap.Push`
  unfoldable pub push : Bucket V → V → Time → Bucket V
  push b v p =
      let n = length b.items in
      up (suc n)
        (record b {
          index = insert v n b.index;
          items = b.items ++ record { value = v; priority = p } ∷ [];
        })
        n

  -- `heap.Pop` and `delete(b.index, oldest.value)`
  unfoldable pub pop : Bucket V → V → Bucket V
  pop b v =
      let n = length b.items - 1 in
      let sunk = (down (suc n) (swap b 0 n) 0 n).0 in
      record sunk { items = drop_last sunk.items; index = erase v sunk.index }

  -- `NewBucket`
  unfoldable pub new_bucket : ℕ → Bucket V
  new_bucket capacity = record { index = []; items = []; capacity = capacity }

  abbrev pub last_elem : List (Item V) → Option (Item V)
  last_elem [] = none
  last_elem (x ∷ []) = some x
  last_elem (x ∷ y ∷ xs) = last_elem (y ∷ xs)

  -- `IsStale`
  unfoldable pub is_stale : Bucket V → Time → Bool
  is_stale b now = elim (last_elem b.items) [ none ↦ true | some x ↦ is_expired x now ]

  -- A full bucket makes room only if its first item has expired.
  abbrev pub upsert_full : Bucket V → V → Time → Time → Option (Item V) → Bucket V × Bool
  upsert_full b v p now none = (b, false)
  upsert_full b v p now (some oldest) =
      if is_expired oldest now then (push (pop b oldest.value) v p, true) else (b, false)

  abbrev pub upsert_new : Bucket V → V → Time → Time → Bucket V × Bool
  upsert_new b v p now =
      if ltb (length b.items) b.capacity
      then (push b v p, true)
      else upsert_full b v p now (get_elem? b.items 0)

  -- `Upsert`; `now` is the clock at the test of the oldest item.
  unfoldable pub upsert : Bucket V → V → Time → Time → Bucket V × Bool
  upsert b v p now = if ltb b.capacity 1 then (b, false) else elim (lookup v b.index) [
    | some i ↦ (update_item b i p, true)
    | none ↦ upsert_new b v p now
  ]
