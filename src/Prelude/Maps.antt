-- ===== src/Prelude/Maps.antt =====
-- Go maps as association lists. A write to a present key keeps its place and a new key goes to the
-- end; `range` visits the entries in the list's order, so what is proved for every list holds for
-- every order of iteration.
use mathlib.Core.Path.{◌≡◌, ◌∙◌, refl, sym, ap}
use mathlib.Core.Bool.{true}
use mathlib.Core.Option.{Option, none, some, some-injective}
use mathlib.Core.List.{List, [], ◌∷◌}
use native.Mathlib.Omega.{arith}
use mathlib.Core.Logic.{inl, inr}
use codestra_alertmanager.Prelude.Tests.{if◌then◌else◌, Bool-cases}
use codestra_alertmanager.Prelude.Equality.{Comparable, ◌==◌}
use codestra_alertmanager.Prelude.Lists.{All}
use Prim.{tt}

pub beq_refl {ℓ} : {K : Type ℓ} ⦃e : Comparable K⦄ (k : K) → (k == k) ≡ true
beq_refl ⦃e⦄ k = (e.beq_iff k k).1 refl

abbrev pub Map {ℓ κ} : Type ℓ → Type κ → Type (ℓ ⊔ κ)
Map K V = List (K × V)

module _ {ℓ κ} {K : Type ℓ} {V : Type κ} where
  abbrev pub keys : Map K V → List K
  keys [] = []
  keys ((k, v) ∷ m) = k ∷ keys m

module _ {ℓ κ} {K : Type ℓ} {V : Type κ} ⦃e : Comparable K⦄ where
  unfoldable pub lookup : K → Map K V → Option V
  lookup key [] = none
  lookup key ((first, v) ∷ rest) = if first == key then some v else lookup key rest

  unfoldable pub insert : K → V → Map K V → Map K V
  insert key new [] = (key, new) ∷ []
  insert key new ((first, v) ∷ rest) =
      if first == key then (key, new) ∷ rest else (first, v) ∷ insert key new rest

  -- `delete(m, k)`
  unfoldable pub erase : K → Map K V → Map K V
  erase key [] = []
  erase key ((first, v) ∷ rest) =
      let kept = erase key rest in if first == key then kept else (first, v) ∷ kept

  pub lookup-erase :
      (gone k : K) (m : Map K V)
      → lookup k (erase gone m) ≡ (if gone == k then none else lookup k m)
  unfolding erase lookup
  lookup-erase gone k [] = ground arith
  lookup-erase gone k ((first, v) ∷ rest) =
      ground
        (arith, lookup-erase gone k rest, e.beq_iff first gone, e.beq_iff first k, e.beq_iff gone k)

  pub lookup-insert :
      (key k : K) (new : V) (m : Map K V)
      → lookup k (insert key new m) ≡ (if key == k then some new else lookup k m)
  unfolding insert lookup
  lookup-insert key k new [] = refl
  lookup-insert key k new ((first, v) ∷ rest) =
      ground (
        arith,
        lookup-insert key k new rest,
        e.beq_iff first key,
        e.beq_iff first k,
        e.beq_iff key k,
      )

  pub lookup-insert_self :
      (key : K) (new : V) (m : Map K V) → lookup key (insert key new m) ≡ some new
  lookup-insert_self key new m = simp (beq_refl, lookup-insert)

  pub All-insert {μ} :
      (P : K × V → Type μ) (key : K) (new : V) (m : Map K V)
      → P (key, new)
      → All P m
      → All P (insert key new m)
  unfolding insert
  All-insert P key new [] p all = (p, tt)
  All-insert P key new ((first, v) ∷ rest) p all = elim (Bool-cases (first == key)) [
    | inl same ↦ rw same (p, all.1)
    | inr other ↦ rw other (all.0, All-insert P key new rest p all.1)
  ]

  pub All-erase {μ} : (P : K × V → Type μ) (key : K) (m : Map K V) → All P m → All P (erase key m)
  unfolding erase
  All-erase P key [] all = tt
  All-erase P key ((first, v) ∷ rest) all = elim (Bool-cases (first == key)) [
    | inl same ↦ rw same (All-erase P key rest all.1)
    | inr other ↦ rw other (all.0, All-erase P key rest all.1)
  ]

  pub All-lookup {μ} :
      (P : K × V → Type μ) (key : K) {v : V} (m : Map K V)
      → lookup key m ≡ some v
      → All P m
      → P (key, v)
  unfolding lookup
  All-lookup P key [] h all = absurd (ground (arith, h))
  All-lookup P key {v} ((first, v') ∷ rest) h all = elim (Bool-cases (first == key)) [
    | inl same ↦
        let key_same : first ≡ key = (e.beq_iff first key).0 same in
        let value_same : v' ≡ v =
          some-injective v' v (sym (ap (λ b. if b then some v' else lookup key rest) same) ∙ h) in
        rw (sym key_same, sym value_same) all.0
    | inr other ↦ All-lookup P key rest (ground (arith, h, other)) all.1
  ]
