-- ===== src/Prelude/Equality.antt =====
-- The keys of a Go map are of a comparable type: equality as a Boolean, with its meaning.
use text.Mathlib.Text.{◌==◌ as str_eq}
use text.Mathlib.TextEquality.{eq_iff}
use mathlib.Core.Bool.{Bool, true, ◌&&◌}
use mathlib.Core.Path.{◌≡◌, ap, ◌∙◌}
use native.Mathlib.Omega.{arith}
use mathlib.Core.Logic.{◌↔◌}
use Prim.Native.String.{String}
use Prim.Native.Nat.{ℕ}
use codestra_alertmanager.Prelude.Tests.{nat_beq, nat_beq_iff}

pub record Comparable {ℓ} (K : Type ℓ) : Type ℓ where
  pub beq : K → K → Bool
  pub beq_iff : (j k : K) → (beq j k ≡ true) ↔ (j ≡ k)

instance abbrev pub string_eq : Comparable String
string_eq = record { beq = str_eq; beq_iff = eq_iff }

instance abbrev pub nat_eq : Comparable ℕ
nat_eq = record { beq = nat_beq; beq_iff = nat_beq_iff }

module _ {A B : Type 0} ⦃a : Comparable A⦄ ⦃b : Comparable B⦄ where
  abbrev pub pair_beq : A × B → A × B → Bool
  pair_beq (x, y) (x', y') = a.beq x x' && b.beq y y'

  pub pair_beq_iff : (j k : A × B) → (pair_beq j k ≡ true) ↔ (j ≡ k)
  pair_beq_iff (x, y) (x', y') = (
    λ h.
        let p : x ≡ x' = (a.beq_iff x x').0 (ground (arith, h)) in
        let q : y ≡ y' = (b.beq_iff y y').0 (ground (arith, h)) in
        ap (λ (z : A). (z, y)) p ∙ ap (λ (z : B). (x', z)) q,
    λ r.
        let p = (a.beq_iff x x').1 (ap (λ (z : A × B). z.0) r) in
        let q = (b.beq_iff y y').1 (ap (λ (z : A × B). z.1) r) in ground (arith, p, q),
  )

  instance abbrev pub pair_eq : Comparable (A × B)
  pair_eq = record { beq = pair_beq; beq_iff = pair_beq_iff }

infix 50 ◌==◌
abbrev pub ◌==◌ {ℓ} : {K : Type ℓ} ⦃c : Comparable K⦄ → K → K → Bool
◌==◌ ⦃c⦄ j k = c.beq j k
