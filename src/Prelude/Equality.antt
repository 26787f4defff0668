-- ===== src/Prelude/Equality.antt =====
-- Python's `==` on the values that serve as keys, one operator for numbers and texts.
use Prim.Native.Nat.{ℕ, compare, Ordering}
use Prim.Native.String.{String}
use Prim.Native.String
use mathlib.Core.Bool.{Bool, true, false, not}
use mathlib.Core.Logic.{◌↔◌}
use mathlib.Core.Path.{◌≡◌, refl}
use text.Mathlib.TextEquality.{eq_iff}
use text.Mathlib.Text.{◌==◌ as same_text, is_lt}
use native.Mathlib.Omega.{arith}

-- Python orders texts by code points, which is the order of their UTF-8 bytes.
abbrev pub str_lt : String → String → Bool
str_lt s t = is_lt (String.compare s t)

-- A type whose values are hashed and compared as keys of a dict or a set.
pub record Key {ℓ} (K : Type ℓ) : Type ℓ where
  pub same_key : K → K → Bool
  pub same_key_iff : (i j : K) → (same_key i j ≡ true) ↔ (i ≡ j)

infix 50 ◌!=◌ ◌==◌
abbrev pub ◌==◌ {ℓ} : {K : Type ℓ} ⦃e : Key K⦄ → K → K → Bool
◌==◌ ⦃e⦄ i j = e.same_key i j

abbrev pub ◌!=◌ {ℓ} : {K : Type ℓ} ⦃e : Key K⦄ → K → K → Bool
◌!=◌ ⦃e⦄ i j = not (e.same_key i j)

module _ {ℓ} {K : Type ℓ} ⦃e : Key K⦄ where
  pub ==→eq : (i j : K) → (i == j) ≡ true → i ≡ j
  ==→eq i j same = (e.same_key_iff i j).0 same

  pub eq→== : (i j : K) → i ≡ j → (i == j) ≡ true
  eq→== i j same = (e.same_key_iff i j).1 same

  pub !=→eq : (i j : K) → (i != j) ≡ false → i ≡ j
  !=→eq i j same = ground (arith, same, e.same_key_iff i j)

  pub ==-refl : (i : K) → (i == i) ≡ true
  ==-refl i = (e.same_key_iff i i).1 refl

  pub ==-sym : (i j : K) → (i == j) ≡ (j == i)
  ==-sym i j = ground (arith, e.same_key_iff i j, e.same_key_iff j i)

instance abbrev pub string_eq : Key String
string_eq = record { same_key = same_text; same_key_iff = eq_iff }

abbrev pub nat_beq : ℕ → ℕ → Bool
nat_beq m n = elim (compare m n) [ Ordering.eq ↦ true | _ ↦ false ]

pub nat_beq_iff : (m n : ℕ) → (nat_beq m n ≡ true) ↔ (m ≡ n)
nat_beq_iff m n = ground arith

instance abbrev pub nat_eq : Key ℕ
nat_eq = record { same_key = nat_beq; same_key_iff = nat_beq_iff }
