-- ===== src/Prelude/Sets.antt =====
-- Membership, and Python's `set` as a list without repetitions.
use Prim.Native.Nat.{◌≤◌, ◌<◌}
use mathlib.Core.Path.{◌≡◌, refl, sym, ◌∙◌}
use mathlib.Core.Logic.{inl, inr}
use mathlib.Core.Bool.{Bool, true, false, ◌&&◌, ◌||◌}
use mathlib.Core.List.{List, [], ◌∷◌, ◌++◌}
use native.Mathlib.Omega.{arith}
use evidence_control_plane.Prelude.Tests.{if◌then◌else◌, Bool-cases}
use evidence_control_plane.Prelude.Equality.{Key, ◌==◌, ==→eq, ==-sym, ==-refl, nat_beq}
use evidence_control_plane.Prelude.Lists.{length, all}

module _ {ℓ} {A : Type ℓ} ⦃e : Key A⦄ where
  -- `a in xs`
  abbrev pub contains : A → List A → Bool
  contains a [] = false
  contains a (x ∷ xs) = x == a || contains a xs

  -- `set(xs)`
  abbrev pub to_set : List A → List A
  to_set [] = []
  to_set (x ∷ xs) = let rest = to_set xs in if contains x rest then rest else x ∷ rest

  -- `len(set(xs)) == len(xs)`
  abbrev pub is_distinct : List A → Bool
  is_distinct xs = nat_beq (length (to_set xs)) (length xs)

  -- no element occurs twice
  abbrev pub Distinct : List A → Type 0
  Distinct [] = Unit
  Distinct (x ∷ xs) = (contains x xs ≡ false) × Distinct xs

  abbrev pub is_subset : List A → List A → Bool
  is_subset xs ys = all (λ x. contains x ys) xs

  -- `set(xs) == set(ys)`
  abbrev pub same_set : List A → List A → Bool
  same_set xs ys = is_subset xs ys && is_subset ys xs

  pub length-to_set : (xs : List A) → length (to_set xs) ≤ length xs
  length-to_set [] = omega arith
  length-to_set (x ∷ xs) = ground (arith, length-to_set xs)

  pub contains-to_set : (a : A) (xs : List A) → contains a (to_set xs) ≡ contains a xs
  contains-to_set a [] = refl
  contains-to_set a (x ∷ xs) = elim (Bool-cases (contains x (to_set xs))) [
    | inl seen ↦ elim (Bool-cases (x == a)) [
      | inl same ↦ rw (seen, same) (rw (← ==→eq x a same) seen)
      | inr other ↦ rw (seen, other) (contains-to_set a xs)
    ]
    | inr new ↦ rw new (ground (arith, contains-to_set a xs))
  ]

  -- The test by cardinality decides that no element repeats.
  pub is_distinct→Distinct : (xs : List A) → is_distinct xs ≡ true → Distinct xs
  is_distinct→Distinct [] h = tt
  is_distinct→Distinct (x ∷ xs) h = elim (Bool-cases (contains x (to_set xs))) [
    | inl seen ↦ absurd (repeated seen)
    | inr new ↦ (sym (contains-to_set x xs) ∙ new, is_distinct→Distinct xs (ground arith))
  ]
    where
      repeated : contains x (to_set xs) ≡ true → ⊥
      repeated seen = ground (arith, length-to_set xs)

  pub contains-append :
      (a : A) (xs ys : List A) → contains a (xs ++ ys) ≡ (contains a xs || contains a ys)
  contains-append a [] ys = refl
  contains-append a (x ∷ xs) ys = ground (arith, contains-append a xs ys)

  -- `xs` without the elements equal to `a`
  abbrev pub without : A → List A → List A
  without a [] = []
  without a (x ∷ xs) = let rest = without a xs in if x == a then rest else x ∷ rest

  pub contains-without :
      (a b : A) (xs : List A) → (a == b) ≡ false → contains b (without a xs) ≡ contains b xs
  contains-without a b [] h = refl
  contains-without a b (x ∷ xs) h = elim (Bool-cases (x == a)) [
    | inl same ↦ rw (same, ==→eq x a same, h) (contains-without a b xs h)
    | inr other ↦ rw other (ground (arith, contains-without a b xs h))
  ]

  pub length-without_le : (a : A) (xs : List A) → length (without a xs) ≤ length xs
  length-without_le a [] = omega arith
  length-without_le a (x ∷ xs) = ground (arith, length-without_le a xs)

  pub length-without :
      (a : A) (xs : List A) → contains a xs ≡ true → length (without a xs) < length xs
  length-without a [] h = cc
  length-without a (x ∷ xs) h = ground (arith, length-without a xs, length-without_le a xs)

  pub is_subset-without :
      (a : A) (xs ys : List A)
      → contains a xs ≡ false
      → is_subset xs ys ≡ true
      → is_subset xs (without a ys) ≡ true
  is_subset-without a [] ys n h = refl
  is_subset-without a (x ∷ xs) ys n h =
      ground (arith, ==-sym x a, contains-without a x ys, is_subset-without a xs ys)

  -- A list without repetitions that lies within another is no longer than it.
  pub length-le_of_subset :
      (xs ys : List A) → Distinct xs → is_subset xs ys ≡ true → length xs ≤ length ys
  length-le_of_subset [] ys d h = omega arith
  length-le_of_subset (x ∷ xs) ys d h = ground (
    arith,
    length-without x ys,
    is_subset-without x xs ys d.0,
    length-le_of_subset xs (without x ys) d.1,
  )

  -- `xs.add(a)`
  abbrev pub add_to_set : A → List A → List A
  add_to_set a xs = if contains a xs then xs else xs ++ a ∷ []

  pub Distinct-snoc :
      (a : A) (xs : List A) → Distinct xs → contains a xs ≡ false → Distinct (xs ++ a ∷ [])
  Distinct-snoc a [] d n = (refl, tt)
  Distinct-snoc a (x ∷ xs) d n = (
    ground (arith, contains-append x xs (a ∷ []), ==-sym x a, d.0),
    Distinct-snoc a xs d.1 (ground arith),
  )

  -- A list of two or more different elements has one besides any of them.
  pub other_element :
      (a : A) (xs : List A)
      → Distinct xs
      → 1 < length xs
      → (b : A) × (contains b xs ≡ true) × ((a == b) ≡ false)
  other_element a [] d l = absurd (omega arith)
  other_element a (x ∷ []) d l = absurd (omega arith)
  other_element a (x ∷ y ∷ ys) d l = elim (Bool-cases (a == x)) [
    | inr other ↦ (x, ground (arith, ==-refl x), other)
    | inl same ↦
        (y, ground (arith, ==-refl y), rw (==→eq a x same) (ground (arith, ==-sym x y, d.0)))
  ]
