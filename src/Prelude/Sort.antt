-- ===== src/Prelude/Sort.antt =====
-- Python's `sorted`, stable, by an order given as a test, and `max` and `min` by a key.
use Prim.Native.Nat.{ℕ, ◌≤◌}
use mathlib.Core.Path.{◌≡◌, refl}
use mathlib.Core.Logic.{inl}
use mathlib.Core.Bool.{Bool, ◌||◌}
use mathlib.Core.List.{List, [], ◌∷◌}
use native.Mathlib.Omega.{arith}
use evidence_control_plane.Prelude.Tests.{if◌then◌else◌, ltb}
use evidence_control_plane.Prelude.Lists.{length, any, In}

module _ {ℓ} {A : Type ℓ} where
  -- `x` goes before the first element that does not come before it.
  abbrev pub insert_by : (A → A → Bool) → A → List A → List A
  insert_by le x [] = x ∷ []
  insert_by le x (y ∷ ys) = if le x y then x ∷ y ∷ ys else y ∷ insert_by le x ys

  abbrev pub sort_by : (A → A → Bool) → List A → List A
  sort_by le [] = []
  sort_by le (x ∷ xs) = insert_by le x (sort_by le xs)

  -- `max(..., key=key)` and `min(..., key=key)` of a non-empty sequence: the first of the best
  abbrev pub max_by : (A → ℕ) → A → List A → A
  max_by key best [] = best
  max_by key best (x ∷ xs) = max_by key (if ltb (key best) (key x) then x else best) xs

  abbrev pub min_by : (A → ℕ) → A → List A → A
  min_by key best [] = best
  min_by key best (x ∷ xs) = min_by key (if ltb (key x) (key best) then x else best) xs

  -- the last element, or `x` where there is none
  abbrev pub last_or : A → List A → A
  last_or x [] = x
  last_or x (y ∷ ys) = last_or y ys

  pub any-insert_by :
      (le : A → A → Bool) (p : A → Bool) (x : A) (xs : List A)
      → any p (insert_by le x xs) ≡ (p x || any p xs)
  any-insert_by le p x [] = refl
  any-insert_by le p x (y ∷ ys) = ground (arith, any-insert_by le p x ys)

  -- Sorting changes no question of existence.
  pub any-sort_by :
      (le : A → A → Bool) (p : A → Bool) (xs : List A) → any p (sort_by le xs) ≡ any p xs
  any-sort_by le p [] = refl
  any-sort_by le p (x ∷ xs) =
      ground (arith, any-insert_by le p x (sort_by le xs), any-sort_by le p xs)

  pub length-insert_by :
      (le : A → A → Bool) (x : A) (xs : List A) → length (insert_by le x xs) ≡ length (x ∷ xs)
  length-insert_by le x [] = refl
  length-insert_by le x (y ∷ ys) = ground (arith, length-insert_by le x ys)

  pub length-sort_by : (le : A → A → Bool) (xs : List A) → length (sort_by le xs) ≡ length xs
  length-sort_by le [] = refl
  length-sort_by le (x ∷ xs) =
      ground (arith, length-insert_by le x (sort_by le xs), length-sort_by le xs)

module _ {A : Type 0} (key : A → ℕ) where
  -- The element found is the first or in the list, and no key is larger.
  pub max_by-In : (best : A) (xs : List A) → In (max_by key best xs) (best ∷ xs)
  max_by-In best [] = inl refl
  max_by-In best (x ∷ xs) = ground (arith, max_by-In best xs, max_by-In x xs)

  pub max_by-ge : (best : A) (xs : List A) → key best ≤ key (max_by key best xs)
  max_by-ge best [] = omega arith
  max_by-ge best (x ∷ xs) = ground (arith, max_by-ge best xs, max_by-ge x xs)

  pub max_by-ge_of_In : (best x : A) (xs : List A) → In x xs → key x ≤ key (max_by key best xs)
  max_by-ge_of_In best x [] i = elim i [ ]
  max_by-ge_of_In best x (y ∷ ys) i =
      ground (
        arith,
        max_by-ge best ys,
        max_by-ge y ys,
        max_by-ge_of_In best x ys,
        max_by-ge_of_In y x ys,
      )

  pub min_by-In : (best : A) (xs : List A) → In (min_by key best xs) (best ∷ xs)
  min_by-In best [] = inl refl
  min_by-In best (x ∷ xs) = ground (arith, min_by-In best xs, min_by-In x xs)

  pub min_by-le : (best : A) (xs : List A) → key (min_by key best xs) ≤ key best
  min_by-le best [] = omega arith
  min_by-le best (x ∷ xs) = ground (arith, min_by-le best xs, min_by-le x xs)

  pub min_by-le_of_In : (best x : A) (xs : List A) → In x xs → key (min_by key best xs) ≤ key x
  min_by-le_of_In best x [] i = elim i [ ]
  min_by-le_of_In best x (y ∷ ys) i =
      ground (
        arith,
        min_by-le best ys,
        min_by-le y ys,
        min_by-le_of_In best x ys,
        min_by-le_of_In y x ys,
      )
