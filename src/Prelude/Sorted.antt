-- ===== src/Prelude/Sorted.antt =====
-- A list sorted by a total, transitive test is ascending and has the same elements.
use mathlib.Core.Path.{◌≡◌, refl}
use mathlib.Core.Logic.{◌⊎◌, inl, inr, ◌↔◌}
use mathlib.Core.Bool.{Bool, true, ◌||◌}
use mathlib.Core.List.{List, [], ◌∷◌}
use native.Mathlib.Omega.{arith}
use evidence_control_plane.Prelude.Tests.{Bool-cases}
use evidence_control_plane.Prelude.Lists.{All, In}
use evidence_control_plane.Prelude.Sort.{insert_by, sort_by, last_or}

module _ {A : Type 0} (le : A → A → Bool) where
  -- every element is at most those after it
  abbrev pub Ascending : List A → Type 0
  Ascending [] = Unit
  Ascending (x ∷ xs) = All (λ y. le x y ≡ true) xs × Ascending xs

module _ {A : Type 0} where
  pub All-insert_by :
      (P : A → Type 0) (le : A → A → Bool) (x : A) (xs : List A)
      → P x
      → All P xs
      → All P (insert_by le x xs)
  All-insert_by P le x [] h hs = (h, tt)
  All-insert_by P le x (y ∷ ys) h hs = elim (Bool-cases (le x y)) [
    | inl before ↦ rw before (h, hs)
    | inr after ↦ rw after (hs.0, All-insert_by P le x ys h hs.1)
  ]

  pub All-sort_by :
      (P : A → Type 0) (le : A → A → Bool) (xs : List A) → All P xs → All P (sort_by le xs)
  All-sort_by P le [] hs = tt
  All-sort_by P le (x ∷ xs) hs =
      All-insert_by P le x (sort_by le xs) hs.0 (All-sort_by P le xs hs.1)

  pub All-map : (P Q : A → Type 0) (f : (x : A) → P x → Q x) (xs : List A) → All P xs → All Q xs
  All-map P Q f [] hs = tt
  All-map P Q f (x ∷ xs) hs = (f x hs.0, All-map P Q f xs hs.1)

  pub In-insert_by :
      (le : A → A → Bool) (a x : A) (xs : List A) → In a (insert_by le x xs) ↔ ((a ≡ x) ⊎ In a xs)
  In-insert_by le a x [] = (λ h. h, λ h. h)
  In-insert_by le a x (y ∷ ys) = ground (arith, In-insert_by le a x ys)

  pub In-sort_by : (le : A → A → Bool) (a : A) (xs : List A) → In a (sort_by le xs) ↔ In a xs
  In-sort_by le a [] = (λ h. h, λ h. h)
  In-sort_by le a (x ∷ xs) = ground (arith, In-insert_by le a x (sort_by le xs), In-sort_by le a xs)

  pub All-at : (P : A → Type 0) (xs : List A) → All P xs → (a : A) → In a xs → P a
  All-at P [] hs a i = elim i [ ]
  All-at P (x ∷ xs) hs a (inl same) = rw same hs.0
  All-at P (x ∷ xs) hs a (inr later) = All-at P xs hs.1 a later

  pub last_or-In : (x : A) (xs : List A) → In (last_or x xs) (x ∷ xs)
  last_or-In x [] = inl refl
  last_or-In x (y ∷ ys) = inr (last_or-In y ys)

module _ {A : Type 0} (le : A → A → Bool) (total : (a b : A) → (le a b || le b a) ≡ true)
    (transitive : (a b c : A) → le a b ≡ true → le b c ≡ true → le a c ≡ true) where
  pub insert_by-Ascending :
      (x : A) (xs : List A) → Ascending le xs → Ascending le (insert_by le x xs)
  insert_by-Ascending x [] h = (tt, tt)
  insert_by-Ascending x (y ∷ ys) h = elim (Bool-cases (le x y)) [
    | inl before ↦ rw before ((before, All-map _ _ (λ z e. transitive x y z before e) ys h.0), h)
    | inr after ↦
        rw after
          (All-insert_by _ le x ys (ground (arith, total x y)) h.0, insert_by-Ascending x ys h.1)
  ]

  pub sort_by-Ascending : (xs : List A) → Ascending le (sort_by le xs)
  sort_by-Ascending [] = tt
  sort_by-Ascending (x ∷ xs) = insert_by-Ascending x (sort_by le xs) (sort_by-Ascending xs)

  -- The last element of an ascending list is the greatest.
  pub last_or-ge :
      (x : A) (xs : List A)
      → Ascending le (x ∷ xs)
      → (y : A) → In y (x ∷ xs)
      → le y (last_or x xs) ≡ true
  last_or-ge x [] h y (inl same) = rw same (ground (arith, total x x))
  last_or-ge x [] h y (inr none_left) = elim none_left [ ]
  last_or-ge x (z ∷ zs) h y (inl same) =
      rw same (transitive x z (last_or z zs) h.0.0 (last_or-ge z zs h.1 z (inl refl)))
  last_or-ge x (z ∷ zs) h y (inr later) = last_or-ge z zs h.1 y later
