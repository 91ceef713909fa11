-- ===== src/Prelude/Sorting.antt =====
-- A stable insertion sort by a Boolean order: `Array.prototype.sort` with a comparator.
use mathlib.Core.Bool.{Bool, true, false}
use mathlib.Core.List.{List, [], ◌∷◌, Perm}
use mathlib.Core.List.Perm

module _ {ℓ} {A : Type ℓ} (le : A → A → Bool) where
  abbrev pub place : Bool → A → A → List A → List A → List A
  place true a x xs rest = a ∷ x ∷ xs
  place false a x xs rest = x ∷ rest

  abbrev pub insert : A → List A → List A
  insert a [] = a ∷ []
  insert a (x ∷ xs) = place (le a x) a x xs (insert a xs)

  abbrev pub sort : List A → List A
  sort [] = []
  sort (x ∷ xs) = insert x (sort xs)

module _ {ℓ} {A : Type ℓ} (le : A → A → Bool) where
  place-perm :
      (b : Bool) (a x : A) (xs rest : List A)
      → Perm rest (a ∷ xs)
      → Perm (place le b a x xs rest) (a ∷ x ∷ xs)
  place-perm true a x xs rest h = Perm.refl _
  place-perm false a x xs rest h = Perm.trans (Perm.cons x h) (Perm.swap a x xs)

  pub insert-perm : (a : A) (xs : List A) → Perm (insert le a xs) (a ∷ xs)
  insert-perm a [] = Perm.refl _
  insert-perm a (x ∷ xs) = place-perm (le a x) a x xs _ (insert-perm a xs)

  -- Sorting keeps every element, as often.
  pub sort-perm : (xs : List A) → Perm (sort le xs) xs
  sort-perm [] = Perm.refl _
  sort-perm (x ∷ xs) = Perm.trans (insert-perm x (sort le xs)) (Perm.cons x (sort-perm xs))
