-- ===== src/Prelude/Order.antt =====
-- Total orders as Boolean tests, and that a sort by one depends on the elements alone.
use Prim.Native.Nat.{ℕ}
use Prim.Native.String.{String}
use text.Mathlib.TextEquality.{Char-path}
use mathlib.Core.Path.{◌≡◌, refl, sym, ap, ap₂, ◌∙◌}
use mathlib.Core.Bool.{Bool, true, false, ◌||◌}
use mathlib.Core.List.{List, [], ◌∷◌, map, Permᴰ}
use mathlib.Core.Logic.{◌⊎◌, inl, inr}
use native.Mathlib.Omega.{arith}
use framework_module_resizer.Prelude.Tests.{Bool-cases}
use framework_module_resizer.Prelude.Sorting.{insert, sort, place}
use framework_module_resizer.Prelude.Text.{codes, codes_le, str_le}

pub record IsOrder {ℓ} {A : Type ℓ} (le : A → A → Bool) : Type ℓ where
  pub total : (a b : A) → le a b || le b a ≡ true
  pub antisymmetric : (a b : A) → le a b ≡ true → le b a ≡ true → a ≡ b
  pub transitive : (a b c : A) → le a b ≡ true → le b c ≡ true → le a c ≡ true

module _ {ℓ} {A : Type ℓ} (le : A → A → Bool) (order : IsOrder le) where
  comm_below :
      (a b : A) (xs : List A)
      → le a b ≡ true
      → le b a ≡ false
      → insert le a (insert le b xs) ≡ insert le b (insert le a xs)
  comm_below a b [] h g = rw (h, g) refl
  comm_below a b (x ∷ xs) h g =
      by_tests (Bool-cases (le b x)) (Bool-cases (le a x)) (comm_below a b xs h g)
    where
      by_tests :
          (le b x ≡ true) ⊎ (le b x ≡ false)
          → (le a x ≡ true) ⊎ (le a x ≡ false)
          → insert le a (insert le b xs) ≡ insert le b (insert le a xs)
          → insert le a (place le (le b x) b x xs (insert le b xs))
            ≡ insert le b (place le (le a x) a x xs (insert le a xs))
      by_tests (inl p) q ih = let r = order.transitive a b x h p in rw (p, r, h, g, p) refl
      by_tests (inr p) (inl q) ih = rw (p, q, g, p) refl
      by_tests (inr p) (inr q) ih = rw (p, q, p) (ap (λ l. x ∷ l) ih)

  -- Two elements are put in place in either order.
  insert_comm :
      (a b : A) (xs : List A) → insert le a (insert le b xs) ≡ insert le b (insert le a xs)
  insert_comm a b xs = by_tests (Bool-cases (le a b)) (Bool-cases (le b a))
    where
      by_tests :
          (le a b ≡ true) ⊎ (le a b ≡ false)
          → (le b a ≡ true) ⊎ (le b a ≡ false)
          → insert le a (insert le b xs) ≡ insert le b (insert le a xs)
      by_tests (inl p) (inl q) =
          let e = order.antisymmetric a b p q in ap₂ (λ x y. insert le x (insert le y xs)) e (sym e)
      by_tests (inl p) (inr q) = comm_below a b xs p q
      by_tests (inr p) (inl q) = sym (comm_below b a xs q p)
      by_tests (inr p) (inr q) = let t = order.total a b in absurd (ground arith)

  pub sort-Permᴰ : {xs ys : List A} → Permᴰ xs ys → sort le xs ≡ sort le ys
  sort-Permᴰ Permᴰ.nil = refl
  sort-Permᴰ (Permᴰ.cons e p) = ap₂ (insert le) e (sort-Permᴰ p)
  sort-Permᴰ (Permᴰ.swap {a} {b} {a'} {b'} {l} e f) =
      insert_comm a b (sort le l) ∙ ap₂ (λ x y. insert le x (insert le y (sort le l))) f e
  sort-Permᴰ (Permᴰ.trans p q) = sort-Permᴰ p ∙ sort-Permᴰ q

module _ {ℓ κ} {A : Type ℓ} {B : Type κ} (le : A → A → Bool) (f : B → A) where
  insert-map :
      (x : B) (xs : List B)
      → map f (insert (λ x y. le (f x) (f y)) x xs) ≡ insert le (f x) (map f xs)
  insert-map x [] = refl
  insert-map x (y ∷ ys) = by_test (le (f x) (f y)) (insert-map x ys)
    where
      by_test :
          (b : Bool)
          → map f (insert (λ x y. le (f x) (f y)) x ys) ≡ insert le (f x) (map f ys)
          → map f (place (λ x y. le (f x) (f y)) b x y ys (insert (λ x y. le (f x) (f y)) x ys))
            ≡ place le b (f x) (f y) (map f ys) (insert le (f x) (map f ys))
      by_test true ih = refl
      by_test false ih = ap (λ l. f y ∷ l) ih

  -- A sort by a key sorts the keys.
  pub sort-map : (xs : List B) → map f (sort (λ x y. le (f x) (f y)) xs) ≡ sort le (map f xs)
  sort-map [] = refl
  sort-map (x ∷ xs) =
      insert-map x (sort (λ x y. le (f x) (f y)) xs) ∙ ap (insert le (f x)) (sort-map xs)

codes_total : (xs ys : List ℕ) → codes_le xs ys || codes_le ys xs ≡ true
codes_total [] ys = refl
codes_total (x ∷ xs) [] = refl
codes_total (x ∷ xs) (y ∷ ys) = let ih = codes_total xs ys in ground (arith, ih)

codes_antisymmetric : (xs ys : List ℕ) → codes_le xs ys ≡ true → codes_le ys xs ≡ true → xs ≡ ys
codes_antisymmetric [] [] h g = refl
codes_antisymmetric [] (y ∷ ys) h g = cc
codes_antisymmetric (x ∷ xs) [] h g = cc
codes_antisymmetric (x ∷ xs) (y ∷ ys) h g =
    let e : x ≡ y = ground arith in
    let ih : xs ≡ ys = codes_antisymmetric xs ys (ground arith) (ground arith) in cc (e, ih)

codes_transitive :
    (xs ys zs : List ℕ) → codes_le xs ys ≡ true → codes_le ys zs ≡ true → codes_le xs zs ≡ true
codes_transitive [] ys zs h g = refl
codes_transitive (x ∷ xs) [] zs h g = cc
codes_transitive (x ∷ xs) (y ∷ ys) [] h g = cc
codes_transitive (x ∷ xs) (y ∷ ys) (z ∷ zs) h g = ground (arith, codes_transitive xs ys zs)

codes-injective : (s t : String) → codes s ≡ codes t → s ≡ t
codes-injective String.[] String.[] e = refl
codes-injective String.[] (String.◌∷◌ d t) e = cc
codes-injective (String.◌∷◌ c s) String.[] e = cc
codes-injective (String.◌∷◌ c s) (String.◌∷◌ d t) e =
    ap₂ (λ x y. String.◌∷◌ x y) (Char-path c d (cc)) (codes-injective s t (cc))

pub str_le-IsOrder : IsOrder str_le
str_le-IsOrder = record {
  total = λ s t. codes_total (codes s) (codes t);
  antisymmetric = λ s t h g. codes-injective s t (codes_antisymmetric (codes s) (codes t) h g);
  transitive = λ s t u. codes_transitive (codes s) (codes t) (codes u);
}
