-- ===== src/Prelude/Lists.antt =====
-- Lists measured by native numbers, Boolean filters, and predicates over lists by recursion.
use Prim.Native.Nat.{ℕ, suc, ◌+◌}
use mathlib.Core.Path.{◌≡◌, refl, ap}
use mathlib.Core.Bool.{Bool, true, false, ◌&&◌, ◌||◌}
use mathlib.Core.List.{List, [], ◌∷◌, ◌++◌, Memᴰ, map}
use native.Mathlib.Omega.{arith}

module _ {ℓ} {A : Type ℓ} where
  abbrev pub length : List A → ℕ
  length [] = 0
  length (x ∷ xs) = suc (length xs)

  pub length-append : (xs ys : List A) → length (xs ++ ys) ≡ length xs + length ys
  length-append [] ys = omega arith
  length-append (x ∷ xs) ys = omega (arith, length-append xs ys)

  abbrev pub keep_if : Bool → A → List A → List A
  keep_if true x xs = x ∷ xs
  keep_if false x xs = xs

  -- `xs.filter(p)`
  abbrev pub filter : (A → Bool) → List A → List A
  filter p [] = []
  filter p (x ∷ xs) = keep_if (p x) x (filter p xs)

  -- `xs.some(p)`
  abbrev pub any : (A → Bool) → List A → Bool
  any p [] = false
  any p (x ∷ xs) = p x || any p xs

  -- `xs.every(p)`
  abbrev pub all : (A → Bool) → List A → Bool
  all p [] = true
  all p (x ∷ xs) = p x && all p xs

module _ {ℓ κ} {A : Type ℓ} (P : A → Type κ) where
  abbrev pub All : List A → Type κ
  All [] = Unit
  All (x ∷ xs) = P x × All xs

  pub All-append : (xs ys : List A) → All xs → All ys → All (xs ++ ys)
  All-append [] ys hx hy = hy
  All-append (x ∷ xs) ys hx hy = (hx.0, All-append xs ys hx.1 hy)

  pub All-split : (xs ys : List A) → All (xs ++ ys) → All xs × All ys
  All-split [] ys h = (tt, h)
  All-split (x ∷ xs) ys h = let (hx, hy) = All-split xs ys h.1 in ((h.0, hx), hy)

  pub All-lookup : {a : A} (xs : List A) → All xs → Memᴰ a xs → P a
  All-lookup [] h m = elim m [ ]
  All-lookup {a} (x ∷ xs) h (Memᴰ.head e) = rw e h.0
  All-lookup (x ∷ xs) h (Memᴰ.tail m) = All-lookup xs h.1 m

module _ {ℓ κ μ} {A : Type ℓ} (P : A → Type κ) (Q : A → Type μ) where
  pub All-map : ((a : A) → P a → Q a) → (xs : List A) → All P xs → All Q xs
  All-map f [] h = tt
  All-map f (x ∷ xs) h = (f x h.0, All-map f xs h.1)

module _ {ℓ κ} {A : Type ℓ} (P : A → Type κ) where
  pub All-replace :
      (before after : List A) (x y : A)
      → (P x → P y)
      → All P (before ++ (x ∷ after))
      → All P (before ++ (y ∷ after))
  All-replace [] after x y f (h, hs) = (f h, hs)
  All-replace (b ∷ before) after x y f (h, hs) = (h, All-replace before after x y f hs)

  pub All-remove :
      (before after : List A) (x : A) → All P (before ++ (x ∷ after)) → All P (before ++ after)
  All-remove [] after x (h, hs) = hs
  All-remove (b ∷ before) after x (h, hs) = (h, All-remove before after x hs)

  pub All-middle : (before after : List A) (x : A) → All P (before ++ (x ∷ after)) → P x
  All-middle [] after x (h, hs) = h
  All-middle (b ∷ before) after x (h, hs) = All-middle before after x hs

module _ {ℓ} {A : Type ℓ} where
  pub Memᴰ-middle : (before : List A) (x : A) (after : List A) → Memᴰ x (before ++ (x ∷ after))
  Memᴰ-middle [] x after = Memᴰ.head refl
  Memᴰ-middle (b ∷ before) x after = Memᴰ.tail (Memᴰ-middle before x after)

  pub any_append : (p : A → Bool) (xs ys : List A) → any p (xs ++ ys) ≡ any p xs || any p ys
  any_append p [] ys = refl
  any_append p (x ∷ xs) ys = let ih = any_append p xs ys in ground (arith, ih)

  pub any_agree : (p q : A → Bool) (xs : List A) → ((x : A) → p x ≡ q x) → any p xs ≡ any q xs
  any_agree p q [] e = refl
  any_agree p q (x ∷ xs) e = rw (e x, any_agree p q xs e) refl

module _ {ℓ κ} {A : Type ℓ} {B : Type κ} where
  pub any-map : (p : B → Bool) (f : A → B) (xs : List A) → any p (map f xs) ≡ any (λ x. p (f x)) xs
  any-map p f [] = refl
  any-map p f (x ∷ xs) = ap (λ b. p (f x) || b) (any-map p f xs)
