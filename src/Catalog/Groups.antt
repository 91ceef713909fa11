-- ===== src/Catalog/Groups.antt =====
-- A Map from texts to the rows pushed under them, in insertion order, as the catalog builds it.
use framework_module_resizer.Prelude.{
  String, Bool, true, false, ◌&&◌, Option, none, some, List, [], ◌∷◌, ◌++◌, ◌≡◌, refl, ◌∙◌, ap,
  str_eq, eq_iff, arith, if◌then◌else◌, or_else, keep_if, filter, append_assoc,
}

module _ {A : Type 0} where
  abbrev pub lookup : String → List (String × A) → Option A
  lookup k [] = none
  lookup k (e ∷ m) = if str_eq e.0 k then some e.1 else lookup k m

  -- No key twice.
  unfoldable pub Distinct : List (String × A) → Type 0
  Distinct [] = Unit
  Distinct (e ∷ m) = (lookup e.0 m ≡ none) × Distinct m

module _ {A : Type 0} where
  -- `rows.push(x)`, or a new group.
  unfoldable pub push : String → A → List (String × List A) → List (String × List A)
  push k x [] = (k, x ∷ []) ∷ []
  push k x ((j, xs) ∷ m) =
      let rest = push k x m in if str_eq j k then (j, xs ++ x ∷ []) ∷ m else (j, xs) ∷ rest

  abbrev pub with_more : Option (List A) → List A → Option (List A)
  with_more o [] = o
  with_more o (x ∷ xs) = some (or_else o [] ++ x ∷ xs)

  push-lookup :
      (j k : String) (x : A) (m : List (String × List A))
      → lookup k (push j x m) ≡ (if str_eq j k then with_more (lookup k m) (x ∷ []) else lookup k m)
  unfolding push
  push-lookup j k x [] = refl
  push-lookup j k x ((i, xs) ∷ m) =
      let ih = push-lookup j k x m in ground (arith, eq_iff i j, eq_iff i k, eq_iff j k, ih)

  push-Distinct :
      (j : String) (x : A) (m : List (String × List A)) → Distinct m → Distinct (push j x m)
  unfolding push Distinct
  push-Distinct j x [] d = (refl, tt)
  push-Distinct j x ((i, xs) ∷ m) (fresh, d) = by_test (str_eq i j) refl (push-Distinct j x m d)
    where
      by_test :
          (b : Bool)
          → str_eq i j ≡ b
          → Distinct (push j x m)
          → Distinct (if b then (i, xs ++ x ∷ []) ∷ m else (i, xs) ∷ push j x m)
      by_test true e ih = (fresh, d)
      by_test false e ih =
          ((let p = push-lookup j i x m in ground (arith, eq_iff i j, eq_iff j i, p)), ih)

  -- The rows that pass `counts`, each pushed under its key.
  unfoldable pub group :
      (A → Bool) → (A → String) → List A → List (String × List A) → List (String × List A)
  unfolding push
  group counts key [] m = m
  group counts key (x ∷ xs) m = group counts key xs (if counts x then push (key x) x m else m)

  pub group-Distinct :
      (counts : A → Bool) (key : A → String) (xs : List A) (m : List (String × List A))
      → Distinct m
      → Distinct (group counts key xs m)
  unfolding group
  group-Distinct counts key [] m d = d
  group-Distinct counts key (x ∷ xs) m d = group-Distinct counts key xs _ (by_test (counts x))
    where
      by_test : (b : Bool) → Distinct (if b then push (key x) x m else m)
      by_test true = push-Distinct (key x) x m d
      by_test false = d

  -- A group holds the rows of its key, in order.
  pub group-lookup :
      (counts : A → Bool) (key : A → String) (k : String) (xs : List A) (m : List (String × List A))
      → lookup k (group counts key xs m)
        ≡ with_more (lookup k m) (filter (λ x. counts x && str_eq (key x) k) xs)
  unfolding group
  group-lookup counts key k [] m = refl
  group-lookup counts key k (x ∷ xs) m = group-lookup counts key k xs _ ∙ by_test (counts x)
    where
      more :
          (o : Option (List A)) (ys : List A)
          → with_more (with_more o (x ∷ [])) ys ≡ with_more o (x ∷ ys)
      more none [] = refl
      more none (y ∷ ys) = refl
      more (some zs) [] = refl
      more (some zs) (y ∷ ys) = ap some (append_assoc zs (x ∷ []) (y ∷ ys))

      pushed :
          (b : Bool) (ys : List A)
          → with_more (if b then with_more (lookup k m) (x ∷ []) else lookup k m) ys
            ≡ with_more (lookup k m) (keep_if b x ys)
      pushed true ys = more (lookup k m) ys
      pushed false ys = refl

      by_test :
          (b : Bool)
          → with_more
              (lookup k (if b then push (key x) x m else m))
              (filter (λ y. counts y && str_eq (key y) k) xs)
            ≡ with_more
                (lookup k m)
                (keep_if (b && str_eq (key x) k) x (filter (λ y. counts y && str_eq (key y) k) xs))
      by_test true =
          ap (λ o. with_more o (filter (λ y. counts y && str_eq (key y) k) xs))
            (push-lookup (key x) k x m)
          ∙ pushed (str_eq (key x) k) (filter (λ y. counts y && str_eq (key y) k) xs)
      by_test false = refl
