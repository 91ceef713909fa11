-- ===== src/Dispatcher/Regroup.antt =====
-- dispatcher.ts: groupVariants keeps every variant of the canonical payload once.
use mathlib.Core.List.{Permᴰ}
use mathlib.Core.List.Permᴰ
use framework_module_resizer.Prelude.{
  String, Bool, true, false, not, List, [], ◌∷◌, ◌++◌, filter, keep_if, str_eq, refl, subst,
  if◌then◌else◌, append_assoc, append-nil,
}
use framework_module_resizer.Types.{MissingPreview}
use framework_module_resizer.Catalog.Groups.{group, push}
use framework_module_resizer.Dispatcher.Variants.{group_variants, sort_out, values, flat}

module _ {A : Type 0} where
  swap_blocks : (xs ys zs : List A) → Permᴰ (xs ++ (ys ++ zs)) (ys ++ (xs ++ zs))
  swap_blocks [] ys zs = Permᴰ.refl _
  swap_blocks (x ∷ xs) ys zs =
      Permᴰ.trans (Permᴰ.cons refl (swap_blocks xs ys zs))
        (Permᴰ.symm (Permᴰ.middle x ys (xs ++ zs)))

  push-Permᴰ :
      (k : String) (x : A) (m : List (String × List A))
      → Permᴰ (flat (values (push k x m))) (x ∷ flat (values m))
  unfolding push
  push-Permᴰ k x [] = Permᴰ.refl _
  push-Permᴰ k x ((j, xs) ∷ m) = by_test (str_eq j k) (push-Permᴰ k x m)
    where
      by_test :
          (b : Bool)
          → Permᴰ (flat (values (push k x m))) (x ∷ flat (values m))
          → Permᴰ
              (flat (values (if b then (j, xs ++ x ∷ []) ∷ m else (j, xs) ∷ push k x m)))
              (x ∷ (xs ++ flat (values m)))
      by_test true ih =
          rw (append_assoc xs (x ∷ []) (flat (values m))) (Permᴰ.middle x xs (flat (values m)))
      by_test false ih = Permᴰ.trans (Permᴰ.append_left xs ih) (Permᴰ.middle x xs (flat (values m)))

  group-Permᴰ :
      (key : A → String) (xs : List A) (m : List (String × List A))
      → Permᴰ (flat (values (group (λ x. true) key xs m))) (xs ++ flat (values m))
  unfolding group
  group-Permᴰ key [] m = Permᴰ.refl _
  group-Permᴰ key (x ∷ xs) m = Permᴰ.trans (group-Permᴰ key xs (push (key x) x m)) (
      Permᴰ.trans (Permᴰ.append_left xs (push-Permᴰ (key x) x m))
        (Permᴰ.middle x xs (flat (values m))))

  pub filter-Permᴰ :
      (p : A → Bool) (xs : List A) → Permᴰ (filter (λ x. not (p x)) xs ++ filter p xs) xs
  filter-Permᴰ p [] = Permᴰ.nil
  filter-Permᴰ p (x ∷ xs) = by_test (p x) (filter-Permᴰ p xs)
    where
      by_test :
          (b : Bool)
          → Permᴰ (filter (λ x. not (p x)) xs ++ filter p xs) xs
          → Permᴰ
              (keep_if (not b) x (filter (λ x. not (p x)) xs) ++ keep_if b x (filter p xs))
              (x ∷ xs)
      by_test true ih = Permᴰ.trans (Permᴰ.middle x _ _) (Permᴰ.cons refl ih)
      by_test false ih = Permᴰ.cons refl ih

sort_out-Permᴰ :
    (m : List (String × List MissingPreview))
    → Permᴰ (values (sort_out m).unique ++ flat (values (sort_out m).conflicts)) (flat (values m))
unfolding sort_out
sort_out-Permᴰ [] = Permᴰ.nil
sort_out-Permᴰ ((k, []) ∷ m) = sort_out-Permᴰ m
sort_out-Permᴰ ((k, v ∷ []) ∷ m) = Permᴰ.cons refl (sort_out-Permᴰ m)
sort_out-Permᴰ ((k, v ∷ w ∷ vs) ∷ m) =
    Permᴰ.trans
      (swap_blocks (values (sort_out m).unique) (v ∷ w ∷ vs) (flat (values (sort_out m).conflicts)))
      (Permᴰ.append_left (v ∷ w ∷ vs) (sort_out-Permᴰ m))

module _ (canonical : List MissingPreview → List MissingPreview)
    (identity payload : MissingPreview → String) where
  pub group_variants-Permᴰ :
      (previews : List MissingPreview)
      → Permᴰ
          (values (group_variants canonical identity payload previews).unique
            ++ flat (values (group_variants canonical identity payload previews).conflicts))
          (canonical previews)
  unfolding group_variants
  group_variants-Permᴰ previews =
      Permᴰ.trans (sort_out-Permᴰ (group (λ v. true) identity (canonical previews) [])) (
        subst (λ l. Permᴰ (flat (values (group (λ v. true) identity (canonical previews) []))) l)
          (append-nil (canonical previews)) (group-Permᴰ identity (canonical previews) []))
