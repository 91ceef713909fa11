-- ===== src/Prelude/Sets.antt =====
-- A Set of texts, up to the order in which its members were added.
use Prim.Native.String.{String}
use mathlib.Core.Path.{◌≡◌, refl, sym, ap, subst, ◌∙◌}
use mathlib.Core.Logic.{◌⊎◌, inl, inr}
use mathlib.Core.Bool.{Bool, true, false}
use mathlib.Core.List.{List, [], ◌∷◌, ◌++◌, append_assoc, Permᴰ}
use mathlib.Core.List.Permᴰ
use native.Mathlib.Omega.{arith}
use text.Mathlib.Text.{◌==◌ as str_eq}
use text.Mathlib.TextEquality.{eq_iff}
use framework_module_resizer.Prelude.Tests.{Bool-cases}
use framework_module_resizer.Prelude.Lists.{any, any_append}
use framework_module_resizer.Prelude.Once.{added_once, added_all}

any-Permᴰ : {A : Type 0} (q : A → Bool) {xs ys : List A} → Permᴰ xs ys → any q xs ≡ any q ys
any-Permᴰ q Permᴰ.nil = refl
any-Permᴰ q (Permᴰ.cons {a} {b} e p) = let ih = any-Permᴰ q p in cc (e, ih)
any-Permᴰ q (Permᴰ.swap {a} {b} {a'} {b'} {l} e f) =
    let ea : q a ≡ q b' = ap q e in let eb : q b ≡ q a' = ap q f in ground (arith, ea, eb)
any-Permᴰ q (Permᴰ.trans p r) = any-Permᴰ q p ∙ any-Permᴰ q r

added_once-Permᴰ :
    (x : String) {xs ys : List String} → Permᴰ xs ys → Permᴰ (added_once x xs) (added_once x ys)
added_once-Permᴰ x {xs} {ys} p = by_test (Bool-cases (any (str_eq x) xs))
  where
    by_test :
        (any (str_eq x) xs ≡ true) ⊎ (any (str_eq x) xs ≡ false)
        → Permᴰ (added_once x xs) (added_once x ys)
    by_test (inl e) = rw (e, sym (any-Permᴰ (str_eq x) p) ∙ e) p
    by_test (inr e) = rw (e, sym (any-Permᴰ (str_eq x) p) ∙ e) (Permᴰ.append_right (x ∷ []) p)

added_all-Permᴰ_set :
    (ks : List String) {xs ys : List String}
    → Permᴰ xs ys
    → Permᴰ (added_all ks xs) (added_all ks ys)
unfolding added_all
added_all-Permᴰ_set [] p = p
added_all-Permᴰ_set (k ∷ ks) p = added_all-Permᴰ_set ks (added_once-Permᴰ k p)

added_twice :
    (x y : String) (s : List String)
    → Permᴰ (added_once y (added_once x s)) (added_once x (added_once y s))
added_twice x y s =
    by_tests (Bool-cases (any (str_eq x) s)) (Bool-cases (any (str_eq y) s))
      (Bool-cases (str_eq x y))
  where
    by_tests :
        (any (str_eq x) s ≡ true) ⊎ (any (str_eq x) s ≡ false)
        → (any (str_eq y) s ≡ true) ⊎ (any (str_eq y) s ≡ false)
        → (str_eq x y ≡ true) ⊎ (str_eq x y ≡ false)
        → Permᴰ (added_once y (added_once x s)) (added_once x (added_once y s))
    by_tests p q (inl r) =
        subst (λ z. Permᴰ (added_once z (added_once x s)) (added_once x (added_once z s)))
          ((eq_iff x y).0 r) (Permᴰ.refl _)
    by_tests (inl p) (inl q) (inr r) = rw (p, q, p) (Permᴰ.refl s)
    by_tests (inl p) (inr q) (inr r) =
        let t : any (str_eq x) (s ++ y ∷ []) ≡ true =
          any_append (str_eq x) s (y ∷ []) ∙ ground (arith, p) in
        rw (p, q, t) (Permᴰ.refl _)
    by_tests (inr p) (inl q) (inr r) =
        let t : any (str_eq y) (s ++ x ∷ []) ≡ true =
          any_append (str_eq y) s (x ∷ []) ∙ ground (arith, q) in
        rw (p, q, t, p) (Permᴰ.refl _)
    by_tests (inr p) (inr q) (inr r) =
        let t : any (str_eq y) (s ++ x ∷ []) ≡ false =
          any_append (str_eq y) s (x ∷ []) ∙ ground (arith, q, r, eq_iff x y, eq_iff y x) in
        let u : any (str_eq x) (s ++ y ∷ []) ≡ false =
          any_append (str_eq x) s (y ∷ []) ∙ ground (arith, p, r) in
        rw (p, q, t, u)
          (rw (append_assoc s (x ∷ []) (y ∷ []), append_assoc s (y ∷ []) (x ∷ []))
            (Permᴰ.append_left s (Permᴰ.swap refl refl)))

-- The members of a Set do not depend on the order of the additions.
pub added_all-Permᴰ :
    {ks js : List String} (set : List String)
    → Permᴰ ks js
    → Permᴰ (added_all ks set) (added_all js set)
unfolding added_all
added_all-Permᴰ set Permᴰ.nil = Permᴰ.refl set
added_all-Permᴰ set (Permᴰ.cons {a} {b} {l₁} {l₂} e p) =
    subst (λ z. Permᴰ (added_all l₁ (added_once a set)) (added_all l₂ (added_once z set))) e
      (added_all-Permᴰ (added_once a set) p)
added_all-Permᴰ set (Permᴰ.swap {a} {b} {a'} {b'} {l} e f) =
    subst
      (λ z.
        Permᴰ (added_all l (added_once b (added_once a set)))
          (added_all l (added_once b' (added_once z set))))
      f
      (subst
        (λ z.
          Permᴰ (added_all l (added_once b (added_once a set)))
            (added_all l (added_once z (added_once b set))))
        e (added_all-Permᴰ_set l (added_twice a b set)))
added_all-Permᴰ set (Permᴰ.trans p q) = Permᴰ.trans (added_all-Permᴰ set p) (added_all-Permᴰ set q)
