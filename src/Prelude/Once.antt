-- ===== src/Prelude/Once.antt =====
-- A Set of texts, as the list of its members in insertion order.
use mathlib.Core.Path.{◌≡◌, refl, sym, ap, ◌∙◌}
use mathlib.Core.Bool.{Bool, true, false, not, ◌&&◌, ◌||◌}
use mathlib.Core.List.{List, [], ◌∷◌, ◌++◌}
use native.Mathlib.Omega.{arith}
use text.Mathlib.Text.{◌==◌ as str_eq}
use text.Mathlib.TextEquality.{eq_iff}
use Prim.Native.String.{String}
use framework_module_resizer.Prelude.Tests.{if◌then◌else◌}
use framework_module_resizer.Prelude.Lists.{any, any_append}

-- `set.add(f)`, in insertion order.
abbrev pub added_once : String → List String → List String
added_once f dropped = if any (str_eq f) dropped then dropped else dropped ++ f ∷ []

-- No text twice.
abbrev pub all_distinct : List String → Bool
all_distinct [] = true
all_distinct (x ∷ xs) = not (any (str_eq x) xs) && all_distinct xs

any-append :
    (g f : String) (xs : List String)
    → any (str_eq g) (xs ++ f ∷ []) ≡ any (str_eq g) xs || str_eq g f
any-append g f [] = ground arith
any-append g f (x ∷ xs) = let ih = any-append g f xs in ground (arith, ih)

all_distinct-append :
    (f : String) (xs : List String)
    → all_distinct xs ≡ true
    → any (str_eq f) xs ≡ false
    → all_distinct (xs ++ f ∷ []) ≡ true
all_distinct-append f [] d h = refl
all_distinct-append f (x ∷ xs) d h =
    let ih : all_distinct (xs ++ f ∷ []) ≡ true =
      all_distinct-append f xs (ground arith) (ground arith) in
    let a = any-append x f xs in ground (arith, ih, a, eq_iff f x, eq_iff x f)

pub added_once-distinct :
    (f : String) (xs : List String) → all_distinct xs ≡ true → all_distinct (added_once f xs) ≡ true
added_once-distinct f xs d = by_test (any (str_eq f) xs) refl
  where
    by_test :
        (b : Bool) → any (str_eq f) xs ≡ b → all_distinct (if b then xs else xs ++ f ∷ []) ≡ true
    by_test true e = d
    by_test false e = all_distinct-append f xs d e

pub added_once-any :
    (g f : String) (xs : List String)
    → any (str_eq g) (added_once f xs) ≡ any (str_eq g) xs || str_eq g f
added_once-any g f xs = by_test (any (str_eq f) xs) refl
  where
    by_test :
        (b : Bool)
        → any (str_eq f) xs ≡ b
        → any (str_eq g) (if b then xs else xs ++ f ∷ []) ≡ any (str_eq g) xs || str_eq g f
    by_test false e = any-append g f xs
    by_test true e = by_name (str_eq g f) refl
      where
        by_name : (c : Bool) → str_eq g f ≡ c → any (str_eq g) xs ≡ any (str_eq g) xs || c
        by_name false n = ground arith
        by_name true n =
            let same : g ≡ f = (eq_iff g f).0 n in
            let h : any (str_eq g) xs ≡ true = ap (λ k. any (str_eq k) xs) same ∙ e in ground arith

-- Each of the texts added in turn.
unfoldable pub added_all : List String → List String → List String
added_all [] set = set
added_all (x ∷ xs) set = added_all xs (added_once x set)

pub added_all-distinct :
    (xs set : List String) → all_distinct set ≡ true → all_distinct (added_all xs set) ≡ true
unfolding added_all
added_all-distinct [] set d = d
added_all-distinct (x ∷ xs) set d = added_all-distinct xs _ (added_once-distinct x set d)

pub added_all-any :
    (g : String) (xs set : List String)
    → any (str_eq g) (added_all xs set) ≡ any (str_eq g) set || any (str_eq g) xs
unfolding added_all
added_all-any g [] set = ground arith
added_all-any g (x ∷ xs) set =
    let ih = added_all-any g xs (added_once x set) in
    let one = added_once-any g x set in ground (arith, ih, one)

pub added_all-append :
    (xs ys set : List String) → added_all (xs ++ ys) set ≡ added_all ys (added_all xs set)
unfolding added_all
added_all-append [] ys set = refl
added_all-append (x ∷ xs) ys set = added_all-append xs ys (added_once x set)

-- A member that passes is one of those that do.
any_of_member :
    (q : String → Bool) (f : String) (xs : List String)
    → any (str_eq f) xs ≡ true
    → q f ≡ true
    → any q xs ≡ true
any_of_member q f [] h t = cc
any_of_member q f (x ∷ xs) h t = by_name (str_eq f x) refl (λ k. any_of_member q f xs k t)
  where
    by_name :
        (b : Bool)
        → str_eq f x ≡ b
        → (any (str_eq f) xs ≡ true → any q xs ≡ true)
        → q x || any q xs ≡ true
    by_name true e ih =
        let here : q x ≡ true = sym (ap q ((eq_iff f x).0 e)) ∙ t in ground (arith, here)
    by_name false e ih = let rest = ih (ground (arith, h, e)) in ground (arith, rest)

added_once-any_of :
    (q : String → Bool) (f : String) (xs : List String) → any q (added_once f xs) ≡ any q xs || q f
added_once-any_of q f xs = by_test (any (str_eq f) xs) refl
  where
    by_test :
        (b : Bool)
        → any (str_eq f) xs ≡ b
        → any q (if b then xs else xs ++ f ∷ []) ≡ any q xs || q f
    by_test false e = any_append q xs (f ∷ []) ∙ ground arith
    by_test true e = by_pass (q f) refl
      where
        by_pass : (c : Bool) → q f ≡ c → any q xs ≡ any q xs || c
        by_pass false n = ground arith
        by_pass true n = let h = any_of_member q f xs e n in ground (arith, h)

pub added_all-any_of :
    (q : String → Bool) (xs set : List String) → any q (added_all xs set) ≡ any q set || any q xs
unfolding added_all
added_all-any_of q [] set = ground arith
added_all-any_of q (x ∷ xs) set =
    let ih = added_all-any_of q xs (added_once x set) in
    let one = added_once-any_of q x set in ground (arith, ih, one)
