-- ===== src/Keys/Sample.antt =====
-- An encoding that escapes `:` and `%` as `encodeURIComponent` does, and no other character.
use Prim.Native.Char.{Char, code}
use Prim.Native.String.{[], ◌∷◌}
use text.Mathlib.TextLemmas.{head-eq_of_cons-eq, tail-eq_of_cons-eq, cons≢nil}
use text.Mathlib.TextEquality.{Char-path}
use mathlib.Core.Path.{ap₂}
use framework_module_resizer.Prelude.{
  ℕ, String, Bool, true, false, ◌≡◌, ◌≢◌, refl, ap, sym, ◌∙◌, arith, ◌==◌, ==_iff,
}
use framework_module_resizer.Keys.{NoColon, IsUriEncoding}

data Kind : Type 0 where
  colon percent plain : Kind

kind_from : Bool → Bool → Kind
kind_from true b = colon
kind_from false true = percent
kind_from false false = plain

kind : Char → Kind
unfolding kind_from
kind c = kind_from (code c == b':') (code c == b'%')

escaped : Kind → Char → String → String
escaped colon c s = "%" ∷ "3" ∷ "A" ∷ s
escaped percent c s = "%" ∷ "2" ∷ "5" ∷ s
escaped plain c s = c ∷ s

pub encode : String → String
unfolding escaped kind
encode [] = []
encode (c ∷ s) = escaped (kind c) c (encode s)

data KindOf (c : Char) : Kind → Type 0 where
  is_colon : code c ≡ b':' → KindOf c colon
  is_percent : code c ≡ b'%' → KindOf c percent
  is_plain : code c ≢ b':' → code c ≢ b'%' → KindOf c plain

kind-KindOf : (c : Char) → KindOf c (kind c)
unfolding kind
kind-KindOf c = by_tests (code c == b':') (code c == b'%') refl refl
  where
    by_tests : (p q : Bool) → (code c == b':') ≡ p → (code c == b'%') ≡ q → KindOf c (kind_from p q)
    by_tests true q e f = is_colon ((==_iff _ _).0 e)
    by_tests false true e f = is_percent ((==_iff _ _).0 f)
    by_tests false false e f = is_plain (ground arith) (ground arith)

encode-NoColon : (s : String) → NoColon (encode s)
unfolding encode
encode-NoColon [] = tt
encode-NoColon (c ∷ s) = by_kind (kind c) (kind-KindOf c) (encode-NoColon s)
  where
    by_kind : (k : Kind) → KindOf c k → NoColon (encode s) → NoColon (escaped k c (encode s))
    by_kind colon v h = (omega arith, (omega arith, (omega arith, h)))
    by_kind percent v h = (omega arith, (omega arith, (omega arith, h)))
    by_kind plain (is_plain p q) h = (p, h)

-- Blocks of two kinds differ in their first or third character.
escaped-injective :
    (k j : Kind) (c d : Char) (s t : String)
    → KindOf c k
    → KindOf d j
    → escaped k c s ≡ escaped j d t
    → (c ≡ d) × (s ≡ t)
unfolding escaped
escaped-injective colon colon c d s t (is_colon p) (is_colon q) e =
    (Char-path c d (p ∙ sym q), tail-eq_of_cons-eq (tail-eq_of_cons-eq (tail-eq_of_cons-eq e)))
escaped-injective percent percent c d s t (is_percent p) (is_percent q) e =
    (Char-path c d (p ∙ sym q), tail-eq_of_cons-eq (tail-eq_of_cons-eq (tail-eq_of_cons-eq e)))
escaped-injective plain plain c d s t v w e = (head-eq_of_cons-eq e, tail-eq_of_cons-eq e)
escaped-injective colon percent c d s t v w e =
    let n : ◌≡◌ {A = ℕ} 51 50 = ap code (head-eq_of_cons-eq (tail-eq_of_cons-eq e)) in
    absurd (omega arith)
escaped-injective percent colon c d s t v w e =
    let n : ◌≡◌ {A = ℕ} 50 51 = ap code (head-eq_of_cons-eq (tail-eq_of_cons-eq e)) in
    absurd (omega arith)
escaped-injective colon plain c d s t v (is_plain p q) e =
    absurd (q (sym (ap code (head-eq_of_cons-eq e))))
escaped-injective percent plain c d s t v (is_plain p q) e =
    absurd (q (sym (ap code (head-eq_of_cons-eq e))))
escaped-injective plain colon c d s t (is_plain p q) w e =
    absurd (q (ap code (head-eq_of_cons-eq e)))
escaped-injective plain percent c d s t (is_plain p q) w e =
    absurd (q (ap code (head-eq_of_cons-eq e)))

escaped-ne-nil : (k : Kind) (c : Char) (s : String) → escaped k c s ≢ []
unfolding escaped
escaped-ne-nil colon c s e = cons≢nil e
escaped-ne-nil percent c s e = cons≢nil e
escaped-ne-nil plain c s e = cons≢nil e

encode-injective : (s t : String) → encode s ≡ encode t → s ≡ t
unfolding encode
encode-injective [] [] e = refl
encode-injective [] (d ∷ t) e = absurd (escaped-ne-nil (kind d) d (encode t) (sym e))
encode-injective (c ∷ s) [] e = absurd (escaped-ne-nil (kind c) c (encode s) e)
encode-injective (c ∷ s) (d ∷ t) e =
    let (same, rest) =
      escaped-injective (kind c) (kind d) c d _ _ (kind-KindOf c) (kind-KindOf d) e in
    ap₂ (λ x y. x ∷ y) same (encode-injective s t rest)

pub encode-IsUriEncoding : IsUriEncoding encode
encode-IsUriEncoding = record { injective = encode-injective; escapes = encode-NoColon }
