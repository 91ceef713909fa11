-- ===== src/Prelude/Decimal.antt =====
-- A natural number as decimal digits in front of a text, and the digits at the start of a text.
use Prim.Native.Nat.{ℕ, zero, suc, ◌+◌, ◌-◌, ◌*◌, ◌/◌, ◌%◌, ◌≤◌, ◌<◌, compare, Ordering}
use Prim.Native.Char.{Char, char, code, IsLt, IsScalar}
use Prim.Native.String.{String, [], ◌∷◌, count}
use text.Mathlib.Text.{◌==◌ as str_eq}
use text.Mathlib.TextEquality.{eq_iff}
use text.Mathlib.TextLemmas.{length-cons}
use mathlib.Core.Path.{◌∙◌, ◌≡◌, refl, ap}
use mathlib.Core.Bool.{Bool, true, false, ◌&&◌}
use native.Mathlib.Omega.{arith}
use framework_module_resizer.Prelude.Tests.{◌==◌, leb, if◌then◌else◌}

-- `IsScalar n`, by its three comparisons.
abbrev BothLess : Ordering → Ordering → Type 0
BothLess Ordering.lt o = IsLt o
BothLess Ordering.eq _ = ⊥
BothLess Ordering.gt _ = ⊥

abbrev Scalar : Ordering → Ordering → Ordering → Type 0
Scalar Ordering.lt _ _ = Unit
Scalar Ordering.eq o p = BothLess o p
Scalar Ordering.gt o p = BothLess o p

pub small-IsScalar : (n : ℕ) → n < 55296 → IsScalar n
small-IsScalar n h = by_order (compare n 55296) (compare 57343 n) (compare n 1114112) (ground arith)
  where
    by_order : (o p q : Ordering) → o ≡ Ordering.lt → Scalar o p q
    by_order Ordering.lt p q e = tt
    by_order Ordering.eq p q e = absurd (ground arith)
    by_order Ordering.gt p q e = absurd (ground arith)

-- The last digit.
abbrev digit : ℕ → Char
digit n = char (b'0' + n % 10) (small-IsScalar (b'0' + n % 10) (omega arith))

-- The digits of `n` in front of a text, of at most `fuel` digits.
unfoldable pub digits_within : (fuel n : ℕ) → String → String
digits_within zero n out = out
digits_within (suc fuel) n out =
    let longer = digits_within fuel (n / 10) (digit n ∷ out) in if n == 0 then out else longer

-- The digits of a positive number: it has no more of them than it counts.
unfoldable pub digits : ℕ → String → String
unfolding digits_within
digits n out = digits_within n n out

abbrev is_digit : Char → Bool
is_digit c = leb b'0' (code c) && leb (code c) b'9'

-- The number that the digits at the start of a text make, read behind `read`, and the text after them.
unfoldable pub scan : String → ℕ → ℕ × String
scan [] read = (read, [])
scan (c ∷ s) read =
    let further = scan s (read * 10 + (code c - b'0')) in
    if is_digit c then further else (read, c ∷ s)

scan-digit : (n : ℕ) (s : String) → scan (digit n ∷ s) (n / 10) ≡ scan s n
unfolding scan
scan-digit n s = ground arith

scan-digits_within :
    (fuel n : ℕ) (s : String) → n ≤ fuel → scan (digits_within fuel n s) 0 ≡ scan s n
unfolding digits_within
scan-digits_within zero n s h = ap (scan s) (omega (arith, h))
scan-digits_within (suc fuel) n s h =
    by_test (n == 0) refl
      (λ pos. scan-digits_within fuel (n / 10) (digit n ∷ s) (omega (arith, h, pos)))
  where
    by_test :
        (b : Bool)
        → (n == 0) ≡ b
        → (1 ≤ n → scan (digits_within fuel (n / 10) (digit n ∷ s)) 0 ≡ scan (digit n ∷ s) (n / 10))
        → scan (if b then s else digits_within fuel (n / 10) (digit n ∷ s)) 0 ≡ scan s n
    by_test true e ih = let nil : 0 ≡ n = ground (arith, e) in ap (scan s) nil
    by_test false e ih = ih (ground (arith, e)) ∙ scan-digit n s

-- The digits of `n` are read back as `n`.
pub scan-digits : (n : ℕ) (s : String) → scan (digits n s) 0 ≡ scan s n
unfolding digits
scan-digits n s = scan-digits_within n n s (omega arith)

digits_within-le : (fuel n : ℕ) (s : String) → count s ≤ count (digits_within fuel n s)
unfolding digits_within
digits_within-le zero n s = omega arith
digits_within-le (suc fuel) n s =
    let more = digits_within-le fuel (n / 10) (digit n ∷ s) in
    let one = length-cons (digit n) s in by_test (n == 0) more one
  where
    by_test :
        (b : Bool)
        → count (digit n ∷ s) ≤ count (digits_within fuel (n / 10) (digit n ∷ s))
        → count (digit n ∷ s) ≡ suc (count s)
        → count s ≤ count (if b then s else digits_within fuel (n / 10) (digit n ∷ s))
    by_test true more one = omega arith
    by_test false more one = omega (arith, more, one)

-- A positive number has a digit.
pub digits-ne : (n : ℕ) (s : String) → 1 ≤ n → str_eq s (digits n s) ≡ false
unfolding digits digits_within
digits-ne zero s h = absurd (omega (arith, h))
digits-ne (suc m) s h = by_name (str_eq s (digits (suc m) s)) refl
  where
    by_name : (b : Bool) → str_eq s (digits (suc m) s) ≡ b → b ≡ false
    by_name false e = refl
    by_name true e =
        let same : count s ≡ count (digits (suc m) s) =
          ap count ((eq_iff s (digits (suc m) s)).0 e) in
        let more = digits_within-le m (suc m / 10) (digit (suc m) ∷ s) in
        let one = length-cons (digit (suc m)) s in
        let split : digits (suc m) s ≡ digits_within m (suc m / 10) (digit (suc m) ∷ s) =
          ground arith in
        let counted = ap count split in absurd (omega (arith, same, counted, more, one))
