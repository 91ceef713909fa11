-- ===== src/Sizes/RoundTrip.antt =====
-- images.ts: what parseSizeKey reads back from the key that getSizeKey makes.
use mathlib.Core.Option.{some-injective}
use framework_module_resizer.Prelude.{
  ℕ, ◌≤◌, ◌*◌, ◌^◌, ◌&&◌, ◌||◌, ltb, leb, leb→le, String, Bool, true, false, Option, none, some,
  ◌≡◌, ◌≢◌, refl, sym, ap, subst, ◌∙◌, str_eq, eq_iff, if◌then◌else◌,
}
use framework_module_resizer.Prelude.Decimal.{digits, scan, scan-digits, digits-ne}
use framework_module_resizer.Sizes.{
  SizeInput, Number, dyadic, large, nan, infinite, below_zero, Whole, exact, beyond, round,
  whole_text, after_letter, height_after, key_dimension, sides_key, get_size_key, number_in_front,
  parse_size_key, is_fit, letter_x, letter_w, letter_h, by_number,
}

-- The digits of a positive number in front of a text that starts with no digit.
number_in_front-digits :
    (n : ℕ) (out : String)
    → 1 ≤ n
    → scan out n ≡ (n, out)
    → number_in_front (digits n out) ≡ some (n, out)
unfolding number_in_front
number_in_front-digits n out h stops =
    let read : scan (digits n out) 0 ≡ (n, out) = scan-digits n out ∙ stops in
    rw (read, digits-ne n out h) refl

no_number : {o : ℕ × String} → number_in_front "fit" ≢ some o
unfolding number_in_front scan
no_number e = cc

parse-digits :
    (n : ℕ) (out : String)
    → 1 ≤ n
    → scan out n ≡ (n, out)
    → parse_size_key (digits n out) ≡ after_letter (digits n out) n out
unfolding parse_size_key
parse-digits n out h stops = by_name (str_eq (digits n out) "fit") refl
  where
    by_name :
        (b : Bool)
        → str_eq (digits n out) "fit" ≡ b
        → (if b
            then record { size_key = "fit"; width = none; height = none; fit = true }
            else by_number (digits n out) (number_in_front (digits n out)))
          ≡ after_letter (digits n out) n out
    by_name false e = ap (by_number (digits n out)) (number_in_front-digits n out h stops)
    by_name true e = absurd (
        no_number (
          ap number_in_front (sym ((eq_iff (digits n out) "fit").0 e))
          ∙ number_in_front-digits n out h stops))

-- The number is not large.
abbrev pub is_exact : Option Number → Bool
is_exact (some (large t)) = false
is_exact (some (dyadic n k)) = ltb n (2 ^ 53 * 2 ^ k)
is_exact o = true

-- The side that a number gives to what is read back.
abbrev pub exact_side : Option Whole → Option ℕ
exact_side (some (exact n)) = some n
exact_side o = none

-- The side of a number that is not large is positive.
abbrev IsSide : Option Whole → Type 0
IsSide none = Unit
IsSide (some (exact n)) = 1 ≤ n
IsSide (some (beyond t)) = ⊥

key_dimension-IsSide : (o : Option Number) → is_exact o ≡ true → IsSide (key_dimension o)
unfolding key_dimension
key_dimension-IsSide (some (dyadic m k)) e = by_sign (ltb 0 m)
  where
    by_round : (r : ℕ) (b : Bool) → leb 1 r ≡ b → IsSide (if b then some (exact r) else none)
    by_round r true h = leb→le 1 r h
    by_round r false h = tt

    by_sign :
        (b : Bool)
        → IsSide
            (if b then (if leb 1 (round m k) then some (exact (round m k)) else none) else none)
    by_sign true = by_round (round m k) (leb 1 (round m k)) refl
    by_sign false = tt
key_dimension-IsSide (some (large t)) e = cc
key_dimension-IsSide (some nan) e = tt
key_dimension-IsSide (some infinite) e = tt
key_dimension-IsSide (some (below_zero n k)) e = tt
key_dimension-IsSide none e = tt

stops_at_x : (n : ℕ) (s : String) → scan (letter_x s) n ≡ (n, letter_x s)
unfolding scan
stops_at_x n s = refl

stops :
    (n : ℕ)
    → (scan "" n ≡ (n, "")) × (scan letter_w n ≡ (n, letter_w)) × (scan letter_h n ≡ (n, letter_h))
unfolding scan
stops n = (refl, refl, refl)

sides_read :
    (ow oh : Option Whole) (key : String)
    → IsSide ow
    → IsSide oh
    → sides_key ow oh ≡ some key
    → parse_size_key key
      ≡ record { size_key = key; width = exact_side ow; height = exact_side oh; fit = false }
unfolding sides_key whole_text
sides_read (some (exact w)) (some (exact h)) key pw ph e =
    subst
      (λ k.
        parse_size_key k ≡ record { size_key = k; width = some w; height = some h; fit = false })
      (some-injective _ _ e)
      (parse-digits w (letter_x (digits h "")) pw (stops_at_x w (digits h ""))
        ∙ ap (height_after (digits w (letter_x (digits h ""))) w)
            (number_in_front-digits h "" ph (stops h).0))
sides_read (some (exact w)) none key pw ph e =
    subst
      (λ k. parse_size_key k ≡ record { size_key = k; width = some w; height = none; fit = false })
      (some-injective _ _ e) (parse-digits w letter_w pw (stops w).1)
sides_read none (some (exact h)) key pw ph e =
    subst
      (λ k. parse_size_key k ≡ record { size_key = k; width = none; height = some h; fit = false })
      (some-injective _ _ e) (parse-digits h letter_h ph (stops h).2)
sides_read none none key pw ph e = cc
sides_read (some (beyond t)) oh key pw ph e = absurd pw
sides_read (some (exact w)) (some (beyond t)) key pw ph e = absurd ph
sides_read none (some (beyond t)) key pw ph e = absurd ph

fit_read :
    parse_size_key "fit" ≡ record { size_key = "fit"; width = none; height = none; fit = true }
unfolding parse_size_key
fit_read = refl

-- The key that is made of a size with `fit`, or of one whose numbers are below 2 ^ 53, is read back:
-- as its size, with each usable side rounded, or as a fitted size, which has no sides.
pub parse-get_size_key :
    (size : SizeInput) (key : String)
    → is_fit size || is_exact size.width && is_exact size.height ≡ true
    → get_size_key size ≡ some key
    → parse_size_key key ≡ record {
      size_key = key;
      width = if is_fit size then none else exact_side (key_dimension size.width);
      height = if is_fit size then none else exact_side (key_dimension size.height);
      fit = is_fit size;
    }
unfolding get_size_key
parse-get_size_key size key small e =
    by_fit (is_fit size) (is_exact size.width) refl (is_exact size.height) refl small e
  where
    by_fit :
        (b w : Bool)
        → is_exact size.width ≡ w
        → (h : Bool) → is_exact size.height ≡ h
        → b || w && h ≡ true
        → (if b
            then some "fit"
            else sides_key (key_dimension size.width) (key_dimension size.height))
          ≡ some key
        → parse_size_key key ≡ record {
          size_key = key;
          width = if b then none else exact_side (key_dimension size.width);
          height = if b then none else exact_side (key_dimension size.height);
          fit = b;
        }
    by_fit true w ew h eh ok made =
        subst
          (λ k. parse_size_key k ≡ record { size_key = k; width = none; height = none; fit = true })
          (some-injective _ _ made) fit_read
    by_fit false true ew true eh ok made =
        sides_read _ _ key (key_dimension-IsSide size.width ew)
          (key_dimension-IsSide size.height eh) made
    by_fit false true ew false eh ok made = cc
    by_fit false false ew h eh ok made = cc
