-- ===== src/Sizes.antt =====
-- images.ts: the key of a size, what is read back from a key, and the payload of one size and format.
-- The source's numbers are doubles. Below 2 ^ 53 one is a fraction, and the text of a whole one is its
-- decimal digits; from there on a number is whole, and stands here by the text that the platform
-- prints for it, such as 1e+21.
pub mod RoundTrip
pub mod Requests
pub mod Covered
mod Tests
use Prim.Native.Char.{char}
use Prim.Native.String
use framework_module_resizer.Prelude.{
  ℕ, ◌+◌, ◌*◌, ◌/◌, ◌^◌, String, Bool, true, false, ◌&&◌, ◌||◌, not, Option, none, some, List, [],
  ◌∷◌, ◌++◌, str_eq, if◌then◌else◌, leb, ltb, any, or_else,
}
use framework_module_resizer.Prelude.Decimal.{digits, scan}
use framework_module_resizer.Types.{Fields, end, PreviewScope, MissingPreview}
use framework_module_resizer.Keys.{preview_identity, ◌⁀◌}

-- A `number`: `dyadic n k` is n / 2 ^ k, below 2 ^ 53; `large` is a finite one from 2 ^ 53 on, by its
-- text.
pub data Number : Type 0 where
  nan infinite : Number
  below_zero : ℕ → ℕ → Number
  dyadic : ℕ → ℕ → Number
  large : String → Number

-- A positive whole number, as `Math.round` gives it.
pub data Whole : Type 0 where
  exact : ℕ → Whole
  beyond : String → Whole

pub record SizeInput : Type 0 where
  pub width : Option Number
  pub height : Option Number
  pub fit : Option Bool
  pub filters : Option Fields

-- `Math.round` of n / 2 ^ k: the nearest whole number, the larger of two.
abbrev pub round : ℕ → ℕ → ℕ
round n k = (2 * n + 2 ^ k) / (2 * 2 ^ k)

abbrev at_least_one : ℕ → Option Whole
at_least_one r = if leb 1 r then some (exact r) else none

-- `keyDimension`: rounding leaves a large number as it is.
unfoldable pub key_dimension : Option Number → Option Whole
key_dimension (some (dyadic n k)) = if ltb 0 n then at_least_one (round n k) else none
key_dimension (some (large t)) = some (beyond t)
key_dimension _ = none

-- The text of a number, in front of another.
unfoldable pub whole_text : Whole → String → String
whole_text (exact n) s = digits n s
whole_text (beyond t) s = t ⁀ s

-- The letters of the keys, in front of a text.
abbrev pub letter_x : String → String
letter_x s = String.◌∷◌ (char b'x' tt) s

abbrev pub letter_w : String
letter_w = "w"

abbrev pub letter_h : String
letter_h = "h"

-- `if (fit)`
abbrev pub is_fit : SizeInput → Bool
is_fit size = or_else size.fit false

-- The key of the sides that are usable.
unfoldable pub sides_key : Option Whole → Option Whole → Option String
unfolding whole_text
sides_key (some w) (some h) = some (whole_text w (letter_x (whole_text h "")))
sides_key (some w) none = some (whole_text w letter_w)
sides_key none (some h) = some (whole_text h letter_h)
sides_key none none = none

-- `getSizeKey`; `none` is the error RESIZE_SIZE_INVALID.
unfoldable pub get_size_key : SizeInput → Option String
unfolding sides_key key_dimension
get_size_key size =
    if is_fit size
    then some "fit"
    else sides_key (key_dimension size.width) (key_dimension size.height)

pub record ParsedSizeKey : Type 0 where
  pub size_key : String
  pub width : Option ℕ
  pub height : Option ℕ
  pub fit : Bool

-- The digits at the start of a text, as `\d+`: at least one.
unfoldable pub number_in_front : String → Option (ℕ × String)
number_in_front s = let (n, rest) = scan s 0 in if str_eq rest s then none else some (n, rest)

abbrev pub no_size : String → ParsedSizeKey
no_size key = record { size_key = key; width = none; height = none; fit = false }

abbrev pub height_after : String → ℕ → Option (ℕ × String) → ParsedSizeKey
height_after key w none = no_size key
height_after key w (some (h, rest)) =
    if str_eq rest ""
    then record { size_key = key; width = some w; height = some h; fit = false }
    else no_size key

abbrev pub after_letter : String → ℕ → String → ParsedSizeKey
after_letter key n String.[] = no_size key
after_letter key n (String.◌∷◌ c s) =
    if str_eq (String.◌∷◌ c "") "x"
    then height_after key n (number_in_front s)
    else if str_eq (String.◌∷◌ c s) "w"
    then record { size_key = key; width = some n; height = none; fit = false }
    else if str_eq (String.◌∷◌ c s) "h"
    then record { size_key = key; width = none; height = some n; fit = false }
    else no_size key

abbrev pub by_number : String → Option (ℕ × String) → ParsedSizeKey
by_number key none = no_size key
by_number key (some (n, rest)) = after_letter key n rest

-- `parseSizeKey`: a pattern of digits takes all of them, since no letter of a key is one.
-- A number read from digits stands exactly; the source's is rounded from 2 ^ 53 on.
unfoldable pub parse_size_key : String → ParsedSizeKey
unfolding number_in_front
parse_size_key key =
    if str_eq key "fit"
    then record { size_key = "fit"; width = none; height = none; fit = true }
    else by_number key (number_in_front key)

-- `Object.keys(filters).length > 0`
abbrev pub some_filters : Option Fields → Option Fields
some_filters none = none
some_filters (some end) = none
some_filters (some fs) = some fs

-- `toMissingPreview`
unfoldable pub to_missing_preview : SizeInput → String → String → MissingPreview
unfolding parse_size_key
to_missing_preview size key format =
    let parsed = parse_size_key key in
    record {
      size_key = key;
      filters = some_filters size.filters;
      requested_width = parsed.width;
      requested_height = parsed.height;
      format = format;
      fit = if parsed.fit then some true else none;
    }
