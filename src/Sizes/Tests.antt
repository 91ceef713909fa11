-- ===== src/Sizes/Tests.antt =====
-- Keys of sizes, a catalog with a repeated and an unusable size, and the theorems at them.
use framework_module_resizer.Prelude.{
  String, Bool, true, false, not, Option, none, some, List, [], ◌∷◌, map, ◌≡◌, refl, any, str_eq,
  if◌then◌else◌, length,
}
use framework_module_resizer.Prelude.Text.{str_le}
use framework_module_resizer.Prelude.Decimal.{digits, scan}
use framework_module_resizer.Filters.{filter_sig}
use framework_module_resizer.Catalog
use framework_module_resizer.Prelude.Once.{all_distinct}
use framework_module_resizer.Types.{Json, str, Dimensions, end, PreviewScope, Preview, MediaLike}
use framework_module_resizer.Keys.{preview_identity}
use framework_module_resizer.Sizes.{
  SizeInput, Number, dyadic, large, nan, key_dimension, is_fit, get_size_key, parse_size_key,
}
use framework_module_resizer.Sizes.RoundTrip.{exact_side, parse-get_size_key}
use framework_module_resizer.Sizes.Requests.{
  asks_for, identity_of, expand_preview_requests, is_catalog_covered, expand_preview_requests_lem,
}
use framework_module_resizer.Sizes.Covered.{lacks, is_catalog_covered_lem}

abbrev sized : Option Number → Option Number → SizeInput
sized w h = record { width = w; height = h; fit = none; filters = none }

-- 320.5 × 240
abbrev cropped : SizeInput
cropped = sized (some (dyadic 641 1)) (some (dyadic 240 0))

-- Below half a pixel.
abbrev unusable : SizeInput
unusable = sized (some (dyadic 1 2)) (some nan)

keys :
    (get_size_key cropped ≡ some "321x240")
    × (get_size_key (sized none (some (dyadic 90 0))) ≡ some "90h")
    × (get_size_key unusable ≡ none)
unfolding get_size_key digits
keys = (refl, refl, refl)

-- A side of 10 ^ 21 makes a key that is not read back.
huge_key :
    (get_size_key (sized (some (large "1e+21")) none) ≡ some "1e+21w")
    × ((parse_size_key "1e+21w").width ≡ none)
unfolding get_size_key parse_size_key scan
huge_key = (refl, refl)

read_keys :
    ((parse_size_key "0012w").width ≡ some 12)
    × ((parse_size_key "12x").width ≡ none)
    × ((parse_size_key "x12").height ≡ none)
    × ((parse_size_key "12x34h").height ≡ none)
unfolding parse_size_key scan
read_keys = (refl, refl, refl, refl)

parse-get_size_key_example : parse_size_key "321x240" ≡ record {
  size_key = "321x240";
  width = if is_fit cropped then none else exact_side (key_dimension cropped.width);
  height = if is_fit cropped then none else exact_side (key_dimension cropped.height);
  fit = is_fit cropped;
}
parse-get_size_key_example = parse-get_size_key cropped "321x240" refl keys.0

abbrev encode : String → String
encode s = s

abbrev stringify : Json → String
stringify v = "?"

abbrev origin_of : Json → Dimensions → String
origin_of ref d = "origin"

abbrev sig_of : String → String → Bool → String
sig_of pipeline format fit = format

abbrev scope : PreviewScope
scope = record { resizer = "default"; pipeline = "default" }

abbrev sizes : List SizeInput
sizes = cropped ∷ unusable ∷ sized (some (dyadic 321 0)) (some (dyadic 240 0)) ∷ []

abbrev stored_row : Preview
stored_row = record {
  storage_ref = some (str "a");
  resizer = none;
  pipeline = none;
  size_key = "321x240";
  filters = some end;
  format = "webp";
  content_type = "image/webp";
  fit = none;
  origin = none;
  encode_sig = none;
}

abbrev media : MediaLike
media = record { original = none; previews = stored_row ∷ [] }

catalog_runs :
    (length (expand_preview_requests encode str_le stringify scope sizes ("webp" ∷ "avif" ∷ []))
      ≡ 2)
    × (is_catalog_covered encode str_le stringify origin_of sig_of scope media sizes ("webp" ∷ [])
        ≡ true)
    × (is_catalog_covered encode str_le stringify origin_of sig_of scope media sizes ("avif" ∷ [])
        ≡ false)
unfolding expand_preview_requests is_catalog_covered preview_identity digits filter_sig
    Catalog.identity
catalog_runs = (refl, refl, refl)

expand_preview_requests_lem_example :
    (all_distinct (
        map
          (identity_of encode str_le stringify origin_of sig_of scope)
          (expand_preview_requests encode str_le stringify scope sizes ("webp" ∷ [])))
      ≡ true)
    × (any
          (λ v.
            str_eq "default:default:321x240:webp:none"
              (identity_of encode str_le stringify origin_of sig_of scope v))
          (expand_preview_requests encode str_le stringify scope sizes ("webp" ∷ []))
        ≡ any
            (λ size.
              asks_for encode str_le stringify scope "default:default:321x240:webp:none"
                ("webp" ∷ [])
                size
                (get_size_key size))
            sizes)
expand_preview_requests_lem_example =
    expand_preview_requests_lem encode str_le stringify origin_of sig_of scope sizes ("webp" ∷ [])
      "default:default:321x240:webp:none"

is_catalog_covered_lem_example :
    is_catalog_covered encode str_le stringify origin_of sig_of scope media sizes ("webp" ∷ [])
    ≡ not (
        any
          (λ size.
            lacks encode str_le stringify origin_of sig_of scope media
              ("webp" ∷ [])
              size
              (get_size_key size))
          sizes)
is_catalog_covered_lem_example =
    is_catalog_covered_lem encode str_le stringify origin_of sig_of scope media sizes ("webp" ∷ [])
