-- ===== src/Payloads/Tests.antt =====
-- Two orders of one request, with a repeated variant.
use mathlib.Core.List.{Permᴰ}
use framework_module_resizer.Prelude.{String, Option, none, some, List, [], ◌∷◌, map, ◌≡◌, refl}
use framework_module_resizer.Prelude.Text.{str_le}
use framework_module_resizer.Prelude.Order.{str_le-IsOrder}
use framework_module_resizer.Types.{Fields, end, MissingPreview}
use framework_module_resizer.Keys.{◌⁀◌}
use framework_module_resizer.Payloads.{canonicalize_variants, canonicalize_variants-Permᴰ}

abbrev stringify : MissingPreview → String
stringify v = v.size_key ⁀ "/" ⁀ v.format

abbrev variant : String → Option Fields → MissingPreview
variant size filters = record {
  size_key = size;
  filters = filters;
  requested_width = none;
  requested_height = none;
  format = "webp";
  fit = none;
}

abbrev request : List MissingPreview
request = variant "200w" none ∷ variant "100w" none ∷ variant "200w" (some end) ∷ []

abbrev reordered : List MissingPreview
reordered = variant "100w" none ∷ variant "200w" none ∷ variant "200w" (some end) ∷ []

payload_run :
    map stringify (canonicalize_variants str_le stringify request) ≡ "100w/webp" ∷ "200w/webp" ∷ []
unfolding canonicalize_variants
payload_run = refl

canonicalize_variants-Permᴰ_example :
    map stringify (canonicalize_variants str_le stringify request)
    ≡ map stringify (canonicalize_variants str_le stringify reordered)
canonicalize_variants-Permᴰ_example =
    canonicalize_variants-Permᴰ str_le stringify str_le-IsOrder request reordered
      (Permᴰ.swap refl refl)
