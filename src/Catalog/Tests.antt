-- ===== src/Catalog/Tests.antt =====
-- A media with a stale, a fresh and a foreign row, and the theorems at it.
use framework_module_resizer.Prelude.{
  String, Bool, true, false, not, ◌&&◌, Option, none, some, [], ◌∷◌, ◌≡◌, refl, filter, any, str_eq,
}
use framework_module_resizer.Types.{
  Json, str, Fields, PreviewScope, Preview, Dimensions, MediaLike, MissingPreview,
}
use framework_module_resizer.Keys.{preview_identity}
use framework_module_resizer.Catalog.Groups.{lookup}
use framework_module_resizer.Catalog.{
  last, is_stored_in, row_identity, is_fresh, expected_origin, split_stored, missing, identity,
}
use framework_module_resizer.Catalog.Formats.{
  configured_formats, is_configured_format, configured_formats_lem,
}
use framework_module_resizer.Prelude.Once.{all_distinct}
use framework_module_resizer.Catalog.Freshness.{
  rows_of, last_fresh, unless, split_stored-lookup, missing_lem,
}

abbrev encode : String → String
encode s = s

abbrev filter_sig : Option Fields → String
filter_sig f = ""

abbrev origin_of : Json → Dimensions → String
origin_of ref d = "origin"

abbrev sig_of : String → String → Bool → String
sig_of pipeline format fit = format

abbrev scope : PreviewScope
scope = record { resizer = "default"; pipeline = "default" }

abbrev fresh_row : Preview
fresh_row = record {
  storage_ref = some (str "a");
  resizer = none;
  pipeline = none;
  size_key = "100w";
  filters = none;
  format = "webp";
  content_type = "image/webp";
  fit = some false;
  origin = some "origin";
  encode_sig = some "webp";
}

abbrev stale_row : Preview
stale_row = record fresh_row { encode_sig = some "old" }

abbrev media : MediaLike
media = record {
  original = some record { storage_ref = some (str "o"); width = some 640; height = some 480 };
  previews = fresh_row ∷ stale_row ∷ record stale_row { resizer = some "other" } ∷ [];
}

abbrev request : String → MissingPreview
request size = record {
  size_key = size;
  filters = none;
  requested_width = none;
  requested_height = none;
  format = "webp";
  fit = none;
}

split_run :
    (lookup "default:default:100w:webp:"
        (split_stored encode filter_sig origin_of sig_of media scope none).fresh
      ≡ some fresh_row)
    × (missing encode filter_sig origin_of sig_of media (request "100w" ∷ request "200w" ∷ []) scope
        ≡ request "200w" ∷ [])
unfolding split_stored missing preview_identity
split_run = (refl, refl)

split_stored-lookup_example :
    (lookup "default:default:100w:webp:"
        (split_stored encode filter_sig origin_of sig_of media scope none).fresh
      ≡ last_fresh encode filter_sig origin_of sig_of media scope none "default:default:100w:webp:")
    × (lookup "default:default:100w:webp:"
          (split_stored encode filter_sig origin_of sig_of media scope none).stale
        ≡ unless
            (last_fresh encode filter_sig origin_of sig_of media scope none
              "default:default:100w:webp:")
            (last (
              rows_of encode filter_sig origin_of sig_of media scope "default:default:100w:webp:")))
split_stored-lookup_example =
    split_stored-lookup encode filter_sig origin_of sig_of media scope none
      "default:default:100w:webp:"

missing_lem_example :
    missing encode filter_sig origin_of sig_of media (request "100w" ∷ []) scope
    ≡ filter
        (λ v. not (
          any
            (λ p.
              (is_stored_in scope p
                && str_eq
                    (row_identity encode filter_sig origin_of sig_of p)
                    (identity encode filter_sig origin_of sig_of scope v))
              && is_fresh encode filter_sig origin_of sig_of scope
                  (expected_origin encode filter_sig origin_of sig_of media.original none)
                  p)
            media.previews))
        (request "100w" ∷ [])
missing_lem_example =
    missing_lem encode filter_sig origin_of sig_of media (request "100w" ∷ []) scope

formats_run :
    (configured_formats ("webp" ∷ "avif" ∷ []) ("webp" ∷ "jpg" ∷ "webp" ∷ "jpg" ∷ [])).dropped
    ≡ "jpg" ∷ []
unfolding configured_formats
formats_run = refl

configured_formats_lem_example :
    ((configured_formats ("webp" ∷ []) ("webp" ∷ "jpg" ∷ "jpg" ∷ [])).formats
      ≡ filter (is_configured_format ("webp" ∷ [])) ("webp" ∷ "jpg" ∷ "jpg" ∷ []))
    × (any (str_eq "jpg") (configured_formats ("webp" ∷ []) ("webp" ∷ "jpg" ∷ "jpg" ∷ [])).dropped
        ≡ any (str_eq "jpg") ("webp" ∷ "jpg" ∷ "jpg" ∷ [])
          && not (is_configured_format ("webp" ∷ []) "jpg"))
    × (all_distinct (configured_formats ("webp" ∷ []) ("webp" ∷ "jpg" ∷ "jpg" ∷ [])).dropped ≡ true)
configured_formats_lem_example =
    configured_formats_lem ("webp" ∷ []) "jpg" ("webp" ∷ "jpg" ∷ "jpg" ∷ [])
