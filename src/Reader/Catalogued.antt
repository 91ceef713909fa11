-- ===== src/Reader/Catalogued.antt =====
-- reader.ts: `prewarm` with the catalog of images.ts and catalog.ts.
use framework_module_resizer.Prelude.{
  String, Bool, true, ◌||◌, none, List, any, is_some, ◌≡◌, arith,
}
use framework_module_resizer.Types.{Json, PreviewScope, Dimensions, MediaLike, MissingPreview}
use framework_module_resizer.Database.{Failure}
use framework_module_resizer.Filters.{filter_sig}
use framework_module_resizer.Payloads.{canonicalize_variants}
use framework_module_resizer.Catalog.{split_stored}
use framework_module_resizer.Catalog.Groups.{lookup}
use framework_module_resizer.Catalog.Formats.{configured_formats}
use framework_module_resizer.Sizes.{SizeInput, get_size_key}
use framework_module_resizer.Sizes.Requests.{
  identity_of, asks_for, expand_preview_requests, expand_preview_requests_lem,
}
use framework_module_resizer.Reader.Prewarm.{PrewarmQueue, PrewarmResult, named, prewarm}
use framework_module_resizer.Reader.Accounts.{is_honest, prewarm-is_honest}
use framework_module_resizer.Reader.Reported.{prewarm-named}

module _ (encode : String → String) (le : String → String → Bool) (stringify : Json → String)
    (preview_origin : Json → Dimensions → String) (encode_sig : String → String → Bool → String)
    (variant_text : MissingPreview → String) (scope : PreviewScope) (no_retry : Failure → Bool)
    (timing_retryable : Bool) (encoders : List String)
    (before_enqueue : List MissingPreview → List MissingPreview × List MissingPreview) where
  -- `catalog.freshIdentities(media, scope)`
  abbrev is_fresh_identity : MediaLike → String → Bool
  is_fresh_identity media x = is_some (
      lookup x
        (split_stored encode (filter_sig le stringify) preview_origin encode_sig media scope
          none).fresh)

  -- `prewarm`, of the sizes that the tap `resolveSizes` returned.
  unfoldable pub prewarm_media :
      Bool → PrewarmQueue → MediaLike → List SizeInput → List String → PrewarmResult
  unfolding prewarm canonicalize_variants split_stored expand_preview_requests configured_formats
  prewarm_media known q media sizes formats =
      prewarm (canonicalize_variants le variant_text) no_retry timing_retryable
        (identity_of encode le stringify preview_origin encode_sig scope) (is_fresh_identity media)
        encoders before_enqueue known q media.original
        (expand_preview_requests encode le stringify scope sizes
          (configured_formats encoders formats).formats)
        (expand_preview_requests encode le stringify scope sizes
          (configured_formats encoders formats).dropped)

  -- Some size with a key asks for the identity in one of the formats.
  abbrev pub asked_for : String → List SizeInput → List String → Bool
  asked_for x sizes formats =
      any (λ size. asks_for encode le stringify scope x formats size (get_size_key size)) sizes

  -- Every identity that the sizes ask for, in a configured format or in another, is among the
  -- requested variants of the result, whatever the beforeEnqueue tap answers, an error of the dispatch
  -- included, as long as the tap does not take the identity, in place, out of the list that it is
  -- given. The sizes are those that the tap resolveSizes answered.
  pub prewarm_media-named :
      (known : Bool) (q : PrewarmQueue) (media : MediaLike) (sizes : List SizeInput)
      (formats : List String) (x : String)
      → ((vs : List MissingPreview)
          → named (identity_of encode le stringify preview_origin encode_sig scope) x vs ≡ true
          → named
              (identity_of encode le stringify preview_origin encode_sig scope)
              x
              (before_enqueue vs).1
            ≡ true)
      → asked_for x sizes (configured_formats encoders formats).formats
          || asked_for x sizes (configured_formats encoders formats).dropped
        ≡ true
      → named
          (identity_of encode le stringify preview_origin encode_sig scope)
          x
          (prewarm_media known q media sizes formats).requested
        ≡ true
  unfolding prewarm_media
  prewarm_media-named known q media sizes formats x kept h =
      let fs = configured_formats encoders formats in
      let (_, a) =
        expand_preview_requests_lem encode le stringify preview_origin encode_sig scope sizes
          fs.formats x in
      let (_, b) =
        expand_preview_requests_lem encode le stringify preview_origin encode_sig scope sizes
          fs.dropped x in
      prewarm-named (canonicalize_variants le variant_text) no_retry timing_retryable
        (identity_of encode le stringify preview_origin encode_sig scope) (is_fresh_identity media)
        encoders before_enqueue known q media.original
        (expand_preview_requests encode le stringify scope sizes fs.formats)
        (expand_preview_requests encode le stringify scope sizes fs.dropped) x kept
        (ground (arith, a, b, h))

  -- On every path, an error of the dispatch included, a prewarm with an unconfirmed variant says that
  -- it is incomplete.
  pub prewarm_media-is_honest :
      (known : Bool) (q : PrewarmQueue) (media : MediaLike) (sizes : List SizeInput)
      (formats : List String)
      → is_honest (prewarm_media known q media sizes formats) ≡ true
  unfolding prewarm_media
  prewarm_media-is_honest known q media sizes formats =
      prewarm-is_honest (canonicalize_variants le variant_text) no_retry timing_retryable
        (identity_of encode le stringify preview_origin encode_sig scope) (is_fresh_identity media)
        encoders before_enqueue known q media.original _ _
