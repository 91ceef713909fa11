-- ===== src/Sizes/Requests.antt =====
-- images.ts: the variants that a size catalog asks for, once each, and when a media covers it.
use mathlib.Core.List.{map-append}
use framework_module_resizer.Prelude.{
  String, Bool, true, false, not, Option, none, some, List, [], ◌∷◌, ◌++◌, map, ◌≡◌, refl, sym, ap,
  ◌∙◌, str_eq, if◌then◌else◌, length, ◌==◌, filter, any, any_append, any-map,
}
use framework_module_resizer.Prelude.Once.{
  added_once, added_all, added_all-distinct, added_all-any, added_all-append, all_distinct,
}
use framework_module_resizer.Types.{
  Json, Fields, end, field, PreviewScope, Dimensions, MediaLike, MissingPreview,
}
use framework_module_resizer.Keys.{preview_identity}
use framework_module_resizer.Filters.{filter_sig}
use framework_module_resizer.Catalog
use framework_module_resizer.Catalog.{stored_preview_rows, is_stored_in, row_identity}
use framework_module_resizer.Sizes.{SizeInput, get_size_key, to_missing_preview, some_filters}

-- The loop's Set of identities, in insertion order, and the variants so far.
pub record Expansion : Type 0 where
  pub seen : List String
  pub requested : List MissingPreview

abbrev with_variant : Bool → String → MissingPreview → Expansion → Expansion
with_variant true id v e = e
with_variant false id v e = record { seen = e.seen ++ id ∷ []; requested = e.requested ++ v ∷ [] }

module _ (encode : String → String) (le : String → String → Bool) (stringify : Json → String)
    (scope : PreviewScope) where
  -- `getPreviewIdentity` of a size and a format.
  abbrev pub cell_identity : SizeInput → String → String → String
  cell_identity size key format =
      preview_identity encode scope.resizer scope.pipeline key format
        (filter_sig le stringify size.filters)

  -- One format of a size.
  unfoldable pub expand_cell : SizeInput → String → String → Expansion → Expansion
  unfolding to_missing_preview
  expand_cell size key format e =
      let id = cell_identity size key format in
      with_variant (any (str_eq id) e.seen) id (to_missing_preview size key format) e

  unfoldable pub expand_formats : SizeInput → String → List String → Expansion → Expansion
  unfolding expand_cell
  expand_formats size key [] e = e
  expand_formats size key (f ∷ fs) e = expand_formats size key fs (expand_cell size key f e)

  -- A size with nothing usable is skipped.
  unfoldable pub expand_size : SizeInput → List String → Option String → Expansion → Expansion
  unfolding expand_formats
  expand_size size formats none e = e
  expand_size size formats (some key) e = expand_formats size key formats e

  unfoldable pub expand_sizes : List SizeInput → List String → Expansion → Expansion
  unfolding expand_size get_size_key
  expand_sizes [] formats e = e
  expand_sizes (size ∷ sizes) formats e =
      expand_sizes sizes formats (expand_size size formats (get_size_key size) e)

  -- `expandPreviewRequests`
  unfoldable pub expand_preview_requests : List SizeInput → List String → List MissingPreview
  unfolding expand_sizes
  expand_preview_requests sizes formats =
      (expand_sizes sizes formats (record { seen = []; requested = [] })).requested

  -- The identities that a size asks for.
  abbrev pub asked_of : SizeInput → List String → Option String → List String
  asked_of size formats none = []
  asked_of size formats (some key) = map (cell_identity size key) formats

  abbrev pub asked : List SizeInput → List String → List String
  asked [] formats = []
  asked (size ∷ sizes) formats = asked_of size formats (get_size_key size) ++ asked sizes formats

  expand_cell-seen :
      (size : SizeInput) (key f : String) (e : Expansion)
      → (expand_cell size key f e).seen ≡ added_once (cell_identity size key f) e.seen
  unfolding expand_cell
  expand_cell-seen size key f e = by_test (any (str_eq (cell_identity size key f)) e.seen)
    where
      by_test :
          (b : Bool)
          → (with_variant b (cell_identity size key f) (to_missing_preview size key f) e).seen
            ≡ (if b then e.seen else e.seen ++ cell_identity size key f ∷ [])
      by_test true = refl
      by_test false = refl

  expand_formats-seen :
      (size : SizeInput) (key : String) (fs : List String) (e : Expansion)
      → (expand_formats size key fs e).seen ≡ added_all (map (cell_identity size key) fs) e.seen
  unfolding expand_formats added_all
  expand_formats-seen size key [] e = refl
  expand_formats-seen size key (f ∷ fs) e =
      expand_formats-seen size key fs _
      ∙ ap (added_all (map (cell_identity size key) fs)) (expand_cell-seen size key f e)

  expand_size-seen :
      (size : SizeInput) (fs : List String) (k : Option String) (e : Expansion)
      → (expand_size size fs k e).seen ≡ added_all (asked_of size fs k) e.seen
  unfolding expand_size added_all
  expand_size-seen size fs none e = refl
  expand_size-seen size fs (some key) e = expand_formats-seen size key fs e

  -- The loop's Set has every identity that is asked for, in order, once.
  expand_sizes-seen :
      (sizes : List SizeInput) (fs : List String) (e : Expansion)
      → (expand_sizes sizes fs e).seen ≡ added_all (asked sizes fs) e.seen
  unfolding expand_sizes added_all
  expand_sizes-seen [] fs e = refl
  expand_sizes-seen (size ∷ sizes) fs e =
      expand_sizes-seen sizes fs _
      ∙ ap (added_all (asked sizes fs)) (expand_size-seen size fs (get_size_key size) e)
      ∙ sym (added_all-append (asked_of size fs (get_size_key size)) (asked sizes fs) e.seen)

  -- Of the identities that a size asks for.
  abbrev pub asks_for : String → List String → SizeInput → Option String → Bool
  asks_for x formats size none = false
  asks_for x formats size (some key) = any (λ f. str_eq x (cell_identity size key f)) formats

  pub any-asked :
      (x : String) (sizes : List SizeInput) (fs : List String)
      → any (str_eq x) (asked sizes fs) ≡ any (λ size. asks_for x fs size (get_size_key size)) sizes
  any-asked x [] fs = refl
  any-asked x (size ∷ sizes) fs =
      any_append (str_eq x) (asked_of size fs (get_size_key size)) (asked sizes fs)
      ∙ (let ih = any-asked x sizes fs in
          let here = any-asked_of (get_size_key size) in cc (ih, here))
    where
      any-asked_of :
          (k : Option String) → any (str_eq x) (asked_of size fs k) ≡ asks_for x fs size k
      any-asked_of none = refl
      any-asked_of (some key) = any-map (str_eq x) (cell_identity size key) fs

some_filters-sig :
    (le : String → String → Bool) (stringify : Json → String) (filters : Option Fields)
    → filter_sig le stringify (some_filters filters) ≡ filter_sig le stringify filters
unfolding filter_sig
some_filters-sig le stringify none = refl
some_filters-sig le stringify (some end) = refl
some_filters-sig le stringify (some (field k v fs)) = refl

module _ (encode : String → String) (le : String → String → Bool) (stringify : Json → String)
    (preview_origin : Json → Dimensions → String) (encode_sig : String → String → Bool → String)
    (scope : PreviewScope) where
  abbrev pub identity_of : MissingPreview → String
  identity_of = Catalog.identity encode (filter_sig le stringify) preview_origin encode_sig scope

  pub payload_identity :
      (size : SizeInput) (key f : String)
      → identity_of (to_missing_preview size key f)
        ≡ cell_identity encode le stringify scope size key f
  unfolding Catalog.identity to_missing_preview
  payload_identity size key f =
      ap (preview_identity encode scope.resizer scope.pipeline key f)
        (some_filters-sig le stringify size.filters)

  -- The loop's Set names the variants so far.
  Matches : Expansion → Type 0
  Matches e = map identity_of e.requested ≡ e.seen

  expand_cell-Matches :
      (size : SizeInput) (key f : String) (e : Expansion)
      → Matches e
      → Matches (expand_cell encode le stringify scope size key f e)
  unfolding expand_cell Matches
  expand_cell-Matches size key f e h =
      by_test (any (str_eq (cell_identity encode le stringify scope size key f)) e.seen)
    where
      by_test :
          (b : Bool)
          → Matches (
              with_variant b
                (cell_identity encode le stringify scope size key f)
                (to_missing_preview size key f)
                e)
      by_test true = h
      by_test false =
          map-append identity_of e.requested _
          ∙ (let same = payload_identity size key f in cc (h, same))

  expand_formats-Matches :
      (size : SizeInput) (key : String) (fs : List String) (e : Expansion)
      → Matches e
      → Matches (expand_formats encode le stringify scope size key fs e)
  unfolding expand_formats
  expand_formats-Matches size key [] e h = h
  expand_formats-Matches size key (f ∷ fs) e h =
      expand_formats-Matches size key fs _ (expand_cell-Matches size key f e h)

  expand_size-Matches :
      (size : SizeInput) (fs : List String) (k : Option String) (e : Expansion)
      → Matches e
      → Matches (expand_size encode le stringify scope size fs k e)
  unfolding expand_size
  expand_size-Matches size fs none e h = h
  expand_size-Matches size fs (some key) e h = expand_formats-Matches size key fs e h

  expand_sizes-Matches :
      (sizes : List SizeInput) (fs : List String) (e : Expansion)
      → Matches e
      → Matches (expand_sizes encode le stringify scope sizes fs e)
  unfolding expand_sizes
  expand_sizes-Matches [] fs e h = h
  expand_sizes-Matches (size ∷ sizes) fs e h =
      expand_sizes-Matches sizes fs _ (expand_size-Matches size fs (get_size_key size) e h)

  -- The identities of the requested variants.
  pub expanded :
      (sizes : List SizeInput) (formats : List String)
      → map identity_of (expand_preview_requests encode le stringify scope sizes formats)
        ≡ added_all (asked encode le stringify scope sizes formats) []
  unfolding expand_preview_requests Matches
  expanded sizes formats =
      expand_sizes-Matches sizes formats (record { seen = []; requested = [] }) refl
      ∙ expand_sizes-seen encode le stringify scope sizes formats _

  -- A catalog asks for no identity twice, and for exactly the identities of the sizes that have a
  -- key, in each format.
  pub expand_preview_requests_lem :
      (sizes : List SizeInput) (formats : List String) (x : String)
      → (all_distinct
            (map identity_of (expand_preview_requests encode le stringify scope sizes formats))
          ≡ true)
        × (any
              (λ v. str_eq x (identity_of v))
              (expand_preview_requests encode le stringify scope sizes formats)
            ≡ any
                (λ size. asks_for encode le stringify scope x formats size (get_size_key size))
                sizes)
  expand_preview_requests_lem sizes formats x = (
    ap all_distinct (expanded sizes formats)
        ∙ added_all-distinct (asked encode le stringify scope sizes formats) [] refl,
    sym (
          any-map (str_eq x) identity_of
            (expand_preview_requests encode le stringify scope sizes formats))
        ∙ ap (any (str_eq x)) (expanded sizes formats)
        ∙ added_all-any x (asked encode le stringify scope sizes formats) []
        ∙ any-asked encode le stringify scope x sizes formats,
  )

  -- `storedIdentities`
  unfoldable pub stored_identities : MediaLike → List String
  unfolding stored_preview_rows
  stored_identities media =
      map (λ e. e.0)
        (stored_preview_rows encode (filter_sig le stringify) preview_origin encode_sig media scope)

  -- `expandMissingPreviews`
  unfoldable pub expand_missing_previews :
      MediaLike → List SizeInput → List String → List MissingPreview
  unfolding stored_identities expand_preview_requests
  expand_missing_previews media sizes formats =
      filter (λ v. not (any (str_eq (identity_of v)) (stored_identities media)))
        (expand_preview_requests encode le stringify scope sizes formats)

  -- `isCatalogCovered`
  unfoldable pub is_catalog_covered : MediaLike → List SizeInput → List String → Bool
  unfolding expand_missing_previews
  is_catalog_covered media sizes formats =
      (length (expand_missing_previews media sizes formats)) == 0
