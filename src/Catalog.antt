-- ===== src/Catalog.antt =====
-- catalog.ts, freshness.ts and the stored rows of images.ts: which stored previews of a media count,
-- and which of them are fresh. The encoding of names, the text of filters and the two signatures
-- (signatures.ts, hashes of a canonical text) are parameters.
pub mod Formats
pub mod Groups
pub mod Freshness
mod Tests
use framework_module_resizer.Prelude.{
  ℕ, String, Bool, true, false, not, ◌&&◌, ◌||◌, Option, none, some, List, [], ◌∷◌, map, str_eq,
  if◌then◌else◌, or_else, is_some, filter, any, keep_if,
}
use framework_module_resizer.Types.{
  Json, null, Fields, PreviewScope, Preview, Dimensions, Original, MediaLike, MissingPreview,
}
use framework_module_resizer.Keys.{preview_identity}
use framework_module_resizer.Catalog.Groups.{lookup, group}

-- `storageRef == null`: missing, undefined or null.
abbrev pub is_null : Option Json → Bool
is_null none = true
is_null (some null) = true
is_null (some _) = false

-- `isUsablePreview`
unfoldable pub is_usable_preview : Preview → Bool
is_usable_preview p =
    not (is_null p.storage_ref)
    && not (str_eq p.content_type "")
    && not (str_eq p.content_type "image/svg+xml")
    && not (str_eq p.format "svg")

-- `previewScope`
abbrev pub preview_scope : Preview → PreviewScope
preview_scope p = record {
  resizer = or_else p.resizer "default";
  pipeline = or_else p.pipeline "default";
}

-- A stored row that counts for a scope.
unfoldable pub is_stored_in : PreviewScope → Preview → Bool
unfolding is_usable_preview
is_stored_in scope p =
    is_usable_preview p
    && str_eq (preview_scope p).resizer scope.resizer
    && str_eq (preview_scope p).pipeline scope.pipeline

-- `storedDims`
unfoldable pub stored_dims : Option Original → Option Dimensions
stored_dims none = none
stored_dims (some o) = both o.width o.height
  where
    both : Option ℕ → Option ℕ → Option Dimensions
    both (some w) (some h) = some record { width = w; height = h }
    both _ _ = none

-- `row[row.length - 1]`
abbrev pub last : {A : Type 0} → List A → Option A
last [] = none
last (x ∷ []) = some x
last (x ∷ y ∷ xs) = last (y ∷ xs)

-- The row that the loop over `rows` keeps: a later one that passes replaces it.
unfoldable pub latest : {A : Type 0} → (A → Bool) → List A → Option A → Option A
latest p [] kept = kept
latest p (x ∷ xs) kept = latest p xs (if p x then some x else kept)

abbrev pub same_text : Option String → String → Bool
same_text none t = false
same_text (some s) t = str_eq s t

-- `isFreshRow`, with the expected signature and origin.
unfoldable pub is_fresh_row : Preview → String → Option String → Bool
is_fresh_row row encode_sig none = false
is_fresh_row row encode_sig (some origin) =
    same_text row.origin origin && same_text row.encode_sig encode_sig

-- The fresh and the stale rows, by identity.
pub record Split : Type 0 where
  pub fresh : List (String × Preview)
  pub stale : List (String × Preview)

abbrev pub with_stale : String → Option Preview → Split → Split
with_stale k none s = s
with_stale k (some row) s = record s { stale = (k, row) ∷ s.stale }

abbrev pub with_row : String → List Preview → Option Preview → Split → Split
with_row k rows (some row) s = record s { fresh = (k, row) ∷ s.fresh }
with_row k rows none s = with_stale k (last rows) s

-- The loop of `splitStored` over the groups.
unfoldable pub split_groups : (Preview → Bool) → List (String × List Preview) → Split
unfolding latest
split_groups is_fresh [] = record { fresh = []; stale = [] }
split_groups is_fresh ((k, rows) ∷ m) =
    with_row k rows (latest is_fresh rows none) (split_groups is_fresh m)

module _ (encode : String → String) (filter_sig : Option Fields → String)
    (preview_origin : Json → Dimensions → String)
    (encode_sig : String → String → Bool → String) where
  -- The identity of a row, by its own fields.
  unfoldable pub row_identity : Preview → String
  row_identity p =
      preview_identity encode (preview_scope p).resizer (preview_scope p).pipeline p.size_key
        p.format (filter_sig p.filters)

  -- `storedPreviewRows`
  unfoldable pub stored_preview_rows : MediaLike → PreviewScope → List (String × List Preview)
  unfolding group is_stored_in row_identity
  stored_preview_rows media scope = group (is_stored_in scope) row_identity media.previews []

  abbrev signed : Option Json → Option Dimensions → Option String
  signed none d = none
  signed (some null) d = none
  signed (some ref) none = none
  signed (some ref) (some d) = some (preview_origin ref d)

  -- `expectedOrigin`
  unfoldable pub expected_origin : Option Original → Option Dimensions → Option String
  unfolding stored_dims
  expected_origin none dims = none
  expected_origin (some o) none = signed o.storage_ref (stored_dims (some o))
  expected_origin (some o) (some d) = signed o.storage_ref (some d)

  -- `isFresh` of `splitStored`: a row that does not say whether it was fitted may be either.
  unfoldable pub is_fresh : PreviewScope → Option String → Preview → Bool
  unfolding is_fresh_row
  is_fresh scope origin row = elim (row.fit) [
    | some fit ↦ is_fresh_row row (encode_sig scope.pipeline row.format fit) origin
    | none ↦
        is_fresh_row row (encode_sig scope.pipeline row.format false) origin
        || is_fresh_row row (encode_sig scope.pipeline row.format true) origin
  ]

  -- `splitStored`
  unfoldable pub split_stored : MediaLike → PreviewScope → Option Dimensions → Split
  unfolding split_groups is_fresh stored_preview_rows expected_origin
  split_stored media scope dims =
      split_groups (is_fresh scope (expected_origin media.original dims))
        (stored_preview_rows media scope)

  -- `identity`
  unfoldable pub identity : PreviewScope → MissingPreview → String
  identity scope v =
      preview_identity encode scope.resizer scope.pipeline v.size_key v.format
        (filter_sig v.filters)

  -- `missing`, of the requests that `expand` returned.
  unfoldable pub missing : MediaLike → List MissingPreview → PreviewScope → List MissingPreview
  unfolding split_stored identity
  missing media requests scope =
      filter (λ v. not (is_some (lookup (identity scope v) (split_stored media scope none).fresh)))
        requests
