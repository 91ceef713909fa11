-- ===== src/Sizes/Covered.antt =====
-- images.ts: when the stored rows of a media cover a size catalog.
use framework_module_resizer.Prelude.{
  String, Bool, true, false, not, ◌&&◌, ◌||◌, Option, none, some, List, [], ◌∷◌, map, ◌≡◌, refl,
  sym, ap, ◌∙◌, str_eq, eq_iff, is_some, if◌then◌else◌, length, ◌==◌, filter, keep_if, any,
  any_append, any-map, any_agree, arith,
}
use framework_module_resizer.Prelude.Once.{added_all-any_of}
use framework_module_resizer.Types.{Json, PreviewScope, Dimensions, MediaLike}
use framework_module_resizer.Filters.{filter_sig}
use framework_module_resizer.Catalog.{stored_preview_rows, is_stored_in, row_identity}
use framework_module_resizer.Catalog.Groups.{lookup, with_more, group, group-lookup}
use framework_module_resizer.Sizes.{SizeInput, get_size_key}
use framework_module_resizer.Sizes.Requests.{
  asked, asked_of, cell_identity, identity_of, expand_preview_requests, expanded,
  expand_missing_previews, is_catalog_covered, stored_identities,
}

any-keys :
    {A : Type 0} (x : String) (m : List (String × A))
    → any (str_eq x) (map (λ e. e.0) m) ≡ is_some (lookup x m)
any-keys x [] = refl
any-keys x (e ∷ m) = by_test (str_eq e.0 x) refl (any-keys x m)
  where
    by_test :
        (b : Bool)
        → str_eq e.0 x ≡ b
        → any (str_eq x) (map (λ e. e.0) m) ≡ is_some (lookup x m)
        → str_eq x e.0 || any (str_eq x) (map (λ e. e.0) m)
          ≡ is_some (if b then some e.1 else lookup x m)
    by_test true h ih = ground (arith, eq_iff e.0 x, eq_iff x e.0, h)
    by_test false h ih = ground (arith, eq_iff e.0 x, eq_iff x e.0, h, ih)

is_some-filter :
    {A : Type 0} (p : A → Bool) (xs : List A) → is_some (with_more none (filter p xs)) ≡ any p xs
is_some-filter p [] = refl
is_some-filter p (x ∷ xs) = by_test (p x) (is_some-filter p xs)
  where
    by_test :
        (b : Bool)
        → is_some (with_more none (filter p xs)) ≡ any p xs
        → is_some (with_more none (keep_if b x (filter p xs))) ≡ b || any p xs
    by_test true ih = refl
    by_test false ih = ih

empty-filter :
    {A : Type 0} (p : A → Bool) (xs : List A) → (length (filter p xs) == 0) ≡ not (any p xs)
empty-filter p [] = refl
empty-filter p (x ∷ xs) = by_test (p x) (empty-filter p xs)
  where
    by_test :
        (b : Bool)
        → (length (filter p xs) == 0) ≡ not (any p xs)
        → (length (keep_if b x (filter p xs)) == 0) ≡ not (b || any p xs)
    by_test true ih = ground arith
    by_test false ih = ih

module _ (encode : String → String) (le : String → String → Bool) (stringify : Json → String)
    (preview_origin : Json → Dimensions → String) (encode_sig : String → String → Bool → String)
    (scope : PreviewScope) (media : MediaLike) where
  -- A usable row of the scope has the identity.
  abbrev pub is_stored : String → Bool
  is_stored x =
      any
        (λ p.
          is_stored_in scope p
          && str_eq (row_identity encode (filter_sig le stringify) preview_origin encode_sig p) x)
        media.previews

  is_stored_lem :
      (x : String)
      → any (str_eq x) (stored_identities encode le stringify preview_origin encode_sig scope media)
        ≡ is_stored x
  unfolding stored_identities stored_preview_rows
  is_stored_lem x =
      let id = row_identity encode (filter_sig le stringify) preview_origin encode_sig in
      any-keys x (group (is_stored_in scope) id media.previews [])
      ∙ ap is_some (group-lookup (is_stored_in scope) id x media.previews [])
      ∙ is_some-filter (λ p. is_stored_in scope p && str_eq (id p) x) media.previews

  -- A size with a key that has no stored row in some format.
  abbrev pub lacks : List String → SizeInput → Option String → Bool
  lacks formats size none = false
  lacks formats size (some key) =
      any (λ f. not (is_stored (cell_identity encode le stringify scope size key f))) formats

  asked-lacks :
      (sizes : List SizeInput) (formats : List String)
      → any (λ x. not (is_stored x)) (asked encode le stringify scope sizes formats)
        ≡ any (λ size. lacks formats size (get_size_key size)) sizes
  asked-lacks [] fs = refl
  asked-lacks (size ∷ sizes) fs =
      any_append (λ x. not (is_stored x))
        (asked_of encode le stringify scope size fs (get_size_key size))
        (asked encode le stringify scope sizes fs)
      ∙ (let ih = asked-lacks sizes fs in let here = by_key (get_size_key size) in cc (ih, here))
    where
      by_key :
          (k : Option String)
          → any (λ x. not (is_stored x)) (asked_of encode le stringify scope size fs k)
            ≡ lacks fs size k
      by_key none = refl
      by_key (some key) =
          any-map (λ x. not (is_stored x)) (cell_identity encode le stringify scope size key) fs

  -- A media covers a catalog exactly when no size that has a key lacks, in any of the formats, a
  -- usable row of the scope with its identity, fresh or stale.
  pub is_catalog_covered_lem :
      (sizes : List SizeInput) (formats : List String)
      → is_catalog_covered encode le stringify preview_origin encode_sig scope media sizes formats
        ≡ not (any (λ size. lacks formats size (get_size_key size)) sizes)
  unfolding is_catalog_covered expand_missing_previews
  is_catalog_covered_lem sizes formats =
      let id = identity_of encode le stringify preview_origin encode_sig scope in
      let vs = expand_preview_requests encode le stringify scope sizes formats in
      let ids = asked encode le stringify scope sizes formats in
      empty-filter
        (λ v. not (
          any (str_eq (id v))
            (stored_identities encode le stringify preview_origin encode_sig scope media)))
        vs
      ∙ ap not (
          any_agree _ (λ v. not (is_stored (id v))) vs (λ v. ap not (is_stored_lem (id v)))
          ∙ sym (any-map (λ x. not (is_stored x)) id vs)
          ∙ ap (any (λ x. not (is_stored x)))
              (expanded encode le stringify preview_origin encode_sig scope sizes formats)
          ∙ added_all-any_of (λ x. not (is_stored x)) ids []
          ∙ asked-lacks sizes formats)
