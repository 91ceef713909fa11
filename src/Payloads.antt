-- ===== src/Payloads.antt =====
-- images.ts: the canonical payload of a task. The order of texts and `JSON.stringify` are parameters.
mod Tests
use mathlib.Core.List.{Permᴰ, map-append}
use mathlib.Core.List.Permᴰ
use mathlib.Core.Path.{ap₂}
use framework_module_resizer.Prelude.{
  String, Bool, true, false, Option, none, some, List, [], ◌∷◌, ◌++◌, map, ◌≡◌, refl, sym, ap, ◌∙◌,
  str_eq, if◌then◌else◌, any, any-map,
}
use framework_module_resizer.Prelude.Sorting.{sort}
use framework_module_resizer.Prelude.Order.{IsOrder, sort-Permᴰ, sort-map}
use framework_module_resizer.Prelude.Once.{added_once, added_all}
use framework_module_resizer.Prelude.Sets.{added_all-Permᴰ}
use framework_module_resizer.Types.{Fields, end, MissingPreview}
use framework_module_resizer.Filters.{canonical_fields}

module _ (le : String → String → Bool) where
  abbrev canonical_filters : Option Fields → Option Fields
  canonical_filters none = none
  canonical_filters (some end) = none
  canonical_filters (some fs) = some (canonical_fields le fs)

  -- `normalizeVariant`; `fit` is a Boolean here, so `variant.fit === true` is itself.
  unfoldable pub normalize_variant : MissingPreview → MissingPreview
  unfolding canonical_fields
  normalize_variant v = record v { filters = canonical_filters v.filters }

  module _ (stringify : MissingPreview → String) where
    -- The entry of a variant in `byKey`, unless its key is there.
    abbrev by_key_once : MissingPreview → List MissingPreview → List MissingPreview
    by_key_once v vs = if any (λ w. str_eq (stringify v) (stringify w)) vs then vs else vs ++ v ∷ []

    -- The loop of `canonicalizeVariants`; the key of an entry is the text of its variant.
    unfoldable pub by_key : List MissingPreview → List MissingPreview → List MissingPreview
    unfolding normalize_variant
    by_key [] vs = vs
    by_key (v ∷ more) vs = by_key more (by_key_once (normalize_variant v) vs)

    -- `canonicalizeVariants`
    unfoldable pub canonicalize_variants : List MissingPreview → List MissingPreview
    unfolding by_key
    canonicalize_variants variants =
        sort (λ v w. le (stringify v) (stringify w)) (by_key variants [])

    by_key_once-keys :
        (v : MissingPreview) (vs : List MissingPreview)
        → map stringify (by_key_once v vs) ≡ added_once (stringify v) (map stringify vs)
    by_key_once-keys v vs =
        by_test (any (λ w. str_eq (stringify v) (stringify w)) vs)
          (any-map (str_eq (stringify v)) stringify vs)
      where
        by_test :
            (b : Bool)
            → any (str_eq (stringify v)) (map stringify vs) ≡ b
            → map stringify (if b then vs else vs ++ v ∷ [])
              ≡ added_once (stringify v) (map stringify vs)
        by_test true e = rw e refl
        by_test false e = rw e (map-append stringify vs (v ∷ []))

    by_key-keys :
        (xs vs : List MissingPreview)
        → map stringify (by_key xs vs)
          ≡ added_all (map (λ v. stringify (normalize_variant v)) xs) (map stringify vs)
    unfolding by_key added_all
    by_key-keys [] vs = refl
    by_key-keys (v ∷ xs) vs =
        by_key-keys xs (by_key_once (normalize_variant v) vs)
        ∙ ap (added_all (map (λ v. stringify (normalize_variant v)) xs))
            (by_key_once-keys (normalize_variant v) vs)

    canonicalize_variants-keys :
        (xs : List MissingPreview)
        → map stringify (canonicalize_variants xs)
          ≡ sort le (added_all (map (λ v. stringify (normalize_variant v)) xs) [])
    unfolding canonicalize_variants
    canonicalize_variants-keys xs =
        sort-map le stringify (by_key xs []) ∙ ap (sort le) (by_key-keys xs [])

    map-Permᴰ :
        {A B : Type 0} (f : A → B) {xs ys : List A} → Permᴰ xs ys → Permᴰ (map f xs) (map f ys)
    map-Permᴰ f Permᴰ.nil = Permᴰ.nil
    map-Permᴰ f (Permᴰ.cons e p) = Permᴰ.cons (ap f e) (map-Permᴰ f p)
    map-Permᴰ f (Permᴰ.swap e e') = Permᴰ.swap (ap f e) (ap f e')
    map-Permᴰ f (Permᴰ.trans p q) = Permᴰ.trans (map-Permᴰ f p) (map-Permᴰ f q)

    -- Two lists of variants that differ only in their order reach the queue as one payload: the
    -- canonical lists are equal text by text, for any total order of the texts.
    pub canonicalize_variants-Permᴰ :
        IsOrder le
        → (xs ys : List MissingPreview) → Permᴰ xs ys
        → map stringify (canonicalize_variants xs) ≡ map stringify (canonicalize_variants ys)
    canonicalize_variants-Permᴰ order xs ys p =
        canonicalize_variants-keys xs
        ∙ sort-Permᴰ le order
            (added_all-Permᴰ [] (map-Permᴰ (λ v. stringify (normalize_variant v)) p))
        ∙ sym (canonicalize_variants-keys ys)
