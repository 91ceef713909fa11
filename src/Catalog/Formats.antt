-- ===== src/Catalog/Formats.antt =====
-- images.ts: which requested formats have encoder settings (configuredFormats).
use framework_module_resizer.Prelude.Once.{
  added_once, all_distinct, added_once-any, added_once-distinct,
}
use framework_module_resizer.Prelude.{
  String, Bool, true, false, not, ◌&&◌, ◌||◌, List, [], ◌∷◌, ◌++◌, ◌≡◌, refl, ◌∙◌, sym, ap, str_eq,
  eq_iff, arith, filter, any, append_assoc, append-nil,
}

-- `isConfiguredFormat`, with the names of the encoder settings.
unfoldable pub is_configured_format : List String → String → Bool
is_configured_format encoders format = any (str_eq format) encoders

pub record Formats : Type 0 where
  pub formats : List String
  pub dropped : List String

abbrev pub sorted_in : Bool → String → Formats → Formats
sorted_in true f s = record s { formats = s.formats ++ f ∷ [] }
sorted_in false f s = record s { dropped = added_once f s.dropped }

unfoldable pub configured_from : List String → List String → Formats → Formats
unfolding is_configured_format
configured_from encoders [] s = s
configured_from encoders (f ∷ fs) s =
    configured_from encoders fs (sorted_in (is_configured_format encoders f) f s)

-- `configuredFormats`
unfoldable pub configured_formats : List String → List String → Formats
unfolding configured_from
configured_formats encoders requested =
    configured_from encoders requested (record { formats = []; dropped = [] })

-- A text in front of the rest, by whether its format is configured.
front :
    (encoders : List String) (g f : String) (rest : Bool)
    → (is_configured_format encoders f ≡ true
        → (str_eq g f || rest) && not (is_configured_format encoders g)
          ≡ rest && not (is_configured_format encoders g))
      × (is_configured_format encoders f ≡ false
          → (str_eq g f || rest) && not (is_configured_format encoders g)
            ≡ str_eq g f || rest && not (is_configured_format encoders g))
front encoders g f rest = by_name (str_eq g f) refl
  where
    by_name :
        (c : Bool)
        → str_eq g f ≡ c
        → (is_configured_format encoders f ≡ true
            → (c || rest) && not (is_configured_format encoders g)
              ≡ rest && not (is_configured_format encoders g))
          × (is_configured_format encoders f ≡ false
              → (c || rest) && not (is_configured_format encoders g)
                ≡ c || rest && not (is_configured_format encoders g))
    by_name false n = (λ h. refl, λ h. refl)
    by_name true n =
        let same : is_configured_format encoders g ≡ is_configured_format encoders f =
          ap (is_configured_format encoders) ((eq_iff g f).0 n) in
        (λ h. ground (arith, same), λ h. ground (arith, same))

module _ (encoders : List String) (g : String) where
  -- What the loop adds to `s`.
  Adds : List String → Formats → Formats → Type 0
  Adds fs s r =
      (r.formats ≡ s.formats ++ filter (is_configured_format encoders) fs)
      × (any (str_eq g) r.dropped
          ≡ any (str_eq g) s.dropped || any (str_eq g) fs && not (is_configured_format encoders g))
      × (all_distinct r.dropped ≡ true)

  sorted_in-Adds :
      (b : Bool) (f : String) (fs : List String) (s r : Formats)
      → is_configured_format encoders f ≡ b
      → Adds fs (sorted_in b f s) r
      → Adds (f ∷ fs) s r
  unfolding Adds
  sorted_in-Adds true f fs s r e (h, a, d) = (
    rw e (h ∙ append_assoc s.formats (f ∷ []) _),
    a
        ∙ ap (λ x. any (str_eq g) s.dropped || x)
            (sym ((front encoders g f (any (str_eq g) fs)).0 e)),
    d,
  )
  sorted_in-Adds false f fs s r e (h, a, d) = (
    rw e h,
    a
        ∙ (let o = added_once-any g f s.dropped in
            let n = (front encoders g f (any (str_eq g) fs)).1 e in ground (arith, o, n)),
    d,
  )

  configured_from-Adds :
      (fs : List String) (s : Formats)
      → all_distinct s.dropped ≡ true
      → Adds fs s (configured_from encoders fs s)
  unfolding configured_from Adds
  configured_from-Adds [] s d = (sym (append-nil _), ground arith, d)
  configured_from-Adds (f ∷ fs) s d =
      sorted_in-Adds (is_configured_format encoders f) f fs s _ refl
        (configured_from-Adds fs _ (still (is_configured_format encoders f)))
    where
      still : (b : Bool) → all_distinct (sorted_in b f s).dropped ≡ true
      still true = d
      still false = added_once-distinct f s.dropped d

  -- The requested formats with encoder settings are served in the order of the request, repeats
  -- kept; dropped is exactly every other requested format, each named once.
  pub configured_formats_lem :
      (requested : List String)
      → ((configured_formats encoders requested).formats
          ≡ filter (is_configured_format encoders) requested)
        × (any (str_eq g) (configured_formats encoders requested).dropped
            ≡ any (str_eq g) requested && not (is_configured_format encoders g))
        × (all_distinct (configured_formats encoders requested).dropped ≡ true)
  unfolding configured_formats Adds
  configured_formats_lem requested =
      configured_from-Adds requested (record { formats = []; dropped = [] }) refl
