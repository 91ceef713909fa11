-- ===== src/Keys.antt =====
-- lockKeys.ts, and the names in the identities of images.ts: `encodeURIComponent` is the platform's,
-- so it is a parameter with the two facts that the keys rest on.
pub mod Sample
mod Tests
use Prim.Native.Char.{Char, code}
use Prim.Native.String
use Prim.Native.String.{[], ◌∷◌}
use text.Mathlib.TextLemmas.{
  nil-append, cons-append, head-eq_of_cons-eq, tail-eq_of_cons-eq, append_cancel_left,
}
use mathlib.Core.Path.{ap₂}
use framework_module_resizer.Prelude.{String, ◌≡◌, ◌≢◌, refl, ap, sym, ◌∙◌}

infixr 65 ◌⁀◌
abbrev pub ◌⁀◌ : String → String → String
s ⁀ t = String.◌++◌ s t

-- No `:` in the text.
abbrev pub NoColon : String → Type 0
NoColon [] = Unit
NoColon (c ∷ s) = (code c ≢ b':') × NoColon s

-- `encodeURIComponent`: it tells texts apart, and escapes the `:`.
pub record IsUriEncoding (encode : String → String) : Type 0 where
  pub injective : (s t : String) → encode s ≡ encode t → s ≡ t
  pub escapes : (s : String) → NoColon (encode s)

colon_first : {d : Char} (b s t : String) → ":" ⁀ s ≡ d ∷ (b ⁀ ":" ⁀ t) → ":" ≡ d
colon_first b s t e = head-eq_of_cons-eq (sym (cons-append ":" [] s) ∙ e)

-- Where the first `:` of a text stands is determined.
pub split_at_colon :
    (a b s t : String) → NoColon a → NoColon b → a ⁀ ":" ⁀ s ≡ b ⁀ ":" ⁀ t → (a ≡ b) × (s ≡ t)
split_at_colon [] [] s t ha hb e =
    (refl, append_cancel_left ":" s t (sym (nil-append _) ∙ e ∙ nil-append _))
split_at_colon [] (d ∷ b) s t ha hb e =
    absurd (hb.0 (ap code (sym (colon_first b s t (sym (nil-append _) ∙ e ∙ cons-append d b _)))))
split_at_colon (c ∷ a) [] s t ha hb e =
    absurd
      (ha.0 (ap code (sym (colon_first a t s (sym (nil-append _) ∙ sym e ∙ cons-append c a _)))))
split_at_colon (c ∷ a) (d ∷ b) s t ha hb e =
    let e' : c ∷ (a ⁀ ":" ⁀ s) ≡ d ∷ (b ⁀ ":" ⁀ t) =
      sym (cons-append c a _) ∙ e ∙ cons-append d b _ in
    let (same, rest) = split_at_colon a b s t ha.1 hb.1 (tail-eq_of_cons-eq e') in
    (ap₂ (λ x y. x ∷ y) (head-eq_of_cons-eq e') same, rest)

module _ (encode : String → String) where
  -- `gateKey`
  unfoldable pub gate_key : (resizer queue media_id pipeline : String) → String
  gate_key resizer queue media_id pipeline =
      "resize_gate:"
      ⁀ encode resizer
      ⁀ ":"
      ⁀ encode queue
      ⁀ ":"
      ⁀ encode media_id
      ⁀ ":"
      ⁀ encode pipeline

  -- `getPreviewIdentity`, from the signature of the filters.
  unfoldable pub preview_identity : (resizer pipeline size_key format filter_sig : String) → String
  preview_identity resizer pipeline size_key format filter_sig =
      encode resizer ⁀ ":" ⁀ encode pipeline ⁀ ":" ⁀ size_key ⁀ ":" ⁀ format ⁀ ":" ⁀ filter_sig

  module _ (law : IsUriEncoding encode) where
    -- Two gate keys are the same text only for the same Resizer, queue, media and pipeline, whatever
    -- characters their names hold: no two gates share a lock.
    pub gate_key-injective :
        (r q m p r' q' m' p' : String)
        → gate_key r q m p ≡ gate_key r' q' m' p'
        → (r ≡ r') × (q ≡ q') × (m ≡ m') × (p ≡ p')
    unfolding gate_key
    gate_key-injective r q m p r' q' m' p' e =
        let (er, e₁) =
          split_at_colon _ _ _ _ (law.escapes r) (law.escapes r')
            (append_cancel_left "resize_gate:" _ _ e) in
        let (eq', e₂) = split_at_colon _ _ _ _ (law.escapes q) (law.escapes q') e₁ in
        let (em, ep) = split_at_colon _ _ _ _ (law.escapes m) (law.escapes m') e₂ in
        (
          law.injective r r' er,
          law.injective q q' eq',
          law.injective m m' em,
          law.injective p p' ep,
        )

    -- Two preview identities are the same text only for the same Resizer and pipeline, and, as far
    -- as the size keys and formats hold no `:`, for the same size key, format and filter signature.
    pub preview_identity-injective :
        (r p k f s r' p' k' f' s' : String)
        → NoColon k
        → NoColon k'
        → NoColon f
        → NoColon f'
        → preview_identity r p k f s ≡ preview_identity r' p' k' f' s'
        → (r ≡ r') × (p ≡ p') × (k ≡ k') × (f ≡ f') × (s ≡ s')
    unfolding preview_identity
    preview_identity-injective r p k f s r' p' k' f' s' hk hk' hf hf' e =
        let (er, e₁) = split_at_colon _ _ _ _ (law.escapes r) (law.escapes r') e in
        let (ep, e₂) = split_at_colon _ _ _ _ (law.escapes p) (law.escapes p') e₁ in
        let (ek, e₃) = split_at_colon _ _ _ _ hk hk' e₂ in
        let (ef, es) = split_at_colon _ _ _ _ hf hf' e₃ in
        (law.injective r r' er, law.injective p p' ep, ek, ef, es)
