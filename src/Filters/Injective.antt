-- ===== src/Filters/Injective.antt =====
-- images.ts: the signature tells filters apart, whatever their names and values hold.
use Prim.Native.Char.{Char, code}
use Prim.Native.String.{[], ◌∷◌}
use text.Mathlib.TextLemmas.{
  append_cancel_left, nil-append, cons-append, append-nil, append_assoc, head-eq_of_cons-eq,
  tail-eq_of_cons-eq, nil≢cons,
}
use mathlib.Core.Path.{ap₂}
use mathlib.Core.List.{List, [] as []ᴸ, ◌∷◌ as ◌∷ᴸ◌}
use framework_module_resizer.Prelude.{
  String, Bool, true, false, ◌||◌, Option, ◌==◌, or_else, ◌≡◌, ◌≢◌, ◌↔◌, ◌⊎◌, inl, inr, refl, sym,
  ap, subst, ◌∙◌, arith,
}
use framework_module_resizer.Types.{Json, Fields, end, field}
use framework_module_resizer.Keys.{◌⁀◌}
use framework_module_resizer.Filters.{
  escape_char, escape_filter_part, canonical_fields, part, joined, fields_sig, filter_sig,
}

abbrev is_special : Char → Bool
is_special c = code c == b'\\' || code c == b'|' || code c == b':'

-- What a character becomes, in front of a text.
block : Bool → Char → String → String
block true c s = "\\" ∷ c ∷ s
block false c s = c ∷ s

escape-cons :
    (c : Char) (s : String)
    → escape_filter_part (c ∷ s) ≡ block (is_special c) c (escape_filter_part s)
unfolding escape_filter_part escape_char block
escape-cons c s = ground arith

-- A text behind an escaped one: it is empty, or starts with a separator.
abbrev Stops : String → Type 0
Stops [] = Unit
Stops (c ∷ s) = (code c ≡ b':') ⊎ (code c ≡ b'|')

-- A text that stops is no block.
stop-ne-block : (b : Bool) (c : Char) (s t : String) → is_special c ≡ b → Stops s → s ≢ block b c t
unfolding block
stop-ne-block true c [] t e h same = nil≢cons same
stop-ne-block false c [] t e h same = nil≢cons same
stop-ne-block true c (d ∷ s) t e h same =
    let n : code d ≡ b'\\' = ap code (head-eq_of_cons-eq same) in ground arith
stop-ne-block false c (d ∷ s) t e h same =
    let n : code d ≡ code c = ap code (head-eq_of_cons-eq same) in ground arith

blocks_equal :
    (a b : Bool) (c d : Char) (s t : String)
    → is_special c ≡ a
    → is_special d ≡ b
    → block a c s ≡ block b d t
    → (c ≡ d) × (s ≡ t)
unfolding block
blocks_equal true true c d s t ea eb e =
    let e' = tail-eq_of_cons-eq e in (head-eq_of_cons-eq e', tail-eq_of_cons-eq e')
blocks_equal false false c d s t ea eb e = (head-eq_of_cons-eq e, tail-eq_of_cons-eq e)
blocks_equal true false c d s t ea eb e =
    let n : b'\\' ≡ code d = ap code (head-eq_of_cons-eq e) in absurd (ground arith)
blocks_equal false true c d s t ea eb e =
    let n : code c ≡ b'\\' = ap code (head-eq_of_cons-eq e) in absurd (ground arith)

block-append : (b : Bool) (c : Char) (s t : String) → block b c s ⁀ t ≡ block b c (s ⁀ t)
unfolding block
block-append true c s t = cons-append "\\" (c ∷ s) t ∙ ap (λ x. "\\" ∷ x) (cons-append c s t)
block-append false c s t = cons-append c s t

escape-append :
    (c : Char) (s t : String)
    → escape_filter_part (c ∷ s) ⁀ t ≡ block (is_special c) c (escape_filter_part s ⁀ t)
escape-append c s t = ap (λ x. x ⁀ t) (escape-cons c s) ∙ block-append (is_special c) c _ t

escape-nil : (t : String) → escape_filter_part "" ⁀ t ≡ t
unfolding escape_filter_part
escape-nil t = nil-append t

-- Where an escaped text ends is determined, and it is read back.
split_escaped :
    (s s' t t' : String)
    → Stops t
    → Stops t'
    → escape_filter_part s ⁀ t ≡ escape_filter_part s' ⁀ t'
    → (s ≡ s') × (t ≡ t')
split_escaped [] [] t t' h h' e = (refl, sym (escape-nil t) ∙ e ∙ escape-nil t')
split_escaped [] (d ∷ s') t t' h h' e =
    absurd
      (stop-ne-block (is_special d) d t _ refl h (sym (escape-nil t) ∙ e ∙ escape-append d s' t'))
split_escaped (c ∷ s) [] t t' h h' e = absurd (
    stop-ne-block (is_special c) c t' _ refl h' (sym (escape-nil t') ∙ sym e ∙ escape-append c s t))
split_escaped (c ∷ s) (d ∷ s') t t' h h' e =
    let (same, rest) =
      blocks_equal (is_special c) (is_special d) c d _ _ refl refl
        (sym (escape-append c s t) ∙ e ∙ escape-append d s' t') in
    let (same', rest') = split_escaped s s' t t' h h' rest in (ap₂ (λ x y. x ∷ y) same same', rest')

none_escaped : escape_filter_part "none" ⁀ "" ≡ "none"
unfolding escape_filter_part escape_char
none_escaped = refl

module _ (stringify : Json → String) where
  -- What follows a value.
  after : Fields → String
  unfolding joined
  after end = ""
  after (field j w fs) = "|" ⁀ joined stringify j w fs

  joined_parts :
      (k : String) (v : Json) (fs : Fields)
      → joined stringify k v fs
        ≡ escape_filter_part k ⁀ ":" ⁀ escape_filter_part (stringify v) ⁀ after fs
  unfolding joined after part
  joined_parts k v end =
      ap (λ x. escape_filter_part k ⁀ ":" ⁀ x) (sym (append-nil (escape_filter_part (stringify v))))
  joined_parts k v (field j w fs) =
      append_assoc (escape_filter_part k) _ _
      ∙ ap (λ x. escape_filter_part k ⁀ x) (append_assoc ":" (escape_filter_part (stringify v)) _)

  after-Stops : (fs : Fields) → Stops (after fs)
  unfolding after
  after-Stops end = tt
  after-Stops (field j w fs) = subst Stops (sym (cons-append "|" "" _)) (inr refl)

  colon-Stops : (s : String) → Stops (":" ⁀ s)
  colon-Stops s = subst Stops (sym (cons-append ":" "" s)) (inl refl)

  -- The names of the fields with their values as JSON.
  unfoldable pub texts : Fields → List (String × String)
  texts end = []ᴸ
  texts (field k v fs) = (k, stringify v) ∷ᴸ texts fs

  joined_first :
      (k k' : String) (v v' : Json) (fs fs' : Fields)
      → joined stringify k v fs ≡ joined stringify k' v' fs'
      → (k ≡ k') × (stringify v ≡ stringify v') × (after fs ≡ after fs')
  joined_first k k' v v' fs fs' e =
      let (ek, e₁) =
        split_escaped k k' _ _ (colon-Stops _) (colon-Stops _)
          (sym (joined_parts k v fs) ∙ e ∙ joined_parts k' v' fs') in
      let (ev, e₂) =
        split_escaped _ _ _ _ (after-Stops fs) (after-Stops fs') (append_cancel_left ":" _ _ e₁) in
      (ek, ev, e₂)

  after-injective : (fs fs' : Fields) → after fs ≡ after fs' → texts fs ≡ texts fs'
  unfolding after texts
  after-injective end end e = refl
  after-injective (field j w fs) (field j' w' fs') e =
      let (ej, ew, e') = joined_first j j' w w' fs fs' (append_cancel_left "|" _ _ e) in
      let rest = after-injective fs fs' e' in cc (ej, ew, rest)
  after-injective end (field j w fs) e = absurd (nil≢cons (e ∙ cons-append "|" "" _))
  after-injective (field j w fs) end e = absurd (nil≢cons (sym e ∙ cons-append "|" "" _))

  -- No joined fields read `none`, since a `:` stands behind the first name.
  none-ne-joined : (k : String) (v : Json) (fs : Fields) → "none" ≢ joined stringify k v fs
  none-ne-joined k v fs e =
      let (_, rest) =
        split_escaped "none" k "" _ tt (colon-Stops _) (none_escaped ∙ e ∙ joined_parts k v fs) in
      nil≢cons (rest ∙ cons-append ":" "" _)

  fields_sig-injective :
      (f g : Fields) → fields_sig stringify f ≡ fields_sig stringify g → texts f ≡ texts g
  unfolding fields_sig texts
  fields_sig-injective end end e = refl
  fields_sig-injective (field k v fs) (field k' v' fs') e =
      let (ek, ev, e') = joined_first k k' v v' fs fs' e in
      let rest = after-injective fs fs' e' in cc (ek, ev, rest)
  fields_sig-injective end (field k v fs) e = absurd (none-ne-joined k v fs e)
  fields_sig-injective (field k v fs) end e = absurd (none-ne-joined k v fs (sym e))

  joined_by_texts :
      (k k' : String) (v v' : Json) (fs fs' : Fields)
      → (k, stringify v) ∷ᴸ texts fs ≡ (k', stringify v') ∷ᴸ texts fs'
      → joined stringify k v fs ≡ joined stringify k' v' fs'
  unfolding joined part texts
  joined_by_texts k k' v v' end end e = cc
  joined_by_texts k k' v v' end (field j w gs) e = cc
  joined_by_texts k k' v v' (field j w fs) end e = cc
  joined_by_texts k k' v v' (field j w fs) (field j' w' gs) e =
      let rest = joined_by_texts j j' w w' fs gs (cc) in cc

  sig_by_texts :
      (f g : Fields) → texts f ≡ texts g → fields_sig stringify f ≡ fields_sig stringify g
  unfolding fields_sig texts
  sig_by_texts end end e = refl
  sig_by_texts end (field k v fs) e = cc
  sig_by_texts (field k v fs) end e = cc
  sig_by_texts (field k v fs) (field k' v' fs') e = joined_by_texts k k' v v' fs fs' e

-- Two filters have one signature exactly when their canonical forms have the same names, in order,
-- with values of the same JSON, absent filters counting as empty ones: no `|`, `:` or `\` in a name
-- or in a value can forge a boundary.
pub filter_sig-injective :
    (le : String → String → Bool) (stringify : Json → String) (f g : Option Fields)
    → (filter_sig le stringify f ≡ filter_sig le stringify g) ↔ (
        texts stringify (canonical_fields le (or_else f end))
        ≡ texts stringify (canonical_fields le (or_else g end)))
unfolding filter_sig
filter_sig-injective le stringify f g =
    (fields_sig-injective stringify _ _, sig_by_texts stringify _ _)
