-- ===== src/Filters.antt =====
-- images.ts: the canonical form of filters and their signature. The order of the names, which is the
-- platform's `<` on texts, and `JSON.stringify` are parameters. An object lists its names once each;
-- names that a platform lists first whatever their order (whole numbers) are left out.
pub mod Injective
mod Tests
use Prim.Native.Char.{Char, code}
use Prim.Native.String.{[], ◌∷◌}
use framework_module_resizer.Prelude.{
  ℕ, String, Bool, true, false, Option, none, some, ◌==◌, or_else, if◌then◌else◌,
}
use framework_module_resizer.Types.{
  Json, null, bool, num, str, arr, obj, Items, nil, cons, Fields, end, field,
}
use framework_module_resizer.Keys.{◌⁀◌}

-- `s.replace(/c/g, '\\c')`
unfoldable pub escape_char : ℕ → String → String
escape_char n [] = []
escape_char n (c ∷ s) =
    let rest = escape_char n s in if code c == n then "\\" ∷ c ∷ rest else c ∷ rest

-- `escapeFilterPart`
unfoldable pub escape_filter_part : String → String
unfolding escape_char
escape_filter_part s = escape_char b':' (escape_char b'|' (escape_char b'\\' s))

module _ (le : String → String → Bool) where
  abbrev place : Bool → String → Json → String → Json → Fields → Fields → Fields
  place true k v j w fs rest = field k v (field j w fs)
  place false k v j w fs rest = field j w rest

  -- A field among fields in order.
  unfoldable pub insert_field : String → Json → Fields → Fields
  insert_field k v end = field k v end
  insert_field k v (field j w fs) = place (le k j) k v j w fs (insert_field k v fs)

  -- `canonicalizeFilterValue`
  unfoldable mutual
    unfolding insert_field

    pub canonical_value : Json → Json
    canonical_value (arr xs) = arr (canonical_items xs)
    canonical_value (obj fs) = obj (canonical_fields fs)
    canonical_value v = v

    pub canonical_items : Items → Items
    canonical_items nil = nil
    canonical_items (cons x xs) = cons (canonical_value x) (canonical_items xs)

    pub canonical_fields : Fields → Fields
    canonical_fields end = end
    canonical_fields (field k v fs) = insert_field k (canonical_value v) (canonical_fields fs)

module _ (stringify : Json → String) where
  unfoldable pub part : String → Json → String
  unfolding escape_filter_part
  part k v = escape_filter_part k ⁀ ":" ⁀ escape_filter_part (stringify v)

  -- `keys.map(…).join('|')`, behind a first field.
  unfoldable pub joined : String → Json → Fields → String
  unfolding part
  joined k v end = part k v
  joined k v (field j w fs) = part k v ⁀ "|" ⁀ joined j w fs

  unfoldable pub fields_sig : Fields → String
  unfolding joined
  fields_sig end = "none"
  fields_sig (field k v fs) = joined k v fs

-- `getFilterSig`
unfoldable pub filter_sig :
    (le : String → String → Bool) (stringify : Json → String) → Option Fields → String
unfolding fields_sig canonical_fields
filter_sig le stringify filters = fields_sig stringify (canonical_fields le (or_else filters end))
