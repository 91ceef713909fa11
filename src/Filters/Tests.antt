-- ===== src/Filters/Tests.antt =====
-- Two filters that would read alike without escapes.
use framework_module_resizer.Prelude.{String, some, ◌≡◌, ◌↔◌, refl, or_else}
use framework_module_resizer.Prelude.Text.{str_le}
use framework_module_resizer.Types.{Json, num, str, Fields, end, field}
use framework_module_resizer.Filters.{canonical_fields, filter_sig}
use framework_module_resizer.Filters.Injective.{texts, filter_sig-injective}

abbrev stringify : Json → String
stringify (num s) = s
stringify (str s) = s
stringify v = "?"

abbrev forged : Fields
forged = field "a" (str "1|b:2") end

abbrev plain : Fields
plain = field "b" (num "2") (field "a" (num "1") end)

sigs :
    (filter_sig str_le stringify (some plain) ≡ "a:1|b:2")
    × (filter_sig str_le stringify (some forged) ≡ "a:1\\|b\\:2")
    × (filter_sig str_le stringify (some end) ≡ "none")
unfolding filter_sig
sigs = (refl, refl, refl)

filter_sig-injective_example :
    (filter_sig str_le stringify (some plain) ≡ filter_sig str_le stringify (some forged)) ↔ (
      texts stringify (canonical_fields str_le (or_else (some plain) end))
      ≡ texts stringify (canonical_fields str_le (or_else (some forged) end)))
filter_sig-injective_example = filter_sig-injective str_le stringify (some plain) (some forged)
