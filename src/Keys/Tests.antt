-- ===== src/Keys/Tests.antt =====
-- The keys of two names that hold a `:`, with an encoding that escapes it.
use framework_module_resizer.Prelude.{String, ◌≡◌, refl, arith}
use framework_module_resizer.Keys.{gate_key-injective, preview_identity-injective}
use framework_module_resizer.Keys.Sample.{encode, encode-IsUriEncoding}

gate_key-injective_example :
    (◌≡◌ {A = String} "a:b" "a:b")
    × (◌≡◌ {A = String} "q" "q")
    × (◌≡◌ {A = String} "m" "m")
    × (◌≡◌ {A = String} "p" "p")
gate_key-injective_example =
    gate_key-injective encode encode-IsUriEncoding "a:b" "q" "m" "p" "a:b" "q" "m" "p" refl

preview_identity-injective_example :
    (◌≡◌ {A = String} "a:b" "a:b")
    × (◌≡◌ {A = String} "p" "p")
    × (◌≡◌ {A = String} "fit" "fit")
    × (◌≡◌ {A = String} "webp" "webp")
    × (◌≡◌ {A = String} "blur:40" "blur:40")
preview_identity-injective_example =
    preview_identity-injective encode encode-IsUriEncoding "a:b" "p" "fit" "webp" "blur:40" "a:b"
      "p" "fit" "webp" "blur:40" (omega arith) (omega arith) (omega arith) (omega arith) refl
