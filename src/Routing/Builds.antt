-- ===== src/Routing/Builds.antt =====
-- routing.ts: a build that succeeded is used from then on.
use framework_module_resizer.Prelude.{ℕ, String, Option, some, List, ◌≡◌, ◌==◌, length, filter}
use framework_module_resizer.Database.{Reply}
use framework_module_resizer.Routing.{Target, Route, BuildState}

-- How often a builder was called.
abbrev pub calls_of : ℕ → BuildState → ℕ
calls_of b s = length (filter (λ c. c == b) s.calls)

module _ (nested : ℕ → String → Reply (Option Target)) (routes : String → Option Route)
    (call : ℕ → List ℕ → Reply (Option Target)) (b : ℕ) (t : Target) where
  -- The build of `b` is kept, after `n` calls.
  abbrev IsBuilt : ℕ → BuildState → Type 0
  IsBuilt n s = (s.kept b ≡ some t) × (calls_of b s ≡ n)
