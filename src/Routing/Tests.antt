-- ===== src/Routing/Tests.antt =====
-- Two names on one builder that builds at once.
use framework_module_resizer.Prelude.{
  ℕ, String, Option, none, some, List, [], ◌∷◌, ◌≡◌, refl, if◌then◌else◌, ◌==◌,
}
use framework_module_resizer.Database.{Reply, done}
use framework_module_resizer.Routing.{Target, plain, Route, builder, BuildState, route_of, needs}

abbrev nested : ℕ → String → Reply (Option Target)
nested id queue = done none

abbrev routes : String → Option Route
routes queue = some (builder 7)

abbrev call : ℕ → List ℕ → Reply (Option Target)
call b calls = done (some (plain b none))

abbrev start : BuildState
start = record { kept = λ b. none; calls = [] }

abbrev built : BuildState
built = record { kept = λ b. if b == 7 then some (plain 7 none) else none; calls = 7 ∷ [] }

routing_run :
    ((route_of nested routes call "bulk" start).0 ≡ done (some (plain 7 none)))
    × ((needs nested routes call ("bulk" ∷ "fast" ∷ "bulk" ∷ []) start).calls ≡ 7 ∷ [])
unfolding needs
routing_run = (refl, refl)
