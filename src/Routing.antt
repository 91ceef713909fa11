-- ===== src/Routing.antt =====
-- routing.ts: a task queue made of one queue per queue name, some of them built on first need. The
-- builders are a parameter: what a call of one gives may depend on the calls made before it. A build
-- is finished before the next need.
pub mod Builds
mod Tests
use framework_module_resizer.Prelude.{
  ℕ, suc, String, Bool, true, false, Option, none, some, List, [], ◌∷◌, ◌==◌, if◌then◌else◌,
}
use framework_module_resizer.Database.{Failure, other, Reply, done, threw}

-- A task queue, as routing sees it: which queue it is and the names it serves, when it says so, or
-- a router, whose own `routeOf` is an argument of what calls it.
pub data Target : Type 0 where
  plain : (id : ℕ) → (serves_queue : Option (String → Bool)) → Target
  router : ℕ → Target

-- `Route`: a task queue, or a builder of one.
pub data Route : Type 0 where
  object : Target → Route
  builder : ℕ → Route

-- The builds that are kept, by builder, and the builders called, the last one first.
pub record BuildState : Type 0 where
  pub kept : ℕ → Option Target
  pub calls : List ℕ

abbrev driver_invalid : Failure
driver_invalid = other "RESIZE_DRIVER_INVALID"

abbrev keep : ℕ → Target → (ℕ → Option Target) → ℕ → Option Target
keep b t kept c = if c == b then some t else kept c

-- A call of a builder: a task queue is kept; anything else and a rejection are forgotten.
abbrev pub after_call : ℕ → BuildState → Reply (Option Target) → Reply Target × BuildState
after_call b s (done (some t)) = (done t, record { kept = keep b t s.kept; calls = b ∷ s.calls })
after_call b s (done none) = (threw driver_invalid, record s { calls = b ∷ s.calls })
after_call b s (threw e) = (threw e, record s { calls = b ∷ s.calls })

module _ (nested : ℕ → String → Reply (Option Target)) where
  -- `carrierOf`
  unfoldable pub carrier_of : Target → String → Reply (Option Target)
  carrier_of (router id) queue = nested id queue
  carrier_of (plain id none) queue = done (some (plain id none))
  carrier_of (plain id (some serves)) queue =
      done (if serves queue then some (plain id (some serves)) else none)

  unfoldable pub carried : String → Reply Target × BuildState → Reply (Option Target) × BuildState
  unfolding carrier_of
  carried queue (done t, s) = (carrier_of t queue, s)
  carried queue (threw e, s) = (threw e, s)

module _ (nested : ℕ → String → Reply (Option Target)) (routes : String → Option Route)
    (call : ℕ → List ℕ → Reply (Option Target)) where
  abbrev pub build_by : ℕ → BuildState → Option Target → Reply Target × BuildState
  build_by b s (some t) = (done t, s)
  build_by b s none = after_call b s (call b s.calls)

  -- `#build`
  unfoldable pub build : ℕ → BuildState → Reply Target × BuildState
  build b s = build_by b s (s.kept b)

  unfoldable pub route_by : String → BuildState → Option Route → Reply (Option Target) × BuildState
  unfolding build carried carrier_of
  route_by queue s none = (done none, s)
  route_by queue s (some (object t)) = (carrier_of nested t queue, s)
  route_by queue s (some (builder b)) = carried nested queue (build b s)

  -- `routeOf`
  unfoldable pub route_of : String → BuildState → Reply (Option Target) × BuildState
  unfolding route_by
  route_of queue s = route_by queue s (routes queue)

  -- `#carrier`
  unfoldable pub carrier : String → BuildState → Reply Target × BuildState
  unfolding route_of
  carrier queue s = found (route_of queue s)
    where
      found : Reply (Option Target) × BuildState → Reply Target × BuildState
      found (done (some t), s') = (done t, s')
      found (done none, s') = (threw (other "RESIZE_QUEUE_NOT_SERVED"), s')
      found (threw e, s') = (threw e, s')

  -- The needs of several names, one after another.
  unfoldable pub needs : List String → BuildState → BuildState
  unfolding route_of
  needs [] s = s
  needs (q ∷ qs) s = needs qs (route_of q s).1
