-- ===== src/Config.antt =====
-- coordination.ts, timing.ts and validateQueueTiming of resizeConfig.ts: the settings of a host, filled in
-- from the defaults of config/resize.ts and validated. The texts of the errors are left out.
pub mod Accepts
mod Tests
use framework_module_resizer.Prelude.{
  ℕ, ◌-◌, ◌^◌, String, Bool, true, false, ◌&&◌, Option, none, some, str_eq, if◌then◌else◌, ltb, leb,
}

-- What a setting may hold: a whole number, an object, an array, or another value (a text, null, a number
-- that is negative or not whole).
mutual
  pub data Value : Type 0 where
    undefined_value : Value
    whole : ℕ → Value
    object : Settings → Value
    array : Value
    other_value : Value

  pub data Settings : Type 0 where
    no_settings : Settings
    setting : String → Value → Settings → Settings

-- `own[key]`
abbrev pub get : String → Settings → Value
get key no_settings = undefined_value
get key (setting k v s) = if str_eq k key then v else get key s

-- `Object.hasOwn(own, key)`
abbrev pub has_own : String → Settings → Bool
has_own key no_settings = false
has_own key (setting k v s) = if str_eq k key then true else has_own key s

abbrev pub max_safe : ℕ
max_safe = 2 ^ 53 - 1

-- `isPositiveSafeInteger`, with the number.
abbrev pub positive_safe : Value → Option ℕ
positive_safe (whole n) = if ltb 0 n && leb n max_safe then some n else none
positive_safe v = none

-- A value, or the code of a ResizeConfigError.
pub data Checked (A : Type 0) : Type 0 where
  ok : A → Checked A
  rejected : String → Checked A

-- A setting over its default.
abbrev pub over : Value → Value → Value
over undefined_value default = default
over v default = v

-- `Coordination`
pub record Coordination : Type 0 where
  pub gate_ttl_ms : ℕ
  pub cooldown_ms : ℕ

abbrev bad_coordination : Checked Coordination
bad_coordination = rejected "RESIZE_CONFIG_COORDINATION_INVALID"

abbrev pub both : Option ℕ → Option ℕ → Checked Coordination
both (some g) (some c) = ok (record { gate_ttl_ms = g; cooldown_ms = c })
both g c = bad_coordination

abbrev pub default_coordination : ℕ
default_coordination = 600000

-- `fillCoordination`
unfoldable pub fill_coordination : Value → Checked Coordination
fill_coordination undefined_value =
    ok (record { gate_ttl_ms = default_coordination; cooldown_ms = default_coordination })
fill_coordination (object own) =
    both (positive_safe (over (get "gateTtlMs" own) (whole default_coordination)))
      (positive_safe (over (get "cooldownMs" own) (whole default_coordination)))
fill_coordination v = bad_coordination

-- `QueueTiming`
pub record Timing : Type 0 where
  pub lease_ms : ℕ
  pub backoff_base : ℕ
  pub backoff_max : ℕ
  pub max_attempts : ℕ
  pub idle_poll_ms : ℕ
  pub task_timeout_ms : ℕ

abbrev pub default_backoff : Value
default_backoff = object (setting "base" (whole 5000) (setting "max" (whole 300000) no_settings))

abbrev bad_queue : Checked Timing
bad_queue = rejected "RESIZE_CONFIG_QUEUE_INVALID"

abbrev pub all_of : ℕ → (base max attempts idle timeout : Option ℕ) → Checked Timing
all_of lease (some b) (some m) (some a) (some i) (some t) = ok (record {
  lease_ms = lease;
  backoff_base = b;
  backoff_max = m;
  max_attempts = a;
  idle_poll_ms = i;
  task_timeout_ms = t;
})
all_of lease b m a i t = bad_queue

abbrev pub with_lease : Option ℕ → (backoff attempts idle timeout : Value) → Checked Timing
with_lease none backoff attempts idle timeout = rejected "RESIZE_CONFIG_QUEUE_LEASE_INVALID"
with_lease (some lease) (object own) attempts idle timeout =
    all_of lease (positive_safe (get "base" own)) (positive_safe (get "max" own))
      (positive_safe attempts) (positive_safe idle) (positive_safe timeout)
with_lease (some lease) backoff attempts idle timeout = bad_queue

-- `validateQueueTiming`, of a queue's settings.
unfoldable pub validate_queue_timing :
    (lease backoff attempts idle timeout : Value) → Checked Timing
validate_queue_timing lease backoff attempts idle timeout =
    with_lease (positive_safe lease) backoff attempts idle timeout

-- `fillTiming`
unfoldable pub fill_timing : Settings → Checked Timing
unfolding validate_queue_timing
fill_timing own =
    if has_own "lockTtlMs" own
    then rejected "RESIZE_CONFIG_REMOVED_KEY"
    else validate_queue_timing (over (get "leaseMs" own) (whole 60000))
        (over (get "retryBackoffMs" own) default_backoff) (over (get "maxAttempts" own) (whole 5))
        (over (get "idlePollMs" own) (whole 1000)) (over (get "taskTimeoutMs" own) (whole 600000))

-- The timings that are kept, by queue name.
abbrev pub Timings : Type 0
Timings = String → Option Timing

abbrev pub keep : String → Checked Timing → Timings → Checked Timing × Timings
keep queue (rejected code) kept = (rejected code, kept)
keep queue (ok t) kept = (ok t, λ q. if str_eq q queue then some t else kept q)

abbrev pub kept_or_read :
    String → (Unit {0} → Settings) → Option Timing → Timings → Checked Timing × Timings
kept_or_read queue read (some t) kept = (ok t, kept)
kept_or_read queue read none kept = keep queue (fill_timing (read tt)) kept

-- `timingOf`, with the answer of `getTiming`.
unfoldable pub timing_of : String → (Unit {0} → Settings) → Timings → Checked Timing × Timings
unfolding fill_timing
timing_of queue read kept = kept_or_read queue read (kept queue) kept
