-- ===== src/Config/Accepts.antt =====
-- coordination.ts and timing.ts: which settings are accepted, and what an accepted timing is.
use framework_module_resizer.Prelude.{
  ℕ, ◌≤◌, String, Bool, true, false, not, ◌&&◌, Option, none, some, eq_refl, if◌then◌else◌, is_some,
  ◌≡◌, refl, ap, ◌∙◌, arith,
}
use framework_module_resizer.Config.{
  Value, Settings, undefined_value, whole, object, array, other_value, get, has_own, max_safe,
  positive_safe, Checked, ok, rejected, over, default_coordination, fill_coordination, Timing,
  default_backoff, validate_queue_timing, fill_timing, Timings, timing_of, with_lease, all_of, both,
  keep, kept_or_read,
}

abbrev pub is_ok : {A : Type 0} → Checked A → Bool
is_ok (ok a) = true
is_ok (rejected code) = false

-- A setting that is absent, or a positive safe integer.
abbrev pub may_be : Value → Bool
may_be undefined_value = true
may_be v = is_some (positive_safe v)

abbrev pub backoff_may_be : Value → Bool
backoff_may_be undefined_value = true
backoff_may_be (object own) =
    is_some (positive_safe (get "base" own)) && is_some (positive_safe (get "max" own))
backoff_may_be v = false

filled :
    (v : Value) (n : ℕ)
    → 1 ≤ n
    → n ≤ max_safe
    → is_some (positive_safe (over v (whole n))) ≡ may_be v
filled undefined_value n h g = ground arith
filled (whole m) n h g = refl
filled (object own) n h g = refl
filled array n h g = refl
filled other_value n h g = refl

both-is_ok : (g c : Option ℕ) → is_ok (both g c) ≡ is_some g && is_some c
both-is_ok none c = refl
both-is_ok (some g) none = refl
both-is_ok (some g) (some c) = refl

all_of-is_ok :
    (l : ℕ) (b m a i t : Option ℕ)
    → is_ok (all_of l b m a i t) ≡ is_some b && is_some m && is_some a && is_some i && is_some t
all_of-is_ok l none m a i t = refl
all_of-is_ok l (some b) none a i t = refl
all_of-is_ok l (some b) (some m) none i t = refl
all_of-is_ok l (some b) (some m) (some a) none t = refl
all_of-is_ok l (some b) (some m) (some a) (some i) none = refl
all_of-is_ok l (some b) (some m) (some a) (some i) (some t) = refl

with_lease-is_ok :
    (l : Option ℕ) (own a i t : Value)
    → is_ok (with_lease l (over own default_backoff) a i t)
      ≡ is_some l
        && backoff_may_be own
        && is_some (positive_safe a)
        && is_some (positive_safe i)
        && is_some (positive_safe t)
with_lease-is_ok none own a i t = refl
with_lease-is_ok (some l) undefined_value a i t =
    all_of-is_ok l (some 5000) (some 300000) (positive_safe a) (positive_safe i) (positive_safe t)
with_lease-is_ok (some l) (object own) a i t =
    all_of-is_ok l (positive_safe (get "base" own)) (positive_safe (get "max" own))
      (positive_safe a) (positive_safe i) (positive_safe t)
    ∙ ground arith
with_lease-is_ok (some l) (whole m) a i t = refl
with_lease-is_ok (some l) array a i t = refl
with_lease-is_ok (some l) other_value a i t = refl

-- A queue's settings are accepted exactly when they do not hold the removed `lockTtlMs`, every number
-- that is set is a positive safe integer, and so are both numbers of a backoff that is set, which must
-- be an object with the two.
pub fill_timing-is_ok :
    (own : Settings)
    → is_ok (fill_timing own)
      ≡ not (has_own "lockTtlMs" own)
        && may_be (get "leaseMs" own)
        && backoff_may_be (get "retryBackoffMs" own)
        && may_be (get "maxAttempts" own)
        && may_be (get "idlePollMs" own)
        && may_be (get "taskTimeoutMs" own)
unfolding fill_timing validate_queue_timing
fill_timing-is_ok own = by_removed (has_own "lockTtlMs" own)
  where
    settled :
        is_ok (
          with_lease
            (positive_safe (over (get "leaseMs" own) (whole 60000)))
            (over (get "retryBackoffMs" own) default_backoff)
            (over (get "maxAttempts" own) (whole 5))
            (over (get "idlePollMs" own) (whole 1000))
            (over (get "taskTimeoutMs" own) (whole 600000)))
        ≡ may_be (get "leaseMs" own)
          && backoff_may_be (get "retryBackoffMs" own)
          && may_be (get "maxAttempts" own)
          && may_be (get "idlePollMs" own)
          && may_be (get "taskTimeoutMs" own)
    settled =
        with_lease-is_ok _ (get "retryBackoffMs" own) _ _ _
        ∙ (let a = filled (get "leaseMs" own) 60000 (omega arith) (omega arith) in
            let b = filled (get "maxAttempts" own) 5 (omega arith) (omega arith) in
            let c = filled (get "idlePollMs" own) 1000 (omega arith) (omega arith) in
            let d = filled (get "taskTimeoutMs" own) 600000 (omega arith) (omega arith) in
            cc (a, b, c, d))

    by_removed :
        (b : Bool)
        → is_ok (
            if b
            then rejected "RESIZE_CONFIG_REMOVED_KEY"
            else with_lease
                (positive_safe (over (get "leaseMs" own) (whole 60000)))
                (over (get "retryBackoffMs" own) default_backoff)
                (over (get "maxAttempts" own) (whole 5))
                (over (get "idlePollMs" own) (whole 1000))
                (over (get "taskTimeoutMs" own) (whole 600000)))
          ≡ not b
            && may_be (get "leaseMs" own)
            && backoff_may_be (get "retryBackoffMs" own)
            && may_be (get "maxAttempts" own)
            && may_be (get "idlePollMs" own)
            && may_be (get "taskTimeoutMs" own)
    by_removed true = refl
    by_removed false = settled

-- A section that is absent, or an object whose two times may be set.
abbrev pub section_may_be : Value → Bool
section_may_be undefined_value = true
section_may_be (object own) = may_be (get "gateTtlMs" own) && may_be (get "cooldownMs" own)
section_may_be v = false

-- A coordination is accepted exactly when it is absent, or an object whose gate time and cooldown are
-- each absent or a positive safe integer.
pub fill_coordination-is_ok : (v : Value) → is_ok (fill_coordination v) ≡ section_may_be v
unfolding fill_coordination
fill_coordination-is_ok undefined_value = refl
fill_coordination-is_ok (whole n) = refl
fill_coordination-is_ok array = refl
fill_coordination-is_ok other_value = refl
fill_coordination-is_ok (object own) =
    both-is_ok (positive_safe (over (get "gateTtlMs" own) (whole default_coordination)))
      (positive_safe (over (get "cooldownMs" own) (whole default_coordination)))
    ∙ (let a = filled (get "gateTtlMs" own) default_coordination (omega arith) (omega arith) in
        let b = filled (get "cooldownMs" own) default_coordination (omega arith) (omega arith) in
        cc (a, b))

-- A valid timing of a queue name is kept: a later call gives the same one, whatever the task queue's
-- settings are by then. An invalid one is not kept: the next call reads the settings again.
pub timing_of-kept :
    (queue : String) (read read' : Unit {0} → Settings) (kept : Timings)
    → (timing_of queue read' (timing_of queue read kept).1).0 ≡ (
        if is_ok (timing_of queue read kept).0
        then (timing_of queue read kept).0
        else (timing_of queue read' kept).0)
unfolding timing_of
timing_of-kept queue read read' kept = by_kept (kept queue) refl
  where
    again : Checked Timing × Timings → Checked Timing
    again r = (kept_or_read queue read' (r.1 queue) r.1).0

    by_checked :
        (c : Checked Timing)
        → kept queue ≡ none
        → again (keep queue c kept) ≡ (
            if is_ok (keep queue c kept).0
            then (keep queue c kept).0
            else (kept_or_read queue read' (kept queue) kept).0)
    by_checked (ok t) e =
        ap
          (λ b.
            (kept_or_read queue read' (if b then some t else kept queue)
              (keep queue (ok t) kept).1).0)
          (eq_refl queue)
    by_checked (rejected code) e = refl

    by_kept :
        (o : Option Timing)
        → kept queue ≡ o
        → again (kept_or_read queue read o kept) ≡ (
            if is_ok (kept_or_read queue read o kept).0
            then (kept_or_read queue read o kept).0
            else (kept_or_read queue read' (kept queue) kept).0)
    by_kept (some t) e = rw e refl
    by_kept none e = by_checked (fill_timing (read tt)) e
