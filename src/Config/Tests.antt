-- ===== src/Config/Tests.antt =====
-- Settings of a host that are accepted, and some that are not.
use framework_module_resizer.Prelude.{true, not, ◌&&◌, none, ◌≡◌, refl, if◌then◌else◌}
use framework_module_resizer.Config.{
  Settings, whole, object, other_value, no_settings, setting, get, has_own, rejected,
  fill_coordination, fill_timing, timing_of,
}
use framework_module_resizer.Config.Accepts.{
  is_ok, may_be, backoff_may_be, fill_timing-is_ok, timing_of-kept,
}

abbrev short_lease : Settings
short_lease = setting "leaseMs" (whole 1000) no_settings

abbrev no_lease : Settings
no_lease = setting "leaseMs" (whole 0) no_settings

abbrev half_backoff : Settings
half_backoff = setting "retryBackoffMs" (object (setting "base" (whole 10) no_settings)) no_settings

abbrev old_key : Settings
old_key = setting "lockTtlMs" other_value no_settings

timing_runs :
    (is_ok (fill_timing short_lease) ≡ true)
    × (fill_timing no_lease ≡ rejected "RESIZE_CONFIG_QUEUE_LEASE_INVALID")
    × (fill_timing half_backoff ≡ rejected "RESIZE_CONFIG_QUEUE_INVALID")
    × (fill_timing old_key ≡ rejected "RESIZE_CONFIG_REMOVED_KEY")
unfolding fill_timing
timing_runs = (refl, refl, refl, refl)

fill_timing-is_ok_example :
    is_ok (fill_timing half_backoff)
    ≡ not (has_own "lockTtlMs" half_backoff)
      && may_be (get "leaseMs" half_backoff)
      && backoff_may_be (get "retryBackoffMs" half_backoff)
      && may_be (get "maxAttempts" half_backoff)
      && may_be (get "idlePollMs" half_backoff)
      && may_be (get "taskTimeoutMs" half_backoff)
fill_timing-is_ok_example = fill_timing-is_ok half_backoff

coordination_runs :
    (is_ok (fill_coordination (object no_settings)) ≡ true)
    × (fill_coordination (object (setting "gateTtlMs" (whole 0) no_settings))
        ≡ rejected "RESIZE_CONFIG_COORDINATION_INVALID")
unfolding fill_coordination
coordination_runs = (refl, refl)

timing_of-kept_example :
    (timing_of "q" (λ u. no_lease) (timing_of "q" (λ u. short_lease) (λ q. none)).1).0 ≡ (
      if is_ok (timing_of "q" (λ u. short_lease) (λ q. none)).0
      then (timing_of "q" (λ u. short_lease) (λ q. none)).0
      else (timing_of "q" (λ u. no_lease) (λ q. none)).0)
timing_of-kept_example = timing_of-kept "q" (λ u. short_lease) (λ u. no_lease) (λ q. none)
