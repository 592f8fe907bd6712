-- ===== src/Tests/Maintenance.antt =====
-- Checks of one session at a concrete clock and concrete measurements.
use eiger.Common.{
  ◌≢◌, ◌⊎◌, ◌<◌, ℕ, ◌-◌, ◌≤◌, ◌≡◌, refl, [], ◌∷◌, true, Option, none, some, ok, option_map,
}
use eiger.Metrics.{ProcessSample}
use eiger.Pool.{ready, SessionEntry, PoolOptions}
use eiger.Pool.State.{SessionPool, no_counts, drop_arc, from_config}
use eiger.Pool.Create.{create_session, new_entry}
use eiger.Pool.Shutdown.{count_recycle_reason}
use eiger.Pool.Maintenance.{Probe, kill_reason_for, rss_reason, spawn_maintenance}
use eiger.Pool.Maintenance.Reasons.{Over, kill_reason_counted, kill_reason_none}
use eiger.Tests.Machine.{machine}
use eiger.Tests.Fixture.{new_pool, one, chrome, stubborn}

abbrev options : PoolOptions
options = new_pool.options

abbrev entry : SessionEntry
entry = new_entry true chrome 7 100 100

abbrev measured : ℕ → Probe ℕ
measured rss = record {
  instant = 40_000_000_000;
  checked_at = 40_000_000_000;
  sample = some (record { pid = 41; rss_bytes = rss; cpu_percent = 3; process_count = 2 });
  health = ok tt;
  child = stubborn;
}

too_large :
    (kill_reason_for options (measured 2_000_000) entry).1 ≡ some (rss_reason 2_000_000 1_000_000)
unfolding kill_reason_for rss_reason from_config
too_large = refl

kill_reason_counted_example :
    Over options
      (measured 2_000_000)
      entry
      no_counts
      (count_recycle_reason (rss_reason 2_000_000 1_000_000) no_counts)
kill_reason_counted_example =
    kill_reason_counted options (measured 2_000_000) entry no_counts
      (rss_reason 2_000_000 1_000_000) too_large

small_enough : (kill_reason_for options (measured 500_000) entry).1 ≡ none
unfolding kill_reason_for from_config
small_enough = refl

kill_reason_none_example :
    (40_000_000_000 - 100 ≤ options.max_session_lifetime)
    × ((entry.state ≢ ready) ⊎ (40_000_000_000 - 100 ≤ options.max_idle_time))
    × ((sample : ProcessSample ℕ) × ((measured 500_000).sample ≡ some sample)
        × (sample.rss_bytes ≤ options.per_session_rss_limit_bytes))
    × ((40_000_000_000 - 100 < options.cdp_health_interval) ⊎ ((measured 500_000).health ≡ ok tt))
kill_reason_none_example = kill_reason_none options (measured 500_000) entry small_enough

-- What is left of a pool: its sessions, its free permits and the recycles for its memory.
abbrev left : Option (SessionPool machine) → Option (ℕ × ℕ × ℕ)
left o =
    option_map
      (λ s. (
        machine.count s.sessions,
        machine.available s.semaphore,
        s.counters.sessions_rss_limit_recycled_total,
      ))
      o

-- The request that created the session has dropped its handle. The first of two passes leaves the
-- session alone, and the second recycles it.
recycled :
    left (
      spawn_maintenance machine
        (λ period. some ((λ id. measured 500_000) ∷ (λ id. measured 2_000_000) ∷ []))
        (drop_arc machine 0 one))
    ≡ some (0, 2, 1)
unfolding spawn_maintenance from_config create_session rss_reason drop_arc
recycled = refl
