-- ===== src/Pool/Maintenance.antt =====
-- crates/eiger-pool/src/lib.rs: `kill_reason_for`, `maintenance_pass` and
-- `spawn_maintenance`.
pub mod Reasons
pub mod Round
pub mod Pass
pub mod Recycles
use eiger.Common.{
  ℕ, ◌-◌, String, Bool, true, false, ◌&&◌, List, [], ◌∷◌, Option, none, some, Result, ok, err, ltb,
  leb, if◌then◌else◌, option_map,
}
use eiger.Text.{append}
use eiger.Text.Decimal.{to_string}
use eiger.Browser.{BrowserError, error_text}
use eiger.Browser.Shutdown.{ChildAnswers}
use eiger.Metrics.{ProcessSample}
use eiger.Pool.{
  SessionState, launching, ready, in_use, draining, killing, dead, PoolOptions, SessionEntry,
}
use eiger.Pool.Runtime.{Runtime}
use eiger.Pool.State.{SessionPool, update_entry, clone_arc, drop_arc}
use eiger.Pool.Shutdown.{terminate_session}
use eiger.Pool.Sessions.{is_ready, entry_at}

-- What the checks of one session read from outside: the clock (one reading for the tests, one for
-- the time of the health check), the process tree, the browser's answer, and how it shuts down.
pub record Probe (F32 : Type 0) : Type 0 where
  pub instant : ℕ
  pub checked_at : ℕ
  pub sample : Option (ProcessSample F32)
  pub health : Result (Unit {0}) BrowserError
  pub child : ChildAnswers

unfoldable pub rss_reason : ℕ → ℕ → String
unfolding to_string
rss_reason rss limit =
    append "rss limit exceeded: " (append (to_string rss) (append " > " (to_string limit)))

unfoldable pub health_reason : BrowserError → String
unfolding error_text
health_reason e = append "cdp health check failed: " (error_text e)

module _ {F32 : Type 0} where
  -- The health check, where it is due: the new time of the last check, and the reason.
  abbrev pub cdp_check : PoolOptions → Probe F32 → SessionEntry → ℕ × Option String
  cdp_check o p e =
      if leb o.cdp_health_interval (p.instant - e.last_cdp_health_check)
      then (p.checked_at, elim p.health [ ok _ ↦ none | err error ↦ some (health_reason error) ])
      else (e.last_cdp_health_check, none)

  abbrev pub process_check :
      PoolOptions → Probe F32 → SessionEntry → Option (ProcessSample F32) → ℕ × Option String
  process_check o p e none = (e.last_cdp_health_check, some "browser process exited")
  process_check o p e (some sample) =
      if ltb o.per_session_rss_limit_bytes sample.rss_bytes
      then (
        e.last_cdp_health_check,
        some (rss_reason sample.rss_bytes o.per_session_rss_limit_bytes),
      )
      else cdp_check o p e

  -- `kill_reason_for`: the time of the last health check after it, and the reason.
  unfoldable pub kill_reason_for : PoolOptions → Probe F32 → SessionEntry → ℕ × Option String
  kill_reason_for o p e =
      if ltb o.max_session_lifetime (p.instant - e.created_instant)
      then (e.last_cdp_health_check, some "max session lifetime exceeded")
      else if is_ready e.state && ltb o.max_idle_time (p.instant - e.last_used_instant)
      then (e.last_cdp_health_check, some "max idle time exceeded")
      else process_check o p e p.sample

-- The states that a pass leaves alone.
abbrev pub is_going : SessionState → Bool
is_going killing = true
is_going dead = true
is_going launching = false
is_going ready = false
is_going in_use = false
is_going draining = false

module _ (rt : Runtime) where
  -- The clones that the pass begins with.
  unfoldable pub clone_all : List (ℕ × ℕ) → SessionPool rt → SessionPool rt
  unfolding clone_arc
  clone_all [] s = s
  clone_all ((id, a) ∷ rest) s = clone_all rest (clone_arc rt a s)

module _ (rt : Runtime) {F32 : Type 0} where
  abbrev pub recycle : Probe F32 → ℕ → Option String → SessionPool rt → SessionPool rt
  recycle p id none s = s
  recycle p id (some reason) s = (terminate_session rt id reason p.child s).1

  -- One entry of a pass.
  unfoldable pub maintain_entry : Probe F32 → ℕ → SessionEntry → SessionPool rt → SessionPool rt
  unfolding kill_reason_for update_entry terminate_session
  maintain_entry p a e s =
      let (checked, reason) = kill_reason_for s.options p e in
      if is_going e.state
      then s
      else recycle p e.id reason
          (update_entry rt a (λ x. record x { last_cdp_health_check = checked }) s)

  -- One round of the loop; the clone is dropped at its end.
  unfoldable pub maintain : Probe F32 → ℕ → SessionPool rt → SessionPool rt
  unfolding maintain_entry drop_arc
  maintain p a s = elim (entry_at rt s a) [
    | none ↦ s
    | some e ↦ drop_arc rt a (maintain_entry p a e s)
  ]

  unfoldable pub maintain_all : (ℕ → Probe F32) → List (ℕ × ℕ) → SessionPool rt → SessionPool rt
  unfolding maintain
  maintain_all probe [] s = s
  maintain_all probe ((id, a) ∷ rest) s = maintain_all probe rest (maintain (probe id) a s)

  unfoldable pub maintenance_pass : (ℕ → Probe F32) → SessionPool rt → SessionPool rt
  unfolding clone_all maintain_all
  maintenance_pass probe s =
      let entries = rt.entries s.sessions in maintain_all probe entries (clone_all rt entries s)

  -- The loop of `spawn_maintenance` over the ticks that have come.
  unfoldable pub maintenance_loop : List (ℕ → Probe F32) → SessionPool rt → SessionPool rt
  unfolding maintenance_pass
  maintenance_loop [] s = s
  maintenance_loop (probe ∷ ticks) s = maintenance_loop ticks (maintenance_pass probe s)

  -- The pool after the ticks of the task of `spawn_maintenance` so far; `none` where the task panicked.
  -- `interval` is `tokio::time::interval`, which panics on some periods, with what each tick reads.
  unfoldable pub spawn_maintenance :
      (ℕ → Option (List (ℕ → Probe F32))) → SessionPool rt → Option (SessionPool rt)
  unfolding maintenance_loop
  spawn_maintenance interval s =
      option_map (λ ticks. maintenance_loop ticks s) (interval s.options.maintenance_interval)
