-- ===== src/Pool/Shutdown.antt =====
-- crates/eiger-pool/src/lib.rs: `terminate_session`, `shutdown_entry` and `count_recycle_reason`.
pub mod Counting
pub mod Removal
pub mod Ending
use eiger.Common.{
  ℕ, String, Bool, true, false, Option, none, some, get_elem?, fetch_add, if◌then◌else◌,
}
use eiger.Text.{starts_with}
use eiger.Browser.{LaunchedBrowser, ShutdownKind, graceful, terminated, killed, already_exited}
use eiger.Browser.Shutdown.{ChildAnswers, shutdown}
use eiger.Pool.{killing, dead}
use eiger.Pool.Runtime.{Runtime}
use eiger.Pool.State.{SessionPool, Counters, update_entry, drop_arc}

abbrev pub is_killed : ShutdownKind → Bool
is_killed killed = true
is_killed graceful = false
is_killed terminated = false
is_killed already_exited = false

-- `count_recycle_reason`, on the counters.
unfoldable pub count_recycle_reason : String → Counters → Counters
count_recycle_reason reason c =
    if starts_with "rss limit exceeded" reason
    then record c {
      sessions_rss_limit_recycled_total = fetch_add c.sessions_rss_limit_recycled_total;
    }
    else if starts_with "max idle time exceeded" reason
    then record c { sessions_idle_recycled_total = fetch_add c.sessions_idle_recycled_total }
    else if starts_with "max session lifetime exceeded" reason
    then record c {
      sessions_lifetime_recycled_total = fetch_add c.sessions_lifetime_recycled_total;
    }
    else if starts_with "browser process exited" reason
    then record c {
      sessions_process_exit_recycled_total = fetch_add c.sessions_process_exit_recycled_total;
    }
    else if starts_with "cdp health check failed" reason
    then record c {
      sessions_cdp_unhealthy_recycled_total = fetch_add c.sessions_cdp_unhealthy_recycled_total;
    }
    else c

abbrev pub count_hard_kill : Counters → Counters
count_hard_kill c = record c { sessions_hard_killed_total = fetch_add c.sessions_hard_killed_total }

-- The counters after the browser, if the entry still had it, is shut down.
abbrev pub counted_shutdown : Option LaunchedBrowser → String → ChildAnswers → Counters → Counters
counted_shutdown none reason answers c = c
counted_shutdown (some b) reason answers c =
    if is_killed (shutdown b reason answers).0.kind then count_hard_kill c else c

module _ (rt : Runtime) where
  -- `shutdown_entry` up to its wait for the browser: the state, the reason, the counter.
  unfoldable pub begin_shutdown : ℕ → String → SessionPool rt → SessionPool rt
  unfolding update_entry count_recycle_reason
  begin_shutdown a reason s =
      let s' = update_entry rt a (λ e. record e { state = killing; kill_reason = some reason }) s in
      record s' { counters = count_recycle_reason reason s'.counters }

  -- `entry.browser.lock().await.take()`.
  abbrev pub browser_of : ℕ → SessionPool rt → Option LaunchedBrowser
  browser_of a s = elim (get_elem? s.arcs a) [ none ↦ none | some c ↦ c.entry.browser ]

  -- The rest: the browser is taken and shut down, the entry is dead, and the `Arc` is dropped.
  unfoldable pub finish_shutdown : ℕ → String → ChildAnswers → SessionPool rt → SessionPool rt
  unfolding update_entry drop_arc shutdown
  finish_shutdown a reason answers s =
      let counters = counted_shutdown (browser_of a s) reason answers s.counters in
      drop_arc rt a (
        update_entry rt a (λ e. record e { state = dead; browser = none })
          (record s { counters = counters }))

  unfoldable pub shutdown_entry : ℕ → String → ChildAnswers → SessionPool rt → SessionPool rt
  unfolding begin_shutdown finish_shutdown
  shutdown_entry a reason answers s = finish_shutdown a reason answers (begin_shutdown a reason s)

  unfoldable pub terminate_session :
      ℕ → String → ChildAnswers → SessionPool rt → Bool × SessionPool rt
  unfolding shutdown_entry
  terminate_session id reason answers s = elim (rt.get s.sessions id) [
    | none ↦ (false, s)
    | some a ↦
        (true, shutdown_entry a reason answers (record s { sessions = rt.remove s.sessions id }))
  ]
