-- ===== src/Pool/Sessions.antt =====
-- crates/eiger-pool/src/lib.rs: connecting to a session, using a handle, and the reports
-- (`get_session`, `list_sessions`, `metrics`, `readiness`).
pub mod Entries
pub mod Listing
use eiger.Common.{
  ℕ, ◌-◌, String, Bool, true, false, ◌&&◌, List, [], ◌∷◌, map, Option, none, some, Result, ok, err,
  ltb, get_elem?, option_map, and_then, if◌then◌else◌,
}
use eiger.Metrics.{ProcessSample, SessionMetric, PoolMetrics}
use eiger.Pool.{
  SessionState, launching, ready, in_use, draining, killing, dead, state_text, SessionInfo,
  PoolReadiness, PoolError, not_found, not_connectable, SessionEntry, SessionHandle, as_secs,
}
use eiger.Pool.Runtime.{Runtime}
use eiger.Pool.State.{SessionPool, update_entry, clone_arc, drop_arc}

abbrev pub is_ready : SessionState → Bool
is_ready ready = true
is_ready launching = false
is_ready in_use = false
is_ready draining = false
is_ready killing = false
is_ready dead = false

-- `touch`, at a time of both clocks.
abbrev pub touched : ℕ → ℕ → SessionEntry → SessionEntry
touched now instant e = record e { last_used_at = now; last_used_instant = instant }

abbrev pub used : SessionEntry → SessionEntry
used e = record e { state = in_use }

-- `session_info`, where `instant` is the time of the call and `sample` measures a process tree.
unfoldable pub session_info :
    {F32 : Type 0} → (ℕ → Option (ProcessSample F32)) → ℕ → SessionEntry → SessionInfo F32
session_info sample instant e =
    let resource_sample = sample e.pid in
    record {
      id = e.id;
      state = e.state;
      pid = some e.pid;
      browser_ws_url = some e.browser_ws_url;
      created_at = e.created_at;
      last_used_at = e.last_used_at;
      age_seconds = as_secs (instant - e.created_instant);
      idle_seconds = as_secs (instant - e.last_used_instant);
      rss_bytes = option_map (λ p. p.rss_bytes) resource_sample;
      cpu_percent = option_map (λ p. p.cpu_percent) resource_sample;
      process_count = option_map (λ p. p.process_count) resource_sample;
      kill_reason = e.kill_reason;
    }

module _ (rt : Runtime) where
  abbrev pub entry_at : SessionPool rt → ℕ → Option SessionEntry
  entry_at s a = option_map (λ c. c.entry) (get_elem? s.arcs a)

  -- `SessionHandle::touch` and `SessionHandle::mark_in_use`.
  unfoldable pub touch : ℕ → ℕ → SessionHandle → SessionPool rt → SessionPool rt
  unfolding update_entry
  touch now instant h s = update_entry rt h.entry (touched now instant) s

  unfoldable pub mark_in_use : ℕ → ℕ → SessionHandle → SessionPool rt → SessionPool rt
  unfolding touch
  mark_in_use now instant h s = touch now instant h (update_entry rt h.entry used s)

  -- `connect_session` with a clone of the entry: the clone is dropped where the session cannot be
  -- connected to, and is the handle where it can.
  unfoldable pub connect_entry :
      ℕ
      → ℕ
      → ℕ
      → ℕ
      → Option SessionEntry
      → SessionPool rt
      → Result SessionHandle PoolError × SessionPool rt
  unfolding update_entry drop_arc
  connect_entry now instant id a none s = (err (not_connectable id), drop_arc rt a s)
  connect_entry now instant id a (some e) s =
      if is_ready e.state
      then (
        ok (record { entry = a }),
        update_entry rt a (touched now instant) (update_entry rt a used s),
      )
      else (err (not_connectable id), drop_arc rt a s)

  unfoldable pub connect_session :
      ℕ → ℕ → ℕ → SessionPool rt → Result SessionHandle PoolError × SessionPool rt
  unfolding connect_entry clone_arc
  connect_session now instant id s = elim (rt.get s.sessions id) [
    | none ↦ (err (not_found id), s)
    | some a ↦ connect_entry now instant id a (entry_at s a) (clone_arc rt a s)
  ]

  module _ {F32 : Type 0} (sample : ℕ → Option (ProcessSample F32)) (instant : ℕ) where
    unfoldable pub get_session : ℕ → SessionPool rt → Option (SessionInfo F32)
    unfolding session_info
    get_session id s =
        option_map (session_info sample instant) (and_then (rt.get s.sessions id) (entry_at s))

    -- The infos of the entries that `iter` goes through.
    infos : SessionPool rt → List (ℕ × ℕ) → List (SessionInfo F32)
    unfolding session_info
    infos s [] = []
    infos s ((id, a) ∷ rest) =
        let later = infos s rest in
        elim (entry_at s a) [ none ↦ later | some e ↦ session_info sample instant e ∷ later ]

    unfoldable pub list_sessions : SessionPool rt → List (SessionInfo F32)
    unfolding infos
    list_sessions s = infos s (rt.entries s.sessions)

    -- The row of one session; `show_id` is `Uuid::to_string`.
    abbrev pub session_metric : (ℕ → String) → SessionInfo F32 → SessionMetric F32
    session_metric show_id i = record {
      id = show_id i.id;
      state = state_text i.state;
      pid = i.pid;
      rss_bytes = i.rss_bytes;
      cpu_percent = i.cpu_percent;
      process_count = i.process_count;
      age_seconds = i.age_seconds;
      idle_seconds = i.idle_seconds;
    }

    unfoldable pub metrics : (ℕ → String) → SessionPool rt → PoolMetrics F32
    unfolding list_sessions state_text
    metrics show_id s = record {
      active_sessions = rt.count s.sessions;
      max_concurrent_sessions = s.options.max_concurrent_sessions;
      sessions_created_total = s.counters.sessions_created_total;
      sessions_hard_killed_total = s.counters.sessions_hard_killed_total;
      sessions_rejected_total = s.counters.sessions_rejected_total;
      sessions_rss_limit_recycled_total = s.counters.sessions_rss_limit_recycled_total;
      sessions_idle_recycled_total = s.counters.sessions_idle_recycled_total;
      sessions_lifetime_recycled_total = s.counters.sessions_lifetime_recycled_total;
      sessions_process_exit_recycled_total = s.counters.sessions_process_exit_recycled_total;
      sessions_cdp_unhealthy_recycled_total = s.counters.sessions_cdp_unhealthy_recycled_total;
      sessions = map (session_metric show_id) (list_sessions s);
    }

  unfoldable pub readiness : SessionPool rt → PoolReadiness
  readiness s =
      let available_capacity = rt.available s.semaphore in
      let can_accept_sessions = ltb 0 available_capacity && s.browser_launch_ready in
      record {
        status = if can_accept_sessions then "ready" else "not_ready";
        can_accept_sessions = can_accept_sessions;
        active_sessions = rt.count s.sessions;
        max_concurrent_sessions = s.options.max_concurrent_sessions;
        available_capacity = available_capacity;
        browser_launch_ready = s.browser_launch_ready;
        last_browser_launch_error = s.last_browser_launch_error;
      }
