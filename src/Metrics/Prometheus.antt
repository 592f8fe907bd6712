-- ===== src/Metrics/Prometheus.antt =====
-- crates/eiger-metrics/src/lib.rs, `render_prometheus`. The text of an `f32` is a parameter.
pub mod Labels
use eiger.Common.{String, ℕ, List, [], ◌∷◌, Option, none, some, option_map}
use eiger.Text.{append, replace}
use eiger.Text.Decimal.{to_string}
use eiger.Metrics.{SessionMetric, PoolMetrics}

-- The pieces, one after the other.
abbrev pub concat : List String → String
concat [] = ""
concat (piece ∷ pieces) = append piece (concat pieces)

unfoldable pub escape_label : String → String
unfolding replace
escape_label value = replace "\"" "\\\"" (replace "\\" "\\\\" value)

abbrev pub header : String → String → String → String
header name help kind =
    concat ("# HELP " ∷ name ∷ " " ∷ help ∷ "\n# TYPE " ∷ name ∷ " " ∷ kind ∷ "\n" ∷ [])

abbrev pub number : String → String → String → ℕ → String
number name help kind n =
    append (header name help kind) (concat (name ∷ " " ∷ to_string n ∷ "\n" ∷ []))

module _ {F32 : Type 0} where
  -- The line of one session, where it has a value.
  abbrev pub session_line : String → SessionMetric F32 → Option String → String
  session_line name session none = ""
  session_line name session (some value) = concat (
      name
      ∷ "{session=\""
      ∷ escape_label session.id
      ∷ "\",state=\""
      ∷ escape_label session.state
      ∷ "\"} "
      ∷ value
      ∷ "\n"
      ∷ [])

  unfoldable pub session_lines :
      String → (SessionMetric F32 → Option String) → List (SessionMetric F32) → String
  unfolding escape_label
  session_lines name value [] = ""
  session_lines name value (session ∷ sessions) =
      append (session_line name session (value session)) (session_lines name value sessions)

  unfoldable pub render_prometheus : (F32 → String) → PoolMetrics F32 → String
  unfolding session_lines to_string
  render_prometheus show_f32 metrics = concat (
      number "eiger_sessions_active" "Active browser sessions." "gauge" metrics.active_sessions
      ∷ number "eiger_sessions_max" "Maximum concurrently allowed browser sessions." "gauge"
          metrics.max_concurrent_sessions
      ∷ number "eiger_sessions_created_total" "Browser sessions created." "counter"
          metrics.sessions_created_total
      ∷ number "eiger_sessions_hard_killed_total" "Browser sessions that required SIGKILL."
          "counter" metrics.sessions_hard_killed_total
      ∷ number "eiger_sessions_rejected_total" "Session requests rejected by capacity or timeout."
          "counter" metrics.sessions_rejected_total
      ∷ number "eiger_sessions_rss_limit_recycled_total"
          "Sessions recycled after exceeding their RSS ceiling." "counter"
          metrics.sessions_rss_limit_recycled_total
      ∷ number "eiger_sessions_idle_recycled_total" "Sessions recycled after idle timeout."
          "counter" metrics.sessions_idle_recycled_total
      ∷ number "eiger_sessions_lifetime_recycled_total" "Sessions recycled after max lifetime."
          "counter" metrics.sessions_lifetime_recycled_total
      ∷ number "eiger_sessions_process_exit_recycled_total"
          "Sessions recycled because their browser process exited." "counter"
          metrics.sessions_process_exit_recycled_total
      ∷ number "eiger_sessions_cdp_unhealthy_recycled_total"
          "Sessions recycled after CDP health-check failure." "counter"
          metrics.sessions_cdp_unhealthy_recycled_total
      ∷ header "eiger_session_rss_bytes" "Browser process resident memory by session." "gauge"
      ∷ session_lines "eiger_session_rss_bytes" (λ session. option_map to_string session.rss_bytes)
          metrics.sessions
      ∷ header "eiger_session_cpu_percent" "Browser process CPU percent by session." "gauge"
      ∷ session_lines "eiger_session_cpu_percent"
          (λ session. option_map show_f32 session.cpu_percent) metrics.sessions
      ∷ header "eiger_session_processes" "Browser process-tree process count by session." "gauge"
      ∷ session_lines "eiger_session_processes"
          (λ session. option_map to_string session.process_count) metrics.sessions
      ∷ [])
