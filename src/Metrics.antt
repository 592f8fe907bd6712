-- ===== src/Metrics.antt =====
-- crates/eiger-metrics/src/lib.rs: the records of a measurement. A CPU share is a floating-point
-- number: its type is a parameter.
pub mod Tree
pub mod Prometheus
use eiger.Common.{ℕ, String, List, Option}

pub record ProcessSample (F32 : Type 0) : Type 0 where
  pub pid : ℕ
  pub rss_bytes : ℕ
  pub cpu_percent : F32
  pub process_count : ℕ

pub record SessionMetric (F32 : Type 0) : Type 0 where
  pub id : String
  pub state : String
  pub pid : Option ℕ
  pub rss_bytes : Option ℕ
  pub cpu_percent : Option F32
  pub process_count : Option ℕ
  pub age_seconds : ℕ
  pub idle_seconds : ℕ

pub record PoolMetrics (F32 : Type 0) : Type 0 where
  pub active_sessions : ℕ
  pub max_concurrent_sessions : ℕ
  pub sessions_created_total : ℕ
  pub sessions_hard_killed_total : ℕ
  pub sessions_rejected_total : ℕ
  pub sessions_rss_limit_recycled_total : ℕ
  pub sessions_idle_recycled_total : ℕ
  pub sessions_lifetime_recycled_total : ℕ
  pub sessions_process_exit_recycled_total : ℕ
  pub sessions_cdp_unhealthy_recycled_total : ℕ
  pub sessions : List (SessionMetric F32)
