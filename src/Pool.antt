-- ===== src/Pool.antt =====
-- crates/eiger-pool/src/lib.rs: the types of the session pool. A `Uuid` and a point of time are
-- numbers; times and durations are in nanoseconds.
pub mod Runtime
pub mod Profile
pub mod Heap
pub mod State
pub mod Create
pub mod Shutdown
pub mod Sessions
pub mod Maintenance
pub mod Steps
pub mod Readiness
pub mod Ledger
use eiger.Common.{ℕ, ◌/◌, String, Bool, List, [], Option, none, some}
use eiger.Text.{append}
use eiger.Text.Decimal.{to_string}
use eiger.Browser.{ChromeLaunchOptions, LaunchedBrowser, BrowserError, error_text}

pub data SessionState : Type 0 where
  launching ready in_use draining killing dead : SessionState

-- `Display for SessionState`.
unfoldable pub state_text : SessionState → String
state_text launching = "launching"
state_text ready = "ready"
state_text in_use = "in_use"
state_text draining = "draining"
state_text killing = "killing"
state_text dead = "dead"

pub record SessionOverrides : Type 0 where
  pub stealth_enabled : Option Bool
  pub extra_chrome_args : List String
  pub proxy : Option String
  pub extension_paths : List String
  pub persistent_profile_id : Option String

pub record SessionInfo (F32 : Type 0) : Type 0 where
  pub id : ℕ
  pub state : SessionState
  pub pid : Option ℕ
  pub browser_ws_url : Option String
  pub created_at : ℕ
  pub last_used_at : ℕ
  pub age_seconds : ℕ
  pub idle_seconds : ℕ
  pub rss_bytes : Option ℕ
  pub cpu_percent : Option F32
  pub process_count : Option ℕ
  pub kill_reason : Option String

pub record PoolReadiness : Type 0 where
  pub status : String
  pub can_accept_sessions : Bool
  pub active_sessions : ℕ
  pub max_concurrent_sessions : ℕ
  pub available_capacity : ℕ
  pub browser_launch_ready : Bool
  pub last_browser_launch_error : Option String

pub data PoolError : Type 0 where
  at_capacity capacity_timeout : PoolError
  not_found not_connectable : ℕ → PoolError
  persistent_profiles_disabled : PoolError
  invalid_persistent_profile_id : String → PoolError
  browser : BrowserError → PoolError

pub record PoolOptions : Type 0 where
  pub max_concurrent_sessions : ℕ
  pub launch_queue_timeout : ℕ
  pub max_session_lifetime : ℕ
  pub max_idle_time : ℕ
  pub per_session_rss_limit_bytes : ℕ
  pub maintenance_interval : ℕ
  pub cdp_health_interval : ℕ
  pub profile_storage_dir : Option String

-- The permit of an entry is not a field: each live allocation of an entry holds one (`State`).
pub record SessionEntry : Type 0 where
  pub id : ℕ
  pub pid : ℕ
  pub browser_ws_url : String
  pub stealth_enabled : Bool
  pub created_at : ℕ
  pub created_instant : ℕ
  pub last_used_at : ℕ
  pub last_used_instant : ℕ
  pub last_cdp_health_check : ℕ
  pub state : SessionState
  pub browser : Option LaunchedBrowser
  pub kill_reason : Option String

-- A `SessionHandle` is an `Arc`: the address of its entry.
pub record SessionHandle : Type 0 where
  pub entry : ℕ

-- `Duration::as_secs`.
abbrev pub as_secs : ℕ → ℕ
as_secs nanos = nanos / 1_000_000_000
