-- ===== src/Config.antt =====
-- crates/eiger-config/src/lib.rs: the configuration. Durations are in nanoseconds, and a path is its
-- text. The type of socket addresses is a parameter.
pub mod Env
pub mod Load
pub mod Bounds
pub mod Numbers
use eiger.Common.{ℕ, ◌*◌, String, Bool, List, Option}

pub record AuthConfig : Type 0 where
  pub token : Option String

pub record HttpConfig : Type 0 where
  pub cors_origins : List String
  pub request_body_limit_bytes : ℕ

pub record RateLimitConfig : Type 0 where
  pub requests_per_second : ℕ
  pub burst : ℕ

pub record BrowserConfig : Type 0 where
  pub executable : Option String
  pub no_sandbox : Bool
  pub launch_timeout : ℕ
  pub close_timeout : ℕ
  pub terminate_timeout : ℕ
  pub additional_args : List String
  pub user_agent : Option String
  pub profile_storage_dir : Option String

pub record PoolConfig : Type 0 where
  pub max_concurrent_sessions : ℕ
  pub launch_queue_timeout : ℕ
  pub max_session_lifetime : ℕ
  pub max_idle_time : ℕ
  pub per_session_rss_limit_bytes : ℕ
  pub maintenance_interval : ℕ
  pub cdp_health_interval : ℕ

pub record StealthConfig : Type 0 where
  pub enabled : Bool

pub record AppConfig (SocketAddr : Type 0) : Type 0 where
  pub bind_addr : SocketAddr
  pub auth : AuthConfig
  pub http : HttpConfig
  pub rate_limit : RateLimitConfig
  pub browser : BrowserConfig
  pub pool : PoolConfig
  pub stealth : StealthConfig

-- `InvalidValue { name, value }`.
pub data ConfigError : Type 0 where
  invalid_value : String → String → ConfigError

abbrev pub from_secs : ℕ → ℕ
from_secs secs = secs * 1_000_000_000
