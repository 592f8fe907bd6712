-- ===== src/Config/Load.antt =====
-- crates/eiger-config/src/lib.rs: `AppConfig::from_env`. The product of the RSS limit wraps around at
-- 64 bits, as it does in a release build.
use eiger.Common.{
  ℕ, ◌*◌, ◌%◌, String, Option, Result, ok, ◌>>=◌, List, [], option_map, unwrap_or, filter, not,
  u64_mod,
}
use eiger.Text.{is_empty_str, split_whitespace}
use eiger.Text.Decimal.{to_string, parse_unsigned}
use eiger.Config.{AppConfig, ConfigError}
use eiger.Config.Env.{
  u64_max, parse_bool, optional_env, comma_separated_env, parse_env, seconds_env, mb_env,
  positive_u32_env, positive_usize_env,
}

abbrev pub default_bind_addr : String
default_bind_addr = "0.0.0.0:3000"

abbrev pub default_max_concurrent_sessions : ℕ
default_max_concurrent_sessions = 4

abbrev pub default_per_session_rss_mb : ℕ
default_per_session_rss_mb = 1536

abbrev pub default_rate_limit_rps : ℕ
default_rate_limit_rps = 10

abbrev pub default_rate_limit_burst : ℕ
default_rate_limit_burst = 20

abbrev pub default_request_body_limit_bytes : ℕ
default_request_body_limit_bytes = 64 * 1024

module _ {SocketAddr : Type 0} (parse_addr : String → Option SocketAddr) where
  unfoldable pub from_env : (String → Option String) → Result (AppConfig SocketAddr) ConfigError
  unfolding optional_env comma_separated_env parse_env seconds_env mb_env positive_u32_env
      positive_usize_env parse_bool to_string parse_unsigned split_whitespace
  from_env var = do
    bind_addr ← parse_env var parse_addr "EIGER_BIND_ADDR" default_bind_addr
    let token = optional_env var "EIGER_TOKEN"
    let cors_origins = comma_separated_env var "EIGER_CORS_ORIGINS"
    request_body_limit_bytes ←
        positive_usize_env var "EIGER_REQUEST_BODY_LIMIT_BYTES" default_request_body_limit_bytes
    rate_limit_rps ← positive_u32_env var "EIGER_RATE_LIMIT_RPS" default_rate_limit_rps
    rate_limit_burst ← positive_u32_env var "EIGER_RATE_LIMIT_BURST" default_rate_limit_burst
    let executable = optional_env var "EIGER_CHROME_EXECUTABLE"
    no_sandbox ← parse_env var parse_bool "EIGER_CHROME_NO_SANDBOX" "true"
    launch_timeout ← seconds_env var "EIGER_BROWSER_LAUNCH_TIMEOUT_SECS" 10
    close_timeout ← seconds_env var "EIGER_BROWSER_CLOSE_TIMEOUT_SECS" 3
    terminate_timeout ← seconds_env var "EIGER_BROWSER_TERMINATE_TIMEOUT_SECS" 2
    let additional_args : List String =
        unwrap_or
          (option_map (λ value. filter (λ part. not (is_empty_str part)) (split_whitespace value))
            (optional_env var "EIGER_CHROME_ARGS"))
          []
    let user_agent = optional_env var "EIGER_USER_AGENT"
    let profile_storage_dir = optional_env var "EIGER_PROFILE_STORAGE_DIR"
    max_concurrent_sessions ←
        parse_env var (parse_unsigned u64_max) "EIGER_MAX_CONCURRENT_SESSIONS"
          (to_string default_max_concurrent_sessions)
    launch_queue_timeout ← seconds_env var "EIGER_LAUNCH_QUEUE_TIMEOUT_SECS" 15
    max_session_lifetime ← seconds_env var "EIGER_MAX_SESSION_LIFETIME_SECS" (30 * 60)
    max_idle_time ← seconds_env var "EIGER_MAX_IDLE_TIME_SECS" (5 * 60)
    rss_limit_mb ← mb_env var "EIGER_PER_SESSION_RSS_LIMIT_MB" default_per_session_rss_mb
    let per_session_rss_limit_bytes = (rss_limit_mb * 1024 % u64_mod) * 1024 % u64_mod
    maintenance_interval ← seconds_env var "EIGER_MAINTENANCE_INTERVAL_SECS" 5
    cdp_health_interval ← seconds_env var "EIGER_CDP_HEALTH_INTERVAL_SECS" 30
    stealth_enabled ← parse_env var parse_bool "EIGER_STEALTH_ENABLED" "true"
    ok (record {
      bind_addr = bind_addr;
      auth = record { token = token };
      http = record {
        cors_origins = cors_origins;
        request_body_limit_bytes = request_body_limit_bytes;
      };
      rate_limit = record { requests_per_second = rate_limit_rps; burst = rate_limit_burst };
      browser = record {
        executable = executable;
        no_sandbox = no_sandbox;
        launch_timeout = launch_timeout;
        close_timeout = close_timeout;
        terminate_timeout = terminate_timeout;
        additional_args = additional_args;
        user_agent = user_agent;
        profile_storage_dir = profile_storage_dir;
      };
      pool = record {
        max_concurrent_sessions = max_concurrent_sessions;
        launch_queue_timeout = launch_queue_timeout;
        max_session_lifetime = max_session_lifetime;
        max_idle_time = max_idle_time;
        per_session_rss_limit_bytes = per_session_rss_limit_bytes;
        maintenance_interval = maintenance_interval;
        cdp_health_interval = cdp_health_interval;
      };
      stealth = record { enabled = stealth_enabled };
    })
