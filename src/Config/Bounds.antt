-- ===== src/Config/Bounds.antt =====
-- What every accepted configuration is within.
use eiger.Common.{
  ok_injective, subst, ℕ, ◌*◌, ◌%◌, ◌<◌, ◌≤◌, ◌≡◌, String, Option, ok, arith, inl, inr, ◌==◌,
  Bool-cases, bind_ok, ok_or_ok, unwrap_or, u64_mod,
}
use eiger.Text.Decimal.{to_string, parse_unsigned}
use eiger.Text.Decimal.Bounds.{parse_unsigned_le}
use eiger.Config.{AppConfig, invalid_value, from_secs}
use eiger.Config.Env.{
  u32_max, u64_max, parse_bool, parse_env, seconds_env, mb_env, positive_u32_env,
  positive_usize_env,
}
use eiger.Config.Load.{
  from_env, default_bind_addr, default_max_concurrent_sessions, default_per_session_rss_mb,
  default_rate_limit_rps, default_rate_limit_burst, default_request_body_limit_bytes,
}

-- A duration that the configuration can give: whole seconds that fit 64 bits.
pub record IsSeconds (nanos : ℕ) : Type 0 where
  pub secs : ℕ
  pub fits : secs ≤ u64_max
  pub same : nanos ≡ from_secs secs

module _ (var : String → Option String) (name : String) where
  parse_env_le :
      (max : ℕ) (default : String) {n : ℕ}
      → parse_env var (parse_unsigned max) name default ≡ ok n
      → n ≤ max
  unfolding parse_env
  parse_env_le max default e =
      let value = unwrap_or (var name) default in
      parse_unsigned_le max value (ok_or_ok _ (invalid_value name value) e)

  positive_u32_le :
      (default : ℕ) {n : ℕ} → positive_u32_env var name default ≡ ok n → (0 < n) × (n ≤ u32_max)
  unfolding positive_u32_env
  positive_u32_le default {n} e =
      bind_ok (parse_env var (parse_unsigned u32_max) name (to_string default)) _ e
        λ value read rest. elim (Bool-cases (value == 0)) [
          | inl z ↦ absurd (ground arith)
          | inr z ↦
              let same : value ≡ n = ground arith in
              ground (arith, parse_env_le u32_max (to_string default) read)
        ]

  positive_usize_le :
      (default : ℕ) {n : ℕ} → positive_usize_env var name default ≡ ok n → (0 < n) × (n ≤ u64_max)
  unfolding positive_usize_env
  positive_usize_le default {n} e =
      bind_ok (parse_env var (parse_unsigned u64_max) name (to_string default)) _ e
        λ value read rest. elim (Bool-cases (value == 0)) [
          | inl z ↦ absurd (ground arith)
          | inr z ↦
              let same : value ≡ n = ground arith in
              ground (arith, parse_env_le u64_max (to_string default) read)
        ]

  seconds_env_whole : (default : ℕ) {n : ℕ} → seconds_env var name default ≡ ok n → IsSeconds n
  unfolding seconds_env
  seconds_env_whole default {n} e =
      bind_ok (parse_env var (parse_unsigned u64_max) name (to_string default)) _ e
        λ secs read rest. record {
          secs = secs;
          fits = parse_env_le u64_max (to_string default) read;
          same = cc;
        }

-- The bounds of each number of a configuration.
pub record IsWithin {SocketAddr : Type 0} (c : AppConfig SocketAddr) : Type 0 where
  pub body_limit :
      (0 < c.http.request_body_limit_bytes) × (c.http.request_body_limit_bytes ≤ u64_max)
  pub rate : (0 < c.rate_limit.requests_per_second) × (c.rate_limit.requests_per_second ≤ u32_max)
  pub burst : (0 < c.rate_limit.burst) × (c.rate_limit.burst ≤ u32_max)
  pub sessions : c.pool.max_concurrent_sessions ≤ u64_max
  pub rss_limit : c.pool.per_session_rss_limit_bytes < u64_mod
  pub launch_timeout : IsSeconds c.browser.launch_timeout
  pub close_timeout : IsSeconds c.browser.close_timeout
  pub terminate_timeout : IsSeconds c.browser.terminate_timeout
  pub launch_queue_timeout : IsSeconds c.pool.launch_queue_timeout
  pub max_session_lifetime : IsSeconds c.pool.max_session_lifetime
  pub max_idle_time : IsSeconds c.pool.max_idle_time
  pub maintenance_interval : IsSeconds c.pool.maintenance_interval
  pub cdp_health_interval : IsSeconds c.pool.cdp_health_interval

below_u64 : (mb : ℕ) → (mb * 1024 % u64_mod) * 1024 % u64_mod < u64_mod
below_u64 mb = omega arith

module _ {SocketAddr : Type 0} (parse_addr : String → Option SocketAddr) where
  -- Every configuration that is accepted has a body limit, a request rate and a burst that are positive
  -- and fit `usize`, `u32` and `u32`, a number of sessions and an RSS limit that fit 64 bits, and
  -- durations of whole seconds that fit 64 bits.
  pub from_env-IsWithin :
      (var : String → Option String) {c : AppConfig SocketAddr}
      → from_env parse_addr var ≡ ok c
      → IsWithin c
  unfolding from_env
  from_env-IsWithin var {c} e =
      bind_ok (parse_env var parse_addr "EIGER_BIND_ADDR" default_bind_addr) _ e λ x0 h0 e0.
        bind_ok
          (positive_usize_env var "EIGER_REQUEST_BODY_LIMIT_BYTES" default_request_body_limit_bytes)
          _ e0
          λ x1 h1 e1.
            bind_ok (positive_u32_env var "EIGER_RATE_LIMIT_RPS" default_rate_limit_rps) _ e1
              λ x2 h2 e2.
                bind_ok (positive_u32_env var "EIGER_RATE_LIMIT_BURST" default_rate_limit_burst) _
                  e2
                  λ x3 h3 e3.
                    bind_ok (parse_env var parse_bool "EIGER_CHROME_NO_SANDBOX" "true") _ e3
                      λ x4 h4 e4.
                        bind_ok (seconds_env var "EIGER_BROWSER_LAUNCH_TIMEOUT_SECS" 10) _ e4
                          λ x5 h5 e5.
                            bind_ok (seconds_env var "EIGER_BROWSER_CLOSE_TIMEOUT_SECS" 3) _ e5
                              λ x6 h6 e6.
                                bind_ok (seconds_env var "EIGER_BROWSER_TERMINATE_TIMEOUT_SECS" 2) _
                                  e6
                                  λ x7 h7 e7.
                                    bind_ok
                                      (parse_env var (parse_unsigned u64_max)
                                        "EIGER_MAX_CONCURRENT_SESSIONS"
                                        (to_string default_max_concurrent_sessions))
                                      _ e7
                                      λ x8 h8 e8.
                                        bind_ok
                                          (seconds_env var "EIGER_LAUNCH_QUEUE_TIMEOUT_SECS" 15) _
                                          e8
                                          λ x9 h9 e9.
                                            bind_ok
                                              (seconds_env var "EIGER_MAX_SESSION_LIFETIME_SECS"
                                                (30 * 60))
                                              _ e9
                                              λ x10 h10 e10.
                                                bind_ok
                                                  (seconds_env var "EIGER_MAX_IDLE_TIME_SECS"
                                                    (5 * 60))
                                                  _ e10
                                                  λ x11 h11 e11.
                                                    bind_ok
                                                      (mb_env var "EIGER_PER_SESSION_RSS_LIMIT_MB"
                                                        default_per_session_rss_mb)
                                                      _ e11
                                                      λ x12 h12 e12.
                                                        bind_ok
                                                          (seconds_env var
                                                            "EIGER_MAINTENANCE_INTERVAL_SECS" 5)
                                                          _ e12
                                                          λ x13 h13 e13.
                                                            bind_ok
                                                            (seconds_env var
                                                            "EIGER_CDP_HEALTH_INTERVAL_SECS" 30)
                                                            _ e13
                                                            λ x14 h14 e14.
                                                            bind_ok
                                                            (parse_env var parse_bool
                                                            "EIGER_STEALTH_ENABLED" "true")
                                                            _ e14
                                                            λ x15 h15 e15.
                                                            subst IsWithin (ok_injective e15)
                                                            (record {
                                                            body_limit =
                                                            positive_usize_le var
                                                            "EIGER_REQUEST_BODY_LIMIT_BYTES"
                                                            default_request_body_limit_bytes h1;
                                                            rate =
                                                            positive_u32_le var
                                                            "EIGER_RATE_LIMIT_RPS"
                                                            default_rate_limit_rps h2;
                                                            burst =
                                                            positive_u32_le var
                                                            "EIGER_RATE_LIMIT_BURST"
                                                            default_rate_limit_burst h3;
                                                            sessions =
                                                            parse_env_le var
                                                            "EIGER_MAX_CONCURRENT_SESSIONS" u64_max
                                                            (to_string
                                                            default_max_concurrent_sessions)
                                                            h8;
                                                            rss_limit = below_u64 x12;
                                                            launch_timeout =
                                                            seconds_env_whole var
                                                            "EIGER_BROWSER_LAUNCH_TIMEOUT_SECS" 10
                                                            h5;
                                                            close_timeout =
                                                            seconds_env_whole var
                                                            "EIGER_BROWSER_CLOSE_TIMEOUT_SECS" 3 h6;
                                                            terminate_timeout =
                                                            seconds_env_whole var
                                                            "EIGER_BROWSER_TERMINATE_TIMEOUT_SECS" 2
                                                            h7;
                                                            launch_queue_timeout =
                                                            seconds_env_whole var
                                                            "EIGER_LAUNCH_QUEUE_TIMEOUT_SECS" 15 h9;
                                                            max_session_lifetime =
                                                            seconds_env_whole var
                                                            "EIGER_MAX_SESSION_LIFETIME_SECS"
                                                            (30 * 60) h10;
                                                            max_idle_time =
                                                            seconds_env_whole var
                                                            "EIGER_MAX_IDLE_TIME_SECS" (5 * 60) h11;
                                                            maintenance_interval =
                                                            seconds_env_whole var
                                                            "EIGER_MAINTENANCE_INTERVAL_SECS" 5 h13;
                                                            cdp_health_interval =
                                                            seconds_env_whole var
                                                            "EIGER_CDP_HEALTH_INTERVAL_SECS" 30 h14;
                                                            })
