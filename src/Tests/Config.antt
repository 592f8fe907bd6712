-- ===== src/Tests/Config.antt =====
-- The configuration of an environment where only the token and the number of sessions are set.
use text.Mathlib.Text.{◌==◌ as str_eq}
use eiger.Common.{inl, ◌≡◌, refl, String, true, [], Option, none, some, ok, if◌then◌else◌}
use eiger.Text.Decimal.{to_string}
use eiger.Config.{AppConfig}
use eiger.Config.Env.{seconds_env, mb_env, positive_u32_env, positive_usize_env}
use eiger.Text.Decimal.{to_string}
use eiger.Text.Decimal.Reading.{number_of}
use eiger.Config.Numbers.{Says, env_numbers}
use eiger.Config.Load.{from_env}
use eiger.Config.Bounds.{IsWithin, from_env-IsWithin}

abbrev environment : String → Option String
environment name =
    if str_eq name "EIGER_TOKEN"
    then some "secret"
    else if str_eq name "EIGER_MAX_CONCURRENT_SESSIONS"
    then some "8"
    else none

abbrev loaded : AppConfig String
loaded = record {
  bind_addr = "0.0.0.0:3000";
  auth = record { token = some "secret" };
  http = record { cors_origins = []; request_body_limit_bytes = 65536 };
  rate_limit = record { requests_per_second = 10; burst = 20 };
  browser = record {
    executable = none;
    no_sandbox = true;
    launch_timeout = 10_000_000_000;
    close_timeout = 3_000_000_000;
    terminate_timeout = 2_000_000_000;
    additional_args = [];
    user_agent = none;
    profile_storage_dir = none;
  };
  pool = record {
    max_concurrent_sessions = 8;
    launch_queue_timeout = 15_000_000_000;
    max_session_lifetime = 1_800_000_000_000;
    max_idle_time = 300_000_000_000;
    per_session_rss_limit_bytes = 1_610_612_736;
    maintenance_interval = 5_000_000_000;
    cdp_health_interval = 30_000_000_000;
  };
  stealth = record { enabled = true };
}

loads : from_env (λ text. some text) environment ≡ ok loaded
unfolding from_env
loads = refl

from_env-IsWithin_example : IsWithin loaded
from_env-IsWithin_example = from_env-IsWithin (λ text. some text) environment loads

is_eight : Says environment "EIGER_MAX_CONCURRENT_SESSIONS" 4 "8"
unfolding to_string
is_eight = inl refl

env_numbers_example :
    (number_of (to_string 4) ≡ some 4)
    × (seconds_env environment "EIGER_MAX_CONCURRENT_SESSIONS" 4 ≡ ok 8_000_000_000)
    × (mb_env environment "EIGER_MAX_CONCURRENT_SESSIONS" 4 ≡ ok 8)
    × (positive_usize_env environment "EIGER_MAX_CONCURRENT_SESSIONS" 4 ≡ ok 8)
    × (positive_u32_env environment "EIGER_MAX_CONCURRENT_SESSIONS" 4 ≡ ok 8)
env_numbers_example = env_numbers environment "EIGER_MAX_CONCURRENT_SESSIONS" 4 "8" is_eight
