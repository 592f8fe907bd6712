-- ===== src/Tests/Fixture.antt =====
-- A configuration, the pool that it gives, and requests for it.
use eiger.Common.{ℕ, String, true, false, [], ◌∷◌, none, some, ok, err}
use eiger.Config.{AppConfig}
use eiger.Browser.{LaunchedBrowser, missing_executable, temporary}
use eiger.Browser.Shutdown.{ChildAnswers}
use eiger.Pool.{SessionOverrides, SessionHandle}
use eiger.Pool.State.{SessionPool, from_config}
use eiger.Pool.Create.{CreateEnv, elapsed, create_session}
use eiger.Tests.Machine.{machine}

abbrev pub config : AppConfig String
config = record {
  bind_addr = "0.0.0.0:3000";
  auth = record { token = none };
  http = record { cors_origins = []; request_body_limit_bytes = 65536 };
  rate_limit = record { requests_per_second = 10; burst = 20 };
  browser = record {
    executable = none;
    no_sandbox = true;
    launch_timeout = 10_000_000_000;
    close_timeout = 3_000_000_000;
    terminate_timeout = 2_000_000_000;
    additional_args = "--mute-audio" ∷ [];
    user_agent = none;
    profile_storage_dir = some "/profiles";
  };
  pool = record {
    max_concurrent_sessions = 2;
    launch_queue_timeout = 15_000_000_000;
    max_session_lifetime = 1_800_000_000_000;
    max_idle_time = 300_000_000_000;
    per_session_rss_limit_bytes = 1_000_000;
    maintenance_interval = 5_000_000_000;
    cdp_health_interval = 30_000_000_000;
  };
  stealth = record { enabled = true };
}

abbrev pub new_pool : SessionPool machine
new_pool = from_config machine config

abbrev pub chrome : LaunchedBrowser
chrome = record {
  pid = 41;
  http_base_url = "http://127.0.0.1:9222";
  browser_ws_url = "ws://127.0.0.1:9222/devtools/browser/a";
  user_data_dir = temporary "/tmp/eiger";
  stealth_task = true;
  close_timeout = 3_000_000_000;
  terminate_timeout = 2_000_000_000;
}

abbrev pub launches : ℕ → CreateEnv
launches id = record {
  wait_end = elapsed;
  launch = λ o. ok chrome;
  id = id;
  now = 100;
  instant = 100;
}

abbrev pub fails : CreateEnv
fails = record {
  wait_end = elapsed;
  launch = λ o. err missing_executable;
  id = 7;
  now = 100;
  instant = 100;
}

abbrev pub plain : SessionOverrides
plain = record {
  stealth_enabled = none;
  extra_chrome_args = [];
  proxy = none;
  extension_paths = [];
  persistent_profile_id = none;
}

abbrev pub with_profile_id : String → SessionOverrides
with_profile_id id = record plain { persistent_profile_id = some id }

-- The pool with one session, and with two.
abbrev pub one : SessionPool machine
one = (create_session machine (launches 7) plain new_pool).1

abbrev pub two : SessionPool machine
two = (create_session machine (launches 8) plain one).1

abbrev pub first_handle : SessionHandle
first_handle = record { entry = 0 }

abbrev pub stubborn : ChildAnswers
stubborn = record {
  exited_before = false;
  close_succeeds = true;
  exits_after_close = false;
  exits_after_sigterm = false;
  kill_succeeds = true;
}
