-- ===== src/Pool/Create.antt =====
-- crates/eiger-pool/src/lib.rs, `create_session`, in the parts between its waits: the permit, the
-- launch options, the launch, the registration.
pub mod Outcomes
use eiger.Common.{
  ℕ, String, Bool, true, false, [], ◌∷◌, ◌++◌, Option, none, some, Result, ok, err, ◌>>=◌, length,
  ok_or, unwrap_or, fetch_add,
}
use eiger.Browser.{ChromeLaunchOptions, LaunchedBrowser, BrowserError, error_text}
use eiger.Pool.{
  ready, SessionOverrides, PoolError, at_capacity, capacity_timeout, persistent_profiles_disabled,
  browser, SessionEntry, SessionHandle,
}
use eiger.Pool.Runtime.{Runtime}
use eiger.Pool.Profile.{profile_path}
use eiger.Pool.State.{SessionPool, release_permit, drop_option}

-- How a wait for a permit ends when none comes: the semaphore is closed, or the time is over.
pub data WaitEnd : Type 0 where
  closed elapsed : WaitEnd

abbrev pub rejection : WaitEnd → PoolError
rejection closed = at_capacity
rejection elapsed = capacity_timeout

-- What happens around one call: the end of its wait, the launched browser, the new id, the time.
pub record CreateEnv : Type 0 where
  pub wait_end : WaitEnd
  pub launch : ChromeLaunchOptions → Result LaunchedBrowser BrowserError
  pub id : ℕ
  pub now : ℕ
  pub instant : ℕ

-- The options for the launch, before the arguments of the request are added.
abbrev with_overrides : ChromeLaunchOptions → SessionOverrides → ChromeLaunchOptions
with_overrides o v = record o {
  stealth = record o.stealth { enabled = unwrap_or v.stealth_enabled o.stealth.enabled };
  proxy = v.proxy;
  extension_paths = v.extension_paths;
  additional_args = o.additional_args ++ v.extra_chrome_args;
}

-- The directory of the persistent profile, where one is asked for.
unfoldable pub profile_dir : Option String → Option String → Result (Option String) PoolError
profile_dir storage none = ok none
profile_dir storage (some id) = do
  base_dir ← ok_or storage persistent_profiles_disabled
  path ← profile_path base_dir id
  ok (some path)

abbrev with_profile : ChromeLaunchOptions → Option String → ChromeLaunchOptions
with_profile o none = o
with_profile o (some dir) = record o { user_data_dir = some dir }

-- The entry of a browser that was launched.
abbrev pub new_entry : Bool → LaunchedBrowser → ℕ → ℕ → ℕ → SessionEntry
new_entry stealth_enabled b id now instant = record {
  id = id;
  pid = b.pid;
  browser_ws_url = b.browser_ws_url;
  stealth_enabled = stealth_enabled;
  created_at = now;
  created_instant = instant;
  last_used_at = now;
  last_used_instant = instant;
  last_cdp_health_check = instant;
  state = ready;
  browser = some b;
  kill_reason = none;
}

module _ (rt : Runtime) where
  unfoldable pub launch_options :
      SessionPool rt → SessionOverrides → Result ChromeLaunchOptions PoolError
  unfolding profile_dir
  launch_options s v = do
    dir ← profile_dir s.options.profile_storage_dir v.persistent_profile_id
    ok (with_profile (with_overrides s.browser_options v) dir)

  -- `sessions_rejected_total.fetch_add(1)`.
  abbrev pub count_rejected : SessionPool rt → SessionPool rt
  count_rejected s = record s {
    counters = record s.counters {
      sessions_rejected_total = fetch_add s.counters.sessions_rejected_total;
    };
  }

  -- The flags that follow a launch.
  abbrev pub launch_succeeded : SessionPool rt → SessionPool rt
  launch_succeeded s = record s { browser_launch_ready = true; last_browser_launch_error = none }

  abbrev pub launch_failed : BrowserError → SessionPool rt → SessionPool rt
  launch_failed e s = record s {
    browser_launch_ready = false;
    last_browser_launch_error = some (error_text e);
  }

  -- The allocation has two owners: the map and the handle. An entry that the map held under the
  -- same id is dropped.
  unfoldable pub register : SessionEntry → SessionPool rt → SessionPool rt × SessionHandle
  unfolding drop_option
  register e s =
      let a = length s.arcs in
      let s' = record s {
        sessions = rt.insert s.sessions e.id a;
        arcs = s.arcs ++ record { entry = e; strong = 2 } ∷ [];
        counters = record s.counters {
          sessions_created_total = fetch_add s.counters.sessions_created_total;
        };
      } in
      (drop_option rt (rt.get s.sessions e.id) s', record { entry = a })

  -- After the launch. The permit is dropped where the launch failed.
  unfoldable pub launched :
      CreateEnv
      → ChromeLaunchOptions
      → Result LaunchedBrowser BrowserError
      → SessionPool rt
      → Result SessionHandle PoolError × SessionPool rt
  unfolding register
  launched env o (err e) s = (err (browser e), release_permit rt (launch_failed e s))
  launched env o (ok b) s =
      let e = new_entry o.stealth.enabled b env.id env.now env.instant in
      let (s', handle) = register e (launch_succeeded s) in (ok handle, s')

  -- With the permit.
  unfoldable pub launch_session :
      CreateEnv
      → Result ChromeLaunchOptions PoolError
      → SessionPool rt
      → Result SessionHandle PoolError × SessionPool rt
  unfolding launched
  launch_session env (err e) s = (err e, release_permit rt s)
  launch_session env (ok o) s = launched env o (env.launch o) s

  unfoldable pub create_session :
      CreateEnv
      → SessionOverrides
      → SessionPool rt
      → Result SessionHandle PoolError × SessionPool rt
  unfolding launch_session launch_options
  create_session env v s = elim (rt.acquire s.semaphore) [
    | none ↦ (err (rejection env.wait_end), count_rejected s)
    | some p ↦ launch_session env (launch_options s v) (record s { semaphore = p })
  ]
