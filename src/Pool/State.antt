-- ===== src/Pool/State.antt =====
-- crates/eiger-pool/src/lib.rs: the state of `SessionPool` with the heap of its `Arc<SessionEntry>`
-- allocations. An allocation is freed, and its permit goes back, when the last `Arc` is dropped.
pub mod Owners
use eiger.Common.{
  ℕ, zero, suc, ◌-◌, ◌+◌, ◌==◌, String, Bool, false, List, [], ◌∷◌, ◌++◌, Option, none, some,
  length, get_elem?, set, fetch_add, if◌then◌else◌,
}
use eiger.Browser.{ChromeLaunchOptions}
use eiger.Stealth.{stealth_profile}
use eiger.Config.{AppConfig}
use eiger.Pool.{PoolOptions, SessionEntry}
use eiger.Pool.Runtime.{Runtime}

pub record Arc : Type 0 where
  pub entry : SessionEntry
  pub strong : ℕ

-- The `AtomicU64` counters.
pub record Counters : Type 0 where
  pub sessions_created_total : ℕ
  pub sessions_hard_killed_total : ℕ
  pub sessions_rejected_total : ℕ
  pub sessions_rss_limit_recycled_total : ℕ
  pub sessions_idle_recycled_total : ℕ
  pub sessions_lifetime_recycled_total : ℕ
  pub sessions_process_exit_recycled_total : ℕ
  pub sessions_cdp_unhealthy_recycled_total : ℕ

abbrev pub no_counts : Counters
no_counts = record {
  sessions_created_total = 0;
  sessions_hard_killed_total = 0;
  sessions_rejected_total = 0;
  sessions_rss_limit_recycled_total = 0;
  sessions_idle_recycled_total = 0;
  sessions_lifetime_recycled_total = 0;
  sessions_process_exit_recycled_total = 0;
  sessions_cdp_unhealthy_recycled_total = 0;
}

pub record SessionPool (rt : Runtime) : Type 0 where
  pub sessions : rt.Sessions
  pub semaphore : rt.Permits
  pub options : PoolOptions
  pub browser_options : ChromeLaunchOptions
  pub counters : Counters
  pub browser_launch_ready : Bool
  pub last_browser_launch_error : Option String
  -- the heap: an `Arc` is an index
  pub arcs : List Arc

module _ (rt : Runtime) where
  unfoldable pub from_config : {SocketAddr : Type 0} → AppConfig SocketAddr → SessionPool rt
  from_config config = record {
    sessions = rt.no_sessions;
    semaphore = rt.permits config.pool.max_concurrent_sessions;
    options = record {
      max_concurrent_sessions = config.pool.max_concurrent_sessions;
      launch_queue_timeout = config.pool.launch_queue_timeout;
      max_session_lifetime = config.pool.max_session_lifetime;
      max_idle_time = config.pool.max_idle_time;
      per_session_rss_limit_bytes = config.pool.per_session_rss_limit_bytes;
      maintenance_interval = config.pool.maintenance_interval;
      cdp_health_interval = config.pool.cdp_health_interval;
      profile_storage_dir = config.browser.profile_storage_dir;
    };
    browser_options = record {
      executable = config.browser.executable;
      no_sandbox = config.browser.no_sandbox;
      launch_timeout = config.browser.launch_timeout;
      close_timeout = config.browser.close_timeout;
      terminate_timeout = config.browser.terminate_timeout;
      additional_args = config.browser.additional_args;
      proxy = none;
      extension_paths = [];
      user_data_dir = none;
      stealth = stealth_profile config.stealth.enabled config.browser.user_agent;
    };
    counters = no_counts;
    browser_launch_ready = false;
    last_browser_launch_error = none;
    arcs = [];
  }

  -- A write to an entry through an `Arc`.
  unfoldable pub update_entry : ℕ → (SessionEntry → SessionEntry) → SessionPool rt → SessionPool rt
  update_entry a f s = elim (get_elem? s.arcs a) [
    | none ↦ s
    | some c ↦ record s { arcs = set s.arcs a (record c { entry = f c.entry }) }
  ]

  -- `Arc::clone`.
  unfoldable pub clone_arc : ℕ → SessionPool rt → SessionPool rt
  clone_arc a s = elim (get_elem? s.arcs a) [
    | none ↦ s
    | some c ↦ record s { arcs = set s.arcs a (record c { strong = suc c.strong }) }
  ]

  -- The drop of a permit.
  abbrev pub release_permit : SessionPool rt → SessionPool rt
  release_permit s = record s { semaphore = rt.release s.semaphore }

  unfoldable pub drop_counted : ℕ → SessionEntry → ℕ → SessionPool rt → SessionPool rt
  drop_counted a entry zero s = s
  drop_counted a entry (suc zero) s = record s {
    semaphore = rt.release s.semaphore;
    arcs = set s.arcs a (record { entry = entry; strong = 0 });
  }
  drop_counted a entry (suc (suc n)) s = record s {
    arcs = set s.arcs a (record { entry = entry; strong = suc n });
  }

  -- The drop of an `Arc`: the last one frees the allocation, and with it the permit.
  unfoldable pub drop_arc : ℕ → SessionPool rt → SessionPool rt
  unfolding drop_counted
  drop_arc a s = elim (get_elem? s.arcs a) [ none ↦ s | some c ↦ drop_counted a c.entry c.strong s ]

  -- The drop of an `Option<Arc>`.
  unfoldable pub drop_option : Option ℕ → SessionPool rt → SessionPool rt
  unfolding drop_arc
  drop_option none s = s
  drop_option (some a) s = drop_arc a s
