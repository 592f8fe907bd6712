-- ===== src/Server/Main.antt =====
-- crates/eiger-server/src/main.rs: `main`. Binding a socket and serving it are axum's and tokio's.
use eiger.Common.{
  ℕ, ◌≡◌, String, List, Option, Result, ok, err, ◌>>=◌, map_err, is_some, All, bind_ok,
}
use eiger.Text.{append}
use eiger.Config.{AppConfig}
use eiger.Config.Load.{from_env}
use eiger.Config.Bounds.{IsWithin, from_env-IsWithin}
use eiger.Pool.Runtime.{Runtime}
use eiger.Pool.State.{SessionPool, from_config}
use eiger.Server.{Route, server_layers}
use eiger.Server.Layers.{IsGuarded, server_layers-IsGuarded}

-- The API's state.
pub record ApiState (rt : Runtime) : Type 0 where
  pub pool : SessionPool rt
  pub token : Option String

-- `ApiState::new`.
abbrev pub api_state :
    (rt : Runtime) {SocketAddr : Type 0} → SessionPool rt → AppConfig SocketAddr → ApiState rt
api_state rt pool config = record { pool = pool; token = config.auth.token }

-- `Context::context`, as it is shown.
abbrev pub context {ℓ} : {A E : Type ℓ} → String → Result A E → Result A String
context message r = map_err (λ e. message) r

-- What the server is given to serve.
pub record Service (rt : Runtime) (Listener GovernorConfig HeaderValue : Type 0) : Type 0 where
  pub listener : Listener
  pub app : List (Route GovernorConfig HeaderValue)
  pub state : ApiState rt

context_ok :
    {A E : Type 0} (message : String) (r : Result A E) {a : A} → context message r ≡ ok a → r ≡ ok a
context_ok message (ok b) e = cc
context_ok message (err x) e = cc

module _ {GovernorConfig HeaderValue SocketAddr Listener IoError : Type 0} (rt : Runtime)
    (finish : ℕ → ℕ → Option GovernorConfig) (from_str : String → Result HeaderValue String)
    (parse_addr : String → Option SocketAddr) (addr_text : SocketAddr → String)
    (bind : SocketAddr → Result Listener IoError)
    (serve : Service rt Listener GovernorConfig HeaderValue → Result (Unit {0}) IoError) where
  -- The part of `main` from the configuration on. The task of `spawn_maintenance` is not waited for.
  unfoldable pub start : AppConfig SocketAddr → Result (Unit {0}) String
  unfolding server_layers from_config
  start config = do
    let state = api_state rt (from_config rt config) config
    app ← server_layers finish from_str config
    listener ←
        context (append "failed to bind " (addr_text config.bind_addr)) (bind config.bind_addr)
    context "server error" (serve (record { listener = listener; app = app; state = state }))

  unfoldable pub main : (String → Option String) → Result (Unit {0}) String
  unfolding from_env start
  main var = context "failed to load configuration" (from_env parse_addr var) >>= start

  -- What a server that ran to its end has served, and under what conditions.
  pub record Served (var : String → Option String) (config : AppConfig SocketAddr)
      (listener : Listener) (app : List (Route GovernorConfig HeaderValue)) : Type 0 where
    pub configured : from_env parse_addr var ≡ ok config
    pub within : IsWithin config
    pub bound : bind config.bind_addr ≡ ok listener
    pub guarded :
        All (IsGuarded (is_some config.auth.token) config.http.request_body_limit_bytes) app
    pub all_free :
        rt.available (from_config rt config).semaphore ≡ config.pool.max_concurrent_sessions
    pub served :
        serve (record {
          listener = listener;
          app = app;
          state = record { pool = from_config rt config; token = config.auth.token };
        })
        ≡ ok tt

  -- Where `main` ends without an error, it has served: under a configuration of the environment that is
  -- within its bounds, on a listener at the address of the configuration, an application whose API is
  -- limited and whose bodies are bounded, with a pool that has all its permits and with the token of the
  -- configuration. So nothing is served where any of these could not be made.
  pub main-Served :
      (var : String → Option String)
      → main var ≡ ok tt
      → (config : AppConfig SocketAddr) × (listener : Listener) × (app : List
          (Route GovernorConfig HeaderValue))
        × Served var config listener app
  unfolding main start
  main-Served var e =
      bind_ok (context "failed to load configuration" (from_env parse_addr var)) start e
        λ config loaded started.
          bind_ok (server_layers finish from_str config) _ started λ app layered rest.
            bind_ok
              (context (append "failed to bind " (addr_text config.bind_addr))
                (bind config.bind_addr))
              _ rest
              λ listener bound last.
                let read = context_ok _ (from_env parse_addr var) loaded in
                (
                  config,
                  listener,
                  app,
                  record {
                    configured = read;
                    within = from_env-IsWithin parse_addr var read;
                    bound = context_ok _ (bind config.bind_addr) bound;
                    guarded = (server_layers-IsGuarded finish from_str config app layered).0;
                    all_free =
                        unfold from_config in
                        rt.available-permits config.pool.max_concurrent_sessions;
                    served = context_ok _ (serve _) last;
                  },
                )
