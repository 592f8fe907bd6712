-- ===== src/Server.antt =====
-- crates/eiger-server/src/main.rs: the layers around the routes, the rate limits and their keys. The
-- layers of tower are data here: what a layer does with a request is not in the repository.
pub mod RateLimit
pub mod Layers
pub mod Main
use eiger.Common.{
  ℕ, String, List, [], ◌∷◌, ◌++◌, map, Option, none, some, Result, ok, err, ◌>>=◌, ok_or, map_err,
  is_some, is_empty, if◌then◌else◌,
}
use eiger.Text.{append}
use eiger.Config.{AppConfig}
use eiger.Server.RateLimit.{rate_limit_period}

pub data KeyExtractor : Type 0 where
  peer_ip token_key : KeyExtractor

pub record CorsLayer (HeaderValue : Type 0) : Type 0 where
  pub origins : List HeaderValue
  pub methods : List String
  pub headers : List String

pub data Layer (GovernorConfig HeaderValue : Type 0) : Type 0 where
  governor : KeyExtractor → GovernorConfig → Layer GovernorConfig HeaderValue
  cors : CorsLayer HeaderValue → Layer GovernorConfig HeaderValue
  body_limit : ℕ → Layer GovernorConfig HeaderValue
  trace : Layer GovernorConfig HeaderValue

-- A route with the layers around it, the innermost first.
pub record Route (GovernorConfig HeaderValue : Type 0) : Type 0 where
  pub path : String
  pub layers : List (Layer GovernorConfig HeaderValue)

-- The routes of `liveness_router` and of `api_router`; the documentation that is merged into the
-- latter is left out.
abbrev pub liveness_paths : List String
liveness_paths = "/health" ∷ "/ready" ∷ []

abbrev pub api_paths : List String
api_paths =
    "/" ∷ "/session" ∷ "/metrics" ∷ "/scrape" ∷ "/screenshot" ∷ "/pdf" ∷ "/sessions"
    ∷ "/sessions/view" ∷ "/sessions/{id}" ∷ "/sessions/{id}/cdp" ∷ []

module _ {GovernorConfig HeaderValue : Type 0} where
  -- `Router::layer`.
  abbrev pub layer :
      Layer GovernorConfig HeaderValue
      → List (Route GovernorConfig HeaderValue)
      → List (Route GovernorConfig HeaderValue)
  layer l app =
      map {A = Route GovernorConfig HeaderValue} (λ r. record r { layers = r.layers ++ l ∷ [] }) app

  abbrev pub bare : List String → List (Route GovernorConfig HeaderValue)
  bare paths = map (λ path. record { path = path; layers = [] }) paths

-- `from_str` is `HeaderValue::from_str`.
module _ {HeaderValue : Type 0} (from_str : String → Result HeaderValue String) where
  -- `collect` into a `Result`, with the context of the failure.
  unfoldable pub parse_origins : List String → Result (List HeaderValue) String
  parse_origins [] = ok []
  parse_origins (origin ∷ origins) =
      map_err (λ e. append "invalid EIGER_CORS_ORIGINS origin: " origin) (from_str origin)
      >>= λ value. parse_origins origins >>= λ values. ok (value ∷ values)

  unfoldable pub cors_layer :
      {SocketAddr : Type 0} → AppConfig SocketAddr → Result (CorsLayer HeaderValue) String
  unfolding parse_origins
  cors_layer config = parse_origins config.http.cors_origins >>= λ origins. ok (record {
    origins = origins;
    methods = "GET" ∷ "POST" ∷ "DELETE" ∷ [];
    headers = "authorization" ∷ "content-type" ∷ [];
  })

-- `finish` is that of the governor's builder, at a period in nanoseconds and a burst size.
module _ {GovernorConfig HeaderValue SocketAddr : Type 0} (finish : ℕ → ℕ → Option GovernorConfig)
    (from_str : String → Result HeaderValue String) where
  -- A limit per key, at the rate of the configuration.
  unfoldable pub limiter :
      KeyExtractor → AppConfig SocketAddr → Result (Layer GovernorConfig HeaderValue) String
  unfolding rate_limit_period
  limiter key config =
      ok_or
        (finish (rate_limit_period config.rate_limit.requests_per_second) config.rate_limit.burst)
        "invalid rate limit config"
      >>= λ governor_config. ok (governor key governor_config)

  unfoldable pub add_rate_limit_layers :
      List (Route GovernorConfig HeaderValue)
      → AppConfig SocketAddr
      → Result (List (Route GovernorConfig HeaderValue)) String
  unfolding limiter
  add_rate_limit_layers app config = limiter peer_ip config >>= λ peer_ip_limit.
      let app' = layer peer_ip_limit app in
      if is_some config.auth.token
      then limiter token_key config >>= (λ token_limit. ok (layer token_limit app'))
      else ok app'

  -- The CORS layer, where there are origins.
  unfoldable pub add_cors_layer :
      List (Route GovernorConfig HeaderValue)
      → AppConfig SocketAddr
      → Result (List (Route GovernorConfig HeaderValue)) String
  unfolding cors_layer
  add_cors_layer app config =
      if is_empty config.http.cors_origins
      then ok app
      else cors_layer from_str config >>= (λ l. ok (layer (cors l) app))

  unfoldable pub server_layers :
      AppConfig SocketAddr → Result (List (Route GovernorConfig HeaderValue)) String
  unfolding add_rate_limit_layers add_cors_layer
  server_layers config = add_rate_limit_layers (bare api_paths) config >>= λ api.
      add_cors_layer (bare liveness_paths ++ api) config >>= λ app.
      ok (layer trace (layer (body_limit config.http.request_body_limit_bytes) app))
