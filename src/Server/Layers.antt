-- ===== src/Server/Layers.antt =====
-- crates/eiger-server/src/main.rs: which layers are around which routes.
use eiger.Common.{
  ◌≡◌, refl, sym, ◌∙◌, ℕ, String, Bool, true, false, ◌&&◌, ◌||◌, List, [], ◌∷◌, ◌++◌, ◌==◌, Option,
  Result, ok, ok_or, subst, bind_ok, ok_injective, is_some, All, All-append, ==_refl, append_assoc,
  Bool-cases, inl, inr, is_empty, map_err, err, some, ap, none,
}
use eiger.Text.{is_one_of}
use eiger.Config.{AppConfig}
use eiger.Server.RateLimit.{rate_limit_period}
use eiger.Server.{
  KeyExtractor, peer_ip, token_key, Layer, governor, cors, body_limit, trace, Route, bare, limiter,
  add_rate_limit_layers, add_cors_layer, parse_origins, cors_layer, server_layers, api_paths,
  liveness_paths,
}

abbrev is_key : KeyExtractor → KeyExtractor → Bool
is_key peer_ip peer_ip = true
is_key token_key token_key = true
is_key peer_ip token_key = false
is_key token_key peer_ip = false

and_false : (b : Bool) → (b && false) ≡ false
and_false true = refl
and_false false = refl

or_with : {a b c : Bool} → a ≡ c → b ≡ false → (a || b) ≡ c
or_with {a = true} {b = b} h g = h
or_with {a = false} {b = b} h g = g ∙ h

and_true : (b : Bool) → (b && true) ≡ b
and_true true = refl
and_true false = refl

module _ {GovernorConfig HeaderValue : Type 0} where
  -- Whether requests are limited per key of this kind.
  abbrev limited : KeyExtractor → List (Layer GovernorConfig HeaderValue) → Bool
  limited key [] = false
  limited key (governor k c ∷ ls) = is_key key k || limited key ls
  limited key (cors c ∷ ls) = limited key ls
  limited key (body_limit n ∷ ls) = limited key ls
  limited key (trace ∷ ls) = limited key ls

  -- Whether bodies are limited to this many bytes.
  abbrev bounded : ℕ → List (Layer GovernorConfig HeaderValue) → Bool
  bounded n [] = false
  bounded n (body_limit m ∷ ls) = m == n || bounded n ls
  bounded n (governor k c ∷ ls) = bounded n ls
  bounded n (cors c ∷ ls) = bounded n ls
  bounded n (trace ∷ ls) = bounded n ls

  -- What is around a route, where `has_token` says whether the service has a token.
  pub record IsGuarded (has_token : Bool) (limit : ℕ) (r : Route GovernorConfig HeaderValue)
      : Type 0 where
    per_ip : limited peer_ip r.layers ≡ is_one_of api_paths r.path
    per_token : limited token_key r.layers ≡ (has_token && is_one_of api_paths r.path)
    body : bounded limit r.layers ≡ true

  limited-append :
      (key : KeyExtractor) (xs ys : List (Layer GovernorConfig HeaderValue))
      → limited key (xs ++ ys) ≡ (limited key xs || limited key ys)
  limited-append key [] ys = refl
  limited-append key (governor k c ∷ xs) ys = elim (Bool-cases (is_key key k)) [
    | inl h ↦ rw h refl
    | inr h ↦ rw h (limited-append key xs ys)
  ]
  limited-append key (cors c ∷ xs) ys = limited-append key xs ys
  limited-append key (body_limit n ∷ xs) ys = limited-append key xs ys
  limited-append key (trace ∷ xs) ys = limited-append key xs ys

  bounded-append :
      (n : ℕ) (xs ys : List (Layer GovernorConfig HeaderValue))
      → bounded n ys ≡ true
      → bounded n (xs ++ ys) ≡ true
  bounded-append n [] ys h = h
  bounded-append n (governor k c ∷ xs) ys h = bounded-append n xs ys h
  bounded-append n (cors c ∷ xs) ys h = bounded-append n xs ys h
  bounded-append n (body_limit m ∷ xs) ys h = elim (Bool-cases (m == n)) [
    | inl g ↦ rw g refl
    | inr g ↦ rw g (bounded-append n xs ys h)
  ]
  bounded-append n (trace ∷ xs) ys h = bounded-append n xs ys h

  -- Routes with the same layers.
  wrapped :
      List (Layer GovernorConfig HeaderValue)
      → List String
      → List (Route GovernorConfig HeaderValue)
  wrapped ls [] = []
  wrapped ls (path ∷ paths) = record { path = path; layers = ls } ∷ wrapped ls paths

  wrapped-IsGuarded :
      (has_token b : Bool) (limit : ℕ) (ls : List (Layer GovernorConfig HeaderValue))
      → (paths : List String) → limited peer_ip ls ≡ b
      → limited token_key ls ≡ (has_token && b)
      → bounded limit ls ≡ true
      → All (λ path. is_one_of api_paths path ≡ b) paths
      → All (IsGuarded has_token limit) (wrapped ls paths)
  unfolding wrapped
  wrapped-IsGuarded has_token b limit ls [] hp ht hb h = tt
  wrapped-IsGuarded has_token b limit ls (path ∷ paths) hp ht hb h =
      let here = h.0 in
      (
        record { per_ip = cc; per_token = cc; body = hb },
        wrapped-IsGuarded has_token b limit ls paths hp ht hb h.1,
      )

  -- The routes of both kinds, where `all` is around all and `own` below it around those of the API.
  both-IsGuarded :
      (has_token : Bool) (limit : ℕ) (all own mine : List (Layer GovernorConfig HeaderValue))
      → mine ≡ own ++ all
      → limited peer_ip all ≡ false
      → limited token_key all ≡ false
      → bounded limit all ≡ true
      → limited peer_ip own ≡ true
      → limited token_key own ≡ has_token
      → All (IsGuarded has_token limit) (wrapped all liveness_paths ++ wrapped mine api_paths)
  both-IsGuarded has_token limit all own mine eq a b c d e =
      All-append _ _ _
        (wrapped-IsGuarded has_token false limit all liveness_paths a
          (b ∙ sym (and_false has_token)) c (refl, (refl, tt)))
        (wrapped-IsGuarded has_token true limit mine api_paths
          (rw eq (limited-append peer_ip own all ∙ or_with d a))
          (rw eq (limited-append token_key own all ∙ or_with e b ∙ sym (and_true has_token)))
          (rw eq (bounded-append limit own all c))
          (refl, (refl, (refl, (refl, (refl, (refl, (refl, (refl, (refl, (refl, tt)))))))))))

map_err_ok : {A E F : Type 0} (f : E → F) (r : Result A E) {a : A} → map_err f r ≡ ok a → r ≡ ok a
map_err_ok f (ok b) e = cc
map_err_ok f (err x) e = absurd cc

ok_or-some : {A E : Type 0} (o : Option A) (x : E) {a : A} → ok_or o x ≡ ok a → o ≡ some a
ok_or-some none x e = absurd cc
ok_or-some (some b) x e = ap some (ok_injective e)

module _ {HeaderValue : Type 0} (from_str : String → Result HeaderValue String) where
  -- The text is a value of a header.
  abbrev pub Parses : String → Type 0
  Parses origin = (v : HeaderValue) × (from_str origin ≡ ok v)

  all_of_none : (origins : List String) → is_empty origins ≡ true → All Parses origins
  all_of_none [] e = tt
  all_of_none (origin ∷ origins) e = absurd cc

  parse_origins_ok :
      (origins : List String) {values : List HeaderValue}
      → parse_origins from_str origins ≡ ok values
      → All Parses origins
  unfolding parse_origins
  parse_origins_ok [] e = tt
  parse_origins_ok (origin ∷ origins) e = bind_ok (map_err _ (from_str origin)) _ e λ v parsed rest.
      bind_ok (parse_origins from_str origins) _ rest
        λ vs more last. ((v, map_err_ok _ (from_str origin) parsed), parse_origins_ok origins more)

module _ {GovernorConfig HeaderValue SocketAddr : Type 0} (finish : ℕ → ℕ → Option GovernorConfig)
    (from_str : String → Result HeaderValue String) where
  limiter_ok :
      (key : KeyExtractor) (config : AppConfig SocketAddr)
      → {l : Layer GovernorConfig HeaderValue} → limiter finish from_str key config ≡ ok l
      → (c : GovernorConfig) × (governor key c ≡ l)
  unfolding limiter
  limiter_ok key config e =
      bind_ok (ok_or (finish _ _) "invalid rate limit config") _ e
        λ c made rest. (c, ok_injective rest)

  -- The API with its limits: the same layers around each route.
  limited_api :
      {P : Type 0} (config : AppConfig SocketAddr) {api : List (Route GovernorConfig HeaderValue)}
      → add_rate_limit_layers finish from_str (bare api_paths) config ≡ ok api
      → ((own : List (Layer GovernorConfig HeaderValue))
          → limited peer_ip own ≡ true
          → limited token_key own ≡ is_some config.auth.token
          → wrapped own api_paths ≡ api
          → P)
      → P
  unfolding add_rate_limit_layers wrapped
  limited_api config e k = bind_ok (limiter finish from_str peer_ip config) _ e λ l found rest.
      let (c, first) = limiter_ok peer_ip config found in
      elim (Bool-cases (is_some config.auth.token)) [
        | inl h ↦
            bind_ok (limiter finish from_str token_key config) _ (rw h at rest)
              λ m found_token last.
                let (d, second) = limiter_ok token_key config found_token in
                k (governor peer_ip c ∷ governor token_key d ∷ []) refl (rw h refl)
                  (let x = ok_injective last in rw (first, second) x)
        | inr h ↦
            k (governor peer_ip c ∷ []) refl (rw h refl)
              (let x = ok_injective (rw h at rest) in rw first x)
      ]

  server_layers_guarded :
      (config : AppConfig SocketAddr) (app : List (Route GovernorConfig HeaderValue))
      → server_layers finish from_str config ≡ ok app
      → All (IsGuarded (is_some config.auth.token) config.http.request_body_limit_bytes) app
  unfolding server_layers add_cors_layer wrapped
  server_layers_guarded config app e =
      let n = config.http.request_body_limit_bytes in
      let bound = ==_refl n in
      bind_ok (add_rate_limit_layers finish from_str (bare api_paths) config) _ e λ api found rest.
        limited_api config found λ own per_ip per_token same.
          bind_ok (add_cors_layer finish from_str (bare liveness_paths ++ api) config) _ rest
            λ app' corsed last. elim (Bool-cases (is_empty config.http.cors_origins)) [
              | inl h ↦
                  let start = ok_injective (rw h at corsed) in
                  subst (All (IsGuarded _ n)) (ok_injective last) (
                    rw (← start, ← same)
                      (both-IsGuarded _ n (body_limit n ∷ trace ∷ []) own _
                        (append_assoc own (body_limit n ∷ []) (trace ∷ [])) refl refl
                        (rw bound refl) per_ip per_token))
              | inr h ↦ bind_ok (cors_layer from_str config) _ (rw h at corsed) λ c parsed done.
                  let start = ok_injective done in
                  subst (All (IsGuarded _ n)) (ok_injective last) (
                    rw (← start, ← same)
                      (both-IsGuarded _ n (cors c ∷ body_limit n ∷ trace ∷ []) own _
                        (append_assoc (own ++ cors c ∷ []) (body_limit n ∷ []) (trace ∷ [])
                          ∙ append_assoc own (cors c ∷ []) (body_limit n ∷ trace ∷ []))
                        refl refl (rw bound refl) per_ip per_token))
            ]

  parsed_where_any :
      (app out : List (Route GovernorConfig HeaderValue)) (config : AppConfig SocketAddr)
      → add_cors_layer finish from_str app config ≡ ok out
      → All (Parses from_str) config.http.cors_origins
  unfolding add_cors_layer cors_layer
  parsed_where_any app out config e = elim (Bool-cases (is_empty config.http.cors_origins)) [
    | inl h ↦ all_of_none from_str config.http.cors_origins h
    | inr h ↦ bind_ok (cors_layer from_str config) _ (rw h at e) λ c made rest.
        bind_ok (parse_origins from_str config.http.cors_origins) _ made
          λ vs parsed last. parse_origins_ok from_str config.http.cors_origins parsed
  ]

  -- Where the server answers an application, each origin of the configuration parses and the limits can
  -- be made from its rate and burst. The routes of the API, and only they, are limited per IP address,
  -- and per token where the service has one; and the bodies of requests to all routes are bounded by the
  -- limit of the configuration.
  pub server_layers-IsGuarded :
      (config : AppConfig SocketAddr) (app : List (Route GovernorConfig HeaderValue))
      → server_layers finish from_str config ≡ ok app
      → All (IsGuarded (is_some config.auth.token) config.http.request_body_limit_bytes) app
        × All (Parses from_str) config.http.cors_origins
        × ((c : GovernorConfig) × (finish
                (rate_limit_period config.rate_limit.requests_per_second)
                config.rate_limit.burst
              ≡ some c))
  unfolding server_layers add_rate_limit_layers limiter
  server_layers-IsGuarded config app e =
      bind_ok (add_rate_limit_layers finish from_str (bare api_paths) config) _ e λ api found rest.
        bind_ok (add_cors_layer finish from_str (bare liveness_paths ++ api) config) _ rest
          λ app' corsed last.
            bind_ok (limiter finish from_str peer_ip config) _ found λ l made more.
              bind_ok (ok_or (finish _ _) "invalid rate limit config") _ made λ c built done. (
                server_layers_guarded config app e,
                parsed_where_any _ app' config corsed,
                (c, ok_or-some (finish _ _) _ built),
              )
