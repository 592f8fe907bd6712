-- ===== src/Tests/Server.antt =====
-- The layers and the rate limits of a configuration.
use eiger.Common.{
  ◌≡◌, refl, ◌<◌, ◌≤◌, ◌*◌, ◌+◌, ℕ, String, true, false, List, [], Option, none, some, Result, ok,
  err, is_some, All, arith,
}
use eiger.Text.{append, is_empty_str, trim}
use eiger.Config.{AppConfig}
use eiger.Server.Main.{Service, Served, main, main-Served}
use eiger.Server.{Route, server_layers}
use eiger.Server.Layers.{IsGuarded, server_layers-IsGuarded}
use eiger.Server.RateLimit.{rate_limit_period, extract}
use eiger.Server.RateLimit.Period.{rate_limit_period-fills}
use eiger.Server.RateLimit.Bypass.{extract-authorized}
use eiger.Api.Auth.{authorized}
use eiger.Tests.Machine.{machine}
use eiger.Tests.Fixture.{config}

abbrev finish : ℕ → ℕ → Option (ℕ × ℕ)
finish period burst = some (period, burst)

abbrev header_value : String → Result String String
header_value s = ok s

abbrev or_none : Result (List (Route (ℕ × ℕ) String)) String → List (Route (ℕ × ℕ) String)
or_none (ok app) = app
or_none (err e) = []

layered :
    server_layers finish header_value config
    ≡ ok (or_none (server_layers finish header_value config))
unfolding server_layers
layered = refl

server_layers-IsGuarded_example :
    All
      (IsGuarded (is_some config.auth.token) config.http.request_body_limit_bytes)
      (or_none (server_layers finish header_value config))
    × All (λ origin. (v : String) × (header_value origin ≡ ok v)) config.http.cors_origins
    × ((c : ℕ × ℕ) × (finish
            (rate_limit_period config.rate_limit.requests_per_second)
            config.rate_limit.burst
          ≡ some c))
server_layers-IsGuarded_example =
    server_layers-IsGuarded finish header_value config
      (or_none (server_layers finish header_value config)) layered

rate_limit_period-fills_example :
    (0 < rate_limit_period 7)
    × (rate_limit_period 7 * 7 ≤ 1_000_000_000)
    × (1_000_000_000 < rate_limit_period 7 * 7 + 7)
rate_limit_period-fills_example = rate_limit_period-fills 7 (omega arith) (omega arith)

abbrev decode : String → Option String
decode s = some s

bogus_there : is_empty_str (trim "bogus") ≡ false
unfolding trim
bogus_there = refl

extract-authorized_example :
    (authorized (some "secret") (some "Bearer bogus") (some "secret") ≡ true)
    × (extract decode (some "Bearer bogus") (some "token=secret") ≡ "bogus")
extract-authorized_example =
    extract-authorized decode "secret" "bogus" (some "token=secret") bogus_there

abbrev bind : String → Result String String
bind addr = ok (append "listening on " addr)

abbrev serve : Service machine String (ℕ × ℕ) String → Result (Unit {0}) String
serve service = ok tt

abbrev nothing_set : String → Option String
nothing_set name = none

runs :
    main machine finish header_value (λ addr. some addr) (λ addr. addr) bind serve nothing_set
    ≡ ok tt
unfolding main
runs = refl

main-Served_example :
    (c : AppConfig String) × (listener : String) × (app : List (Route (ℕ × ℕ) String)) × Served
      machine finish header_value
      (λ addr. some addr)
      (λ addr. addr)
      bind
      serve
      nothing_set
      c
      listener
      app
main-Served_example =
    main-Served machine finish header_value (λ addr. some addr) (λ addr. addr) bind serve
      nothing_set runs
