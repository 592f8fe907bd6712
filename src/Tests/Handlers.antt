-- ===== src/Tests/Handlers.antt =====
-- Requests to the handlers, on the pool with one session.
use eiger.Common.{◌≡◌, refl, ℕ, false, [], none, some, ok, err}
use eiger.Pool.State.{from_config}
use eiger.Pool.Create.{create_session}
use eiger.Api.Requests.{ScrapeRequest}
use eiger.Api.Responses.{api_error}
use eiger.Api.Rest.{RestEnv}
use eiger.Api.Rest.Cleanup.{IsRestored}
use eiger.Api.Handlers.{External, Request, is_authorized}
use eiger.Api.Handlers.Router.{create, scrape, api_router}
use eiger.Api.Handlers.Router.Guard.{api_router-denied}
use eiger.Api.Handlers.Router.Reading.{api_router-IsRestored}
use eiger.Tests.Machine.{machine}
use eiger.Tests.Fixture.{launches, one, stubborn}
use eiger.Tests.Json.{json}
use eiger.Tests.Requests.{table, from_value, query}

abbrev external : External (json table) ℕ
external = record {
  show_id = λ id. "id";
  encode = λ s. s;
  from_value = from_value;
  sample = λ pid. none;
  show_f32 = λ f. "0";
  show_f32_short = λ f. "0.0";
  connect = λ url. err "connection refused";
  decode_base64 = λ s. ok [];
  fetch = λ url. none;
}

abbrev stranger : Request
stranger = record {
  token = some "other";
  headers = record { authorization = some "Bearer wrong"; host = none; x_forwarded_proto = none };
  query = query;
  now = 100;
  instant = 100;
}

abbrev guest : Request
guest = record stranger { token = some "secret" }

not_authorized : is_authorized stranger ≡ false
unfolding is_authorized
not_authorized = refl

api_router-denied_example :
    api_router machine external stranger (create (launches 9) none) one
    ≡ (api_error 401 "unauthorized", one)
api_router-denied_example =
    api_router-denied machine external stranger (create (launches 9) none) one not_authorized

abbrev env : RestEnv
env = record { create = launches 9; now = 100; instant = 100; answers = stubborn }

abbrev payload : ScrapeRequest
payload = record {
  url = "http://a";
  wait_until = none;
  timeout_ms = none;
  proxy = none;
  extension_paths = none;
  persistent_profile_id = none;
}

fresh : machine.get one.sessions 9 ≡ none
unfolding create_session from_config
fresh = refl

api_router-IsRestored_example :
    IsRestored machine one (api_router machine external guest (scrape env payload) one).1
api_router-IsRestored_example =
    api_router-IsRestored machine external guest (scrape env payload) one fresh
