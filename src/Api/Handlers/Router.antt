-- ===== src/Api/Handlers/Router.antt =====
-- crates/eiger-api/src/lib.rs: `api_router`, which hands a request to its handler.
pub mod Guard
pub mod Reading
use eiger.Common.{ℕ, Bool, true, false, Option, String, List}
use eiger.Serde.{Serde}
use eiger.Browser.Shutdown.{ChildAnswers}
use eiger.Pool.Runtime.{Runtime}
use eiger.Pool.Create.{CreateEnv}
use eiger.Api.Requests.{CreateSessionRequest, ScrapeRequest, ScreenshotRequest, PdfRequest}
use eiger.Api.Responses.{text}
use eiger.Api.Rest.{RestEnv}
use eiger.Api.Handlers.{External, Request, Handler}
use eiger.Api.Handlers as Handlers
use eiger.Api.Handlers.View.{view_sessions}
use eiger.Api.Handlers.Endpoints as Endpoints
use eiger.Api.Handlers.Connect.{connect_new_session, connect_existing_session}

-- A request as the router sees it: a route with what its handler takes from the path and the body, and what happens around the call.
-- `connect_new` is the route of both `/` and `/session`. `documentation` is what `SwaggerUi` answers
-- under `/docs` and `/openapi.json`, and `rejected` what axum answers where the path, the query or the
-- body of a request cannot be read, before the handler is called.
pub data Route (F64 : Type 0) : Type 0 where
  connect_new : CreateEnv → Route F64
  metrics : Route F64
  scrape : RestEnv → ScrapeRequest → Route F64
  screenshot : RestEnv → ScreenshotRequest F64 → Route F64
  pdf : RestEnv → PdfRequest F64 → Route F64
  list : Route F64
  create : CreateEnv → Option CreateSessionRequest → Route F64
  view : Route F64
  get : ℕ → Route F64
  delete : ChildAnswers → ℕ → Route F64
  connect_existing : ℕ → Route F64
  documentation rejected : ℕ → String → String → Route F64

module _ (rt : Runtime) {J : Serde} {F32 : Type 0} (x : External J F32) where
  unfoldable pub api_router : Request → Route J.F64 → Handler rt x
  api_router r (connect_new env) = connect_new_session rt x env r
  api_router r metrics = Handlers.metrics rt x r
  api_router r (scrape env payload) = Endpoints.scrape rt x env r payload
  api_router r (screenshot env payload) = Endpoints.screenshot rt x env r payload
  api_router r (pdf env payload) = Endpoints.pdf rt x env r payload
  api_router r list = Handlers.list_sessions rt x r
  api_router r (create env payload) = Handlers.create_session rt x env r payload
  api_router r view = view_sessions x rt r
  api_router r (get id) = Handlers.get_session rt x r id
  api_router r (delete answers id) = Handlers.delete_session rt x answers r id
  api_router r (connect_existing id) = connect_existing_session rt x r id
  api_router r (documentation status content_type body) =
      λ s. (record { status = status; body = text content_type body }, s)
  api_router r (rejected status content_type body) =
      λ s. (record { status = status; body = text content_type body }, s)
