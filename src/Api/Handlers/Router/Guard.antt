-- ===== src/Api/Handlers/Router/Guard.antt =====
-- crates/eiger-api/src/lib.rs: what the routes answer to a request that is not authorized.
use eiger.Common.{◌≡◌, refl, false}
use eiger.Serde.{Serde}
use eiger.Pool.Runtime.{Runtime}
use eiger.Pool.State.{SessionPool}
use eiger.Api.Responses.{Response, text, api_error}
use eiger.Api.Handlers.{External, Request, Handler, guarded, is_authorized}
use eiger.Api.Handlers as Handlers
use eiger.Api.Handlers.View.{view_sessions}
use eiger.Api.Handlers.Endpoints as Endpoints
use eiger.Api.Handlers.Connect.{connect_new_session, connect_existing_session}
use eiger.Api.Handlers.Router.{
  Route, connect_new, metrics, scrape, screenshot, pdf, list, create, view, get, delete,
  connect_existing, documentation, rejected, api_router,
}

module _ (rt : Runtime) {J : Serde} {F32 : Type 0} (x : External J F32) where
  denied :
      (r : Request) (handler : Handler rt x) (s : SessionPool rt)
      → is_authorized r ≡ false
      → guarded rt x r handler s ≡ (api_error 401 "unauthorized", s)
  unfolding guarded
  denied r handler s h = rw h refl

  -- The answer to a request that is not authorized.
  abbrev pub denial : Route J.F64 → Response F32
  denial (documentation status content_type body) = record {
    status = status;
    body = text content_type body;
  }
  denial (rejected status content_type body) = record {
    status = status;
    body = text content_type body;
  }
  denial _ = api_error 401 "unauthorized"

  -- A request that is not authorized is answered with the status 401 by every handler of the router, and
  -- the pool of sessions is left as it is. Only the documentation, and a request that axum rejects before
  -- it calls a handler, are answered otherwise, and they leave the pool as it is as well.
  pub api_router-denied :
      (r : Request) (route : Route J.F64) (s : SessionPool rt)
      → is_authorized r ≡ false
      → api_router rt x r route s ≡ (denial route, s)
  unfolding api_router connect_new_session connect_existing_session view_sessions Handlers.metrics
      Handlers.list_sessions Handlers.get_session Handlers.delete_session Handlers.create_session
      Endpoints.scrape Endpoints.screenshot Endpoints.pdf
  api_router-denied r (connect_new env) s h = denied r _ s h
  api_router-denied r metrics s h = denied r _ s h
  api_router-denied r (scrape env payload) s h = denied r _ s h
  api_router-denied r (screenshot env payload) s h = denied r _ s h
  api_router-denied r (pdf env payload) s h = denied r _ s h
  api_router-denied r list s h = denied r _ s h
  api_router-denied r (create env payload) s h = denied r _ s h
  api_router-denied r view s h = denied r _ s h
  api_router-denied r (get id) s h = denied r _ s h
  api_router-denied r (delete answers id) s h = denied r _ s h
  api_router-denied r (connect_existing id) s h = denied r _ s h
  api_router-denied r (documentation status content_type body) s h = refl
  api_router-denied r (rejected status content_type body) s h = refl
