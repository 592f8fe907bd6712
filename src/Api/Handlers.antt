-- ===== src/Api/Handlers.antt =====
-- crates/eiger-api/src/lib.rs: the handlers of the session endpoints and of the two liveness routes. A
-- handler is a function of the session pool; what happens around a call is an argument.
pub mod View
pub mod Endpoints
pub mod Connect
pub mod Router
use eiger.Common.{
  ℕ, String, Bool, true, false, List, Option, none, some, Result, ok, err, option_map, unwrap_or,
  if◌then◌else◌,
}
use eiger.Serde.{Serde}
use eiger.Socket.{Socket}
use eiger.Metrics.{ProcessSample}
use eiger.Metrics.Prometheus.{render_prometheus}
use eiger.Browser.Shutdown.{ChildAnswers}
use eiger.Pool.{SessionOverrides, SessionHandle, PoolError}
use eiger.Pool.Runtime.{Runtime}
use eiger.Pool.State.{SessionPool, drop_arc}
use eiger.Pool.Create.{CreateEnv}
use eiger.Pool.Create as Create
use eiger.Pool.Sessions as Sessions
use eiger.Pool.Shutdown.{terminate_session}
use eiger.Api.Requests.{SessionQuery, CreateSessionRequest, LaunchQuery}
use eiger.Api.Responses.{
  Response, readiness, health, created, session, sessions, text, no_content, api_error, pool_error,
}
use eiger.Api.Auth.{authorized, request_token}
use eiger.Api.Overrides.{session_overrides}
use eiger.Api.Links.{Headers, CdpTargetDescriptor, cdp_ws_url}
use eiger.Api.Rest.{entry_of, handle_id}

-- What the handlers call outside of the repository: `Uuid::to_string`, `urlencoding::encode`, the
-- reader of a launch query, the sampler of a process tree, the prints of an `f32` in full and to one
-- place, `connect_async`, the base64 decoder, and the list of the targets of a browser.
pub record External (J : Serde) (F32 : Type 0) : Type 0 where
  pub show_id : ℕ → String
  pub encode : String → String
  pub from_value : J.Value → Result LaunchQuery String
  pub sample : ℕ → Option (ProcessSample F32)
  pub show_f32 : F32 → String
  pub show_f32_short : F32 → String
  pub connect : String → Result Socket String
  pub decode_base64 : String → Result (List ℕ) String
  pub fetch : String → Option (List CdpTargetDescriptor)

-- A request: the token of the service, the headers and the query, and the time of the call.
pub record Request : Type 0 where
  pub token : Option String
  pub headers : Headers
  pub query : SessionQuery
  pub now : ℕ
  pub instant : ℕ

-- `authorized(&state, &headers, query.token.as_deref())`.
unfoldable pub is_authorized : Request → Bool
unfolding authorized
is_authorized r = authorized r.token r.headers.authorization r.query.token

module _ (rt : Runtime) {J : Serde} {F32 : Type 0} (x : External J F32) where
  -- An answer and the pool after it.
  abbrev pub Handler : Type 0
  Handler = SessionPool rt → Response F32 × SessionPool rt

  -- The guard at the start of each handler of the API.
  unfoldable pub guarded : Request → Handler → Handler
  guarded r handler s = if is_authorized r then handler s else (api_error 401 "unauthorized", s)

  unfoldable pub ready : Handler
  ready s =
      let state = Sessions.readiness rt s in
      (
        record { status = if state.can_accept_sessions then 200 else 503; body = readiness state },
        s,
      )

  -- The response to a creation that succeeded. The handle is dropped at the end.
  abbrev created_response : Request → SessionHandle → SessionPool rt → Response F32
  created_response r handle s =
      let id = handle_id rt handle s in
      let token = request_token r.headers.authorization r.query.token in
      record {
        status = 201;
        body = created (record {
          id = id;
          pid = entry_of rt (λ e. e.pid) 0 handle s;
          cdp_ws_url = cdp_ws_url x.show_id x.encode r.headers id token;
          created_at =
              unwrap_or
                (option_map (λ i. i.created_at) (Sessions.get_session rt x.sample r.instant id s))
                r.now;
        });
      }

  abbrev after_create :
      Request → Result SessionHandle PoolError × SessionPool rt → Response F32 × SessionPool rt
  after_create r (err e, s) = (pool_error x.show_id e, s)
  after_create r (ok handle, s) = (created_response r handle s, drop_arc rt handle.entry s)

  -- The overrides of a request, or the answer where there are none.
  unfoldable pub with_overrides :
      Result SessionOverrides String → (SessionOverrides → Handler) → Handler
  with_overrides (err e) handler s = (api_error 400 e, s)
  with_overrides (ok v) handler s = handler v s

  unfoldable pub create_session : CreateEnv → Request → Option CreateSessionRequest → Handler
  create_session env r payload = guarded r (
      with_overrides (session_overrides J x.from_value r.query payload)
        (λ v s. after_create r (Create.create_session rt env v s)))

  unfoldable pub list_sessions : Request → Handler
  list_sessions r = guarded r λ s.
      (record { status = 200; body = sessions (Sessions.list_sessions rt x.sample r.instant s) }, s)

  unfoldable pub get_session : Request → ℕ → Handler
  get_session r id = guarded r λ s. (
    elim (Sessions.get_session rt x.sample r.instant id s) [
      | some i ↦ record { status = 200; body = session i }
      | none ↦ api_error 404 "session not found"
    ],
    s,
  )

  unfoldable pub delete_session : ChildAnswers → Request → ℕ → Handler
  delete_session answers r id = guarded r λ s.
      let (there, s') = terminate_session rt id "delete requested" answers s in
      (
        if there
            then record { status = 204; body = no_content }
            else api_error 404 "session not found",
        s',
      )

  unfoldable pub metrics : Request → Handler
  metrics r = guarded r λ s. (
    record {
      status = 200;
      body =
          text "text/plain; version=0.0.4"
            (render_prometheus x.show_f32 (Sessions.metrics rt x.sample r.instant x.show_id s));
    },
    s,
  )

-- `health` has no state.
unfoldable pub health_response : {F32 : Type 0} → Response F32
health_response = record { status = 200; body = health "ok" }
