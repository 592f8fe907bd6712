-- ===== src/Api/Handlers/Connect.antt =====
-- crates/eiger-api/src/lib.rs: `connect_new_session` and `connect_existing_session`, and around the
-- WebSocket `proxy_and_recycle`.
use eiger.Common.{ℕ, none, Result, ok, err}
use eiger.Serde.{Serde}
use eiger.Browser.Shutdown.{ChildAnswers}
use eiger.Pool.{SessionHandle, PoolError}
use eiger.Pool.Runtime.{Runtime}
use eiger.Pool.State.{SessionPool, drop_arc}
use eiger.Pool.Create.{CreateEnv}
use eiger.Pool.Create as Create
use eiger.Pool.Sessions.{connect_session, mark_in_use}
use eiger.Pool.Shutdown.{terminate_session}
use eiger.Api.Responses.{Response, upgrade, pool_error}
use eiger.Api.Overrides.{session_overrides}
use eiger.Api.Rest.{handle_id}
use eiger.Api.Handlers.{External, Request, Handler, guarded, with_overrides}

module _ (rt : Runtime) {J : Serde} {F32 : Type 0} (x : External J F32) where
  -- The upgrade moves the handle into the task behind the WebSocket.
  abbrev upgraded : Result SessionHandle PoolError × SessionPool rt → Response F32 × SessionPool rt
  upgraded (ok handle, s) = (record { status = 101; body = upgrade handle }, s)
  upgraded (err e, s) = (pool_error x.show_id e, s)

  unfoldable pub connect_new_session : CreateEnv → Request → Handler rt x
  connect_new_session env r = guarded rt x r (
      with_overrides rt x (session_overrides J x.from_value r.query none)
        λ v s. upgraded (Create.create_session rt env v s))

  unfoldable pub connect_existing_session : Request → ℕ → Handler rt x
  connect_existing_session r id =
      guarded rt x r λ s. upgraded (connect_session rt r.now r.instant id s)

module _ (rt : Runtime) where
  -- Up to the wait for the proxy, and after it, however it ended. The handle is dropped last.
  unfoldable pub proxy_started : ℕ → ℕ → SessionHandle → SessionPool rt → SessionPool rt
  proxy_started now instant handle s = mark_in_use rt now instant handle s

  unfoldable pub proxy_ended : ℕ → ChildAnswers → SessionHandle → SessionPool rt → SessionPool rt
  proxy_ended id answers handle s =
      drop_arc rt handle.entry (terminate_session rt id "cdp websocket disconnected" answers s).1

  -- `proxy_and_recycle` with no other call of the pool in between.
  unfoldable pub proxy_and_recycle :
      ℕ → ℕ → ChildAnswers → SessionHandle → SessionPool rt → SessionPool rt
  proxy_and_recycle now instant answers handle s =
      proxy_ended (handle_id rt handle s) answers handle (proxy_started now instant handle s)
