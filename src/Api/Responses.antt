-- ===== src/Api/Responses.antt =====
-- crates/eiger-api/src/lib.rs: the responses, `api_error`, `pool_error` and `rest_endpoint_error`;
-- crates/eiger-pool/src/lib.rs: the texts of `PoolError`.
use eiger.Common.{ℕ, String, List}
use eiger.Text.{append}
use eiger.Browser.{error_text}
use eiger.Pool.{
  SessionInfo, SessionHandle, PoolReadiness, PoolError, at_capacity, capacity_timeout, not_found,
  not_connectable, persistent_profiles_disabled, invalid_persistent_profile_id, browser,
}
use eiger.Api.Requests.{
  ScrapeResponse, RestEndpointError, bad_request, pool, cdp_web_socket, cdp_protocol, cdp_timeout,
  invalid_cdp_response, decode,
}

pub record CreatedSessionResponse : Type 0 where
  pub id : ℕ
  pub pid : ℕ
  pub cdp_ws_url : String
  pub created_at : ℕ

-- What `Json` or `Body::from` makes the body of, before it is printed. Bytes and texts come with their
-- content type; `upgrade` has the handle that the task behind the WebSocket gets.
pub data Body (F32 : Type 0) : Type 0 where
  failure : String → Body F32
  health : String → Body F32
  readiness : PoolReadiness → Body F32
  created : CreatedSessionResponse → Body F32
  session : SessionInfo F32 → Body F32
  sessions : List (SessionInfo F32) → Body F32
  scraped : ScrapeResponse → Body F32
  text : String → String → Body F32
  bytes : String → List ℕ → Body F32
  no_content : Body F32
  upgrade : SessionHandle → Body F32

pub record Response (F32 : Type 0) : Type 0 where
  pub status : ℕ
  pub body : Body F32

-- `Display for PoolError`, where `show_id` is `Uuid::to_string`.
unfoldable pub pool_error_text : (ℕ → String) → PoolError → String
unfolding error_text
pool_error_text show_id at_capacity = "session pool is at capacity"
pool_error_text show_id capacity_timeout = "timed out waiting for browser capacity"
pool_error_text show_id (not_found id) = append "session not found: " (show_id id)
pool_error_text show_id (not_connectable id) = append "session is not connectable: " (show_id id)
pool_error_text show_id persistent_profiles_disabled =
    "persistent profiles are disabled; set EIGER_PROFILE_STORAGE_DIR"
pool_error_text show_id (invalid_persistent_profile_id id) =
    append "invalid persistent profile id: " id
pool_error_text show_id (browser e) = append "browser launch failed: " (error_text e)

module _ {F32 : Type 0} where
  abbrev pub api_error : ℕ → String → Response F32
  api_error status error = record { status = status; body = failure error }

module _ {F32 : Type 0} (show_id : ℕ → String) where
  unfoldable pub pool_error : PoolError → Response F32
  unfolding pool_error_text
  pool_error at_capacity = api_error 503 (pool_error_text show_id at_capacity)
  pool_error capacity_timeout = api_error 503 (pool_error_text show_id capacity_timeout)
  pool_error persistent_profiles_disabled =
      api_error 400 (pool_error_text show_id persistent_profiles_disabled)
  pool_error (invalid_persistent_profile_id id) =
      api_error 400 (pool_error_text show_id (invalid_persistent_profile_id id))
  pool_error (not_found id) = api_error 404 (pool_error_text show_id (not_found id))
  pool_error (not_connectable id) = api_error 409 (pool_error_text show_id (not_connectable id))
  pool_error (browser e) = api_error 500 (pool_error_text show_id (browser e))

  unfoldable pub rest_endpoint_error : RestEndpointError → Response F32
  unfolding pool_error
  rest_endpoint_error (bad_request error) = api_error 400 error
  rest_endpoint_error (pool error) = pool_error error
  rest_endpoint_error (cdp_timeout method) = api_error 504 (append method " timed out")
  rest_endpoint_error (cdp_web_socket error) = api_error 502 (append "CDP websocket failed: " error)
  rest_endpoint_error (cdp_protocol error) = api_error 502 (append "CDP command failed: " error)
  rest_endpoint_error (invalid_cdp_response error) = api_error 502 error
  rest_endpoint_error (decode error) = api_error 502 (append "CDP base64 decode failed: " error)
