-- ===== src/Api/Rest.antt =====
-- crates/eiger-api/src/lib.rs: `with_rest_session`, which runs one REST request in a session of its own,
-- and the operations of `scrape`, `screenshot` and `pdf`.
pub mod Cleanup
use eiger.Common.{
  ℕ, String, Bool, List, Option, none, some, Result, ok, err, ◌>>=◌, option_map, unwrap_or,
}
use eiger.Common.Exec.{result}
use eiger.Serde.{Serde}
use eiger.Socket.{Socket}
use eiger.Browser.Shutdown.{ChildAnswers}
use eiger.Pool.{SessionOverrides, SessionEntry, SessionHandle, PoolError}
use eiger.Pool.Runtime.{Runtime}
use eiger.Pool.State.{SessionPool, drop_arc}
use eiger.Pool.Create.{CreateEnv, create_session}
use eiger.Pool.Sessions.{entry_at, mark_in_use}
use eiger.Pool.Shutdown.{terminate_session}
use eiger.Api.Requests.{
  ScreenshotFormat, PageLoadOptions, ScrapeResponse, ScreenshotCapture, RestEndpointError, pool,
}
use eiger.Api.Cdp.{Cdp}
use eiger.Api.Pages.{open_connection, scrape_page, capture_page, print_page}

-- What happens around a request: the creation, the time of the first use, the end of the browser.
pub record RestEnv : Type 0 where
  pub create : CreateEnv
  pub now : ℕ
  pub instant : ℕ
  pub answers : ChildAnswers

module _ (rt : Runtime) where
  -- `handle.id()` and `handle.browser_ws_url()`: the entry of a handle is there.
  abbrev pub entry_of {ℓ} :
      {A : Type ℓ} → (SessionEntry → A) → A → SessionHandle → SessionPool rt → A
  entry_of f missing h s = unwrap_or (option_map f (entry_at rt s h.entry)) missing

  abbrev pub handle_id : SessionHandle → SessionPool rt → ℕ
  handle_id = entry_of (λ e. e.id) 0

  abbrev pub browser_ws_url : SessionHandle → SessionPool rt → String
  browser_ws_url = entry_of (λ e. e.browser_ws_url) ""

  module _ {T : Type 0} (env : RestEnv) (operation : String → Result T RestEndpointError) where
    -- With the handle, which the operation drops when it ends.
    unfoldable pub run_rest_session :
        SessionHandle → SessionPool rt → Result T RestEndpointError × SessionPool rt
    unfolding mark_in_use terminate_session drop_arc
    run_rest_session handle s =
        let id = handle_id handle s in
        let s₁ = mark_in_use rt env.now env.instant handle s in
        let s₂ = drop_arc rt handle.entry s₁ in
        (
          operation (browser_ws_url handle s₁),
          (terminate_session rt id "rest endpoint completed" env.answers s₂).1,
        )

    abbrev after_creation :
        Result SessionHandle PoolError × SessionPool rt
        → Result T RestEndpointError × SessionPool rt
    after_creation (err e, s) = (err (pool e), s)
    after_creation (ok handle, s) = run_rest_session handle s

    unfoldable pub with_rest_session :
        SessionOverrides → SessionPool rt → Result T RestEndpointError × SessionPool rt
    unfolding run_rest_session create_session
    with_rest_session overrides s = after_creation (create_session rt env.create overrides s)

-- The operations. `connect` is `connect_async`, `decode_base64` the decoder of the base64 crate.
module _ (J : Serde) (connect : String → Result Socket String) where
  -- A connection for one operation.
  unfoldable pub with_connection : {T : Type 0} → Cdp T → String → Result T RestEndpointError
  unfolding open_connection
  with_connection program ws_url = open_connection connect ws_url >>= λ c. result (program c)

  unfoldable pub scrape_with_session :
      PageLoadOptions → String → Result ScrapeResponse RestEndpointError
  unfolding with_connection
  scrape_with_session options = with_connection (scrape_page J options)

  module _ (decode_base64 : String → Result (List ℕ) String) where
    unfoldable pub screenshot_with_session :
        PageLoadOptions
        → ScreenshotFormat
        → Bool
        → ScreenshotCapture J.F64
        → String
        → Result (List ℕ) RestEndpointError
    unfolding with_connection
    screenshot_with_session options format full_page capture =
        with_connection (capture_page J decode_base64 options format full_page capture)

    unfoldable pub pdf_with_session :
        PageLoadOptions → J.Value → ℕ × ℕ → String → Result (List ℕ) RestEndpointError
    unfolding with_connection
    pdf_with_session options print_options viewport =
        with_connection (print_page J decode_base64 options print_options viewport)
