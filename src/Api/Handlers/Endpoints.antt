-- ===== src/Api/Handlers/Endpoints.antt =====
-- crates/eiger-api/src/lib.rs: the handlers `scrape`, `screenshot` and `pdf`.
use eiger.Common.{ℕ, String, false, Result, ok, err, unwrap_or}
use eiger.Serde.{Serde}
use eiger.Pool.{SessionOverrides}
use eiger.Pool.Runtime.{Runtime}
use eiger.Pool.State.{SessionPool}
use eiger.Api.Requests.{
  ScrapeRequest, ScreenshotRequest, PdfRequest, ScreenshotCapture, RestEndpointError,
}
use eiger.Api.Responses.{Response, scraped, bytes, rest_endpoint_error}
use eiger.Api.ScreenshotFormat as ScreenshotFormat
use eiger.Api.Options.{page_load_options, pdf_print_options}
use eiger.Api.Overrides.{rest_session_overrides}
use eiger.Api.Rest.{
  RestEnv, with_rest_session, scrape_with_session, screenshot_with_session, pdf_with_session,
}
use eiger.Api.Handlers.{External, Request, Handler, guarded, with_overrides}

module _ (rt : Runtime) {J : Serde} {F32 : Type 0} (x : External J F32) where
  -- An argument of the request, or the answer where it is not valid.
  unfoldable pub checked {ℓ} :
      {A : Type ℓ} → Result A RestEndpointError → (A → Handler rt x) → Handler rt x
  checked (err e) handler s = (rest_endpoint_error x.show_id e, s)
  checked (ok a) handler s = handler a s

  -- The answer to what an operation ended with.
  unfoldable pub answered {ℓ} :
      {T : Type ℓ}
      → (T → Response F32)
      → Result T RestEndpointError × SessionPool rt
      → Response F32 × SessionPool rt
  answered f (ok a, s) = (f a, s)
  answered f (err e, s) = (rest_endpoint_error x.show_id e, s)

  -- The operation in a session of its own, with the overrides of the request.
  unfoldable pub in_session :
      {T : Type 0}
      → RestEnv
      → (T → Response F32)
      → (String → Result T RestEndpointError)
      → Result SessionOverrides String
      → Handler rt x
  in_session env f operation overrides =
      with_overrides rt x overrides λ v s. answered f (with_rest_session rt env operation v s)

  unfoldable pub scrape : RestEnv → Request → ScrapeRequest → Handler rt x
  scrape env r payload =
      let overrides =
        rest_session_overrides J x.from_value r.query payload.proxy payload.extension_paths
          payload.persistent_profile_id in
      guarded rt x r (
        checked (page_load_options payload.url payload.wait_until payload.timeout_ms) λ options.
          in_session env (λ page. record { status = 200; body = scraped page })
            (scrape_with_session J x.connect options) overrides)

  unfoldable pub screenshot : RestEnv → Request → ScreenshotRequest J.F64 → Handler rt x
  screenshot env r payload =
      let overrides =
        rest_session_overrides J x.from_value r.query payload.proxy payload.extension_paths
          payload.persistent_profile_id in
      let full_page = unwrap_or payload.full_page false in
      let capture : ScreenshotCapture J.F64 = record {
        quality = payload.quality;
        omit_background = unwrap_or payload.omit_background false;
        selector = payload.selector;
        clip = payload.clip;
      } in
      guarded rt x r (
        checked (page_load_options payload.url payload.wait_until payload.timeout_ms) λ options.
          checked (ScreenshotFormat.parse payload.format) λ format.
            in_session env
              (λ image. record {
                status = 200;
                body = bytes (ScreenshotFormat.content_type format) image;
              })
              (screenshot_with_session J x.connect x.decode_base64 options format full_page capture)
              overrides)

  unfoldable pub pdf : RestEnv → Request → PdfRequest J.F64 → Handler rt x
  pdf env r payload =
      let overrides =
        rest_session_overrides J x.from_value r.query payload.proxy payload.extension_paths
          payload.persistent_profile_id in
      let viewport : ℕ × ℕ = (unwrap_or payload.width 1365, unwrap_or payload.height 768) in
      guarded rt x r (
        checked (page_load_options payload.url payload.wait_until payload.timeout_ms) λ options.
          checked (pdf_print_options J payload viewport) λ print_options.
            in_session env (λ file. record { status = 200; body = bytes "application/pdf" file })
              (pdf_with_session J x.connect x.decode_base64 options print_options viewport)
              overrides)
