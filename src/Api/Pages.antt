-- ===== src/Api/Pages.antt =====
-- crates/eiger-api/src/lib.rs: what the REST endpoints do with a page: `navigate_page`, the viewports,
-- `scrape_with_session`, `screenshot_with_session` and `pdf_with_session`. How long a command waits is
-- in the deadlines of what comes in.
pub mod Numbering
pub mod Arrival
use eiger.Common.{
  ℕ, ◌-◌, ◌^◌, String, Bool, true, false, List, [], ◌∷◌, Option, none, some, Result, ok, err,
  and_then, or_else, ok_or, option_map, map_err, unwrap_or, leb, if◌then◌else◌,
}
use eiger.Common.Exec.{Outcome, done, failed, ◌>>=◌, ◌>>◌, give, raise, lift}
use eiger.Text.{append}
use eiger.Serde.{Serde}
use eiger.Socket.{Socket}
use eiger.Api.Requests.{
  ClipRegion, ScreenshotFormat, png, jpeg, PageLoadOptions, ScrapeResponse, ScreenshotCapture,
  RestEndpointError, bad_request, cdp_web_socket, cdp_protocol, invalid_cdp_response, decode,
}
use eiger.Api.ScreenshotFormat.{cdp_name}
use eiger.Api.Options.{put}
use eiger.Api.Cdp.{CdpConnection, Cdp, str_at, command, wait_for_lifecycle, prepare_page_target}

-- `u64::min(u32::MAX)`.
abbrev min_u32 : ℕ → ℕ
min_u32 n = if leb n 0xffff_ffff then n else 0xffff_ffff

-- `CdpConnection::connect`, where `connect` is `connect_async`.
unfoldable pub open_connection :
    (String → Result Socket String) → String → Result CdpConnection RestEndpointError
open_connection connect ws_url = elim (connect ws_url) [
  | ok socket ↦ ok (record { socket = socket; next_id = 1; lifecycle_events = [] })
  | err e ↦ err (cdp_web_socket e)
]

unfoldable pub clear_events : Cdp (Unit {0})
clear_events c = done tt (record c { lifecycle_events = [] })

module _ (J : Serde) where
  -- After the navigation, whose answer may have an error.
  abbrev pub after_navigation : String → PageLoadOptions → Option String → Cdp (Unit {0})
  after_navigation session_id options (some error) =
      raise (cdp_protocol (append "Page.navigate failed: " error))
  after_navigation session_id options none = wait_for_lifecycle J session_id options.wait_until

  unfoldable pub navigate_page : String → PageLoadOptions → Cdp (Unit {0})
  navigate_page session_id options = do
    cleared ← clear_events
    result ←
        command J (some session_id) "Page.navigate" (J.object (("url", J.string options.url) ∷ []))
    after_navigation session_id options (str_at J result "errorText")

  unfoldable pub set_viewport : String → ℕ → ℕ → Cdp (Unit {0})
  set_viewport session_id width height = do
    result ← command J (some session_id) "Emulation.setDeviceMetricsOverride" (
        J.object (
          ("mobile", J.bool false)
          ∷ ("width", J.number width)
          ∷ ("height", J.number height)
          ∷ ("deviceScaleFactor", J.number 1)
          ∷ ("screenWidth", J.number width)
          ∷ ("screenHeight", J.number height)
          ∷ []))
    give tt

  unfoldable pub positive_dimension : Option J.Value → String → Result ℕ RestEndpointError
  positive_dimension value name = elim (and_then value J.as_f64) [
    | none ↦ err (invalid_cdp_response (append "Page.getLayoutMetrics missing numeric " name))
    | some x ↦ ok (J.as_integer (J.max (J.ceil x) (J.literal 10 1)))
  ]

  unfoldable pub set_full_page_viewport : String → Cdp (Unit {0})
  set_full_page_viewport session_id = do
    metrics ← command J (some session_id) "Page.getLayoutMetrics" (J.object [])
    size ← lift (
        ok_or (or_else (J.get metrics "cssContentSize") (J.get metrics "contentSize"))
          (invalid_cdp_response "Page.getLayoutMetrics missing content size"))
    width ← lift (positive_dimension (J.get size "width") "width")
    height ← lift (positive_dimension (J.get size "height") "height")
    set_viewport session_id (min_u32 width) (min_u32 height)

  -- `result.get("result").and_then(|result| result.get("value"))`.
  abbrev pub evaluated : J.Value → Option J.Value
  evaluated result = and_then (J.get result "result") (λ r. J.get r "value")

  abbrev text_at : J.Value → String → String
  text_at value key = unwrap_or (str_at J value key) ""

  unfoldable pub scrape_page : PageLoadOptions → Cdp ScrapeResponse
  scrape_page options = do
    session_id ← prepare_page_target J
    arrived ← navigate_page session_id options
    result ← command J (some session_id) "Runtime.evaluate" (
        J.object (
          (
            "expression",
            J.string
                "(() => ({ html: document.documentElement ? document.documentElement.outerHTML : \"\", title: document.title, url: location.href }))()",
          )
          ∷ ("returnByValue", J.bool true)
          ∷ []))
    value ←
        lift
          (ok_or (evaluated result) (invalid_cdp_response "Runtime.evaluate missing result.value"))
    give (record {
      html = text_at value "html";
      title = text_at value "title";
      url = text_at value "url";
    })

  abbrev pub number_at : J.Value → String → J.F64
  number_at value key = unwrap_or (and_then (J.get value key) J.as_f64) (J.literal 0 1)

  -- The region of the element that a script found; a script that found none answers `null`.
  unfoldable pub clip_of : String → Option J.Value → Result (ClipRegion J.F64) RestEndpointError
  clip_of selector none = err (bad_request (append "selector not found: " selector))
  clip_of selector (some value) =
      if J.is_null value
      then err (bad_request (append "selector not found: " selector))
      else ok (record {
        x = number_at value "x";
        y = number_at value "y";
        width = number_at value "width";
        height = number_at value "height";
        scale = none;
      })

  unfoldable pub resolve_selector_clip : String → String → Cdp (ClipRegion J.F64)
  resolve_selector_clip session_id selector = do
    result ← command J (some session_id) "Runtime.evaluate" (
        J.object (
          (
            "expression",
            J.string (
                append "(() => { const el = document.querySelector(" (
                  append (J.value_text (J.string selector))
                    "); if (!el) return null; const r = el.getBoundingClientRect(); return { x: r.x, y: r.y, width: r.width, height: r.height }; })()")),
          )
          ∷ ("returnByValue", J.bool true)
          ∷ []))
    lift (clip_of selector (evaluated result))

  abbrev full_viewport : Bool → String → Cdp (Unit {0})
  full_viewport true session_id = set_full_page_viewport session_id
  full_viewport false session_id = give tt

  -- The background, where it is to be left out.
  abbrev clear_background : Bool → String → Cdp (Unit {0})
  clear_background true session_id = do
    result ← command J (some session_id) "Emulation.setDefaultBackgroundColorOverride" (
        J.object (
          (
            "color",
            J.object (
                ("r", J.number 0) ∷ ("g", J.number 0) ∷ ("b", J.number 0) ∷ ("a", J.number 0) ∷ []),
          )
          ∷ []))
    give tt
  clear_background false session_id = give tt

  abbrev clip_for :
      Option String → Option (ClipRegion J.F64) → String → Cdp (Option (ClipRegion J.F64))
  clip_for none clip session_id = give clip
  clip_for (some selector) clip session_id = do
    region ← resolve_selector_clip session_id selector
    give (some region)

  -- `decode_base64` is the decoder of the base64 crate, with the text of its error.
  module _ (decode_base64 : String → Result (List ℕ) String) where
    abbrev decoded : Option String → Result (List ℕ) RestEndpointError
    decoded none = err (invalid_cdp_response "CDP result missing data")
    decoded (some data_text) = map_err decode (decode_base64 data_text)

    unfoldable pub decode_cdp_data : J.Value → Result (List ℕ) RestEndpointError
    decode_cdp_data result = decoded (str_at J result "data")

    abbrev clip_value : ClipRegion J.F64 → J.Value
    clip_value clip = J.object (
        ("x", J.float clip.x)
        ∷ ("y", J.float clip.y)
        ∷ ("width", J.float clip.width)
        ∷ ("height", J.float clip.height)
        ∷ ("scale", J.float (unwrap_or clip.scale (J.literal 10 1)))
        ∷ [])

    -- The quality counts for a JPEG only.
    abbrev quality_for : ScreenshotFormat → Option ℕ → Option ℕ
    quality_for jpeg quality = quality
    quality_for png quality = none

    unfoldable pub capture_params :
        ScreenshotFormat → Bool → Option ℕ → Option (ClipRegion J.F64) → J.Value
    unfolding cdp_name
    capture_params format full_page quality clip = put J "clip" clip_value clip (
        put J "quality" J.number (quality_for format quality) (
          J.object (
            ("format", J.string (cdp_name format))
            ∷ ("fromSurface", J.bool true)
            ∷ ("captureBeyondViewport", J.bool full_page)
            ∷ [])))

    unfoldable pub capture_page :
        PageLoadOptions → ScreenshotFormat → Bool → ScreenshotCapture J.F64 → Cdp (List ℕ)
    capture_page options format full_page capture = do
      session_id ← prepare_page_target J
      arrived ← navigate_page session_id options
      sized ← full_viewport full_page session_id
      cleared ← clear_background capture.omit_background session_id
      clip ← clip_for capture.selector capture.clip session_id
      result ←
          command J (some session_id) "Page.captureScreenshot"
            (capture_params format full_page capture.quality clip)
      lift (decode_cdp_data result)

    unfoldable pub print_page : PageLoadOptions → J.Value → ℕ × ℕ → Cdp (List ℕ)
    print_page options print_options viewport = do
      session_id ← prepare_page_target J
      sized ← set_viewport session_id viewport.0 viewport.1
      arrived ← navigate_page session_id options
      result ← command J (some session_id) "Page.printToPDF" print_options
      lift (decode_cdp_data result)
