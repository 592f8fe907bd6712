-- ===== src/Api/Pages/Numbering.antt =====
-- crates/eiger-api/src/lib.rs: the ids of the commands of a whole REST request.
use eiger.Common.{ℕ, String, Bool, true, false, List, Option, none, some, Result}
use eiger.Common.Exec.{Keeps, bind-Keeps, give-Keeps, lift-Keeps, raise-Keeps}
use eiger.Serde.{Serde}
use eiger.Api.Requests.{ClipRegion, ScreenshotFormat, PageLoadOptions, ScreenshotCapture}
use eiger.Socket.{Socket}
use eiger.Api.Cdp.{str_at}
use eiger.Api.Cdp.Numbering.{
  IsNumbered, command-Keeps, wait_for_lifecycle-Keeps, prepare_page_target-Keeps,
}
use eiger.Api.Pages.{
  clear_events, after_navigation, navigate_page, set_viewport, set_full_page_viewport, scrape_page,
  resolve_selector_clip, full_viewport, clear_background, clip_for, capture_page, print_page,
}

module _ (J : Serde) (errors : List (Option String)) where
  after_navigation-Keeps :
      (session_id : String) (options : PageLoadOptions) (o : Option String)
      → Keeps (IsNumbered J errors) (after_navigation J session_id options o)
  after_navigation-Keeps session_id options (some error) = raise-Keeps _
  after_navigation-Keeps session_id options none = wait_for_lifecycle-Keeps J errors _ _

  clear_events-Keeps : Keeps (IsNumbered J errors) clear_events
  unfolding clear_events
  clear_events-Keeps = record { holds = λ c i. i }

  navigate_page-Keeps :
      (session_id : String) (options : PageLoadOptions)
      → Keeps (IsNumbered J errors) (navigate_page J session_id options)
  unfolding navigate_page
  navigate_page-Keeps session_id options = bind-Keeps _ _ clear_events-Keeps λ cleared.
      bind-Keeps _ _ (command-Keeps J errors _ _ _)
        λ result. after_navigation-Keeps session_id options (str_at J result "errorText")

  set_viewport-Keeps :
      (session_id : String) (width height : ℕ)
      → Keeps (IsNumbered J errors) (set_viewport J session_id width height)
  unfolding set_viewport
  set_viewport-Keeps session_id width height =
      bind-Keeps _ _ (command-Keeps J errors _ _ _) λ result. give-Keeps _

  set_full_page_viewport-Keeps :
      (session_id : String) → Keeps (IsNumbered J errors) (set_full_page_viewport J session_id)
  unfolding set_full_page_viewport
  set_full_page_viewport-Keeps session_id = bind-Keeps _ _ (command-Keeps J errors _ _ _) λ metrics.
      bind-Keeps _ _ (lift-Keeps _) λ size.
        bind-Keeps _ _ (lift-Keeps _)
          λ width. bind-Keeps _ _ (lift-Keeps _) λ height. set_viewport-Keeps session_id _ _

  pub scrape_page-Keeps :
      (options : PageLoadOptions) → Keeps (IsNumbered J errors) (scrape_page J options)
  unfolding scrape_page
  scrape_page-Keeps options = bind-Keeps _ _ (prepare_page_target-Keeps J errors) λ session_id.
      bind-Keeps _ _ (navigate_page-Keeps session_id options) λ arrived.
        bind-Keeps _ _ (command-Keeps J errors _ _ _)
          λ result. bind-Keeps _ _ (lift-Keeps _) λ value. give-Keeps _

  resolve_selector_clip-Keeps :
      (session_id selector : String)
      → Keeps (IsNumbered J errors) (resolve_selector_clip J session_id selector)
  unfolding resolve_selector_clip
  resolve_selector_clip-Keeps session_id selector =
      bind-Keeps _ _ (command-Keeps J errors _ _ _) λ result. lift-Keeps _

  full_viewport-Keeps :
      (full_page : Bool) (session_id : String)
      → Keeps (IsNumbered J errors) (full_viewport J full_page session_id)
  full_viewport-Keeps true session_id = set_full_page_viewport-Keeps session_id
  full_viewport-Keeps false session_id = give-Keeps _

  clear_background-Keeps :
      (omit_background : Bool) (session_id : String)
      → Keeps (IsNumbered J errors) (clear_background J omit_background session_id)
  clear_background-Keeps true session_id =
      bind-Keeps _ _ (command-Keeps J errors _ _ _) λ result. give-Keeps _
  clear_background-Keeps false session_id = give-Keeps _

  clip_for-Keeps :
      (selector : Option String) (clip : Option (ClipRegion J.F64)) (session_id : String)
      → Keeps (IsNumbered J errors) (clip_for J selector clip session_id)
  clip_for-Keeps none clip session_id = give-Keeps _
  clip_for-Keeps (some selector) clip session_id =
      bind-Keeps _ _ (resolve_selector_clip-Keeps session_id selector) λ region. give-Keeps _

  module _ (decode_base64 : String → Result (List ℕ) String) where
    pub capture_page-Keeps :
        (options : PageLoadOptions) (format : ScreenshotFormat) (full_page : Bool)
        → (capture : ScreenshotCapture J.F64)
        → Keeps
            (IsNumbered J errors)
            (capture_page J decode_base64 options format full_page capture)
    unfolding capture_page
    capture_page-Keeps options format full_page capture =
        bind-Keeps _ _ (prepare_page_target-Keeps J errors) λ session_id.
          bind-Keeps _ _ (navigate_page-Keeps session_id options) λ arrived.
            bind-Keeps _ _ (full_viewport-Keeps full_page session_id) λ sized.
              bind-Keeps _ _ (clear_background-Keeps capture.omit_background session_id) λ cleared.
                bind-Keeps _ _ (clip_for-Keeps capture.selector capture.clip session_id)
                  λ clip. bind-Keeps _ _ (command-Keeps J errors _ _ _) λ result. lift-Keeps _

    pub print_page-Keeps :
        (options : PageLoadOptions) (print_options : J.Value) (viewport : ℕ × ℕ)
        → Keeps (IsNumbered J errors) (print_page J decode_base64 options print_options viewport)
    unfolding print_page
    print_page-Keeps options print_options viewport =
        bind-Keeps _ _ (prepare_page_target-Keeps J errors) λ session_id.
          bind-Keeps _ _ (set_viewport-Keeps session_id _ _) λ sized.
            bind-Keeps _ _ (navigate_page-Keeps session_id options)
              λ arrived. bind-Keeps _ _ (command-Keeps J errors _ _ _) λ result. lift-Keeps _
