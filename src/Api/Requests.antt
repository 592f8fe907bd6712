-- ===== src/Api/Requests.antt =====
-- crates/eiger-api/src/lib.rs: the types of the queries and the request bodies, of what a request to
-- load a page asks for, and of the errors. A `Duration` is in nanoseconds, a path is its text.
use eiger.Common.{ℕ, String, Bool, List, Option}
use eiger.Pool.{PoolError}

pub record SessionQuery : Type 0 where
  pub token : Option String
  pub stealth : Option Bool
  pub launch : Option String
  pub proxy : Option String
  pub extension_paths : Option String
  pub persistent_profile_id : Option String

pub record CreateSessionRequest : Type 0 where
  pub stealth_enabled : Option Bool
  pub extra_chrome_args : Option (List String)
  pub proxy : Option String
  pub extension_paths : Option (List String)
  pub persistent_profile_id : Option String

pub record ScrapeRequest : Type 0 where
  pub url : String
  pub wait_until : Option String
  pub timeout_ms : Option ℕ
  pub proxy : Option String
  pub extension_paths : Option (List String)
  pub persistent_profile_id : Option String

pub record ClipRegion (F64 : Type 0) : Type 0 where
  pub x : F64
  pub y : F64
  pub width : F64
  pub height : F64
  pub scale : Option F64

pub record ScreenshotRequest (F64 : Type 0) : Type 0 where
  pub url : String
  pub wait_until : Option String
  pub timeout_ms : Option ℕ
  pub full_page : Option Bool
  pub format : Option String
  pub quality : Option ℕ
  pub omit_background : Option Bool
  pub selector : Option String
  pub clip : Option (ClipRegion F64)
  pub proxy : Option String
  pub extension_paths : Option (List String)
  pub persistent_profile_id : Option String

pub record PdfRequest (F64 : Type 0) : Type 0 where
  pub url : String
  pub wait_until : Option String
  pub timeout_ms : Option ℕ
  pub format : Option String
  pub landscape : Option Bool
  pub print_background : Option Bool
  pub width : Option ℕ
  pub height : Option ℕ
  pub scale : Option F64
  pub margin_top : Option F64
  pub margin_bottom : Option F64
  pub margin_left : Option F64
  pub margin_right : Option F64
  pub display_header_footer : Option Bool
  pub header_template : Option String
  pub footer_template : Option String
  pub prefer_css_page_size : Option Bool
  pub proxy : Option String
  pub extension_paths : Option (List String)
  pub persistent_profile_id : Option String

pub record LaunchQuery : Type 0 where
  pub args : Option (List String)
  pub stealth : Option Bool
  pub proxy : Option String
  pub extension_paths : Option (List String)
  pub persistent_profile_id : Option String

pub record ScrapeResponse : Type 0 where
  pub html : String
  pub title : String
  pub url : String

pub data WaitUntil : Type 0 where
  load dom_content_loaded network_idle network_almost_idle : WaitUntil

pub data ScreenshotFormat : Type 0 where
  png jpeg : ScreenshotFormat

pub record PageLoadOptions : Type 0 where
  pub url : String
  pub wait_until : WaitUntil
  pub timeout : ℕ

-- An error of the WebSocket stands for its text.
pub data RestEndpointError : Type 0 where
  bad_request : String → RestEndpointError
  pool : PoolError → RestEndpointError
  cdp_web_socket cdp_protocol cdp_timeout invalid_cdp_response decode : String → RestEndpointError

pub record ScreenshotCapture (F64 : Type 0) : Type 0 where
  pub quality : Option ℕ
  pub omit_background : Bool
  pub selector : Option String
  pub clip : Option (ClipRegion F64)
