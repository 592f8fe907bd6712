-- ===== src/Browser.antt =====
-- crates/eiger-browser/src/lib.rs: the browser process, its options and its errors.
pub mod Cdp
pub mod Shutdown
pub mod Ready
pub mod Launch
pub mod Args
pub mod Executable
use eiger.Common.{ℕ, String, Bool, List, Option}
use eiger.Text.{append}
use eiger.Stealth.{StealthProfile}

-- Times are in nanoseconds; a path is its text.
pub record ChromeLaunchOptions : Type 0 where
  pub executable : Option String
  pub no_sandbox : Bool
  pub launch_timeout : ℕ
  pub close_timeout : ℕ
  pub terminate_timeout : ℕ
  pub additional_args : List String
  pub proxy : Option String
  pub extension_paths : List String
  pub user_data_dir : Option String
  pub stealth : StealthProfile

pub data UserDataDir : Type 0 where
  temporary persistent : String → UserDataDir

-- `child` is the process itself, known by its pid; `stealth_task` says whether the task is there.
pub record LaunchedBrowser : Type 0 where
  pub pid : ℕ
  pub http_base_url : String
  pub browser_ws_url : String
  pub user_data_dir : UserDataDir
  pub stealth_task : Bool
  pub close_timeout : ℕ
  pub terminate_timeout : ℕ

pub data ShutdownKind : Type 0 where
  graceful terminated killed already_exited : ShutdownKind

pub record ShutdownReport : Type 0 where
  pub pid : ℕ
  pub kind : ShutdownKind
  pub reason : String

-- The errors of other crates are carried as their texts.
pub data BrowserError : Type 0 where
  missing_executable : BrowserError
  spawn : String → String → BrowserError
  exited_early : String → BrowserError
  launch_timed_out : String → BrowserError
  devtools_port : String → BrowserError
  user_data_dir : String → String → BrowserError
  invalid_devtools_port : String → BrowserError
  http : String → BrowserError
  web_socket : String → BrowserError
  cdp_timeout : String → BrowserError
  cdp_command : String → BrowserError

-- `error.to_string()`, from the `#[error]` attributes.
unfoldable pub error_text : BrowserError → String
error_text missing_executable =
    "chrome executable could not be resolved; set EIGER_CHROME_EXECUTABLE"
error_text (spawn path source) =
    append "failed to spawn chrome at " (append path (append ": " source))
error_text (exited_early status) = append "chrome exited before CDP became ready: " status
error_text (launch_timed_out limit) = append "chrome did not expose CDP within " limit
error_text (devtools_port source) = append "failed to read DevToolsActivePort: " source
error_text (user_data_dir path source) =
    append "failed to prepare user data dir " (append path (append ": " source))
error_text (invalid_devtools_port text) = append "invalid DevToolsActivePort contents: " text
error_text (http source) = append "CDP HTTP request failed: " source
error_text (web_socket source) = append "CDP websocket failed: " source
error_text (cdp_timeout method) = append "CDP command timed out: " method
error_text (cdp_command text) = append "CDP command failed: " text
