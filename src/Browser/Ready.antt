-- ===== src/Browser/Ready.antt =====
-- crates/eiger-browser/src/lib.rs, `read_devtools_port` and `wait_until_ready`. What the process, the
-- file and the HTTP client answer in each round of the loop is a `Poll`.
pub mod Ending
use eiger.Common.{
  ℕ, zero, suc, ◌+◌, ◌/◌, String, Option, none, some, Result, ok, err, ◌>>=◌, map_err, ok_or, ltb,
  true, false,
}
use eiger.Text.{append, first_line}
use eiger.Text.Decimal.{to_string, parse_unsigned}
use eiger.Browser.{
  BrowserError, exited_early, launch_timed_out, devtools_port, invalid_devtools_port,
}

pub record BrowserReady : Type 0 where
  pub pid : ℕ
  pub http_base_url : String
  pub browser_ws_url : String

-- What reading `DevToolsActivePort` gives.
pub data PortFile : Type 0 where
  not_there : PortFile
  unreadable contents : String → PortFile

unfoldable pub read_devtools_port : PortFile → Result (Option ℕ) BrowserError
unfolding first_line parse_unsigned
read_devtools_port not_there = ok none
read_devtools_port (unreadable e) = err (devtools_port e)
read_devtools_port (contents text) = do
  line ← ok_or (first_line text) (invalid_devtools_port text)
  port ← ok_or (parse_unsigned 65535 line) (invalid_devtools_port text)
  ok (some port)

-- One round: the time since the start, the exit status, the file, the URL that the version request at
-- a base URL gives (`none` where there was no successful response), and the health check of a URL.
pub record Poll : Type 0 where
  pub elapsed : ℕ
  pub exited : Result (Option String) String
  pub port_file : PortFile
  pub version : String → Option (Result String BrowserError)
  pub health : String → Result (Unit {0}) BrowserError

-- With an answer to the version request.
abbrev with_version :
    Poll
    → ℕ
    → String
    → Option (Result String BrowserError)
    → Result (Option BrowserReady) BrowserError
with_version p pid base none = ok none
with_version p pid base (some version) = do
  browser_ws_url ← version
  checked ← p.health browser_ws_url
  ok (some (record { pid = pid; http_base_url = base; browser_ws_url = browser_ws_url }))

abbrev with_port : Poll → ℕ → Option ℕ → Result (Option BrowserReady) BrowserError
with_port p pid none = ok none
with_port p pid (some port) =
    let base = append "http://127.0.0.1:" (to_string port) in
    with_version p pid base (p.version base)

abbrev with_status : Poll → ℕ → Option String → Result (Option BrowserReady) BrowserError
with_status p pid (some status) = err (exited_early status)
with_status p pid none = read_devtools_port p.port_file >>= with_port p pid

-- The body of the loop: `none` where it goes on.
unfoldable pub poll_once : Poll → ℕ → Result (Option BrowserReady) BrowserError
unfolding read_devtools_port to_string
poll_once p pid = map_err exited_early p.exited >>= with_status p pid

-- How the loop goes on after a round.
abbrev pub after_poll :
    Result (Option BrowserReady) BrowserError
    → Option (Result BrowserReady BrowserError)
    → Option (Result BrowserReady BrowserError)
after_poll (err e) rest = some (err e)
after_poll (ok (some ready)) rest = some (ok ready)
after_poll (ok none) rest = rest

module _ (show_duration : ℕ → String) (polls : ℕ → Poll) (pid launch_timeout : ℕ) where
  -- The loop from round `k` on, with fuel; `none` means that the fuel ran out.
  wait_from : ℕ → ℕ → Option (Result BrowserReady BrowserError)
  unfolding poll_once
  wait_from zero k = none
  wait_from (suc fuel) k =
      let rest = wait_from fuel (k + 1) in
      elim (ltb (polls k).elapsed launch_timeout) [
        | false ↦ some (err (launch_timed_out (show_duration launch_timeout)))
        | true ↦ after_poll (poll_once (polls k) pid) rest
      ]

  -- A round takes 100 ms at least: so many rounds fit before the limit, and one more sees its end.
  unfoldable pub wait_until_ready : Option (Result BrowserReady BrowserError)
  unfolding wait_from
  wait_until_ready = wait_from (suc (launch_timeout / 100_000_000 + 1)) 0
