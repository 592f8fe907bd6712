-- ===== src/Tests/Launch.antt =====
-- Looking for an executable, and the wait for a browser that becomes ready in the second round.
use eiger.Common.{
  ℕ, zero, suc, ◌*◌, ◌≤◌, ◌≡◌, refl, arith, true, [], ◌∷◌, none, some, Result, ok, err, String,
  if◌then◌else◌,
}
use text.Mathlib.Text.{◌==◌ as str_eq}
use eiger.Text.Decimal.{to_string}
use eiger.Browser.{BrowserError}
use eiger.Browser.Launch.{System, Launch, NoOrphan, launch_chrome, launch_chrome-NoOrphan}
use eiger.Socket.{Socket}
use eiger.Tests.Fixture.{new_pool}
use eiger.Tests.Json.{json}
use eiger.Browser.Ready.{BrowserReady, Poll, not_there, contents, wait_until_ready}
use eiger.Browser.Ready.Ending.{ComesFrom, wait_until_ready-Ends}
use eiger.Browser.Executable.{
  Machine, expected, resolve_chrome_executable, resolve_chrome_executable-expected,
}

abbrev polls : ℕ → Poll
polls zero = record {
  elapsed = 0;
  exited = ok none;
  port_file = not_there;
  version = λ url. none;
  health = λ url. ok tt;
}
polls (suc k) = record {
  elapsed = suc k * 120_000_000;
  exited = ok none;
  port_file = contents "41233\n/devtools/browser/a\n";
  version = λ url. some (ok "ws://127.0.0.1:41233/devtools/browser/a");
  health = λ url. ok tt;
}

slept : (j : ℕ) → j * 100_000_000 ≤ (polls j).elapsed
slept zero = omega arith
slept (suc j) = omega arith

wait_until_ready-Ends_example :
    (r : Result BrowserReady BrowserError) × (wait_until_ready to_string polls 41 1_000_000_000
      ≡ some r)
    × ComesFrom to_string polls 41 1_000_000_000 r
wait_until_ready-Ends_example = wait_until_ready-Ends to_string polls 41 1_000_000_000 slept

abbrev debian : Machine
debian = record {
  var = λ name. if str_eq name "CHROME" then some " " else none;
  exists = λ path. str_eq path "/usr/bin/google-chrome";
  path_dirs = some ("/usr/bin" ∷ []);
  is_file_in = λ dir binary. true;
}

google_chrome : resolve_chrome_executable debian none ≡ ok "/usr/bin/google-chrome"
unfolding resolve_chrome_executable
google_chrome = refl

resolve_chrome_executable-expected_example :
    resolve_chrome_executable debian none ≡ expected debian none
resolve_chrome_executable-expected_example = resolve_chrome_executable-expected debian none

abbrev system : System
system = record {
  machine = debian;
  create_dir = λ path. ok tt;
  temp_dir = ok "/tmp/eiger-chrome-1";
  spawn_child = λ program args. ok (some 41);
  polls = polls;
  show_duration = to_string;
}

abbrev no_socket : ℕ → String → Result Socket String
no_socket n url = err "refused"

-- A launch whose injection fails.
launch_chrome-NoOrphan_example :
    (l : Launch) × (launch_chrome
        (json [])
        no_socket
        (λ url. err "refused")
        system
        new_pool.browser_options
      ≡ some l)
    × NoOrphan new_pool.browser_options l l.result
launch_chrome-NoOrphan_example =
    launch_chrome-NoOrphan (json []) no_socket (λ url. err "refused") system
      new_pool.browser_options slept
