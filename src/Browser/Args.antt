-- ===== src/Browser/Args.antt =====
-- crates/eiger-browser/src/lib.rs, `chrome_args`: the command line of the browser.
use text.Mathlib.Text.{◌==◌ as str_eq}
use eiger.Common.{
  String, not, List, [], ◌∷◌, ◌++◌, Option, none, some, filter, is_empty, option_filter,
  if◌then◌else◌,
}
use eiger.Text.{append, is_empty_str, trim, join_with}
use eiger.Stealth.{chrome_args as stealth_args}
use eiger.Browser.{ChromeLaunchOptions}

abbrev pub default_args : String → List String
default_args user_data_dir =
    "--headless=new"
    ∷ "--remote-debugging-address=127.0.0.1"
    ∷ "--remote-debugging-port=0"
    ∷ append "--user-data-dir=" user_data_dir
    ∷ "--no-first-run"
    ∷ "--no-default-browser-check"
    ∷ "--disable-background-networking"
    ∷ "--disable-background-timer-throttling"
    ∷ "--disable-client-side-phishing-detection"
    ∷ "--disable-component-update"
    ∷ "--disable-default-apps"
    ∷ "--disable-dev-shm-usage"
    ∷ "--disable-gpu"
    ∷ "--disable-hang-monitor"
    ∷ "--disable-popup-blocking"
    ∷ "--disable-prompt-on-repost"
    ∷ "--disable-sync"
    ∷ "--metrics-recording-only"
    ∷ "--mute-audio"
    ∷ "--password-store=basic"
    ∷ "--use-mock-keychain"
    ∷ []

-- With the sandbox switched off, and without the argument that extensions do not go with.
abbrev process_args : ChromeLaunchOptions → List String → List String
process_args o args =
    let args' : List String = if o.no_sandbox then args ++ "--no-sandbox" ∷ [] else args in
    if is_empty o.extension_paths
    then args'
    else filter (λ arg. not (str_eq arg "--disable-background-networking")) args'

unfoldable pub proxy_args : Option String → List String
unfolding trim
proxy_args proxy = elim (option_filter (λ value. not (is_empty_str (trim value))) proxy) [
  | none ↦ []
  | some value ↦ append "--proxy-server=" (trim value) ∷ []
]

unfoldable pub extension_args : List String → List String
unfolding join_with
extension_args paths =
    let extension_paths = join_with "," paths in
    if is_empty paths
    then "--disable-extensions" ∷ []
    else "--disable-features=DisableLoadExtensionCommandLineSwitch"
      ∷ "--enable-extensions"
      ∷ append "--load-extension=" extension_paths
      ∷ append "--disable-extensions-except=" extension_paths
      ∷ []

unfoldable pub chrome_args : String → ChromeLaunchOptions → List String
unfolding proxy_args extension_args stealth_args
chrome_args user_data_dir o =
    process_args o (default_args user_data_dir)
    ++ proxy_args o.proxy
    ++ extension_args o.extension_paths
    ++ stealth_args o.stealth
    ++ o.additional_args
    ++ "about:blank" ∷ []
