-- ===== src/Stealth.antt =====
-- crates/eiger-stealth/src/lib.rs: the stealth profile and its command line arguments.
pub mod Scripts
use eiger.Common.{ℕ, String, Bool, List, [], ◌∷◌, Option, unwrap_or, if◌then◌else◌}
use eiger.Text.{append, replace}
use eiger.Text.Decimal.{to_string}

abbrev pub default_user_agent : String
default_user_agent =
    "Mozilla/5.0 (X11; Linux x86_64) AppleWebKit/537.36 (KHTML, like Gecko) Chrome/124.0.0.0 Safari/537.36"

pub record StealthProfile : Type 0 where
  pub enabled : Bool
  pub user_agent : Option String
  pub window_width : ℕ
  pub window_height : ℕ

-- `StealthProfile::new`.
abbrev pub stealth_profile : Bool → Option String → StealthProfile
stealth_profile enabled user_agent = record {
  enabled = enabled;
  user_agent = user_agent;
  window_width = 1365;
  window_height = 768;
}

-- `StealthProfile::chrome_args`.
unfoldable pub chrome_args : StealthProfile → List String
unfolding to_string replace
chrome_args p =
    if p.enabled
    then "--disable-blink-features=AutomationControlled"
      ∷ append "--window-size="
          (append (to_string p.window_width) (append "," (to_string p.window_height)))
      ∷ append "--user-agent="
          (replace "HeadlessChrome" "Chrome" (unwrap_or p.user_agent default_user_agent))
      ∷ []
    else []
