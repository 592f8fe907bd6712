-- ===== src/Api/Links.antt =====
-- crates/eiger-api/src/lib.rs: the links to a session: `cdp_ws_url`, `session_devtools_link` and what it
-- calls, and `escape_html`.
pub mod Escaping
use text.Mathlib.Text.{◌==◌ as str_eq}
use eiger.Common.{
  ℕ, String, Bool, List, [], ◌∷◌, Option, none, some, and_then, or_else, unwrap_or, option_map,
  if◌then◌else◌,
}
use eiger.Text.{append, strip_prefix, split_once, split_once_str, replace_char, to_ascii_lowercase}
use eiger.Pool.{SessionInfo}

-- The headers that the handlers read: each the text of its value, or `none` where the header is
-- missing or no text.
pub record Headers : Type 0 where
  pub authorization : Option String
  pub host : Option String
  pub x_forwarded_proto : Option String

abbrev pub eq_ignore_ascii_case : String → String → Bool
eq_ignore_ascii_case s t = str_eq (to_ascii_lowercase s) (to_ascii_lowercase t)

-- `show_id` is `Uuid::to_string`, `encode` is `urlencoding::encode`.
module _ (show_id : ℕ → String) (encode : String → String) where
  abbrev with_token : Option String → String → String
  with_token none url = url
  with_token (some token) url = append url (append "?token=" (encode token))

  unfoldable pub cdp_ws_url : Headers → ℕ → Option String → String
  unfolding to_ascii_lowercase
  cdp_ws_url headers id query_token =
      let host = unwrap_or headers.host "127.0.0.1:3000" in
      let forwarded_proto = unwrap_or headers.x_forwarded_proto "http" in
      let scheme = if eq_ignore_ascii_case forwarded_proto "https" then "wss" else "ws" in
      with_token query_token (
        append scheme
          (append "://" (append host (append "/sessions/" (append (show_id id) "/cdp")))))

abbrev without_scheme : String → Option String
without_scheme url = or_else (strip_prefix "ws://" url) (strip_prefix "wss://" url)

unfoldable pub cdp_http_base_url : String → Option String
unfolding split_once_str
cdp_http_base_url browser_ws_url =
    and_then (without_scheme browser_ws_url)
      λ rest. and_then (split_once_str "/devtools/" rest) λ p. some (append "http://" p.0)

abbrev inspector : String → String
inspector ws = append "devtools://devtools/bundled/inspector.html?ws=" ws

unfoldable pub devtools_url_from_ws : String → Option String
devtools_url_from_ws ws_url = option_map inspector (without_scheme ws_url)

pub record CdpTargetDescriptor : Type 0 where
  pub target_type : String
  pub devtools_frontend_url : Option String

-- `targets.into_iter().find(|target| target.target_type == "page")`.
abbrev find_page : List CdpTargetDescriptor → Option CdpTargetDescriptor
find_page [] = none
find_page (t ∷ ts) = let rest = find_page ts in if str_eq t.target_type "page" then some t else rest

-- `fetch` is the GET request with the reading of its JSON answer, `none` where one of them fails.
module _ (fetch : String → Option (List CdpTargetDescriptor)) where
  unfoldable pub target_devtools_link : String → Option String
  unfolding cdp_http_base_url split_once_str
  target_devtools_link browser_ws_url = and_then (cdp_http_base_url browser_ws_url) λ http_base.
      and_then (fetch (append http_base "/json/list")) λ targets.
        and_then (and_then (find_page targets) (λ t. t.devtools_frontend_url))
          λ url. option_map (λ p. inspector p.1) (split_once_str "ws=" url)

  unfoldable pub session_devtools_link : {F32 : Type 0} → SessionInfo F32 → Option String
  unfolding target_devtools_link devtools_url_from_ws
  session_devtools_link session = and_then session.browser_ws_url λ browser_ws_url.
      or_else (target_devtools_link browser_ws_url) (devtools_url_from_ws browser_ws_url)

unfoldable pub escape_html : String → String
unfolding replace_char
escape_html value =
    replace_char b'"' "&quot;"
      (replace_char b'>' "&gt;" (replace_char b'<' "&lt;" (replace_char b'&' "&amp;" value)))
