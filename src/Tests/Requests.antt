-- ===== src/Tests/Requests.antt =====
-- Requests with a body, a query and a launch parameter.
use eiger.Common.{
  ◌≡◌, refl, ◌↔◌, String, true, false, List, [], ◌∷◌, none, some, Result, ok, and_then,
}
use eiger.Api.Requests.{
  SessionQuery, CreateSessionRequest, LaunchQuery, PageLoadOptions, network_idle,
}
use eiger.Api.Overrides.{gathered, session_overrides, rest_session_overrides}
use eiger.Api.Overrides.Precedence.{
  Refines, launch_of, session_overrides-Refines, rest_session_overrides-session_overrides,
}
use eiger.Api.Options.{page_load_options}
use eiger.Api.Options.Laws.{Accepts, page_load_options-Accepts}
use eiger.Api.Links.{escape_html}
use eiger.Api.Links.Escaping.{escape_html-entities}
use eiger.Text.{lacks}
use eiger.Tests.Json.{Json, json, field, no_fields, string, object}

abbrev pub table : List (String × Json)
table = ("{\"proxy\":\"http://a\"}", object (field "proxy" (string "http://a") no_fields)) ∷ []

abbrev pub no_launch : LaunchQuery
no_launch = record {
  args = none;
  stealth = none;
  proxy = none;
  extension_paths = none;
  persistent_profile_id = none;
}

-- A reader of launch queries that knows the proxy.
abbrev pub from_value : Json → Result LaunchQuery String
from_value value =
    ok (record no_launch { proxy = and_then ((json []).get value "proxy") (json []).as_str })

abbrev pub query : SessionQuery
query = record {
  token = some "secret";
  stealth = none;
  launch = some "{\"proxy\":\"http://a\"}";
  proxy = some "  ";
  extension_paths = some "/opt/one, ,/opt/two";
  persistent_profile_id = none;
}

abbrev body : CreateSessionRequest
body = record {
  stealth_enabled = some false;
  extra_chrome_args = none;
  proxy = some "http://b";
  extension_paths = some ("" ∷ []);
  persistent_profile_id = none;
}

session_overrides-Refines_example :
    Refines
      (some body)
      query
      (launch_of (json table) from_value query.launch)
      (session_overrides (json table) from_value query (some body))
session_overrides-Refines_example =
    session_overrides-Refines (json table) from_value (some body) query

rest_session_overrides-session_overrides_example :
    rest_session_overrides (json table) from_value query none none none
    ≡ session_overrides (json table) from_value query (
        some (record {
          stealth_enabled = none;
          extra_chrome_args = none;
          proxy = none;
          extension_paths = none;
          persistent_profile_id = none;
        }))
rest_session_overrides-session_overrides_example =
    rest_session_overrides-session_overrides (json table) from_value query none none none

parsed :
    session_overrides (json table) from_value query none
    ≡ ok (gathered query none (some (record no_launch { proxy = some "http://a" })))
unfolding session_overrides
parsed = refl

-- The blank proxy of the query counts as absent.
proxy_of_launch :
    (gathered query none (some (record no_launch { proxy = some "http://a" }))).proxy
    ≡ some "http://a"
unfolding gathered
proxy_of_launch = refl

abbrev page : PageLoadOptions
page = record { url = "http://a"; wait_until = network_idle; timeout = 5_000_000_000 }

page_load_options-Accepts_example :
    (page_load_options " http://a" (some "NetworkIdle0") (some 5_000) ≡ ok page)
    ↔ Accepts " http://a" (some "NetworkIdle0") (some 5_000) page
page_load_options-Accepts_example =
    page_load_options-Accepts " http://a" (some "NetworkIdle0") (some 5_000) page

page_accepted : page_load_options " http://a" (some "NetworkIdle0") (some 5_000) ≡ ok page
unfolding page_load_options
page_accepted = refl

escape_html-entities_example :
    (escape_html "<a href=\"x\">" ≡ "&lt;a href=&quot;x&quot;&gt;")
    × (lacks b'<' (escape_html "<a href=\"x\">") ≡ true)
    × (lacks b'>' (escape_html "<a href=\"x\">") ≡ true)
    × (lacks b'"' (escape_html "<a href=\"x\">") ≡ true)
escape_html-entities_example = escape_html-entities "<a href=\"x\">"
