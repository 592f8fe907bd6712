-- ===== src/Api/WaitUntil.antt =====
-- crates/eiger-api/src/lib.rs: `impl WaitUntil`.
use eiger.Common.{◌≡◌, refl, String, [], ◌∷◌, Option, none, some, Result, ok, err, if◌then◌else◌}
use eiger.Text.{append, trim, to_ascii_lowercase, is_one_of}
use eiger.Api.Requests.{
  WaitUntil, load, dom_content_loaded, network_idle, network_almost_idle, RestEndpointError,
  bad_request,
}

-- `WaitUntil::parse` on a value.
unfoldable pub parse_value : String → Result WaitUntil RestEndpointError
unfolding trim to_ascii_lowercase
parse_value value =
    let name = to_ascii_lowercase (trim value) in
    if is_one_of ("load" ∷ []) name
    then ok load
    else if is_one_of ("domcontentloaded" ∷ []) name
    then ok dom_content_loaded
    else if is_one_of ("networkidle" ∷ "networkidle0" ∷ []) name
    then ok network_idle
    else if is_one_of ("networkalmostidle" ∷ "networkidle2" ∷ []) name
    then ok network_almost_idle
    else err (bad_request (append "unsupported waitUntil value: " value))

unfoldable pub parse : Option String → Result WaitUntil RestEndpointError
unfolding parse_value
parse none = ok load
parse (some value) = parse_value value

unfoldable pub lifecycle_name : WaitUntil → String
lifecycle_name load = "load"
lifecycle_name dom_content_loaded = "DOMContentLoaded"
lifecycle_name network_idle = "networkIdle"
lifecycle_name network_almost_idle = "networkAlmostIdle"

-- The name of the lifecycle event of each value is accepted as a spelling of that value.
pub parse-lifecycle_name : (w : WaitUntil) → parse (some (lifecycle_name w)) ≡ ok w
unfolding parse lifecycle_name trim to_ascii_lowercase
parse-lifecycle_name load = refl
parse-lifecycle_name dom_content_loaded = refl
parse-lifecycle_name network_idle = refl
parse-lifecycle_name network_almost_idle = refl
