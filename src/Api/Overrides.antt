-- ===== src/Api/Overrides.antt =====
-- crates/eiger-api/src/lib.rs: `session_overrides` and `rest_session_overrides`, which gather what the
-- body, the query and the `launch` parameter of the query ask for.
pub mod Precedence
pub mod Filled
use eiger.Common.{
  String, Bool, true, false, not, ◌||◌, List, [], ◌++◌, map, Option, none, some, Result, ok, err,
  ◌>>=◌, map_err, and_then, or_else, unwrap_or, option_map, option_filter, is_some, is_empty,
  filter, if◌then◌else◌,
}
use eiger.Text.{append, is_empty_str, trim, split}
use eiger.Serde.{Serde}
use eiger.Pool.{SessionOverrides}
use eiger.Api.Requests.{SessionQuery, CreateSessionRequest, LaunchQuery}

unfoldable pub trimmed_optional : Option String → Option String
unfolding trim
trimmed_optional value = option_filter (λ s. not (is_empty_str s)) (option_map trim value)

unfoldable pub clean_extension_paths : List String → List String
clean_extension_paths paths = filter (λ path. not (is_empty_str path)) paths

unfoldable pub parse_query_extension_paths : Option String → List String
unfolding split trim
parse_query_extension_paths value =
    unwrap_or
      (option_map (λ s. filter (λ path. not (is_empty_str path)) (map trim (split b',' s))) value)
      []

-- The lists of paths that come from the body and from the launch parameter.
abbrev pub cleaned : Option (List String) → List String
cleaned paths = unwrap_or (option_map clean_extension_paths paths) []

abbrev pub first_filled : List String → List String → List String → List String
first_filled payload query launch =
    if not (is_empty payload) then payload else if not (is_empty query) then query else launch

-- The rest of `session_overrides`, where `launch` is what was parsed.
unfoldable pub gathered :
    SessionQuery → Option CreateSessionRequest → Option LaunchQuery → SessionOverrides
unfolding trimmed_optional clean_extension_paths parse_query_extension_paths
gathered query payload launch =
    let payload_stealth = and_then payload (λ p. p.stealth_enabled) in
    let query_stealth = or_else query.stealth (and_then launch (λ l. l.stealth)) in
    let payload_proxy = and_then payload (λ p. trimmed_optional p.proxy) in
    let query_proxy =
      or_else (trimmed_optional query.proxy) (and_then launch (λ l. trimmed_optional l.proxy)) in
    let payload_paths = cleaned (and_then payload (λ p. p.extension_paths)) in
    let query_paths = parse_query_extension_paths query.extension_paths in
    let launch_paths = cleaned (and_then launch (λ l. l.extension_paths)) in
    let payload_profile_id = and_then payload (λ p. trimmed_optional p.persistent_profile_id) in
    let query_profile_id =
      or_else (trimmed_optional query.persistent_profile_id)
        (and_then launch (λ l. trimmed_optional l.persistent_profile_id)) in
    record {
      stealth_enabled = or_else payload_stealth query_stealth;
      extra_chrome_args =
          unwrap_or (and_then launch (λ l. l.args)) []
          ++ unwrap_or (and_then payload (λ p. p.extra_chrome_args)) [];
      proxy = or_else payload_proxy query_proxy;
      extension_paths = first_filled payload_paths query_paths launch_paths;
      persistent_profile_id = or_else payload_profile_id query_profile_id;
    }

-- The body that a REST request stands for.
abbrev pub rest_payload :
    Option String → Option (List String) → Option String → CreateSessionRequest
rest_payload proxy extension_paths persistent_profile_id = record {
  stealth_enabled = none;
  extra_chrome_args = none;
  proxy = proxy;
  extension_paths = extension_paths;
  persistent_profile_id = persistent_profile_id;
}

-- `from_value` is `serde_json::from_value` at `LaunchQuery`, the reader that serde derives.
module _ (J : Serde) (from_value : J.Value → Result LaunchQuery String) where
  unfoldable pub parse_launch_query : Option String → Result (Option LaunchQuery) String
  unfolding trim
  parse_launch_query raw = elim (option_filter (λ s. not (is_empty_str (trim s))) raw) [
    | none ↦ ok none
    | some raw_launch ↦
        map_err (append "invalid launch query JSON: ") (J.from_str raw_launch) >>= λ value.
        map_err (append "invalid launch query shape: ") (from_value value) >>= λ launch.
        ok (some launch)
  ]

  unfoldable pub session_overrides :
      SessionQuery → Option CreateSessionRequest → Result SessionOverrides String
  unfolding parse_launch_query gathered
  session_overrides query payload =
      parse_launch_query query.launch >>= λ launch. ok (gathered query payload launch)

  unfoldable pub rest_session_overrides :
      SessionQuery
      → Option String
      → Option (List String)
      → Option String
      → Result SessionOverrides String
  unfolding session_overrides
  rest_session_overrides query proxy extension_paths persistent_profile_id =
      let payload =
        if is_some proxy || is_some extension_paths || is_some persistent_profile_id
        then some (rest_payload proxy extension_paths persistent_profile_id)
        else none in
      session_overrides query payload
