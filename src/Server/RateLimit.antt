-- ===== src/Server/RateLimit.antt =====
-- crates/eiger-server/src/main.rs: the period of the rate limits, and the key of the limit per token.
pub mod Period
pub mod Bypass
use text.Mathlib.Text.{◌==◌ as str_eq}
use eiger.Common.{
  ℕ, ◌/◌, String, Bool, not, ◌&&◌, List, [], ◌∷◌, Option, none, some, and_then, or_else, unwrap_or,
  option_filter, ltb, if◌then◌else◌,
}
use eiger.Text.{append, is_empty_str, trim, strip_prefix, split, split_once}
use eiger.Text.Decimal.{to_string}

-- `u64::max`.
abbrev pub max_u64 : ℕ → ℕ → ℕ
max_u64 a b = if ltb a b then b else a

-- In nanoseconds; a rate is not 0 (`Config.Env`).
unfoldable pub rate_limit_period : ℕ → ℕ
rate_limit_period requests_per_second = max_u64 (1_000_000_000 / requests_per_second) 1

-- `GovernorError`, and the response that is made of one.
pub data GovernorError : Type 0 where
  too_many_requests : ℕ → Option (List (String × String)) → GovernorError
  unable_to_extract_key : GovernorError
  other : ℕ → Option String → Option (List (String × String)) → GovernorError

pub record LimitResponse : Type 0 where
  pub status : ℕ
  pub content_type : String
  pub body : String
  pub headers : List (String × String)

abbrev pub limit_response : ℕ → String → Option (List (String × String)) → LimitResponse
limit_response status message headers = record {
  status = status;
  content_type = "application/json";
  body = append "{\"error\":\"" (append message "\"}");
  headers = unwrap_or headers [];
}

unfoldable pub rate_limit_error : GovernorError → LimitResponse
unfolding to_string
rate_limit_error (too_many_requests wait_time headers) =
    limit_response 429
      (append "rate limit exceeded; retry after " (append (to_string wait_time) " seconds")) headers
rate_limit_error unable_to_extract_key =
    limit_response 500 "rate limit key could not be extracted" none
rate_limit_error (other code msg headers) =
    limit_response code (unwrap_or msg "rate limit error") headers

unfoldable pub bearer_token : Option String → Option String
unfolding trim
bearer_token authorization =
    option_filter (λ value. not (is_empty_str (trim value)))
      (and_then authorization (strip_prefix "Bearer "))

-- `decode` is `urlencoding::decode`, `none` where the result is no UTF-8.
module _ (decode : String → Option String) where
  -- The test of one pair of the query.
  unfoldable pub token_pair : String → Option String
  unfolding trim split_once
  token_pair pair =
      let (key, value) = unwrap_or (split_once b'=' pair) (pair, "") in
      if str_eq key "token" && not (is_empty_str (trim value)) then decode value else none

  -- `find_map`.
  unfoldable pub find_token : List String → Option String
  unfolding token_pair
  find_token [] = none
  find_token (pair ∷ pairs) = or_else (token_pair pair) (find_token pairs)

  unfoldable pub query_token : Option String → Option String
  unfolding find_token split
  query_token query = and_then query λ q. find_token (split b'&' q)

  unfoldable pub rate_limit_token : Option String → Option String → Option String
  unfolding bearer_token query_token
  rate_limit_token authorization query = or_else (bearer_token authorization) (query_token query)

  -- `TokenKeyExtractor::extract`.
  unfoldable pub extract : Option String → Option String → String
  unfolding rate_limit_token
  extract authorization query = unwrap_or (rate_limit_token authorization query) "missing"
