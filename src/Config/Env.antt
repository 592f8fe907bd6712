-- ===== src/Config/Env.antt =====
-- crates/eiger-config/src/lib.rs: reading one environment variable. `env::var` is a function that
-- answers `none` for a variable that is not set or is not Unicode.
use text.Mathlib.Text.{◌==◌ as str_eq}
use eiger.Common.{
  ℕ, ◌==◌, String, Bool, true, false, not, List, [], Option, none, some, Result, ok, err, ◌>>=◌,
  filter, map, if◌then◌else◌, option_map, option_filter, unwrap_or, ok_or,
}
use eiger.Text.{is_empty_str, trim, split}
use eiger.Text.Decimal.{to_string, parse_unsigned}
use eiger.Config.{ConfigError, invalid_value, from_secs}

abbrev pub u32_max : ℕ
u32_max = 0xffff_ffff

-- The largest `u64`, and `usize` on a 64-bit target.
abbrev pub u64_max : ℕ
u64_max = 0xffff_ffff_ffff_ffff

-- `bool::from_str`.
unfoldable pub parse_bool : String → Option Bool
parse_bool s = if str_eq s "true" then some true else if str_eq s "false" then some false else none

unfoldable pub comma_separated : String → List String
unfolding split trim
comma_separated value = filter (λ part. not (is_empty_str part)) (map trim (split b',' value))

module _ (var : String → Option String) where
  unfoldable pub optional_env : String → Option String
  unfolding trim
  optional_env name = option_filter (λ value. not (is_empty_str (trim value))) (var name)

  unfoldable pub comma_separated_env : String → List String
  unfolding optional_env comma_separated
  comma_separated_env name = unwrap_or (option_map comma_separated (optional_env name)) []

  unfoldable pub parse_env {ℓ} :
      {T : Type ℓ} → (String → Option T) → String → String → Result T ConfigError
  parse_env parse name default =
      let value = unwrap_or (var name) default in ok_or (parse value) (invalid_value name value)

  unfoldable pub seconds_env : String → ℕ → Result ℕ ConfigError
  unfolding parse_env parse_unsigned to_string
  seconds_env name default = do
    secs ← parse_env (parse_unsigned u64_max) name (to_string default)
    ok (from_secs secs)

  unfoldable pub mb_env : String → ℕ → Result ℕ ConfigError
  unfolding parse_env parse_unsigned to_string
  mb_env name default = parse_env (parse_unsigned u64_max) name (to_string default)

  unfoldable pub positive_u32_env : String → ℕ → Result ℕ ConfigError
  unfolding parse_env parse_unsigned to_string
  positive_u32_env name default = do
    value ← parse_env (parse_unsigned u32_max) name (to_string default)
    if value == 0 then err (invalid_value name (to_string value)) else ok value

  unfoldable pub positive_usize_env : String → ℕ → Result ℕ ConfigError
  unfolding parse_env parse_unsigned to_string
  positive_usize_env name default = do
    value ← parse_env (parse_unsigned u64_max) name (to_string default)
    if value == 0 then err (invalid_value name (to_string value)) else ok value
