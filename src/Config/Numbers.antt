-- ===== src/Config/Numbers.antt =====
-- The numbers of the configuration, as the environment says them.
use eiger.Common.{
  ℕ, ◌≡◌, refl, ◌⊎◌, ◌==◌, inl, inr, Result, leb, Bool-cases, ap, ok_or, ==_iff, ◌>>=◌, String,
  Option, none, some, ok, err, if◌then◌else◌,
}
use eiger.Text.Decimal.{to_string, parse_unsigned}
use eiger.Text.Decimal.Reading.{number_of, fit, parse_unsigned-number_of, number_of-to_string}
use eiger.Config.{ConfigError, invalid_value, from_secs}
use eiger.Config.Env.{
  u32_max, u64_max, parse_env, seconds_env, mb_env, positive_u32_env, positive_usize_env,
}

-- The variable is set to the text, or it is not set and the text is that of its default.
abbrev pub Says : (String → Option String) → String → ℕ → String → Type 0
Says var name default text =
    (var name ≡ some text) ⊎ ((var name ≡ none) × (text ≡ to_string default))

module _ (var : String → Option String) (name : String) (default : ℕ) (text : String) where
  -- The number of the text, where it is a number that fits, and otherwise an error that names the
  -- variable and the text.
  abbrev pub checked : ℕ → Option ℕ → Result ℕ ConfigError
  checked max none = err (invalid_value name text)
  checked max (some n) = if leb n max then ok n else err (invalid_value name text)

  -- What is made of a number, where there is one.
  abbrev pub then_ok : (ℕ → Result ℕ ConfigError) → Result ℕ ConfigError → Result ℕ ConfigError
  then_ok f (ok n) = f n
  then_ok f (err e) = err e

  abbrev pub positive : ℕ → Result ℕ ConfigError
  positive n = if n == 0 then err (invalid_value name "0") else ok n

  ok_or-fit : (max : ℕ) (o : Option ℕ) → ok_or (fit max o) (invalid_value name text) ≡ checked max o
  ok_or-fit max none = refl
  ok_or-fit max (some n) = elim (Bool-cases (leb n max)) [ inl h ↦ rw h refl | inr h ↦ rw h refl ]

  parse_env-checked :
      (max : ℕ)
      → Says var name default text
      → parse_env var (parse_unsigned max) name (to_string default) ≡ checked max (number_of text)
  unfolding parse_env
  parse_env-checked max (inl e) =
      rw (e, parse_unsigned-number_of max text) (ok_or-fit max (number_of text))
  parse_env-checked max (inr (e, t)) =
      rw (e, ← t, parse_unsigned-number_of max text) (ok_or-fit max (number_of text))

  positive_same :
      (r : Result ℕ ConfigError)
      → (r >>= λ value. if value == 0 then err (invalid_value name (to_string value)) else ok value)
        ≡ then_ok positive r
  unfolding to_string
  positive_same (ok n) = elim (Bool-cases (n == 0)) [
    | inl h ↦
        let zero_value : n ≡ 0 = (==_iff n 0).0 h in
        rw h (ap (λ k. err (invalid_value name (to_string k))) zero_value)
    | inr h ↦ rw h refl
  ]
  positive_same (err e) = refl

  seconds_same :
      (r : Result ℕ ConfigError)
      → (r >>= λ secs. ok (from_secs secs)) ≡ then_ok (λ n. ok (from_secs n)) r
  seconds_same (ok n) = refl
  seconds_same (err e) = refl

  -- A variable is read as its text, or as that of its default where it is not set, which is the text of
  -- the default. A text of digits, with or without a plus sign, is its number: a duration and a size
  -- where it fits 64 bits, a `usize` that must be positive where it also is not 0, and a `u32` that must
  -- be positive where it fits 32 bits and is not 0. For every other text, the empty one and those that
  -- are no number included, the error names the variable and the text, and for 0 the variable and `0`.
  pub env_numbers :
      Says var name default text
      → (number_of (to_string default) ≡ some default)
        × (seconds_env var name default
            ≡ then_ok (λ n. ok (from_secs n)) (checked u64_max (number_of text)))
        × (mb_env var name default ≡ checked u64_max (number_of text))
        × (positive_usize_env var name default
            ≡ then_ok positive (checked u64_max (number_of text)))
        × (positive_u32_env var name default ≡ then_ok positive (checked u32_max (number_of text)))
  unfolding seconds_env mb_env positive_usize_env positive_u32_env
  env_numbers says =
      let wide = parse_env-checked u64_max says in
      let narrow = parse_env-checked u32_max says in
      (
        number_of-to_string default,
        rw wide (seconds_same (checked u64_max (number_of text))),
        wide,
        rw wide (positive_same (checked u64_max (number_of text))),
        rw narrow (positive_same (checked u32_max (number_of text))),
      )
