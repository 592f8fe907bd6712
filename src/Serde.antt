-- ===== src/Serde.antt =====
-- What the code calls of `serde_json`, and the `f64` of its numbers: the types and operations are
-- parameters. An error stands for its text.
use eiger.Common.{ℕ, String, Bool, List, Option, Result}

pub record Serde : Type 1 where
  pub F64 : Type 0
  -- the literal `digits / 10 ^ places`
  pub literal : ℕ → ℕ → F64
  pub f64_from : ℕ → F64
  pub div : F64 → F64 → F64
  pub ceil : F64 → F64
  pub max : F64 → F64 → F64
  -- `as u64`
  pub as_integer : F64 → ℕ
  pub Value : Type 0
  pub from_str : String → Result Value String
  -- `Display for Value`
  pub value_text : Value → String
  pub get : Value → String → Option Value
  pub as_str : Value → Option String
  pub as_u64 : Value → Option ℕ
  pub as_f64 : Value → Option F64
  pub is_null : Value → Bool
  -- `value[key] = v`
  pub insert : Value → String → Value → Value
  pub null : Value
  pub string : String → Value
  pub number : ℕ → Value
  pub float : F64 → Value
  pub bool : Bool → Value
  -- `json!({ ... })`
  pub object : List (String × Value) → Value
