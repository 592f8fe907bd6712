-- ===== src/Tests/Json.antt =====
-- A concrete JSON: values, a printer, and a parser of the texts of a table. A float is a fraction.
use text.Mathlib.Text.{◌==◌ as str_eq}
use eiger.Common.{
  ℕ, ◌*◌, ◌+◌, ◌/◌, ◌^◌, ◌-◌, String, Bool, true, false, List, [], ◌∷◌, Option, none, some, Result,
  ok, err, leb, if◌then◌else◌,
}
use eiger.Text.{append}
use eiger.Text.Decimal.{to_string}
use eiger.Serde.{Serde}

mutual
  pub data Json : Type 0 where
    null : Json
    bool : Bool → Json
    number : ℕ → Json
    float : ℕ × ℕ → Json
    string : String → Json
    object : Fields → Json

  pub data Fields : Type 0 where
    no_fields : Fields
    field : String → Json → Fields → Fields

abbrev fields_of : List (String × Json) → Fields
fields_of [] = no_fields
fields_of ((k, v) ∷ fs) = field k v (fields_of fs)

abbrev find_field : String → Fields → Option Json
find_field key no_fields = none
find_field key (field k v fs) =
    let rest = find_field key fs in if str_eq k key then some v else rest

abbrev get : Json → String → Option Json
get (object fs) key = find_field key fs
get null key = none
get (bool b) key = none
get (number n) key = none
get (float x) key = none
get (string s) key = none

abbrev add_field : String → Json → Fields → Fields
add_field key v no_fields = field key v no_fields
add_field key v (field k w fs) =
    let rest = add_field key v fs in if str_eq k key then field k v fs else field k w rest

abbrev insert : Json → String → Json → Json
insert (object fs) key v = object (add_field key v fs)
insert null key v = object (field key v no_fields)
insert (bool b) key v = bool b
insert (number n) key v = number n
insert (float x) key v = float x
insert (string s) key v = string s

abbrev as_str : Json → Option String
as_str (string s) = some s
as_str null = none
as_str (bool b) = none
as_str (number n) = none
as_str (float x) = none
as_str (object fs) = none

abbrev as_u64 : Json → Option ℕ
as_u64 (number n) = some n
as_u64 null = none
as_u64 (bool b) = none
as_u64 (float x) = none
as_u64 (string s) = none
as_u64 (object fs) = none

abbrev as_f64 : Json → Option (ℕ × ℕ)
as_f64 (number n) = some (n, 1)
as_f64 (float x) = some x
as_f64 null = none
as_f64 (bool b) = none
as_f64 (string s) = none
as_f64 (object fs) = none

abbrev is_null : Json → Bool
is_null null = true
is_null (bool b) = false
is_null (number n) = false
is_null (float x) = false
is_null (string s) = false
is_null (object fs) = false

abbrev quoted : String → String
quoted s = append "\"" (append s "\"")

mutual
  pub print : Json → String
  print null = "null"
  print (bool true) = "true"
  print (bool false) = "false"
  print (number n) = to_string n
  print (float x) = append (to_string x.0) (append "/" (to_string x.1))
  print (string s) = quoted s
  print (object fs) = append "{" (append (print_fields fs) "}")

  pub print_fields : Fields → String
  print_fields no_fields = ""
  print_fields (field k v no_fields) = append (quoted k) (append ":" (print v))
  print_fields (field k v (field j w fs)) =
      append (quoted k) (append ":" (append (print v) (append "," (print_fields (field j w fs)))))

abbrev look_up : List (String × Json) → String → Result Json String
look_up [] t = err "expected value at line 1 column 1"
look_up ((s, v) ∷ table) t = let rest = look_up table t in if str_eq s t then ok v else rest

abbrev greater : ℕ × ℕ → ℕ × ℕ → ℕ × ℕ
greater (a, b) (c, d) = if leb (c * b) (a * d) then (a, b) else (c, d)

-- The JSON whose parser knows the texts of the table.
abbrev pub json : List (String × Json) → Serde
json table = record {
  F64 = ℕ × ℕ;
  literal = λ n places. (n, 10 ^ places);
  f64_from = λ n. (n, 1);
  div = λ x y. (x.0 * y.1, x.1 * y.0);
  ceil = λ x. ((x.0 + (x.1 - 1)) / x.1, 1);
  max = greater;
  as_integer = λ x. x.0 / x.1;
  Value = Json;
  from_str = look_up table;
  value_text = print;
  get = get;
  as_str = as_str;
  as_u64 = as_u64;
  as_f64 = as_f64;
  is_null = is_null;
  insert = insert;
  null = null;
  string = string;
  number = number;
  float = float;
  bool = bool;
  object = λ fs. object (fields_of fs);
}
