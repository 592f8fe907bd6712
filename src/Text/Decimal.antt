-- ===== src/Text/Decimal.antt =====
-- `to_string` and `parse` of unsigned integers.
pub mod Bounds
pub mod Reading
pub mod RoundTrip
use Prim.Native.Char.{Char, code}
use eiger.Common.{
  ℕ, zero, suc, ◌+◌, ◌-◌, ◌*◌, ◌/◌, ◌%◌, String, ◌≡◌, refl, ◌&&◌, Option, none, some, leb, ltb,
  ◌==◌, if◌then◌else◌,
}

-- The digit character of a number below 10.
digit : ℕ → Char
digit zero = "0"
digit (suc zero) = "1"
digit (suc (suc zero)) = "2"
digit (suc (suc (suc zero))) = "3"
digit (suc (suc (suc (suc zero)))) = "4"
digit (suc (suc (suc (suc (suc zero))))) = "5"
digit (suc (suc (suc (suc (suc (suc zero)))))) = "6"
digit (suc (suc (suc (suc (suc (suc (suc zero))))))) = "7"
digit (suc (suc (suc (suc (suc (suc (suc (suc zero)))))))) = "8"
digit _ = "9"

-- The digits of `n`, put before `rest`; `n` rounds are enough.
show_before : ℕ → ℕ → String → String
show_before zero n rest = rest
show_before (suc f) n rest =
    let here = String.◌∷◌ (digit (n % 10)) rest in
    let more = show_before f (n / 10) here in if ltb n 10 then here else more

-- `n.to_string()`.
unfoldable pub to_string : ℕ → String
unfolding show_before digit
to_string n = show_before (suc n) n ""

-- The loop of `from_str_radix`: each step is checked against the type's largest value.
parse_digits : ℕ → ℕ → String → Option ℕ
parse_digits max acc String.[] = some acc
parse_digits max acc (String.◌∷◌ c s) =
    let n = acc * 10 + (code c - b'0') in
    let rest = parse_digits max n s in
    if leb b'0' (code c) && leb (code c) b'9' && leb n max then rest else none

parse_nonempty : ℕ → String → Option ℕ
parse_nonempty max String.[] = none
parse_nonempty max (String.◌∷◌ c s) = parse_digits max 0 (String.◌∷◌ c s)

-- `s.parse()` at an unsigned type whose largest value is `max`: a leading `+` is accepted.
unfoldable pub parse_unsigned : ℕ → String → Option ℕ
unfolding parse_nonempty parse_digits
parse_unsigned max String.[] = none
parse_unsigned max (String.◌∷◌ c s) =
    if code c == b'+' then parse_nonempty max s else parse_nonempty max (String.◌∷◌ c s)

show_number : to_string 1536 ≡ "1536"
unfolding to_string
show_number = refl

read_number : parse_unsigned 65535 "+65535" ≡ some 65535
unfolding parse_unsigned
read_number = refl

read_too_large : parse_unsigned 65535 "65536" ≡ none
unfolding parse_unsigned
read_too_large = refl
