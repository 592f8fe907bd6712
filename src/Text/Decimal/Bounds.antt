-- ===== src/Text/Decimal/Bounds.antt =====
-- A number that was parsed fits its type.
use Prim.Native.Char.{code}
use eiger.Common.{
  ℕ, ◌+◌, ◌-◌, ◌*◌, ◌≤◌, ◌≡◌, String, ◌&&◌, some, arith, inl, inr, leb, ◌==◌, Bool-cases,
}
use eiger.Text.Decimal.{parse_digits, parse_nonempty, parse_unsigned}

parse_digits_le :
    (max acc : ℕ) (s : String) {n : ℕ} → acc ≤ max → parse_digits max acc s ≡ some n → n ≤ max
unfolding parse_digits
parse_digits_le max acc String.[] h e = ground arith
parse_digits_le max acc (String.◌∷◌ c s) h e =
    elim (Bool-cases
      (leb b'0' (code c) && leb (code c) b'9' && leb (acc * 10 + (code c - b'0')) max)) [
        | inl g ↦
            let fits : acc * 10 + (code c - b'0') ≤ max = ground arith in
            parse_digits_le max (acc * 10 + (code c - b'0')) s fits (rw (parse_digits, g) at e)
        | inr g ↦ absurd (ground arith)
      ]

parse_nonempty_le : (max : ℕ) (s : String) {n : ℕ} → parse_nonempty max s ≡ some n → n ≤ max
unfolding parse_nonempty
parse_nonempty_le max String.[] e = cc
parse_nonempty_le max (String.◌∷◌ c s) e = parse_digits_le max 0 (String.◌∷◌ c s) (omega arith) e

pub parse_unsigned_le : (max : ℕ) (s : String) {n : ℕ} → parse_unsigned max s ≡ some n → n ≤ max
unfolding parse_unsigned
parse_unsigned_le max String.[] e = cc
parse_unsigned_le max (String.◌∷◌ c s) e = elim (Bool-cases (code c == b'+')) [
  | inl g ↦ parse_nonempty_le max s (rw (parse_unsigned, g) at e)
  | inr g ↦ parse_nonempty_le max (String.◌∷◌ c s) (rw (parse_unsigned, g) at e)
]
