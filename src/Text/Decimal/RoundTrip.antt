-- ===== src/Text/Decimal/RoundTrip.antt =====
-- A number that is written out is read back.
use Prim.Native.Char.{code}
use eiger.Common.{
  ℕ, zero, suc, ◌+◌, ◌-◌, ◌*◌, ◌/◌, ◌%◌, ◌<◌, ◌≤◌, ◌≡◌, refl, ◌∙◌, String, true, false, ◌&&◌, some,
  arith, inl, inr, leb, ltb, ◌==◌, Bool-cases,
}
use eiger.Text.{is_empty_str}
use eiger.Text.Decimal.{digit, show_before, to_string, parse_digits, parse_nonempty, parse_unsigned}

code-digit : (d : ℕ) → d < 10 → code (digit d) ≡ d + b'0'
unfolding digit
code-digit zero h = refl
code-digit (suc zero) h = refl
code-digit (suc (suc zero)) h = refl
code-digit (suc (suc (suc zero))) h = refl
code-digit (suc (suc (suc (suc zero)))) h = refl
code-digit (suc (suc (suc (suc (suc zero))))) h = refl
code-digit (suc (suc (suc (suc (suc (suc zero)))))) h = refl
code-digit (suc (suc (suc (suc (suc (suc (suc zero))))))) h = refl
code-digit (suc (suc (suc (suc (suc (suc (suc (suc zero)))))))) h = refl
code-digit (suc (suc (suc (suc (suc (suc (suc (suc (suc zero))))))))) h = refl
code-digit (suc (suc (suc (suc (suc (suc (suc (suc (suc (suc d)))))))))) h = absurd (omega arith)

parse_digit :
    (max acc d : ℕ) (rest : String)
    → d < 10
    → acc * 10 + d ≤ max
    → parse_digits max acc (String.◌∷◌ (digit d) rest) ≡ parse_digits max (acc * 10 + d) rest
unfolding parse_digits
parse_digit max acc d rest h g =
    let value : acc * 10 + (code (digit d) - b'0') ≡ acc * 10 + d = omega (arith, code-digit d h) in
    let good : (leb b'0' (code (digit d)) && leb (code (digit d)) b'9' && leb (acc * 10 + d) max)
        ≡ true =
      ground (arith, code-digit d h) in
    rw (value, good)

parse_digits-show_before :
    (max f n : ℕ) (rest : String)
    → n < f
    → n ≤ max
    → parse_digits max 0 (show_before f n rest) ≡ parse_digits max n rest
unfolding show_before
parse_digits-show_before max zero n rest h g = absurd (omega arith)
parse_digits-show_before max (suc f) n rest h g = elim (Bool-cases (ltb n 10)) [
  | inl e ↦
      let same : 0 * 10 + n % 10 ≡ n = ground arith in
      rw e (parse_digit max 0 (n % 10) rest (omega arith) (omega (arith, same)) ∙ rw same)
  | inr e ↦
      let same : n / 10 * 10 + n % 10 ≡ n = omega arith in
      let large : 10 ≤ n = ground arith in
      rw e (
        parse_digits-show_before max f (n / 10) (String.◌∷◌ (digit (n % 10)) rest) (omega arith)
          (omega arith)
        ∙ parse_digit max (n / 10) (n % 10) rest (omega arith) (omega (arith, same))
        ∙ rw same)
]

show_before_filled :
    (f n : ℕ) (rest : String)
    → is_empty_str rest ≡ false
    → is_empty_str (show_before f n rest) ≡ false
unfolding show_before
show_before_filled zero n rest h = h
show_before_filled (suc f) n rest h = elim (Bool-cases (ltb n 10)) [
  | inl e ↦ rw e refl
  | inr e ↦ rw e (show_before_filled f (n / 10) (String.◌∷◌ (digit (n % 10)) rest) refl)
]

parse_unsigned_of :
    (max : ℕ) (s : String) {n : ℕ}
    → is_empty_str s ≡ false
    → parse_digits max 0 s ≡ some n
    → parse_unsigned max s ≡ some n
unfolding parse_unsigned parse_nonempty parse_digits
parse_unsigned_of max String.[] h e = cc
parse_unsigned_of max (String.◌∷◌ c s) h e = elim (Bool-cases (code c == b'+')) [
  | inl g ↦ absurd (ground arith)
  | inr g ↦ rw g e
]

to_string_filled : (n : ℕ) → is_empty_str (to_string n) ≡ false
unfolding to_string show_before
to_string_filled n = elim (Bool-cases (ltb n 10)) [
  | inl e ↦ rw e refl
  | inr e ↦ rw e (show_before_filled n (n / 10) (String.◌∷◌ (digit (n % 10)) "") refl)
]

to_string-digits : (max n : ℕ) → n ≤ max → parse_digits max 0 (to_string n) ≡ some n
unfolding to_string parse_digits
to_string-digits max n h = parse_digits-show_before max (suc n) n "" (omega arith) h

pub parse_unsigned-to_string : (max n : ℕ) → n ≤ max → parse_unsigned max (to_string n) ≡ some n
parse_unsigned-to_string max n h =
    parse_unsigned_of max (to_string n) (to_string_filled n) (to_string-digits max n h)
