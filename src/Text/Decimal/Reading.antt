-- ===== src/Text/Decimal/Reading.antt =====
-- Which texts are numbers, said apart from the parser, which looks at the largest value of its type after
-- each digit.
use Prim.Native.Char.{code}
use eiger.Common.{
  ℕ, ◌+◌, ◌-◌, ◌*◌, ◌≤◌, ◌<◌, ◌≡◌, refl, ◌∙◌, sym, String, Bool, ◌&&◌, true, Option, none, some,
  if◌then◌else◌, arith, inl, inr, leb, ◌==◌, Bool-cases,
}
use eiger.Text.Decimal.{to_string, parse_digits, parse_nonempty, parse_unsigned}
use eiger.Text.Decimal.RoundTrip.{parse_unsigned-to_string}

-- The number of a text of digits after others, whose number is `acc`.
abbrev pub digits : ℕ → String → Option ℕ
digits acc String.[] = some acc
digits acc (String.◌∷◌ c s) =
    let rest = digits (acc * 10 + (code c - b'0')) s in
    if leb b'0' (code c) && leb (code c) b'9' then rest else none

abbrev pub number_after_sign : String → Option ℕ
number_after_sign String.[] = none
number_after_sign (String.◌∷◌ c s) = digits 0 (String.◌∷◌ c s)

-- The number of a text: one digit or more, with or without a plus sign before them.
abbrev pub number_of : String → Option ℕ
number_of String.[] = none
number_of (String.◌∷◌ c s) =
    if code c == b'+' then number_after_sign s else number_after_sign (String.◌∷◌ c s)

abbrev pub fit : ℕ → Option ℕ → Option ℕ
fit max none = none
fit max (some n) = if leb n max then some n else none

fit-digits_over : (max acc : ℕ) (s : String) → max < acc → fit max (digits acc s) ≡ none
fit-digits_over max acc String.[] h = elim (Bool-cases (leb acc max)) [
  | inl e ↦ absurd (ground arith)
  | inr e ↦ rw e refl
]
fit-digits_over max acc (String.◌∷◌ c s) h =
    elim (Bool-cases (leb b'0' (code c) && leb (code c) b'9')) [
      | inl e ↦ rw e (fit-digits_over max (acc * 10 + (code c - b'0')) s (omega arith))
      | inr e ↦ rw e refl
    ]

and_assoc : (a b c : Bool) → (a && (b && c)) ≡ ((a && b) && c)
and_assoc true b c = refl
and_assoc Bool.false b c = refl

parse_digits-digits :
    (max acc : ℕ) (s : String) → acc ≤ max → parse_digits max acc s ≡ fit max (digits acc s)
unfolding parse_digits
parse_digits-digits max acc String.[] h = elim (Bool-cases (leb acc max)) [
  | inl e ↦ rw e refl
  | inr e ↦ absurd (ground arith)
]
parse_digits-digits max acc (String.◌∷◌ c s) h =
    let n = acc * 10 + (code c - b'0') in
    elim (Bool-cases (leb b'0' (code c) && leb (code c) b'9')) [
      | inr e ↦
          let bad : (leb b'0' (code c) && leb (code c) b'9' && leb n max) ≡ Bool.false =
            ground arith in
          rw (bad, e) refl
      | inl e ↦ elim (Bool-cases (leb n max)) [
        | inl g ↦
            let good : (leb b'0' (code c) && leb (code c) b'9' && leb n max) ≡ true =
              ground arith in
            rw (good, e) (parse_digits-digits max n s (ground arith))
        | inr g ↦
            let bad : (leb b'0' (code c) && leb (code c) b'9' && leb n max) ≡ Bool.false =
              ground arith in
            rw (bad, e) (sym (fit-digits_over max n s (ground arith)))
      ]
    ]

parse_nonempty-number_after_sign :
    (max : ℕ) (s : String) → parse_nonempty max s ≡ fit max (number_after_sign s)
unfolding parse_nonempty
parse_nonempty-number_after_sign max String.[] = refl
parse_nonempty-number_after_sign max (String.◌∷◌ c s) =
    parse_digits-digits max 0 (String.◌∷◌ c s) (omega arith)

pub parse_unsigned-number_of : (max : ℕ) (s : String) → parse_unsigned max s ≡ fit max (number_of s)
unfolding parse_unsigned
parse_unsigned-number_of max String.[] = refl
parse_unsigned-number_of max (String.◌∷◌ c s) = elim (Bool-cases (code c == b'+')) [
  | inl e ↦ rw e (parse_nonempty-number_after_sign max s)
  | inr e ↦ rw e (parse_nonempty-number_after_sign max (String.◌∷◌ c s))
]

fit-some : (max : ℕ) (o : Option ℕ) {n : ℕ} → fit max o ≡ some n → o ≡ some n
fit-some max none e = absurd cc
fit-some max (some k) e = elim (Bool-cases (leb k max)) [
  | inl h ↦ rw h at e
  | inr h ↦ absurd (let never = rw h at e in cc)
]

pub number_of-to_string : (n : ℕ) → number_of (to_string n) ≡ some n
number_of-to_string n =
    fit-some n (number_of (to_string n))
      (sym (parse_unsigned-number_of n (to_string n)) ∙ parse_unsigned-to_string n n (omega arith))
