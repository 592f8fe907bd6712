-- ===== src/Metrics/Prometheus/Labels.antt =====
-- crates/eiger-metrics/src/lib.rs: what a reader of the text format makes of a label.
use Prim.Native.Char.{Char, code}
use text.Mathlib.TextEquality.{Char-path}
use eiger.Common.{
  ◌==◌, ◌≡◌, refl, ap, ◌∙◌, String, Bool, true, false, Option, none, some, option_map,
  if◌then◌else◌, Bool-cases, inl, inr, ==_iff,
}
use eiger.Text.{append, replace, lacks}
use eiger.Metrics.Prometheus.{escape_label}

-- The character that follows a backslash, in the format: `n` stands for a line feed.
abbrev unescaped : Char → Char
unescaped c = if code c == b'n' then "\n" else c

abbrev onto : Char → Option (String × String) → Option (String × String)
onto c o = option_map (λ (p : String × String). (String.◌∷◌ c p.0, p.1)) o

-- Reads a label up to its quote, and says what follows it. A line feed ends the line, and so the label
-- is not read. `escaped` tells whether a backslash stands before.
unfoldable pub read_label : Bool → String → Option (String × String)
read_label escaped String.[] = none
read_label true (String.◌∷◌ c s) = onto (unescaped c) (read_label false s)
read_label false (String.◌∷◌ c s) =
    let escape = read_label true s in
    let more = onto c (read_label false s) in
    if b'"' == code c
    then some ("", s)
    else if b'\\' == code c
    then escape
    else if code c == b'\n'
    then none
    else more

-- What one character of a label becomes.
abbrev escaped : Char → String → String
escaped c rest =
    if b'\\' == code c
    then append "\\\\" rest
    else if b'"' == code c
    then append "\\\"" rest
    else String.◌∷◌ c rest

escape_label-cons :
    (c : Char) (s : String) → escape_label (String.◌∷◌ c s) ≡ escaped c (escape_label s)
unfolding escape_label replace
escape_label-cons c s = elim (Bool-cases (b'\\' == code c)) [
  | inl h ↦ rw h refl
  | inr h ↦ elim (Bool-cases (b'"' == code c)) [ inl g ↦ rw (h, g) refl | inr g ↦ rw (h, g) refl ]
]

of_code : (c d : Char) → (code c == code d) ≡ true → c ≡ d
of_code c d h = Char-path c d ((==_iff (code c) (code d)).0 h)

tail_lacks : (c : Char) (s : String) → lacks b'\n' (String.◌∷◌ c s) ≡ true → lacks b'\n' s ≡ true
tail_lacks c s h = elim (Bool-cases (code c == b'\n')) [
  | inl e ↦ let no = rw e at h in cc
  | inr e ↦ rw e at h
]

no_line_feed :
    (c : Char) (s : String) → lacks b'\n' (String.◌∷◌ c s) ≡ true → (code c == b'\n') ≡ false
no_line_feed c s h = elim (Bool-cases (code c == b'\n')) [
  | inl e ↦ let no = rw e at h in cc
  | inr e ↦ e
]

-- A value that has no line feed is read back from its label as it was, with what follows the quote: no
-- value can end its label early or take the text after it in.
pub read_label-escape_label :
    (value rest : String)
    → lacks b'\n' value ≡ true
    → read_label false (append (escape_label value) (String.◌∷◌ "\"" rest)) ≡ some (value, rest)
unfolding read_label
read_label-escape_label String.[] rest h = unfold escape_label replace in refl
read_label-escape_label (String.◌∷◌ c s) rest h =
    let later = read_label-escape_label s rest (tail_lacks c s h) in
    rw (escape_label-cons c s) (elim (Bool-cases (b'\\' == code c)) [
      | inl e ↦
          let same : "\\" ≡ c = of_code "\\" c e in
          rw e (ap (onto "\\") later ∙ ap (λ x. some (String.◌∷◌ x s, rest)) same)
      | inr e ↦ elim (Bool-cases (b'"' == code c)) [
        | inl g ↦
            let same : "\"" ≡ c = of_code "\"" c g in
            rw (e, g) (ap (onto "\"") later ∙ ap (λ x. some (String.◌∷◌ x s, rest)) same)
        | inr g ↦ rw (e, g) (rw (e, g, no_line_feed c s h) (ap (onto c) later))
      ]
    ])
