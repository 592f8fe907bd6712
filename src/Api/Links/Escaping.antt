-- ===== src/Api/Links/Escaping.antt =====
-- crates/eiger-api/src/lib.rs: what `escape_html` makes of a text.
use Prim.Native.Char.{Char, code}
use eiger.Common.{
  ◌≡◌, refl, ap, ◌∙◌, sym, ℕ, ◌==◌, String, true, if◌then◌else◌, Bool-cases, inl, inr,
}
use eiger.Text.{append, replace_char, lacks}
use eiger.Api.Links.{escape_html}

-- What a reader of the attribute and of the page has to see in the place of one character.
abbrev entity : Char → String
entity c =
    if code c == b'&'
    then "&amp;"
    else if code c == b'<'
    then "&lt;"
    else if code c == b'>'
    then "&gt;"
    else if code c == b'"'
    then "&quot;"
    else String.◌∷◌ c ""

-- A text with each character replaced once.
abbrev entities : String → String
entities String.[] = ""
entities (String.◌∷◌ c s) = append (entity c) (entities s)

append_assoc : (s t u : String) → append (append s t) u ≡ append s (append t u)
append_assoc String.[] t u = refl
append_assoc (String.◌∷◌ c s) t u = ap (String.◌∷◌ c) (append_assoc s t u)

replace_char-append :
    (from : ℕ) (to s t : String)
    → replace_char from to (append s t) ≡ append (replace_char from to s) (replace_char from to t)
unfolding replace_char
replace_char-append from to String.[] t = refl
replace_char-append from to (String.◌∷◌ c s) t = elim (Bool-cases (code c == from)) [
  | inl e ↦ rw e (
      ap (append to) (replace_char-append from to s t)
      ∙ sym (append_assoc to (replace_char from to s) (replace_char from to t)))
  | inr e ↦ rw e (ap (String.◌∷◌ c) (replace_char-append from to s t))
]

escape_html-append :
    (s t : String) → escape_html (append s t) ≡ append (escape_html s) (escape_html t)
unfolding escape_html
escape_html-append s t =
    let s₁ = replace_char b'&' "&amp;" s in
    let t₁ = replace_char b'&' "&amp;" t in
    let s₂ = replace_char b'<' "&lt;" s₁ in
    let t₂ = replace_char b'<' "&lt;" t₁ in
    rw
      (
        replace_char-append b'&' "&amp;" s t,
        replace_char-append b'<' "&lt;" s₁ t₁,
        replace_char-append b'>' "&gt;" s₂ t₂,
      )
      (replace_char-append b'"' "&quot;" (replace_char b'>' "&gt;" s₂)
        (replace_char b'>' "&gt;" t₂))

escape_html-entity : (c : Char) → escape_html (String.◌∷◌ c "") ≡ entity c
unfolding escape_html replace_char
escape_html-entity c = elim (Bool-cases (code c == b'&')) [
  | inl e ↦ rw e refl
  | inr e ↦ elim (Bool-cases (code c == b'<')) [
    | inl f ↦ rw (e, f) refl
    | inr f ↦ elim (Bool-cases (code c == b'>')) [
      | inl g ↦ rw (e, f, g) refl
      | inr g ↦ elim (Bool-cases (code c == b'"')) [
        | inl h ↦ rw (e, f, g, h) refl
        | inr h ↦ rw (e, f, g, h) refl
      ]
    ]
  ]
]

escape_html_lem : (s : String) → escape_html s ≡ entities s
unfolding escape_html replace_char
escape_html_lem String.[] = refl
escape_html_lem (String.◌∷◌ c s) =
    escape_html-append (String.◌∷◌ c "") s
    ∙ ap (λ x. append x (escape_html s)) (escape_html-entity c)
    ∙ ap (append (entity c)) (escape_html_lem s)

lacks-append :
    (c : ℕ) (s t : String) → lacks c s ≡ true → lacks c t ≡ true → lacks c (append s t) ≡ true
lacks-append c String.[] t hs ht = ht
lacks-append c (String.◌∷◌ d s) t hs ht = elim (Bool-cases (code d == c)) [
  | inl e ↦ absurd (let no = rw e at hs in cc)
  | inr e ↦ rw e (lacks-append c s t (rw e at hs) ht)
]

lacks-entity :
    (d : Char)
    → (lacks b'<' (entity d) ≡ true)
      × (lacks b'>' (entity d) ≡ true)
      × (lacks b'"' (entity d) ≡ true)
lacks-entity d = elim (Bool-cases (code d == b'&')) [
  | inl e ↦ rw e (refl, refl, refl)
  | inr e ↦ elim (Bool-cases (code d == b'<')) [
    | inl f ↦ rw (e, f) (refl, refl, refl)
    | inr f ↦ elim (Bool-cases (code d == b'>')) [
      | inl g ↦ rw (e, f, g) (refl, refl, refl)
      | inr g ↦ elim (Bool-cases (code d == b'"')) [
        | inl h ↦ rw (e, f, g, h) (refl, refl, refl)
        | inr h ↦ rw (e, f, g, h, f, g, h) (refl, refl, refl)
      ]
    ]
  ]
]

lacks-entities :
    (s : String)
    → (lacks b'<' (entities s) ≡ true)
      × (lacks b'>' (entities s) ≡ true)
      × (lacks b'"' (entities s) ≡ true)
lacks-entities String.[] = (refl, refl, refl)
lacks-entities (String.◌∷◌ c s) =
    let one = lacks-entity c in
    let more = lacks-entities s in
    (
      lacks-append b'<' (entity c) (entities s) one.0 more.0,
      lacks-append b'>' (entity c) (entities s) one.1 more.1,
      lacks-append b'"' (entity c) (entities s) one.2 more.2,
    )

-- The four replacements that `escape_html` does one after the other put, at the place of each
-- character, what stands for it, and none touches what another one has put there. The text that is
-- answered has no `<`, no `>` and no `"`, so that it can neither open a tag nor end the attribute it is
-- put in.
pub escape_html-entities :
    (s : String)
    → (escape_html s ≡ entities s)
      × (lacks b'<' (escape_html s) ≡ true)
      × (lacks b'>' (escape_html s) ≡ true)
      × (lacks b'"' (escape_html s) ≡ true)
escape_html-entities s =
    let kept = lacks-entities s in rw (escape_html_lem s) (refl, kept.0, kept.1, kept.2)
