-- ===== src/Api/Auth.antt =====
-- crates/eiger-api/src/lib.rs: `authorized` and `request_token`. The `Authorization` header is the text
-- that the header map has for it, or `none` where it has none or one that is not text.
use Prim.Native.Char.{code}
use text.Mathlib.Text.{◌==◌ as str_eq}
use text.Mathlib.TextEquality.{eq_iff, Char-path}
use eiger.Common.{
  ◌≡◌, refl, ap, ◌∙◌, String, Bool, true, false, Option, none, some, and_then, or_else, ◌⊎◌, inl,
  inr, ◌↔◌, Bool-cases, if◌then◌else◌, ◌==◌, ==_iff, ==_refl, sym,
}
use eiger.Text.{append, strip_prefix}

-- `== Some(expected)`.
abbrev is_token : String → Option String → Bool
is_token expected none = false
is_token expected (some token) = str_eq token expected

abbrev pub bearer : Option String → Option String
bearer authorization = and_then authorization (strip_prefix "Bearer ")

-- `authorized`, where `token` is the token of the state.
unfoldable pub authorized : Option String → Option String → Option String → Bool
authorized none authorization query_token = true
authorized (some expected) authorization query_token =
    if is_token expected query_token then true else is_token expected (bearer authorization)

unfoldable pub request_token : Option String → Option String → Option String
request_token authorization query_token = or_else query_token (bearer authorization)

is_token_iff :
    (expected : String) (o : Option String) → (is_token expected o ≡ true) ↔ (o ≡ some expected)
is_token_iff expected none = (λ h. cc, λ h. cc)
is_token_iff expected (some token) = (
  λ h. ap some ((eq_iff token expected).0 h),
  λ h. (eq_iff token expected).1 (let same : token ≡ expected = cc in same),
)

strip_prefix-some : (p s t : String) → strip_prefix p s ≡ some t → s ≡ append p t
strip_prefix-some String.[] s t e = cc
strip_prefix-some (String.◌∷◌ c p) String.[] t e = absurd cc
strip_prefix-some (String.◌∷◌ c p) (String.◌∷◌ d s) t e = elim (Bool-cases (code c == code d)) [
  | inl h ↦
      let same : c ≡ d = Char-path c d ((==_iff (code c) (code d)).0 h) in
      let rest = strip_prefix-some p s t (rw h at e) in λ i. String.◌∷◌ (sym same i) (rest i)
  | inr h ↦ absurd (let no = rw h at e in cc)
]

strip_prefix-append : (p t : String) → strip_prefix p (append p t) ≡ some t
strip_prefix-append String.[] t = refl
strip_prefix-append (String.◌∷◌ c p) t = rw (==_refl (code c)) (strip_prefix-append p t)

-- A header that is a bearer token.
bearer_iff :
    (authorization : Option String) (token : String)
    → (bearer authorization ≡ some token) ↔ (authorization ≡ some (append "Bearer " token))
bearer_iff none token = (λ h. absurd cc, λ h. absurd cc)
bearer_iff (some header) token = (
  λ h. ap some (strip_prefix-some "Bearer " header token h),
  λ h.
      let same : header ≡ append "Bearer " token = cc in
      rw same (strip_prefix-append "Bearer " token),
)

-- The tokens that a request is authorized by: there is none to give, the query has it, or the header
-- is the scheme `Bearer`, a space and the token.
abbrev pub Matches : Option String → Option String → Option String → Type 0
Matches token authorization query_token =
    (token ≡ none)
    ⊎ ((expected : String) × (token ≡ some expected)
        × ((query_token ≡ some expected) ⊎ (authorization ≡ some (append "Bearer " expected))))

by_header :
    (expected : String) (authorization query_token : Option String)
    → is_token expected query_token ≡ false
    → Matches (some expected) authorization query_token
    → is_token expected (bearer authorization) ≡ true
by_header expected authorization query_token g (inl e) = cc
by_header expected authorization query_token g (inr (x, e, inl q)) =
    let same : query_token ≡ some expected = cc in
    let found = (is_token_iff expected query_token).1 same in cc
by_header expected authorization query_token g (inr (x, e, inr q)) =
    let header : authorization ≡ some (append "Bearer " expected) =
      (let one : x ≡ expected = cc in
        let given : authorization ≡ some (append "Bearer " x) = q in
        given ∙ ap (λ t. some (append "Bearer " t)) one) in
    let same : bearer authorization ≡ some expected =
      (bearer_iff authorization expected).1 header in
    (is_token_iff expected (bearer authorization)).1 same

-- A request is authorized exactly where the service has no token, or the token of the query is the one
-- of the service, or the header is `Bearer`, a space and the token of the service.
pub authorized_iff :
    (token authorization query_token : Option String)
    → (authorized token authorization query_token ≡ true) ↔ Matches token authorization query_token
unfolding authorized
authorized_iff none authorization query_token = (λ h. inl refl, λ h. refl)
authorized_iff (some expected) authorization query_token =
    elim (Bool-cases (is_token expected query_token)) [
      | inl g ↦
          (λ h. inr (expected, refl, inl ((is_token_iff expected query_token).0 g)), λ h. rw g refl)
      | inr g ↦ (
        λ h. inr (
          expected,
          refl,
          inr (
              (bearer_iff authorization expected).0
                ((is_token_iff expected (bearer authorization)).0 (rw g at h))),
        ),
        λ h. rw (g, authorized) (by_header expected authorization query_token g h),
      )
    ]
