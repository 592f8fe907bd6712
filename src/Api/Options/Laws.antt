-- ===== src/Api/Options/Laws.antt =====
-- crates/eiger-api/src/lib.rs: which options to load a page are accepted.
use eiger.Common.{
  ◌≡◌, refl, ℕ, ◌<◌, ◌*◌, ◌==◌, ◌↔◌, String, false, Option, ok, unwrap_or, subst, bind_ok, true,
  List, [], ◌∷◌, none, some, ◌⊎◌, ok_injective, Bool-cases, inl, inr, arith, sym,
}
use text.Mathlib.Text.{◌==◌ as str_eq}
use text.Mathlib.TextEquality.{eq_iff}
use eiger.Text.{is_empty_str, trim, to_ascii_lowercase, is_one_of}
use eiger.Api.Requests.{
  WaitUntil, PageLoadOptions, load, dom_content_loaded, network_idle, network_almost_idle,
}
use eiger.Api.WaitUntil
use eiger.Api.Options.{from_millis, page_load_options}

-- The spellings of each value of `waitUntil`, in lower case.
abbrev pub spellings : WaitUntil → List String
spellings load = "load" ∷ []
spellings dom_content_loaded = "domcontentloaded" ∷ []
spellings network_idle = "networkidle" ∷ "networkidle0" ∷ []
spellings network_almost_idle = "networkalmostidle" ∷ "networkidle2" ∷ []

-- The value that a request waits for: `load` where it says nothing, and otherwise the one of its
-- spelling, without the white space around it and whatever the case of its letters.
abbrev pub Waits : Option String → WaitUntil → Type 0
Waits none w = w ≡ load
Waits (some value) w = is_one_of (spellings w) (to_ascii_lowercase (trim value)) ≡ true

parse_value-Waits :
    (value : String) (w : WaitUntil) → WaitUntil.parse (some value) ≡ ok w → Waits (some value) w
unfolding WaitUntil.parse WaitUntil.parse_value
parse_value-Waits value w e =
    let name = to_ascii_lowercase (trim value) in
    elim (Bool-cases (is_one_of (spellings load) name)) [
      | inl h ↦ let same : load ≡ w = ok_injective (rw h at e) in rw (← same) h
      | inr h ↦ elim (Bool-cases (is_one_of (spellings dom_content_loaded) name)) [
        | inl g ↦ let same : dom_content_loaded ≡ w = ok_injective (rw (h, g) at e) in rw (← same) g
        | inr g ↦ elim (Bool-cases (is_one_of (spellings network_idle) name)) [
          | inl k ↦ let same : network_idle ≡ w = ok_injective (rw (h, g, k) at e) in rw (← same) k
          | inr k ↦ elim (Bool-cases (is_one_of (spellings network_almost_idle) name)) [
            | inl l ↦
                let same : network_almost_idle ≡ w = ok_injective (rw (h, g, k, l) at e) in
                rw (← same) l
            | inr l ↦ absurd (let no = rw (h, g, k, l) at e in cc)
          ]
        ]
      ]
    ]

one_of :
    (t : String) (ts : List String) (s : String)
    → is_one_of (t ∷ ts) s ≡ true
    → (s ≡ t) ⊎ (is_one_of ts s ≡ true)
one_of t ts s e = elim (Bool-cases (str_eq s t)) [
  | inl h ↦ inl ((eq_iff s t).0 h)
  | inr h ↦ inr (rw h at e)
]

Waits-parse_value :
    (value : String) (w : WaitUntil) → Waits (some value) w → WaitUntil.parse (some value) ≡ ok w
unfolding WaitUntil.parse WaitUntil.parse_value
Waits-parse_value value load h = rw h refl
Waits-parse_value value dom_content_loaded h =
    elim (one_of "domcontentloaded" [] (to_ascii_lowercase (trim value)) h) [
      | inl e ↦ rw e refl
      | inr never ↦ absurd cc
    ]
Waits-parse_value value network_idle h =
    elim (one_of "networkidle" ("networkidle0" ∷ []) (to_ascii_lowercase (trim value)) h) [
      | inl e ↦ rw e refl
      | inr more ↦ elim (one_of "networkidle0" [] (to_ascii_lowercase (trim value)) more) [
        | inl e ↦ rw e refl
        | inr never ↦ absurd cc
      ]
    ]
Waits-parse_value value network_almost_idle h =
    elim (one_of "networkalmostidle" ("networkidle2" ∷ []) (to_ascii_lowercase (trim value)) h) [
      | inl e ↦ rw e refl
      | inr more ↦ elim (one_of "networkidle2" [] (to_ascii_lowercase (trim value)) more) [
        | inl e ↦ rw e refl
        | inr never ↦ absurd cc
      ]
    ]

parse-Waits : (o : Option String) (w : WaitUntil) → (WaitUntil.parse o ≡ ok w) ↔ Waits o w
unfolding WaitUntil.parse
parse-Waits none w = (λ e. sym (ok_injective e), λ e. rw e refl)
parse-Waits (some value) w = (parse_value-Waits value w, Waits-parse_value value w)

-- What the options of a request are, field by field.
pub record Accepts (url : String) (wait_until : Option String) (timeout_ms : Option ℕ)
    (o : PageLoadOptions) : Type 0 where
  url_trimmed : o.url ≡ trim url
  url_there : is_empty_str o.url ≡ false
  waits : Waits wait_until o.wait_until
  timeout : o.timeout ≡ unwrap_or timeout_ms 30_000 * 1_000_000
  timeout_positive : 0 < unwrap_or timeout_ms 30_000

accepts :
    (url : String) (wait_until : Option String) (timeout_ms : Option ℕ) (w : WaitUntil)
    → is_empty_str (trim url) ≡ false
    → (from_millis (unwrap_or timeout_ms 30_000) == 0) ≡ false
    → WaitUntil.parse wait_until ≡ ok w
    → Accepts url wait_until timeout_ms (record {
      url = trim url;
      wait_until = w;
      timeout = from_millis (unwrap_or timeout_ms 30_000);
    })
accepts url wait_until timeout_ms w h g parsed = record {
  url_trimmed = refl;
  url_there = h;
  waits = (parse-Waits wait_until w).0 parsed;
  timeout = refl;
  timeout_positive = ground arith;
}

accepted :
    (url : String) (wait_until : Option String) (timeout_ms : Option ℕ) (o : PageLoadOptions)
    → page_load_options url wait_until timeout_ms ≡ ok o
    → Accepts url wait_until timeout_ms o
unfolding page_load_options
accepted url wait_until timeout_ms o e = elim (Bool-cases (is_empty_str (trim url))) [
  | inl h ↦ absurd (let no = rw h at e in cc)
  | inr h ↦ elim (Bool-cases (from_millis (unwrap_or timeout_ms 30_000) == 0)) [
    | inl g ↦ absurd (let no = rw (h, g) at e in cc)
    | inr g ↦ bind_ok (WaitUntil.parse wait_until) _ (rw (h, g) at e) λ w parsed rest.
        subst (Accepts url wait_until timeout_ms) (ok_injective rest)
          (accepts url wait_until timeout_ms w h g parsed)
  ]
]

taken :
    (url : String) (wait_until : Option String) (timeout_ms : Option ℕ) (o : PageLoadOptions)
    → Accepts url wait_until timeout_ms o
    → page_load_options url wait_until timeout_ms ≡ ok o
unfolding page_load_options
taken url wait_until timeout_ms o a =
    let there : is_empty_str (trim url) ≡ false =
      subst (λ u. is_empty_str u ≡ false) a.url_trimmed a.url_there in
    let positive = a.timeout_positive in
    let long : (from_millis (unwrap_or timeout_ms 30_000) == 0) ≡ false = ground arith in
    let urls = sym a.url_trimmed in
    let timeouts = sym a.timeout in
    rw (there, long, (parse-Waits wait_until o.wait_until).1 a.waits)
      (λ i. ok (record { url = urls i; wait_until = o.wait_until; timeout = timeouts i }))

-- Options to load a page are answered exactly where the trimmed URL has a character, the timeout is
-- positive and `waitUntil` is missing or one of its spellings; they then are these, with a timeout of 30 seconds
-- where the request has none.
pub page_load_options-Accepts :
    (url : String) (wait_until : Option String) (timeout_ms : Option ℕ) (o : PageLoadOptions)
    → (page_load_options url wait_until timeout_ms ≡ ok o) ↔ Accepts url wait_until timeout_ms o
page_load_options-Accepts url wait_until timeout_ms o =
    (accepted url wait_until timeout_ms o, taken url wait_until timeout_ms o)
