-- ===== src/Server/RateLimit/Bypass.antt =====
-- crates/eiger-server/src/main.rs and crates/eiger-api/src/lib.rs: the key of the limit per token beside
-- the token that a request is authorized by.
use text.Mathlib.TextEquality.{eq_iff}
use text.Mathlib.Text.{◌==◌ as str_eq}
use eiger.Common.{◌≡◌, refl, String, true, false, Option, some}
use eiger.Text.{is_empty_str, trim, append}
use eiger.Api.Auth.{authorized}
use eiger.Server.RateLimit.{extract, bearer_token}

bearer_token-append :
    (x : String) → is_empty_str (trim x) ≡ false → bearer_token (some (append "Bearer " x)) ≡ some x
unfolding bearer_token
bearer_token-append x there = rw there refl

-- A request whose query has the token of the service is authorized whatever bearer token its header
-- has, and the key of its limit is that bearer token, unless it is blank. So a client that knows the token
-- chooses the key of the limit per token freely.
pub extract-authorized :
    (decode : String → Option String) (expected x : String) (query : Option String)
    → is_empty_str (trim x) ≡ false
    → (authorized (some expected) (some (append "Bearer " x)) (some expected) ≡ true)
      × (extract decode (some (append "Bearer " x)) query ≡ x)
unfolding authorized extract
extract-authorized decode expected x query there =
    let same : str_eq expected expected ≡ true = (eq_iff expected expected).1 refl in
    (rw same refl, rw (bearer_token-append x there) refl)
