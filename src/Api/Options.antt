-- ===== src/Api/Options.antt =====
-- crates/eiger-api/src/lib.rs: `page_load_options` and the options of a print to PDF.
pub mod Laws
use eiger.Common.{
  ℕ, zero, ◌*◌, ◌==◌, String, Bool, false, List, [], ◌∷◌, Option, none, some, Result, ok, err,
  ◌>>=◌, unwrap_or, if◌then◌else◌,
}
use eiger.Text.{append, is_empty_str, trim, to_ascii_lowercase, is_one_of}
use eiger.Serde.{Serde}
use eiger.Api.Requests.{PageLoadOptions, PdfRequest, RestEndpointError, bad_request}
use eiger.Api.WaitUntil

-- `Duration::from_millis`.
abbrev pub from_millis : ℕ → ℕ
from_millis ms = ms * 1_000_000

unfoldable pub page_load_options :
    String → Option String → Option ℕ → Result PageLoadOptions RestEndpointError
unfolding trim WaitUntil.parse
page_load_options url wait_until timeout_ms =
    let url' = trim url in
    let timeout = from_millis (unwrap_or timeout_ms 30_000) in
    if is_empty_str url'
    then err (bad_request "url is required")
    else if timeout == 0
    then err (bad_request "timeoutMs must be greater than 0")
    else WaitUntil.parse wait_until >>= λ w.
        ok (record { url = url'; wait_until = w; timeout = timeout })

module _ (J : Serde) where
  -- `if let Some(x) = field { params[key] = json!(x) }`.
  abbrev pub put {ℓ} : {A : Type ℓ} → String → (A → J.Value) → Option A → J.Value → J.Value
  put key f none params = params
  put key f (some x) params = J.insert params key (f x)

  unfoldable pub pdf_paper_size : String → Result (J.F64 × J.F64) RestEndpointError
  unfolding trim to_ascii_lowercase
  pdf_paper_size format =
      let normalized = to_ascii_lowercase (trim format) in
      if is_one_of ("letter" ∷ []) normalized
      then ok (J.literal 85 1, J.literal 110 1)
      else if is_one_of ("legal" ∷ []) normalized
      then ok (J.literal 85 1, J.literal 140 1)
      else if is_one_of ("tabloid" ∷ "ledger" ∷ []) normalized
      then ok (J.literal 110 1, J.literal 170 1)
      else if is_one_of ("a0" ∷ []) normalized
      then ok (J.literal 331 1, J.literal 468 1)
      else if is_one_of ("a1" ∷ []) normalized
      then ok (J.literal 234 1, J.literal 331 1)
      else if is_one_of ("a2" ∷ []) normalized
      then ok (J.literal 1654 2, J.literal 234 1)
      else if is_one_of ("a3" ∷ []) normalized
      then ok (J.literal 117 1, J.literal 1654 2)
      else if is_one_of ("a4" ∷ []) normalized
      then ok (J.literal 827 2, J.literal 117 1)
      else if is_one_of ("a5" ∷ []) normalized
      then ok (J.literal 583 2, J.literal 827 2)
      else if is_one_of ("a6" ∷ []) normalized
      then ok (J.literal 413 2, J.literal 583 2)
      else err (bad_request (append "unsupported pdf format: " format))

  -- The paper of a request: that of its format, or the viewport at 96 pixels per inch.
  unfoldable pub paper_size : Option String → ℕ × ℕ → Result (J.F64 × J.F64) RestEndpointError
  unfolding pdf_paper_size
  paper_size none viewport = ok (
    J.div (J.f64_from viewport.0) (J.literal 960 1),
    J.div (J.f64_from viewport.1) (J.literal 960 1),
  )
  paper_size (some format) viewport = pdf_paper_size format

  -- The options of the request that are put in only where it has them.
  abbrev pub optional_params : PdfRequest J.F64 → J.Value → J.Value
  optional_params r params = put "preferCSSPageSize" J.bool r.prefer_css_page_size (
      put "footerTemplate" J.string r.footer_template (
        put "headerTemplate" J.string r.header_template (
          put "displayHeaderFooter" J.bool r.display_header_footer (
            put "marginRight" J.float r.margin_right (
              put "marginLeft" J.float r.margin_left (
                put "marginBottom" J.float r.margin_bottom
                  (put "marginTop" J.float r.margin_top (put "scale" J.float r.scale params))))))))

  unfoldable pub pdf_print_options : PdfRequest J.F64 → ℕ × ℕ → Result J.Value RestEndpointError
  unfolding paper_size
  pdf_print_options request viewport = paper_size request.format viewport >>= λ size.
      let params = J.object (
        ("landscape", J.bool (unwrap_or request.landscape false))
        ∷ ("printBackground", J.bool (unwrap_or request.print_background false))
        ∷ ("transferMode", J.string "ReturnAsBase64")
        ∷ []) in
      let sized =
        J.insert (J.insert params "paperWidth" (J.float size.0)) "paperHeight" (J.float size.1) in
      ok (optional_params request sized)
