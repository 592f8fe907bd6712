-- ===== src/Api/ScreenshotFormat.antt =====
-- crates/eiger-api/src/lib.rs: `impl ScreenshotFormat`.
use eiger.Common.{String, [], ◌∷◌, Option, none, some, Result, ok, err, if◌then◌else◌}
use eiger.Text.{append, trim, to_ascii_lowercase, is_one_of}
use eiger.Api.Requests.{ScreenshotFormat, png, jpeg, RestEndpointError, bad_request}

unfoldable pub parse : Option String → Result ScreenshotFormat RestEndpointError
unfolding trim to_ascii_lowercase
parse none = ok png
parse (some value) =
    let name = to_ascii_lowercase (trim value) in
    if is_one_of ("png" ∷ []) name
    then ok png
    else if is_one_of ("jpeg" ∷ "jpg" ∷ []) name
    then ok jpeg
    else err (bad_request (append "unsupported screenshot format: " value))

unfoldable pub cdp_name : ScreenshotFormat → String
cdp_name png = "png"
cdp_name jpeg = "jpeg"

unfoldable pub content_type : ScreenshotFormat → String
content_type png = "image/png"
content_type jpeg = "image/jpeg"
