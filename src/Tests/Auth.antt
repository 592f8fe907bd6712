-- ===== src/Tests/Auth.antt =====
-- A request with a bearer token.
use eiger.Common.{◌≡◌, ◌↔◌, String, true, Option, none, some}
use eiger.Api.Auth.{authorized, Matches, authorized_iff}

abbrev secret : Option String
secret = some "secret"

abbrev header : Option String
header = some "Bearer secret"

authorized_iff_example : (authorized secret header none ≡ true) ↔ Matches secret header none
authorized_iff_example = authorized_iff secret header none
