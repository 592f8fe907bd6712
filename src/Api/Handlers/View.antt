-- ===== src/Api/Handlers/View.antt =====
-- crates/eiger-api/src/lib.rs: `view_sessions`, the page of the sessions.
use eiger.Common.{String, List, [], ◌∷◌, option_map, unwrap_or}
use eiger.Text.{append}
use eiger.Text.Decimal.{to_string}
use eiger.Serde.{Serde}
use eiger.Pool.{SessionInfo, state_text}
use eiger.Pool.Runtime.{Runtime}
use eiger.Pool.Sessions as Sessions
use eiger.Api.Responses.{text}
use eiger.Api.Links.{escape_html, session_devtools_link}
use eiger.Api.Handlers.{External, Request, Handler, guarded}

abbrev concat_all : List String → String
concat_all [] = ""
concat_all (s ∷ ss) = append s (concat_all ss)

unfoldable pub page_start : String
page_start = concat_all (
    "<!doctype html><html><head><meta charset=\"utf-8\"><title>Eiger Sessions</title>"
    ∷ "<style>body{font-family:system-ui,sans-serif;margin:24px;color:#111827}"
    ∷ "table{border-collapse:collapse;width:100%}"
    ∷ "th,td{border-bottom:1px solid #e5e7eb;padding:8px;text-align:left}"
    ∷ "th{font-size:12px;text-transform:uppercase;color:#6b7280}"
    ∷ "td{font-variant-numeric:tabular-nums}a{color:#0369a1}</style></head><body>"
    ∷ "<h1>Sessions</h1><table><thead><tr><th>id</th><th>state</th><th>age</th><th>idle"
    ∷ "</th><th>rss</th><th>cpu</th><th>pid</th><th>devtools</th></tr></thead><tbody>" ∷ [])

abbrev cell : String → String
cell content = append "<td>" (append content "</td>")

module _ {J : Serde} {F32 : Type 0} (x : External J F32) where
  -- The row of a session.
  unfoldable pub session_row : SessionInfo F32 → String
  session_row i =
      let devtools_url = unwrap_or (session_devtools_link x.fetch i) "#" in
      concat_all (
        "<tr>"
        ∷ cell (escape_html (x.show_id i.id))
        ∷ cell (escape_html (state_text i.state))
        ∷ cell (to_string i.age_seconds)
        ∷ cell (to_string i.idle_seconds)
        ∷ cell (unwrap_or (option_map to_string i.rss_bytes) "")
        ∷ cell (unwrap_or (option_map x.show_f32_short i.cpu_percent) "")
        ∷ cell (unwrap_or (option_map to_string i.pid) "")
        ∷ append "<td><a href=\"" (append (escape_html devtools_url) "\">devtools</a></td>")
        ∷ "</tr>"
        ∷ [])

  unfoldable pub session_rows : List (SessionInfo F32) → String
  session_rows [] = ""
  session_rows (i ∷ is) = append (session_row i) (session_rows is)

  unfoldable pub view_sessions : (rt : Runtime) → Request → Handler rt x
  view_sessions rt r = guarded rt x r λ s.
      let rows = session_rows (Sessions.list_sessions rt x.sample r.instant s) in
      (
        record {
          status = 200;
          body =
              text "text/html; charset=utf-8"
                (append page_start (append rows "</tbody></table></body></html>"));
        },
        s,
      )
