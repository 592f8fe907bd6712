-- ===== src/Tests/Browsing.antt =====
-- Sockets with messages, over which commands are sent, and a proxy between two sides.
use eiger.Common.{
  ◌≡◌, refl, ◌+◌, ℕ, String, true, List, [], ◌∷◌, ◌++◌, none, some, Result, ok, arith,
}
use eiger.Common.Exec.{done, final, ◌>>=◌, give}
use eiger.Socket.{UpstreamMessage, text, received, Socket, send}
use eiger.Browser.Cdp.{Controller, attached, send_cdp_message, on_event}
use eiger.Browser.Cdp.Release.{Released, on_event-Released}
use eiger.Api.Requests.{PageLoadOptions, load, ScreenshotCapture}
use eiger.Api.Cdp.{request, CdpConnection, command, wait_for_lifecycle}
use eiger.Api.Cdp.Answers.{Answered, command-Answered}
use eiger.Api.Pages.{clear_events, navigate_page}
use eiger.Api.WaitUntil.{lifecycle_name}
use eiger.Api.Cdp.Events.{Announced}
use eiger.Api.Pages.Arrival.{navigate_page-Announced}
use eiger.Api.Proxy.{
  Message, Event, is_eiger_cdp_response, client, upstream, ended, send_stealth_commands,
  upstream_to_axum_message,
}
use eiger.Api.Proxy.Hiding.{proxy_at, injection, injection-hidden}
use eiger.Api.Proxy.Forwards.{asked_by, attached_to, all_sent}
use eiger.Api.Proxy.Transparent.{all_shown}
use eiger.Tests.Json.{Json, json, field, no_fields, string, number, object}

abbrev first_answer : Json
first_answer = object (
    field "id" (number 1)
      (field "result" (object (field "targetId" (string "t") no_fields)) no_fields))

abbrev attached_params : Json
attached_params = object (field "sessionId" (string "s") no_fields)

abbrev attached_event : Json
attached_event =
    object
      (field "method" (string "Target.attachedToTarget") (field "params" attached_params no_fields))

abbrev late_answer : Json
late_answer = object (field "id" (number 9_000_000_002) no_fields)

abbrev loaded_event : Json
loaded_event = object (
    field "method" (string "Page.lifecycleEvent") (
      field "params" (object (field "name" (string "load") no_fields))
        (field "sessionId" (string "s") no_fields)))

abbrev goto : Json
goto = object (field "method" (string "Page.navigate") (field "sessionId" (string "s") no_fields))

abbrev page : Json
page = object (
    field "method" (string "Target.attachedToTarget") (
      field "params"
        (object (
          field "sessionId" (string "f")
            (field "targetInfo" (object (field "type" (string "iframe") no_fields)) no_fields)))
        no_fields))

abbrev pub table : List (String × Json)
table =
    ("answer", first_answer)
    ∷ ("late", late_answer)
    ∷ ("loaded", loaded_event)
    ∷ ("goto", goto)
    ∷ ("page", page)
    ∷ []

abbrev socket : Socket
socket = record { incoming = received (ok (text "answer")) ∷ []; send_errors = []; sent = [] }

abbrev connection : CdpConnection
connection = record { socket = socket; next_id = 1; lifecycle_events = [] }

abbrev connect : String → Result Socket String
connect url = ok socket

-- The state in which a computation succeeds is its last one.
create :
    command (json table) none "Target.createTarget" (object no_fields) connection
    ≡ done
        (object (field "targetId" (string "t") no_fields))
        (final (command (json table) none "Target.createTarget" (object no_fields) connection))
unfolding command ◌>>=◌
create = refl

command-Answered_example :
    ((final (command (json table) none "Target.createTarget" (object no_fields) connection)).next_id
      ≡ 2)
    × ((final (
          command
            (json table)
            none
            "Target.createTarget"
            (object no_fields)
            connection)).socket.sent
        ≡ text (
            (json table).value_text
              (request (json table) none 1 "Target.createTarget" (object no_fields)))
          ∷ [])
    × Answered
        (json table)
        1
        (object (field "targetId" (string "t") no_fields))
        connection.socket.incoming
command-Answered_example =
    command-Answered (json table) none "Target.createTarget" (object no_fields) connection
      (final (command (json table) none "Target.createTarget" (object no_fields) connection))
      (object (field "targetId" (string "t") no_fields)) create

abbrev options : PageLoadOptions
options = record { url = "http://a"; wait_until = load; timeout = 30_000_000_000 }

-- The answer to the navigation comes in, and then the event.
abbrev loading : CdpConnection
loading = record connection {
  socket = record socket {
    incoming = received (ok (text "answer")) ∷ received (ok (text "loaded")) ∷ [];
  };
}

navigates :
    navigate_page (json table) "s" options loading
    ≡ done tt (final (navigate_page (json table) "s" options loading))
unfolding navigate_page clear_events command wait_for_lifecycle ◌>>=◌
navigates = refl

navigate_page-Announced_example : Announced (json table) "load" loading.socket.incoming
unfolding lifecycle_name
navigate_page-Announced_example =
    navigate_page-Announced (json table) "s" options loading
      (final (navigate_page (json table) "s" options loading)) tt navigates

abbrev capture : ScreenshotCapture (ℕ × ℕ)
capture = record { quality = none; omit_background = true; selector = some "h1"; clip = none }

abbrev decode_base64 : String → Result (List ℕ) String
decode_base64 s = ok []

injection-hidden_example :
    (send_stealth_commands (json table) "s" (proxy_at [] [] 9_000_000_000 [])
      ≡ done tt
          (proxy_at [] ([] ++ injection (json table) "s" 9_000_000_000) (9_000_000_000 + 3) []))
    × (upstream_to_axum_message
          (json table)
          true
          (UpstreamMessage.text "late")
          (proxy_at [] [] 9_000_000_003 [])
        ≡ done none (proxy_at [] [] 9_000_000_003 []))
injection-hidden_example =
    injection-hidden (json table) "s" [] [] 9_000_000_000 [] true "late" late_answer 9_000_000_002
      (proxy_at [] [] 9_000_000_003 []) (omega arith) (omega arith) (omega arith) refl refl

abbrev events : List Event
events =
    client (Message.text "hello")
    ∷ upstream (UpstreamMessage.text "late")
    ∷ upstream (UpstreamMessage.text "no json")
    ∷ client (Message.text "goto")
    ∷ upstream (UpstreamMessage.text "page")
    ∷ ended
    ∷ client (Message.text "too late")
    ∷ []

-- An injection before the command of the client that asks for it, and one after the event.
injected_around :
    all_sent (json table) true 9_000_000_000 events
    ≡ text "hello"
      ∷ (injection (json table) "s" 9_000_000_000
          ++ text "goto" ∷ injection (json table) "f" 9_000_000_003
          ++ [])
unfolding all_sent asked_by attached_to is_eiger_cdp_response
injected_around = refl

shown : all_shown (json table) events ≡ Message.text "no json" ∷ Message.text "page" ∷ []
unfolding all_shown is_eiger_cdp_response
shown = refl

abbrev controller : Controller
controller = record { socket = socket; next_id = 10_000 }

handled :
    on_event (json table) attached_event controller
    ≡ done tt (final (on_event (json table) attached_event controller))
unfolding on_event attached send_cdp_message send ◌>>=◌ give
handled = refl

on_event-Released_example :
    Released (json table) "s" (final (on_event (json table) attached_event controller))
on_event-Released_example =
    on_event-Released (json table) attached_event attached_params "s" controller
      (final (on_event (json table) attached_event controller)) tt refl refl refl handled
