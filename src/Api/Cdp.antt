-- ===== src/Api/Cdp.antt =====
-- crates/eiger-api/src/lib.rs: `CdpConnection`, over which the REST endpoints send commands to the
-- browser and wait for its answers.
pub mod Numbering
pub mod Answers
pub mod Events
use package.text.Mathlib.Text.{◌==◌ as str_eq}
use eiger.Common.{
  ◌==◌, ℕ, String, Bool, true, false, List, [], ◌∷◌, Option, none, some, Result, ok, err, and_then,
  ok_or, unwrap_or, fetch_add, if◌then◌else◌,
}
use eiger.Common.Exec.{Outcome, done, failed, ◌>>=◌, ◌>>◌, give, lift}
use eiger.Text.{append, is_one_of}
use eiger.Serde.{Serde}
use eiger.Socket.{
  UpstreamMessage, text, binary, ping, pong, frame, close, Incoming, received, deadline, Socket,
  send,
}
use eiger.Api.Requests.{
  WaitUntil, RestEndpointError, cdp_web_socket, cdp_protocol, cdp_timeout, invalid_cdp_response,
}
use eiger.Api.WaitUntil.{lifecycle_name}

-- The set of events is a list of their names.
pub record CdpConnection : Type 0 where
  pub socket : Socket
  pub next_id : ℕ
  pub lifecycle_events : List String

-- An `async fn` on a connection.
abbrev pub Cdp : Type 0 → Type 0
Cdp A = CdpConnection → Outcome CdpConnection RestEndpointError A

-- `== Some(s)`.
abbrev pub is_text : String → Option String → Bool
is_text s none = false
is_text s (some t) = str_eq t s

abbrev is_number : ℕ → Option ℕ → Bool
is_number n none = false
is_number n (some m) = m == n

abbrev pub text_of : UpstreamMessage → Option String
text_of (text t) = some t
text_of (binary b) = none
text_of (ping b) = none
text_of (pong b) = none
text_of (frame b) = none
text_of (close c) = none

abbrev pub with_incoming : List Incoming → CdpConnection → CdpConnection
with_incoming messages c = record c { socket = record c.socket { incoming = messages } }

abbrev pub to_outcome {ℓ} :
    {A : Type ℓ}
    → Result A RestEndpointError
    → CdpConnection
    → Outcome CdpConnection RestEndpointError A
to_outcome (ok a) c = done a c
to_outcome (err e) c = failed e c

abbrev pub after_send :
    Option String × Socket → CdpConnection → Outcome CdpConnection RestEndpointError (Unit {0})
after_send (none, s) c = done tt (record c { socket = s })
after_send (some e, s) c = failed (cdp_web_socket e) (record c { socket = s })

module _ (J : Serde) where
  -- `json!({ "id": id, "method": method, "params": params })`, with the session where there is one.
  unfoldable pub request : Option String → ℕ → String → J.Value → J.Value
  request none id method params =
      J.object (("id", J.number id) ∷ ("method", J.string method) ∷ ("params", params) ∷ [])
  request (some session_id) id method params =
      J.insert
        (J.object (("id", J.number id) ∷ ("method", J.string method) ∷ ("params", params) ∷ []))
        "sessionId" (J.string session_id)

  -- `value.get(key).and_then(Value::as_str)`.
  abbrev pub str_at : J.Value → String → Option String
  str_at value key = and_then (J.get value key) J.as_str

  abbrev pub id_of : J.Value → Option ℕ
  id_of value = and_then (J.get value "id") J.as_u64

  abbrev pub insert_event : Option String → CdpConnection → CdpConnection
  insert_event none c = c
  insert_event (some name) c = record c { lifecycle_events = name ∷ c.lifecycle_events }

  unfoldable pub record_lifecycle_event : J.Value → CdpConnection → CdpConnection
  record_lifecycle_event value c =
      if is_text "Page.lifecycleEvent" (str_at value "method")
      then insert_event
          (and_then (and_then (J.get value "params") (λ params. J.get params "name")) J.as_str) c
      else c

  -- A `loop` around `next_json_message` under a timeout: each message that is a text is parsed and
  -- recorded, and `decide` says whether the loop ends with it. The loop goes over the messages that
  -- come in.
  module _ {A : Type 0} (decide : J.Value → CdpConnection → Option (Result A RestEndpointError))
      (method : String) where
    unfoldable pub receive_until :
        List Incoming → CdpConnection → Outcome CdpConnection RestEndpointError A
    unfolding record_lifecycle_event
    receive_until [] c = failed (cdp_protocol "CDP websocket closed") (with_incoming [] c)
    receive_until (deadline ∷ rest) c = failed (cdp_timeout method) (with_incoming rest c)
    receive_until (received (err e) ∷ rest) c = failed (cdp_web_socket e) (with_incoming rest c)
    receive_until (received (ok message) ∷ rest) c = elim (text_of message) [
      | none ↦ receive_until rest c
      | some t ↦ elim (J.from_str t) [
        | err e ↦ failed (cdp_protocol e) (with_incoming rest c)
        | ok value ↦ elim (decide value (record_lifecycle_event value c)) [
          | none ↦ receive_until rest (record_lifecycle_event value c)
          | some r ↦ to_outcome r (with_incoming rest (record_lifecycle_event value c))
        ]
      ]
    ]

    abbrev pub receive : CdpConnection → Outcome CdpConnection RestEndpointError A
    receive c = receive_until c.socket.incoming c

  -- The answer to the command of an id.
  abbrev pub answer : ℕ → J.Value → CdpConnection → Option (Result J.Value RestEndpointError)
  answer id value c =
      if is_number id (id_of value)
      then some (elim (J.get value "error") [
        | some error ↦ err (cdp_protocol (J.value_text error))
        | none ↦ ok (unwrap_or (J.get value "result") J.null)
      ])
      else none

  -- The next id is taken, and the request is sent.
  unfoldable pub send_request : Option String → String → J.Value → Cdp (Unit {0})
  unfolding request send
  send_request session_id method params c =
      let message = text (J.value_text (request session_id c.next_id method params)) in
      after_send (send message c.socket) (record c { next_id = fetch_add c.next_id })

  unfoldable pub command : Option String → String → J.Value → Cdp J.Value
  unfolding send_request receive_until
  command session_id method params c =
      (send_request session_id method params >> receive (answer c.next_id) method) c

  -- The end of the loop: a message of the session, with the event there.
  abbrev pub arrived :
      String → String → J.Value → CdpConnection → Option (Result (Unit {0}) RestEndpointError)
  arrived session_id expected value c =
      if is_text session_id (str_at value "sessionId")
      then (if is_one_of c.lifecycle_events expected then some (ok tt) else none)
      else none

  unfoldable pub wait_for_lifecycle : String → WaitUntil → Cdp (Unit {0})
  unfolding lifecycle_name receive_until
  wait_for_lifecycle session_id wait_until c =
      let expected = lifecycle_name wait_until in
      if is_one_of c.lifecycle_events expected
      then done tt c
      else receive (arrived session_id expected) "Page.lifecycleEvent" c

  unfoldable pub required_string : J.Value → String → Result String RestEndpointError
  required_string value field =
      ok_or (str_at value field) (invalid_cdp_response (append "CDP result missing " field))

  unfoldable pub prepare_page_target : Cdp String
  prepare_page_target = do
    created ← command none "Target.createTarget" (J.object (("url", J.string "about:blank") ∷ []))
    target_id ← lift (required_string created "targetId")
    attached ←
        command none "Target.attachToTarget"
          (J.object (("targetId", J.string target_id) ∷ ("flatten", J.bool true) ∷ []))
    session_id ← lift (required_string attached "sessionId")
    enabled ← command (some session_id) "Page.enable" (J.object [])
    events ←
        command (some session_id) "Page.setLifecycleEventsEnabled"
          (J.object (("enabled", J.bool true) ∷ []))
    give session_id
