-- ===== src/Api/Proxy.antt =====
-- crates/eiger-api/src/lib.rs: `proxy_websocket`, which passes messages on between the client and the
-- browser, and adds the commands that inject the stealth scripts.
pub mod Forwards
pub mod Hiding
pub mod Interleaved
pub mod Transparent
use eiger.Common.{
  ◌==◌, ℕ, String, Bool, true, false, ◌&&◌, List, [], ◌∷◌, ◌++◌, Option, none, some, Result, ok,
  err, and_then, leb, fetch_add, if◌then◌else◌,
}
use eiger.Common.Exec.{Outcome, done, failed, ◌>>=◌, ◌>>◌, give, raise}
use eiger.Text.{is_one_of}
use eiger.Serde.{Serde}
use eiger.Socket.{UpstreamMessage, Socket, send}
use eiger.Stealth.Scripts.{StealthScript, baseline_scripts}
use eiger.Api.Cdp.{is_text, str_at, id_of, request}

abbrev pub eiger_cdp_id_start : ℕ
eiger_cdp_id_start = 9_000_000_000

-- axum's `Message`.
pub data Message : Type 0 where
  text : String → Message
  binary ping pong : List ℕ → Message
  close : Option (ℕ × String) → Message

-- The sending side of the upstream socket, the counter of ids, and what the client was sent.
pub record Proxy : Type 0 where
  pub upstream : Socket
  pub eiger_cdp_id : ℕ
  pub to_client : List Message

abbrev pub Proxied : Type 0 → Type 0
Proxied A = Proxy → Outcome Proxy String A

abbrev sent_with : Option String × Socket → Proxy → Outcome Proxy String (Unit {0})
sent_with (none, s) p = done tt (record p { upstream = s })
sent_with (some e, s) p = failed e (record p { upstream = s })

-- `upstream_sender.lock().await.send(message)`.
unfoldable pub send_upstream : UpstreamMessage → Proxied (Unit {0})
send_upstream message p = sent_with (send message p.upstream) p

unfoldable pub axum_to_upstream_message : Message → Option UpstreamMessage
axum_to_upstream_message (Message.text t) = some (UpstreamMessage.text t)
axum_to_upstream_message (Message.binary b) = some (UpstreamMessage.binary b)
axum_to_upstream_message (Message.ping b) = some (UpstreamMessage.ping b)
axum_to_upstream_message (Message.pong b) = some (UpstreamMessage.pong b)
axum_to_upstream_message (Message.close c) = some (UpstreamMessage.close none)

abbrev take_id : Proxied ℕ
take_id p = done p.eiger_cdp_id (record p { eiger_cdp_id = fetch_add p.eiger_cdp_id })

abbrev at_least : ℕ → Option ℕ → Bool
at_least n none = false
at_least n (some m) = leb n m

module _ (J : Serde) where
  unfoldable pub is_eiger_cdp_response : J.Value → Bool
  is_eiger_cdp_response value = at_least eiger_cdp_id_start (id_of J value)

  unfoldable pub send_proxy_cdp_command : Option String → String → J.Value → Proxied (Unit {0})
  send_proxy_cdp_command session_id method params = take_id >>= λ id.
      send_upstream (UpstreamMessage.text (J.value_text (request J session_id id method params)))

  -- The loop over the scripts.
  unfoldable pub send_scripts : String → List StealthScript → Proxied (Unit {0})
  send_scripts session_id [] = give tt
  send_scripts session_id (script ∷ scripts) =
      send_proxy_cdp_command (some session_id) "Page.addScriptToEvaluateOnNewDocument"
        (J.object (("source", J.string script.source) ∷ ("runImmediately", J.bool true) ∷ []))
      >> send_proxy_cdp_command (some session_id) "Runtime.evaluate"
          (J.object (("expression", J.string script.source) ∷ []))
      >> send_scripts session_id scripts

  unfoldable pub send_stealth_commands : String → Proxied (Unit {0})
  send_stealth_commands session_id =
      send_proxy_cdp_command (some session_id) "Page.enable" (J.object [])
      >> send_scripts session_id baseline_scripts

  -- `matches!(target_type, Some("page" | "iframe"))`.
  abbrev pub is_page : Option String → Bool
  is_page none = false
  is_page (some t) = is_one_of ("page" ∷ "iframe" ∷ []) t

  -- The session of an event that a page or a frame was attached.
  unfoldable pub attached_session : J.Value → Option String
  attached_session value =
      if is_text "Target.attachedToTarget" (str_at J value "method")
      then and_then (J.get value "params") (λ params.
        and_then (str_at J params "sessionId") λ session_id.
          if is_page (and_then (J.get params "targetInfo") (λ target. str_at J target "type"))
          then some session_id
          else none)
      else none

  abbrev pub inject_into : Option String → Proxied (Unit {0})
  inject_into none = give tt
  inject_into (some session_id) = send_stealth_commands session_id

  unfoldable pub inject_stealth_from_proxy_event : J.Value → Proxied (Unit {0})
  inject_stealth_from_proxy_event value = inject_into (attached_session value)

  -- The part of `upstream_to_axum_message` for a text that is JSON.
  unfoldable pub pass_value : Bool → String → J.Value → Proxied (Option Message)
  pass_value stealth_enabled t value =
      if is_eiger_cdp_response value
      then give none
      else ((if stealth_enabled then inject_stealth_from_proxy_event value else give tt)
          >> give (some (Message.text t)))

  unfoldable pub upstream_to_axum_message : Bool → UpstreamMessage → Proxied (Option Message)
  upstream_to_axum_message stealth_enabled (UpstreamMessage.text t) = elim (J.from_str t) [
    | ok value ↦ pass_value stealth_enabled t value
    | err e ↦ give (some (Message.text t))
  ]
  upstream_to_axum_message stealth_enabled (UpstreamMessage.binary b) =
      give (some (Message.binary b))
  upstream_to_axum_message stealth_enabled (UpstreamMessage.ping b) = give (some (Message.ping b))
  upstream_to_axum_message stealth_enabled (UpstreamMessage.pong b) = give (some (Message.pong b))
  upstream_to_axum_message stealth_enabled (UpstreamMessage.close c) =
      give (some (Message.close none))
  upstream_to_axum_message stealth_enabled (UpstreamMessage.frame b) = give none

  -- The session of a client's command that loads or shows a page.
  abbrev command_session : J.Value → Option String
  command_session value = and_then (str_at J value "method") λ method.
      if is_one_of
        ("Page.navigate" ∷ "Page.reload" ∷ "Page.printToPDF" ∷ "Page.captureScreenshot" ∷ []) method
      then str_at J value "sessionId"
      else none

  unfoldable pub client_message_stealth_session : Message → Option String
  client_message_stealth_session (Message.text t) = elim (J.from_str t) [
    | ok value ↦ command_session value
    | err e ↦ none
  ]
  client_message_stealth_session (Message.binary b) = none
  client_message_stealth_session (Message.ping b) = none
  client_message_stealth_session (Message.pong b) = none
  client_message_stealth_session (Message.close c) = none

  abbrev pub forward : Option UpstreamMessage → Proxied (Unit {0})
  forward none = give tt
  forward (some message) = send_upstream message

  abbrev pub inject_before : Bool → Message → Proxied (Unit {0})
  inject_before stealth_enabled message =
      if stealth_enabled then inject_into (client_message_stealth_session message) else give tt

  -- One round of the loop from the client.
  unfoldable pub from_client : Bool → Message → Proxied (Unit {0})
  from_client stealth_enabled message =
      inject_before stealth_enabled message >> forward (axum_to_upstream_message message)

  -- A message for the client, which may be gone.
  abbrev pub deliver : Option Message → Proxied (Unit {0})
  deliver none p = done tt p
  deliver (some message) p = done tt (record p { to_client = p.to_client ++ message ∷ [] })

  -- One round of the loop from the browser, where the client takes the message.
  unfoldable pub from_upstream : Bool → UpstreamMessage → Proxied (Unit {0})
  from_upstream stealth_enabled message =
      upstream_to_axum_message stealth_enabled message >>= deliver

-- What the two loops wait for: the next message of the client or of the browser, an error of the
-- browser's socket, or the end of a side, which ends the proxy.
pub data Event : Type 0 where
  client : Message → Event
  upstream : UpstreamMessage → Event
  upstream_error : String → Event
  ended : Event

module _ (J : Serde) where
  -- The two loops, whose rounds come in the order of the events.
  unfoldable pub proxy_loops : Bool → List Event → Proxied (Unit {0})
  proxy_loops stealth_enabled [] = give tt
  proxy_loops stealth_enabled (client message ∷ events) =
      from_client J stealth_enabled message >> proxy_loops stealth_enabled events
  proxy_loops stealth_enabled (upstream message ∷ events) =
      from_upstream J stealth_enabled message >> proxy_loops stealth_enabled events
  proxy_loops stealth_enabled (upstream_error e ∷ events) = raise e
  proxy_loops stealth_enabled (ended ∷ events) = give tt

  -- `proxy_websocket`, where `connect` is `connect_async`.
  unfoldable pub proxy_websocket :
      (String → Result Socket String) → String → Bool → List Event → Result Proxy String
  proxy_websocket connect upstream_url stealth_enabled events = elim (connect upstream_url) [
    | err e ↦ err e
    | ok s ↦
        elim (proxy_loops stealth_enabled events
          (record { upstream = s; eiger_cdp_id = eiger_cdp_id_start; to_client = [] })) [
            | done u p ↦ ok p
            | failed e p ↦ err e
          ]
  ]
