-- ===== src/Browser/Cdp.antt =====
-- crates/eiger-browser/src/lib.rs: `cdp_command` and what calls it, and the stealth controller, which
-- attaches to each page and injects the stealth scripts.
pub mod Release
use package.text.Mathlib.Text.{◌==◌ as str_eq}
use eiger.Common.{
  ◌==◌, ◌+◌, ◌%◌, ℕ, String, Bool, true, false, ◌&&◌, List, [], ◌∷◌, Option, none, some, Result, ok,
  err, and_then, unwrap_or, fetch_add, if◌then◌else◌,
}
use eiger.Common.Exec.{Outcome, done, failed, ◌>>=◌, ◌>>◌, give, raise}
use eiger.Text.{append, is_one_of}
use eiger.Serde.{Serde}
use eiger.Socket.{
  UpstreamMessage, text, binary, ping, pong, frame, close, Incoming, received, deadline, Socket,
  send,
}
use eiger.Stealth.Scripts.{StealthScript, baseline_scripts}
use eiger.Browser.{BrowserError, LaunchedBrowser, http, web_socket, cdp_timeout}

pub record TargetDescriptor : Type 0 where
  pub target_type : String
  pub web_socket_debugger_url : Option String

abbrev text_of : UpstreamMessage → Option String
text_of (text t) = some t
text_of (binary b) = none
text_of (ping b) = none
text_of (pong b) = none
text_of (frame b) = none
text_of (close c) = none

abbrev is_number : ℕ → Option ℕ → Bool
is_number n none = false
is_number n (some m) = m == n

-- `matches!(target_type, Some("page" | "iframe"))`.
abbrev pub is_page : Option String → Bool
is_page none = false
is_page (some t) = is_one_of ("page" ∷ "iframe" ∷ []) t

module _ (J : Serde) where
  abbrev pub str_at : J.Value → String → Option String
  str_at value key = and_then (J.get value key) J.as_str

  -- `json!({ "id": id, "method": method, "params": params })`, with the session where there is one.
  unfoldable pub cdp_request : Option String → ℕ → String → J.Value → J.Value
  cdp_request none id method params =
      J.object (("id", J.number id) ∷ ("method", J.string method) ∷ ("params", params) ∷ [])
  cdp_request (some session_id) id method params =
      J.insert
        (J.object (("id", J.number id) ∷ ("method", J.string method) ∷ ("params", params) ∷ []))
        "sessionId" (J.string session_id)

  -- The answer in a message, where it is one to the command 1.
  abbrev reply : J.Value → Option (Result J.Value BrowserError)
  reply value =
      if is_number 1 (and_then (J.get value "id") J.as_u64)
      then some (elim (J.get value "error") [
        | some error ↦ err (BrowserError.cdp_command (J.value_text error))
        | none ↦ ok (unwrap_or (J.get value "result") J.null)
      ])
      else none

  -- The `while` loop, over the messages that come in.
  unfoldable pub await_reply : String → List Incoming → Result J.Value BrowserError
  await_reply method [] = err (BrowserError.cdp_command "websocket closed")
  await_reply method (deadline ∷ rest) = err (cdp_timeout method)
  await_reply method (received (err e) ∷ rest) = err (web_socket e)
  await_reply method (received (ok message) ∷ rest) = elim (text_of message) [
    | none ↦ await_reply method rest
    | some t ↦ elim (J.from_str t) [
      | err e ↦ err (BrowserError.cdp_command e)
      | ok value ↦ elim (reply value) [ none ↦ await_reply method rest | some r ↦ r ]
    ]
  ]

  abbrev replied : String → Option String × Socket → Result J.Value BrowserError
  replied method (some e, s) = err (web_socket e)
  replied method (none, s) = await_reply method s.incoming

  -- On a socket that is connected.
  unfoldable pub command_on : String → J.Value → Socket → Result J.Value BrowserError
  command_on method params s =
      replied method (send (text (J.value_text (cdp_request none 1 method params))) s)

  -- `connect` is `connect_async` at its n-th call; the state is the number of calls.
  module _ (connect : ℕ → String → Result Socket String) where
    unfoldable pub cdp_command : String → String → J.Value → ℕ → Outcome ℕ BrowserError J.Value
    cdp_command ws_url method params n = elim (connect n ws_url) [
      | err e ↦ failed (web_socket e) (n + 1)
      | ok s ↦ elim (command_on method params s) [
        | ok value ↦ done value (n + 1)
        | err e ↦ failed e (n + 1)
      ]
    ]

    unfoldable pub health_check_browser_ws : String → ℕ → Outcome ℕ BrowserError (Unit {0})
    health_check_browser_ws ws_url =
        cdp_command ws_url "Target.getTargets" (J.object []) >>= λ value. give tt

    -- The loop over the scripts, for one target.
    unfoldable pub inject_scripts :
        String → List StealthScript → ℕ → Outcome ℕ BrowserError (Unit {0})
    inject_scripts ws_url [] = give tt
    inject_scripts ws_url (script ∷ scripts) =
        cdp_command ws_url "Page.enable" (J.object [])
        >> cdp_command ws_url "Page.addScriptToEvaluateOnNewDocument"
            (J.object (("source", J.string script.source) ∷ ("runImmediately", J.bool true) ∷ []))
        >> cdp_command ws_url "Runtime.evaluate"
            (J.object (("expression", J.string script.source) ∷ []))
        >> inject_scripts ws_url scripts

    abbrev inject_at : Option String → ℕ → Outcome ℕ BrowserError (Unit {0})
    inject_at none = give tt
    inject_at (some ws_url) = inject_scripts ws_url baseline_scripts

    unfoldable pub inject_targets : List TargetDescriptor → ℕ → Outcome ℕ BrowserError (Unit {0})
    inject_targets [] = give tt
    inject_targets (target ∷ targets) =
        (if is_page (some target.target_type)
          then inject_at target.web_socket_debugger_url
          else give tt)
        >> inject_targets targets

    -- `fetch` is the GET request with the reading of its JSON answer.
    unfoldable pub inject_stealth_into_existing_targets :
        (String → Result (List TargetDescriptor) String)
        → LaunchedBrowser
        → ℕ
        → Outcome ℕ BrowserError (Unit {0})
    inject_stealth_into_existing_targets fetch browser =
        elim (fetch (append browser.http_base_url "/json/list")) [
          | err e ↦ raise (http e)
          | ok targets ↦ inject_targets targets
        ]

-- The controller: its socket, and the id of its next command.
pub record Controller : Type 0 where
  pub socket : Socket
  pub next_id : ℕ

abbrev pub Controlled : Type 0 → Type 0
Controlled A = Controller → Outcome Controller BrowserError A

abbrev controller_sent : Option String × Socket → ℕ → Outcome Controller BrowserError (Unit {0})
controller_sent (none, s) n = done tt (record { socket = s; next_id = n })
controller_sent (some e, s) n = failed (web_socket e) (record { socket = s; next_id = n })

module _ (J : Serde) where
  unfoldable pub send_cdp_message : Option String → String → J.Value → Controlled (Unit {0})
  send_cdp_message session_id method params c =
      controller_sent
        (send (text (J.value_text (cdp_request J session_id c.next_id method params))) c.socket)
        (fetch_add c.next_id)

  -- The loop over the scripts for a page that was attached.
  unfoldable pub send_scripts_to : String → List StealthScript → Controlled (Unit {0})
  send_scripts_to session_id [] = give tt
  send_scripts_to session_id (script ∷ scripts) =
      send_cdp_message (some session_id) "Page.enable" (J.object [])
      >> send_cdp_message (some session_id) "Page.addScriptToEvaluateOnNewDocument"
          (J.object (("source", J.string script.source) ∷ ("runImmediately", J.bool true) ∷ []))
      >> send_cdp_message (some session_id) "Runtime.evaluate"
          (J.object (("expression", J.string script.source) ∷ []))
      >> send_scripts_to session_id scripts

  -- "Target.attachedToTarget": the scripts, where it is a page, and the target runs on.
  unfoldable pub attached : String → Option String → Controlled (Unit {0})
  attached session_id target_type =
      (if is_page target_type then send_scripts_to session_id baseline_scripts else give tt)
      >> send_cdp_message (some session_id) "Runtime.runIfWaitingForDebugger" (J.object [])

  -- "Target.targetCreated".
  unfoldable pub target_created : String → Option String → Controlled (Unit {0})
  target_created target_id target_type =
      if is_page target_type
      then send_cdp_message none "Target.attachToTarget"
          (J.object (("targetId", J.string target_id) ∷ ("flatten", J.bool true) ∷ []))
      else give tt

  abbrev with_text : Option String → (String → Controlled (Unit {0})) → Controlled (Unit {0})
  with_text none f = give tt
  with_text (some s) f = f s

  abbrev with_value : Option J.Value → (J.Value → Controlled (Unit {0})) → Controlled (Unit {0})
  with_value none f = give tt
  with_value (some v) f = f v

  -- One message of the browser.
  unfoldable pub on_event : J.Value → Controlled (Unit {0})
  on_event value = with_text (str_at J value "method") λ method.
      if is_one_of ("Target.targetCreated" ∷ []) method
      then with_value (and_then (J.get value "params") (λ params. J.get params "targetInfo"))
          (λ target_info.
            with_text (str_at J target_info "targetId")
              λ target_id. target_created target_id (str_at J target_info "type"))
      else if is_one_of ("Target.attachedToTarget" ∷ []) method
      then with_value (J.get value "params") (λ params.
        with_text (str_at J params "sessionId") λ session_id.
          attached session_id
            (and_then (J.get params "targetInfo") (λ target. str_at J target "type")))
      else give tt

  -- The `while` loop. A message that is no text is passed over; the deadline is none of this loop.
  unfoldable pub control : List Incoming → Controlled (Unit {0})
  control [] = give tt
  control (deadline ∷ rest) = control rest
  control (received (err e) ∷ rest) = raise (web_socket e)
  control (received (ok message) ∷ rest) = elim (text_of message) [
    | none ↦ control rest
    | some t ↦ elim (J.from_str t) [
      | err e ↦ raise (BrowserError.cdp_command e)
      | ok value ↦ on_event value >> control rest
    ]
  ]

  unfoldable pub run_stealth_controller :
      (String → Result Socket String) → String → Result Controller BrowserError
  run_stealth_controller connect ws_url = elim (connect ws_url) [
    | err e ↦ err (web_socket e)
    | ok s ↦
        elim ((send_cdp_message none "Target.setAutoAttach" (
              J.object (
                ("autoAttach", J.bool true)
                ∷ ("waitForDebuggerOnStart", J.bool true)
                ∷ ("flatten", J.bool true)
                ∷ []))
            >> send_cdp_message none "Target.setDiscoverTargets"
                (J.object (("discover", J.bool true) ∷ []))
            >> control s.incoming)
          (record { socket = s; next_id = 10_000 })) [ done u c ↦ ok c | failed e c ↦ err e ]
  ]
