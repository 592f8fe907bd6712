-- ===== src/Api/Cdp/Numbering.antt =====
-- crates/eiger-api/src/lib.rs: the ids of the commands that a connection sends.
use eiger.Common.{
  ◌≡◌, refl, ℕ, String, List, [], ◌∷◌, ◌++◌, Option, none, some, Result, ok, err, fetch_add,
  Bool-cases, Option-cases, Result-cases, inl, inr,
}
use eiger.Common.Exec.{final, Keeps, bind-Keeps, lift-Keeps, give-Keeps}
use eiger.Serde.{Serde}
use eiger.Socket.{UpstreamMessage, text, Incoming, received, deadline, send, send_with}
use eiger.Api.Requests.{WaitUntil, RestEndpointError}
use eiger.Text.{is_one_of}
use eiger.Api.WaitUntil.{lifecycle_name}
use eiger.Api.Cdp.{
  CdpConnection, with_incoming, request, record_lifecycle_event, receive_until, receive, answer,
  send_request, command, wait_for_lifecycle, prepare_page_target, text_of, insert_event, is_text,
  str_at, arrived, after_send, to_outcome,
}

-- The messages are requests, each command of which took the next id, from 1 on; `n` is the id of the
-- next one. `errors` is how the sends end, and `left` how those end that are still to come: a command
-- whose send succeeds is the last message, and only one whose send fails takes its id with it.
pub data Numbered (J : Serde) (errors : List (Option String))
    : List UpstreamMessage → ℕ → List (Option String) → Type 0 where
  unsent : Numbered J errors [] 1 errors
  sent :
      {ms : List UpstreamMessage} {n : ℕ} {left : List (Option String)} (session_id : Option String)
      (method : String) (params : J.Value)
      → Numbered J errors ms n (none ∷ left)
      → Numbered J errors
          (ms ++ text (J.value_text (request J session_id n method params)) ∷ [])
          (fetch_add n)
          left
  sent_after_all :
      {ms : List UpstreamMessage} {n : ℕ} (session_id : Option String) (method : String)
      (params : J.Value)
      → Numbered J errors ms n []
      → Numbered J errors
          (ms ++ text (J.value_text (request J session_id n method params)) ∷ [])
          (fetch_add n)
          []
  lost :
      {ms : List UpstreamMessage} {n : ℕ} {left : List (Option String)} (error : String)
      → Numbered J errors ms n (some error ∷ left)
      → Numbered J errors ms (fetch_add n) left

module _ (J : Serde) (errors : List (Option String)) where
  abbrev pub IsNumbered : CdpConnection → Type 0
  IsNumbered c = Numbered J errors c.socket.sent c.next_id c.socket.send_errors

  insert_event-IsNumbered :
      (name : Option String) (c : CdpConnection) → IsNumbered c → IsNumbered (insert_event J name c)
  insert_event-IsNumbered none c i = i
  insert_event-IsNumbered (some name) c i = i

  record_lifecycle_event-IsNumbered :
      (value : J.Value) (c : CdpConnection)
      → IsNumbered c
      → IsNumbered (record_lifecycle_event J value c)
  unfolding record_lifecycle_event
  record_lifecycle_event-IsNumbered value c i =
      elim (Bool-cases (is_text "Page.lifecycleEvent" (str_at J value "method"))) [
        | inl h ↦ rw h (insert_event-IsNumbered _ c i)
        | inr h ↦ rw h i
      ]

  after_send-IsNumbered :
      (session_id : Option String) (method : String) (params : J.Value) (c : CdpConnection)
      (left : List (Option String))
      → c.socket.send_errors ≡ left
      → Numbered J errors c.socket.sent c.next_id left
      → IsNumbered (
          final (
            after_send
              (send_with left
                (text (J.value_text (request J session_id c.next_id method params)))
                c.socket)
              (record c { next_id = fetch_add c.next_id })))
  after_send-IsNumbered session_id method params c [] e i =
      rw e (sent_after_all session_id method params i)
  after_send-IsNumbered session_id method params c (none ∷ left) e i =
      sent session_id method params i
  after_send-IsNumbered session_id method params c (some x ∷ left) e i = lost x i

  send_request-Keeps :
      (session_id : Option String) (method : String) (params : J.Value)
      → Keeps IsNumbered (send_request J session_id method params)
  unfolding send_request send
  send_request-Keeps session_id method params = record {
    holds = λ c i. after_send-IsNumbered session_id method params c c.socket.send_errors refl i;
  }

  to_outcome-IsNumbered :
      {A : Type 0} (r : Result A RestEndpointError) (c : CdpConnection)
      → IsNumbered c
      → IsNumbered (final (to_outcome r c))
  to_outcome-IsNumbered (ok a) c i = i
  to_outcome-IsNumbered (err e) c i = i

  module _ {A : Type 0} (decide : J.Value → CdpConnection → Option (Result A RestEndpointError))
      (method : String) where
    receive_until-IsNumbered :
        (messages : List Incoming) (c : CdpConnection)
        → IsNumbered c
        → IsNumbered (final (receive_until J decide method messages c))
    unfolding receive_until
    receive_until-IsNumbered [] c i = i
    receive_until-IsNumbered (deadline ∷ rest) c i = i
    receive_until-IsNumbered (received (err e) ∷ rest) c i = i
    receive_until-IsNumbered (received (ok message) ∷ rest) c i =
        elim (Option-cases (text_of message)) [
          | inl h ↦ rw (h, final) (receive_until-IsNumbered rest c i)
          | inr (t, h) ↦ elim (Result-cases (J.from_str t)) [
            | inr (e, g) ↦ rw (h, g, final) i
            | inl (value, g) ↦
                let c' = record_lifecycle_event J value c in
                let i' : IsNumbered c' = record_lifecycle_event-IsNumbered value c i in
                elim (Option-cases (decide value c')) [
                  | inl f ↦ rw (h, g, f, final) (receive_until-IsNumbered rest c' i')
                  | inr (r, f) ↦
                      rw (h, g, f, final) (to_outcome-IsNumbered r (with_incoming rest c') i')
                ]
          ]
        ]

    receive-Keeps : Keeps IsNumbered (receive J decide method)
    receive-Keeps = record { holds = λ c i. receive_until-IsNumbered c.socket.incoming c i }

  pub command-Keeps :
      (session_id : Option String) (method : String) (params : J.Value)
      → Keeps IsNumbered (command J session_id method params)
  unfolding command
  command-Keeps session_id method params = record {
    holds = λ c.
        (bind-Keeps _ _ (send_request-Keeps session_id method params)
            (λ _. receive-Keeps (answer J c.next_id) method)).holds
          c;
  }

  pub wait_for_lifecycle-Keeps :
      (session_id : String) (wait_until : WaitUntil)
      → Keeps IsNumbered (wait_for_lifecycle J session_id wait_until)
  unfolding wait_for_lifecycle
  wait_for_lifecycle-Keeps session_id wait_until = record {
    holds = λ c i.
        let expected = lifecycle_name wait_until in
        elim (Bool-cases (is_one_of c.lifecycle_events expected)) [
          | inl h ↦ rw h i
          | inr h ↦
              rw h ((receive-Keeps (arrived J session_id expected) "Page.lifecycleEvent").holds c i)
        ];
  }

  pub prepare_page_target-Keeps : Keeps IsNumbered (prepare_page_target J)
  unfolding prepare_page_target
  prepare_page_target-Keeps = bind-Keeps _ _ (command-Keeps _ _ _) λ created.
      bind-Keeps _ _ (lift-Keeps _) λ target_id. bind-Keeps _ _ (command-Keeps _ _ _) λ attached.
        bind-Keeps _ _ (lift-Keeps _) λ session_id.
          bind-Keeps _ _ (command-Keeps _ _ _)
            λ enabled. bind-Keeps _ _ (command-Keeps _ _ _) λ events. give-Keeps _
