-- ===== src/Api/Cdp/Answers.antt =====
-- crates/eiger-api/src/lib.rs: the answers to the commands.
use mathlib.Core.List.{Mem, mem-cons_self, mem-cons_of_mem}
use eiger.Common.{
  ◌≡◌, sym, ap, subst, ◌∙◌, ℕ, String, true, List, [], ◌∷◌, Option, none, some, Result, ok, err,
  arith, unwrap_or, Bool-cases, Option-cases, Result-cases, inl, inr, refl, ◌++◌, ◌⊎◌, fetch_add,
}
use eiger.Common.Exec.{done, after_done, ◌>>=◌, final}
use eiger.Serde.{Serde}
use eiger.Socket.{
  UpstreamMessage, text, binary, ping, pong, frame, close, Incoming, received, deadline, Socket,
  send, send-incoming, send-cases,
}
use eiger.Api.Requests.{RestEndpointError}
use eiger.Api.Cdp.{
  CdpConnection, id_of, is_number, answer, receive_until, text_of, to_outcome,
  record_lifecycle_event, request, after_send, send_request, command, is_text, str_at, insert_event,
}

-- The message `m` answers the command of the id with `v`.
pub record IsAnswer (J : Serde) (id : ℕ) (v m : J.Value) : Type 0 where
  same_id : id_of J m ≡ some id
  no_error : J.get m "error" ≡ none
  value : v ≡ unwrap_or (J.get m "result") J.null

is_number-some : (n : ℕ) (o : Option ℕ) → is_number n o ≡ true → o ≡ some n
is_number-some n none e = cc
is_number-some n (some m) e = let same : m ≡ n = ground arith in ap some same

pub text_of-some :
    (message : UpstreamMessage) (t : String) → text_of message ≡ some t → message ≡ text t
text_of-some (text u) t e = cc
text_of-some (binary b) t e = cc
text_of-some (ping b) t e = cc
text_of-some (pong b) t e = cc
text_of-some (frame b) t e = cc
text_of-some (close b) t e = cc

pub to_outcome_done :
    {A : Type 0} (r : Result A RestEndpointError) (c d : CdpConnection) (a : A)
    → to_outcome r c ≡ done a d
    → r ≡ ok a
to_outcome_done (ok x) c d a e = cc
to_outcome_done (err x) c d a e = cc

module _ (J : Serde) where
  answer_ok :
      (id : ℕ) (m v : J.Value) (c : CdpConnection)
      → answer J id m c ≡ some (ok v)
      → IsAnswer J id v m
  answer_ok id m v c e = elim (Bool-cases (is_number id (id_of J m))) [
    | inr h ↦ absurd (let no = rw h at e in cc)
    | inl h ↦ elim (Option-cases (J.get m "error")) [
      | inr (x, g) ↦ absurd (let no = rw (h, g) at e in cc)
      | inl g ↦
          let same = rw (h, g) at e in
          record { same_id = is_number-some id (id_of J m) h; no_error = g; value = cc }
    ]
  ]

  -- A text among the messages answers the command.
  abbrev pub Answered : ℕ → J.Value → List Incoming → Type 0
  Answered id v messages =
      (t : String) × (m : J.Value) × Mem (received (ok (text t))) messages
      × (J.from_str t ≡ ok m)
      × IsAnswer J id v m

  later :
      (id : ℕ) (v : J.Value) (x : Incoming) (rest : List Incoming)
      → Answered id v rest
      → Answered id v (x ∷ rest)
  later id v x rest (t, m, there, parsed, a) = (t, m, mem-cons_of_mem x there, parsed, a)

  receive_until-Answered :
      (id : ℕ) (method : String) (messages : List Incoming) (c d : CdpConnection) (v : J.Value)
      → receive_until J (answer J id) method messages c ≡ done v d
      → Answered id v messages
  unfolding receive_until
  receive_until-Answered id method [] c d v e = absurd cc
  receive_until-Answered id method (deadline ∷ rest) c d v e = absurd cc
  receive_until-Answered id method (received (err x) ∷ rest) c d v e = absurd cc
  receive_until-Answered id method (received (ok message) ∷ rest) c d v e =
      elim (Option-cases (text_of message)) [
        | inl h ↦
            later id v _ rest
              (receive_until-Answered id method rest c d v (rw (h, receive_until) at e))
        | inr (t, h) ↦ elim (Result-cases (J.from_str t)) [
          | inr (x, g) ↦ absurd (let no = rw (h, g, receive_until) at e in cc)
          | inl (m, g) ↦
              let c' = record_lifecycle_event J m c in
              elim (Option-cases (answer J id m c')) [
                | inl f ↦ later id v _ rest (
                    receive_until-Answered id method rest c' d v (rw (h, g, f, receive_until) at e))
                | inr (r, f) ↦
                    let same = to_outcome_done r _ d v (rw (h, g, f, receive_until) at e) in
                    let named = text_of-some message t h in
                    (t, m, rw named (mem-cons_self), g, answer_ok id m v c' (rw same at f))
              ]
        ]
      ]

  -- Receiving sends nothing and takes no id.
  record_lifecycle_event-same :
      (value : J.Value) (c : CdpConnection)
      → ((record_lifecycle_event J value c).next_id ≡ c.next_id)
        × ((record_lifecycle_event J value c).socket ≡ c.socket)
  unfolding record_lifecycle_event
  record_lifecycle_event-same value c =
      elim (Bool-cases (is_text "Page.lifecycleEvent" (str_at J value "method"))) [
        | inl h ↦ rw h (insert_event-same _)
        | inr h ↦ rw h (refl, refl)
      ]
    where
      insert_event-same :
          (name : Option String)
          → ((insert_event J name c).next_id ≡ c.next_id)
            × ((insert_event J name c).socket ≡ c.socket)
      insert_event-same none = (refl, refl)
      insert_event-same (some name) = (refl, refl)

  to_outcome_state :
      {A : Type 0} (r : Result A RestEndpointError) (c d : CdpConnection) (a : A)
      → to_outcome r c ≡ done a d
      → c ≡ d
  to_outcome_state (ok x) c d a e = ap final e
  to_outcome_state (err x) c d a e = absurd cc

  receive_until-same :
      (id : ℕ) (method : String) (messages : List Incoming) (c d : CdpConnection) (v : J.Value)
      → receive_until J (answer J id) method messages c ≡ done v d
      → (d.next_id ≡ c.next_id) × (d.socket.sent ≡ c.socket.sent)
  unfolding receive_until
  receive_until-same id method [] c d v e = absurd cc
  receive_until-same id method (deadline ∷ rest) c d v e = absurd cc
  receive_until-same id method (received (err x) ∷ rest) c d v e = absurd cc
  receive_until-same id method (received (ok message) ∷ rest) c d v e =
      elim (Option-cases (text_of message)) [
        | inl h ↦ receive_until-same id method rest c d v (rw (h, receive_until) at e)
        | inr (t, h) ↦ elim (Result-cases (J.from_str t)) [
          | inr (x, g) ↦ absurd (let no = rw (h, g, receive_until) at e in cc)
          | inl (m, g) ↦
              let c' = record_lifecycle_event J m c in
              let same = record_lifecycle_event-same m c in
              let sent_same = ap (λ x. x.sent) same.1 in
              elim (Option-cases (answer J id m c')) [
                | inl f ↦
                    let more =
                      receive_until-same id method rest c' d v (rw (h, g, f, receive_until) at e) in
                    (more.0 ∙ same.0, more.1 ∙ sent_same)
                | inr (r, f) ↦
                    let last = to_outcome_state r _ d v (rw (h, g, f, receive_until) at e) in
                    rw (← last) (same.0, sent_same)
              ]
        ]
      ]

  after_send_done :
      (o : Option String × Socket) (m : UpstreamMessage) (sent : List UpstreamMessage)
      (c d : CdpConnection) (u : Unit {0})
      → (((o.0) ≡ none) × (o.1.sent ≡ sent ++ m ∷ []))
        ⊎ ((e : String) × (o.0 ≡ some e) × (o.1.sent ≡ sent))
      → after_send o c ≡ done u d
      → (d.next_id ≡ c.next_id) × (d.socket.sent ≡ sent ++ m ∷ [])
  after_send_done (none, s) m sent c d u (inl (g, e)) h =
      let same : record c { socket = s } ≡ d = ap final h in rw (← same) (refl, e)
  after_send_done (none, s) m sent c d u (inr (x, g, e)) h = absurd cc
  after_send_done (some y, s) m sent c d u k h = absurd cc

  send_request_done :
      (session_id : Option String) (method : String) (params : J.Value) (c d : CdpConnection)
      (u : Unit {0})
      → send_request J session_id method params c ≡ done u d
      → (d.next_id ≡ fetch_add c.next_id)
        × (d.socket.sent
            ≡ c.socket.sent
              ++ text (J.value_text (request J session_id c.next_id method params)) ∷ [])
  unfolding send_request
  send_request_done session_id method params c d u e =
      let m = text (J.value_text (request J session_id c.next_id method params)) in
      after_send_done (send m c.socket) m c.socket.sent _ d u (send-cases m c.socket) e

  after_send-incoming :
      (o : Option String × Socket) (c d : CdpConnection) (u : Unit {0})
      → after_send o c ≡ done u d
      → o.1 ≡ d.socket
  after_send-incoming (none, s) c d u e = cc
  after_send-incoming (some x, s) c d u e = absurd cc

  send_request-incoming :
      (session_id : Option String) (method : String) (params : J.Value) (c d : CdpConnection)
      → (u : Unit {0}) → send_request J session_id method params c ≡ done u d
      → d.socket.incoming ≡ c.socket.incoming
  unfolding send_request
  send_request-incoming session_id method params c d u e =
      let m = text (J.value_text (request J session_id c.next_id method params)) in
      ap (λ x. x.incoming) (sym (after_send-incoming (send m c.socket) _ d u e))
      ∙ send-incoming m c.socket

  -- A command that succeeds has sent one message, the request under the next id of the connection, which
  -- is one more after it, and its result is that of a message that came in, that has this id and no
  -- error; where the message has no result it is `null`.
  pub command-Answered :
      (session_id : Option String) (method : String) (params : J.Value) (c d : CdpConnection)
      → (v : J.Value) → command J session_id method params c ≡ done v d
      → (d.next_id ≡ fetch_add c.next_id)
        × (d.socket.sent
            ≡ c.socket.sent
              ++ text (J.value_text (request J session_id c.next_id method params)) ∷ [])
        × Answered c.next_id v c.socket.incoming
  unfolding command ◌>>=◌
  command-Answered session_id method params c d v e =
      after_done (send_request J session_id method params c) _ e λ u s first rest.
        let start = send_request_done session_id method params c s u first in
        let kept = receive_until-same c.next_id method s.socket.incoming s d v rest in
        (
          kept.0 ∙ start.0,
          kept.1 ∙ start.1,
          subst (Answered c.next_id v) (send_request-incoming session_id method params c s u first)
              (receive_until-Answered c.next_id method s.socket.incoming s d v rest),
        )
