-- ===== src/Api/Cdp/Events.antt =====
-- crates/eiger-api/src/lib.rs: the lifecycle events that a connection has on record.
use package.text.Mathlib.Text.{◌==◌ as str_eq}
use package.text.Mathlib.TextEquality.{eq_iff}
use mathlib.Core.List.{Mem}
use eiger.Common.{
  ◌≡◌, refl, sym, ap, subst, ◌∙◌, String, true, List, [], ◌∷◌, Option, none, some, Result, ok, err,
  and_then, Bool-cases, Option-cases, Result-cases, inl, inr, All, fetch_add,
}
use eiger.Common.Exec.{done, final, after_done, ◌>>=◌}
use eiger.Text.{is_one_of}
use eiger.Serde.{Serde}
use eiger.Socket.{UpstreamMessage, text, Incoming, received, deadline, Socket, send, send-incoming}
use eiger.Api.Requests.{RestEndpointError}
use eiger.Api.Cdp.{
  CdpConnection, with_incoming, request, record_lifecycle_event, receive_until, answer,
  send_request, command, text_of, insert_event, is_text, str_at, arrived, after_send, to_outcome,
}
use eiger.Api.Cdp.Answers.{text_of-some}

is_text-some : (s : String) (o : Option String) → is_text s o ≡ true → o ≡ some s
is_text-some s none e = cc
is_text-some s (some t) e = ap some ((eq_iff t s).0 e)

module _ (J : Serde) where
  -- The name of a lifecycle event.
  abbrev pub event_name : J.Value → Option String
  event_name m = and_then (and_then (J.get m "params") (λ params. J.get params "name")) J.as_str

  -- A text among the messages says that the lifecycle event of a name happened.
  abbrev pub Announced : String → List Incoming → Type 0
  Announced name messages =
      (t : String) × (m : J.Value) × Mem (received (ok (text t))) messages
      × (J.from_str t ≡ ok m)
      × (str_at J m "method" ≡ some "Page.lifecycleEvent")
      × (event_name m ≡ some name)

  -- Where `all` is all that comes in: what is still to come is part of it, and every event on record
  -- was announced in it.
  pub record Heard (all : List Incoming) (c : CdpConnection) : Type 0 where
    pub rest : All (λ x. Mem x all) c.socket.incoming
    pub announced : (name : String) → is_one_of c.lifecycle_events name ≡ true → Announced name all

  module _ (all : List Incoming) where
    abbrev Known : CdpConnection → Type 0
    Known c = (name : String) → is_one_of c.lifecycle_events name ≡ true → Announced name all

    insert-Known :
        (t : String) (m : J.Value) (o : Option String) (c : CdpConnection)
        → Mem (received (ok (text t))) all
        → J.from_str t ≡ ok m
        → str_at J m "method" ≡ some "Page.lifecycleEvent"
        → event_name m ≡ o
        → Known c
        → Known (insert_event J o c)
    insert-Known t m none c there parsed named event k = k
    insert-Known t m (some x) c there parsed named event k = λ name h.
        elim (Bool-cases (str_eq name x)) [
          | inl e ↦
              let same : name ≡ x = (eq_iff name x).0 e in
              (t, m, there, parsed, named, rw same event)
          | inr e ↦ k name (rw e at h)
        ]

    record-Known :
        (t : String) (m : J.Value) (c : CdpConnection)
        → Mem (received (ok (text t))) all
        → J.from_str t ≡ ok m
        → Known c
        → Known (record_lifecycle_event J m c)
    unfolding record_lifecycle_event
    record-Known t m c there parsed k =
        elim (Bool-cases (is_text "Page.lifecycleEvent" (str_at J m "method"))) [
          | inl h ↦
              rw h (insert-Known t m (event_name m) c there parsed (is_text-some _ _ h) refl k)
          | inr h ↦ rw h k
        ]

    known_there :
        (r : Result UpstreamMessage String) (message : UpstreamMessage) (t : String)
        → text_of message ≡ some t
        → Mem (received (ok message)) all
        → Mem (received (ok (text t))) all
    known_there r message t e h = rw (← text_of-some message t e) h

    to_outcome-final :
        {A : Type 0} (r : Result A RestEndpointError) (c : CdpConnection)
        → final (to_outcome r c) ≡ c
    to_outcome-final (ok a) c = refl
    to_outcome-final (err e) c = refl

    module _ {A : Type 0} (decide : J.Value → CdpConnection → Option (Result A RestEndpointError))
        (method : String) where
      pub receive_until-Heard :
          (messages : List Incoming) (c : CdpConnection)
          → All (λ x. Mem x all) messages
          → Known c
          → Heard all (final (receive_until J decide method messages c))
      unfolding receive_until
      receive_until-Heard [] c m k = record { rest = tt; announced = k }
      receive_until-Heard (deadline ∷ rest) c m k = record { rest = m.1; announced = k }
      receive_until-Heard (received (err e) ∷ rest) c m k = record { rest = m.1; announced = k }
      receive_until-Heard (received (ok message) ∷ rest) c m k =
          elim (Option-cases (text_of message)) [
            | inl h ↦ rw (h, receive_until) (receive_until-Heard rest c m.1 k)
            | inr (t, h) ↦ elim (Result-cases (J.from_str t)) [
              | inr (e, g) ↦ rw (h, g, receive_until) (record { rest = m.1; announced = k })
              | inl (value, g) ↦
                  let c' = record_lifecycle_event J value c in
                  let k' = record-Known t value c (known_there (ok message) message t h m.0) g k in
                  elim (Option-cases (decide value c')) [
                    | inl f ↦ rw (h, g, f, receive_until) (receive_until-Heard rest c' m.1 k')
                    | inr (r, f) ↦
                        rw (h, g, f, receive_until, to_outcome-final r (with_incoming rest c'))
                          (record { rest = m.1; announced = k' })
                  ]
            ]
          ]

    after_send-Heard :
        (o : Option String × Socket) (c : CdpConnection)
        → o.1.incoming ≡ c.socket.incoming
        → Heard all c
        → Heard all (final (after_send o c))
    after_send-Heard (none, s) c e h = record { rest = rw e h.rest; announced = h.announced }
    after_send-Heard (some x, s) c e h = record { rest = rw e h.rest; announced = h.announced }

    -- Where the first part of a chain fails, so does the chain.
    pub command-Heard :
        (session_id : Option String) (method : String) (params : J.Value) (c d : CdpConnection)
        (v : J.Value)
        → command J session_id method params c ≡ done v d
        → Heard all c
        → Heard all d
    unfolding command send_request ◌>>=◌
    command-Heard session_id method params c d v e h =
        let m = text (J.value_text (request J session_id c.next_id method params)) in
        let sent =
          after_send-Heard (send m c.socket) (record c { next_id = fetch_add c.next_id })
            (send-incoming m c.socket) (record { rest = h.rest; announced = h.announced }) in
        after_done (send_request J session_id method params c) _ e λ u s first rest.
          let at : Heard all s = subst (λ o. Heard all (final o)) first sent in
          subst (λ o. Heard all (final o)) rest
            (receive_until-Heard (answer J c.next_id) method s.socket.incoming s at.rest
              at.announced)

    arrived-event :
        (session_id expected : String) (value : J.Value) (c : CdpConnection)
        (r : Result (Unit {0}) RestEndpointError)
        → arrived J session_id expected value c ≡ some r
        → is_one_of c.lifecycle_events expected ≡ true
    arrived-event session_id expected value c r e =
        elim (Bool-cases (is_text session_id (str_at J value "sessionId"))) [
          | inr h ↦ absurd (let no = rw h at e in cc)
          | inl h ↦ elim (Bool-cases (is_one_of c.lifecycle_events expected)) [
            | inl g ↦ g
            | inr g ↦ absurd (let no = rw (h, g) at e in cc)
          ]
        ]

    -- A wait that ends well ends with the event on record.
    pub receive-arrived :
        (session_id expected method : String) (messages : List Incoming) (c d : CdpConnection)
        (u : Unit {0})
        → receive_until J (arrived J session_id expected) method messages c ≡ done u d
        → is_one_of d.lifecycle_events expected ≡ true
    unfolding receive_until
    receive-arrived session_id expected method [] c d u e = absurd cc
    receive-arrived session_id expected method (deadline ∷ rest) c d u e = absurd cc
    receive-arrived session_id expected method (received (err x) ∷ rest) c d u e = absurd cc
    receive-arrived session_id expected method (received (ok message) ∷ rest) c d u e =
        elim (Option-cases (text_of message)) [
          | inl h ↦
              receive-arrived session_id expected method rest c d u (rw (h, receive_until) at e)
          | inr (t, h) ↦ elim (Result-cases (J.from_str t)) [
            | inr (x, g) ↦ absurd (let no = rw (h, g, receive_until) at e in cc)
            | inl (m, g) ↦
                let c' = record_lifecycle_event J m c in
                elim (Option-cases (arrived J session_id expected m c')) [
                  | inl f ↦
                      receive-arrived session_id expected method rest c' d u
                        (rw (h, g, f, receive_until) at e)
                  | inr (r, f) ↦
                      let ends = rw (h, g, f, receive_until) at e in
                      let there = arrived-event session_id expected m c' r f in
                      let last : with_incoming rest c' ≡ d =
                        sym (to_outcome-final r (with_incoming rest c')) ∙ ap final ends in
                      subst (λ x. is_one_of x.lifecycle_events expected ≡ true) last there
                ]
          ]
        ]
