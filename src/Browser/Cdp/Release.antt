-- ===== src/Browser/Cdp/Release.antt =====
-- crates/eiger-browser/src/lib.rs: the stealth controller lets each target that was attached run on.
use eiger.Common.{◌≡◌, ◌⊎◌, inl, inr, ℕ, String, List, [], ◌∷◌, ◌++◌, Option, none, some, fetch_add}
use eiger.Common.Exec.{done, ◌>>=◌, after_done}
use eiger.Serde.{Serde}
use eiger.Socket.{UpstreamMessage, text, Socket, send, send-cases}
use eiger.Browser.Cdp.{
  Controller, str_at, cdp_request, controller_sent, send_cdp_message, attached, on_event,
}

module _ (J : Serde) where
  -- The last message sent lets the target of the session run on.
  abbrev pub Released : String → Controller → Type 0
  Released session_id c =
      (before : List UpstreamMessage) × (n : ℕ) × (c.socket.sent
        ≡ before
          ++ text (
              J.value_text
                (cdp_request J (some session_id) n "Runtime.runIfWaitingForDebugger" (J.object [])))
            ∷ [])

  controller_sent_done :
      (o : Option String × Socket) (m : UpstreamMessage) (sent : List UpstreamMessage) (n : ℕ)
      (u : Unit {0}) (d : Controller)
      → (((o.0) ≡ none) × (o.1.sent ≡ sent ++ m ∷ []))
        ⊎ ((e : String) × (o.0 ≡ some e) × (o.1.sent ≡ sent))
      → controller_sent o n ≡ done u d
      → d.socket.sent ≡ sent ++ m ∷ []
  controller_sent_done (none, s) m sent n u d (inl (g, e)) h =
      let same : s ≡ d.socket = cc in rw (← same) e
  controller_sent_done (none, s) m sent n u d (inr (x, g, e)) h = absurd cc
  controller_sent_done (some y, s) m sent n u d c h = absurd cc

  send_cdp_message_done :
      (session_id : Option String) (method : String) (params : J.Value) (c d : Controller)
      (u : Unit {0})
      → send_cdp_message J session_id method params c ≡ done u d
      → d.socket.sent
        ≡ c.socket.sent
          ++ text (J.value_text (cdp_request J session_id c.next_id method params)) ∷ []
  unfolding send_cdp_message
  send_cdp_message_done session_id method params c d u e =
      let m = text (J.value_text (cdp_request J session_id c.next_id method params)) in
      controller_sent_done (send m c.socket) m c.socket.sent (fetch_add c.next_id) u d
        (send-cases m c.socket) e

  attached-Released :
      (session_id : String) (target_type : Option String) (c d : Controller) (u : Unit {0})
      → attached J session_id target_type c ≡ done u d
      → Released session_id d
  unfolding attached ◌>>=◌
  attached-Released session_id target_type c d u e =
      after_done _ _ e
        λ v s first last. (s.socket.sent, s.next_id, send_cdp_message_done _ _ _ s d u last)

  -- Where the handling of an event that a target was attached succeeds, the last command it sends lets
  -- the target run on, whatever the type of the target is, so that a target that waits for a debugger
  -- does not stay stopped.
  pub on_event-Released :
      (value params : J.Value) (session_id : String) (c d : Controller) (u : Unit {0})
      → str_at J value "method" ≡ some "Target.attachedToTarget"
      → J.get value "params" ≡ some params
      → str_at J params "sessionId" ≡ some session_id
      → on_event J value c ≡ done u d
      → Released session_id d
  unfolding on_event
  on_event-Released value params session_id c d u method there named e =
      attached-Released session_id _ c d u (rw (method, there, named) at e)
