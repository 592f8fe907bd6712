-- ===== src/Socket.antt =====
-- A WebSocket as the code sees it: what comes in, what the sends answer, and what was sent. The
-- messages are those of tungstenite; an error stands for its text.
use eiger.Common.{
  ◌≡◌, refl, ◌⊎◌, inl, inr, ℕ, String, List, [], ◌∷◌, ◌++◌, Option, none, some, Result,
}

-- `close` has the code and the reason of a close frame, `frame` is a raw frame.
pub data UpstreamMessage : Type 0 where
  text : String → UpstreamMessage
  binary ping pong frame : List ℕ → UpstreamMessage
  close : Option (ℕ × String) → UpstreamMessage

-- What a wait on the socket ends with: a message or an error of the socket, or the deadline of the
-- timeout around the wait. After the last one the socket is closed.
pub data Incoming : Type 0 where
  received : Result UpstreamMessage String → Incoming
  deadline : Incoming

-- `send_errors` is how the next sends end, `none` where they succeed; those after them succeed.
pub record Socket : Type 0 where
  pub incoming : List Incoming
  pub send_errors : List (Option String)
  pub sent : List UpstreamMessage

abbrev pub send_with : List (Option String) → UpstreamMessage → Socket → Option String × Socket
send_with [] m s = (none, record s { sent = s.sent ++ m ∷ [] })
send_with (none ∷ rest) m s = (none, record s { send_errors = rest; sent = s.sent ++ m ∷ [] })
send_with (some e ∷ rest) m s = (some e, record s { send_errors = rest })

-- The error of a send, and the socket after it.
unfoldable pub send : UpstreamMessage → Socket → Option String × Socket
send m s = send_with s.send_errors m s

send_with-cases :
    (errors : List (Option String)) (m : UpstreamMessage) (s : Socket)
    → (((send_with errors m s).0 ≡ none) × ((send_with errors m s).1.sent ≡ s.sent ++ m ∷ []))
      ⊎ ((e : String) × ((send_with errors m s).0 ≡ some e)
          × ((send_with errors m s).1.sent ≡ s.sent))
send_with-cases [] m s = inl (refl, refl)
send_with-cases (none ∷ rest) m s = inl (refl, refl)
send_with-cases (some e ∷ rest) m s = inr (e, refl, refl)

-- A send either succeeds, and the message is the last one sent, or fails, and nothing was sent.
pub send-cases :
    (m : UpstreamMessage) (s : Socket)
    → (((send m s).0 ≡ none) × ((send m s).1.sent ≡ s.sent ++ m ∷ []))
      ⊎ ((e : String) × ((send m s).0 ≡ some e) × ((send m s).1.sent ≡ s.sent))
unfolding send
send-cases m s = send_with-cases s.send_errors m s

send_with-incoming :
    (errors : List (Option String)) (m : UpstreamMessage) (s : Socket)
    → (send_with errors m s).1.incoming ≡ s.incoming
send_with-incoming [] m s = refl
send_with-incoming (none ∷ rest) m s = refl
send_with-incoming (some e ∷ rest) m s = refl

pub send-incoming : (m : UpstreamMessage) (s : Socket) → (send m s).1.incoming ≡ s.incoming
unfolding send
send-incoming m s = send_with-incoming s.send_errors m s
