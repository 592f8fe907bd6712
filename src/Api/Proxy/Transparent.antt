-- ===== src/Api/Proxy/Transparent.antt =====
-- crates/eiger-api/src/lib.rs: the proxy of a session without stealth.
use eiger.Common.{
  ◌≡◌, refl, ap, sym, ◌∙◌, append_assoc, ℕ, String, false, List, [], ◌∷◌, ◌++◌, none, Result, ok,
  err, Result-cases, Bool-cases, inl, inr, if◌then◌else◌,
}
use mathlib.Core.List.{append-nil}
use eiger.Common.Exec.{done, ◌>>=◌, give, raise, final}
use eiger.Serde.{Serde}
use eiger.Socket.{UpstreamMessage, Incoming, send}
use eiger.Api.Proxy.{
  Message, send_upstream, axum_to_upstream_message, is_eiger_cdp_response, pass_value,
  upstream_to_axum_message, from_client, from_upstream, Event, client, upstream, upstream_error,
  ended, proxy_loops,
}
use eiger.Api.Proxy.Hiding.{proxy_at}

-- A message of the client for the browser: the same, but for the frame of a close.
abbrev pub passed : Message → UpstreamMessage
passed (Message.text t) = UpstreamMessage.text t
passed (Message.binary b) = UpstreamMessage.binary b
passed (Message.ping b) = UpstreamMessage.ping b
passed (Message.pong b) = UpstreamMessage.pong b
passed (Message.close c) = UpstreamMessage.close none

-- The messages of the client up to the end, and those that the client gets.
unfoldable pub all_passed : List Event → List UpstreamMessage
all_passed [] = []
all_passed (client m ∷ es) = passed m ∷ all_passed es
all_passed (upstream m ∷ es) = all_passed es
all_passed (upstream_error e ∷ es) = []
all_passed (ended ∷ es) = []

module _ (J : Serde) where
  -- A text is shown but where it is JSON with an id that is the proxy's.
  abbrev pub shown_text : String → Result J.Value String → List Message
  shown_text t (err e) = Message.text t ∷ []
  shown_text t (ok v) = if is_eiger_cdp_response J v then [] else Message.text t ∷ []

  abbrev pub shown : UpstreamMessage → List Message
  shown (UpstreamMessage.text t) = shown_text t (J.from_str t)
  shown (UpstreamMessage.binary b) = Message.binary b ∷ []
  shown (UpstreamMessage.ping b) = Message.ping b ∷ []
  shown (UpstreamMessage.pong b) = Message.pong b ∷ []
  shown (UpstreamMessage.close c) = Message.close none ∷ []
  shown (UpstreamMessage.frame b) = []

  unfoldable pub all_shown : List Event → List Message
  all_shown [] = []
  all_shown (client m ∷ es) = all_shown es
  all_shown (upstream m ∷ es) = shown m ++ all_shown es
  all_shown (upstream_error e ∷ es) = []
  all_shown (ended ∷ es) = []

  module _ (incoming : List Incoming) (n : ℕ) where
    pub client_round :
        (m : Message) (sent : List UpstreamMessage) (to_client : List Message)
        → from_client J false m (proxy_at incoming sent n to_client)
          ≡ done tt (proxy_at incoming (sent ++ passed m ∷ []) n to_client)
    unfolding from_client axum_to_upstream_message ◌>>=◌ give send_upstream send
    client_round (Message.text t) sent to_client = refl
    client_round (Message.binary b) sent to_client = refl
    client_round (Message.ping b) sent to_client = refl
    client_round (Message.pong b) sent to_client = refl
    client_round (Message.close c) sent to_client = refl

    pub upstream_round :
        (m : UpstreamMessage) (sent : List UpstreamMessage) (to_client : List Message)
        → from_upstream J false m (proxy_at incoming sent n to_client)
          ≡ done tt (proxy_at incoming sent n (to_client ++ shown m))
    unfolding from_upstream upstream_to_axum_message pass_value ◌>>=◌ give
    upstream_round (UpstreamMessage.text t) sent to_client = elim (Result-cases (J.from_str t)) [
      | inr (e, h) ↦ rw (h, upstream_to_axum_message) refl
      | inl (v, h) ↦ elim (Bool-cases (is_eiger_cdp_response J v)) [
        | inl g ↦
            let same = sym (append-nil to_client) in
            rw (h, upstream_to_axum_message, g)
              (ap (λ l. done tt (proxy_at incoming sent n l)) same)
        | inr g ↦ rw (h, upstream_to_axum_message, g) refl
      ]
    ]
    upstream_round (UpstreamMessage.binary b) sent to_client = refl
    upstream_round (UpstreamMessage.ping b) sent to_client = refl
    upstream_round (UpstreamMessage.pong b) sent to_client = refl
    upstream_round (UpstreamMessage.close c) sent to_client = refl
    upstream_round (UpstreamMessage.frame b) sent to_client =
        ap (λ l. done tt (proxy_at incoming sent n l)) (sym (append-nil to_client))

    pub at_end :
        (sent : List UpstreamMessage) (to_client : List Message)
        → proxy_at incoming sent n to_client ≡ proxy_at incoming (sent ++ []) n (to_client ++ [])
    at_end sent to_client =
        ap (λ l. proxy_at incoming l n to_client) (sym (append-nil sent))
        ∙ ap (λ l. proxy_at incoming (sent ++ []) n l) (sym (append-nil to_client))

    -- Without stealth, and as long as the browser takes what it is sent, the browser gets the messages of
    -- the client up to the end, in their order and nothing else, and the client gets those of the browser
    -- in their order, but for raw frames and for the texts that are JSON with an id of the proxy's range.
    proxy_loops-passed :
        (es : List Event) (sent : List UpstreamMessage) (to_client : List Message)
        → final (proxy_loops J false es (proxy_at incoming sent n to_client))
          ≡ proxy_at incoming (sent ++ all_passed es) n (to_client ++ all_shown es)
    unfolding proxy_loops all_passed all_shown ◌>>=◌ give raise
    proxy_loops-passed [] sent to_client = at_end sent to_client
    proxy_loops-passed (client m ∷ es) sent to_client =
        rw (client_round m sent to_client, final)
          (proxy_loops-passed es (sent ++ passed m ∷ []) to_client
            ∙ ap (λ l. proxy_at incoming l n (to_client ++ all_shown es))
                (append_assoc sent (passed m ∷ []) (all_passed es)))
    proxy_loops-passed (upstream m ∷ es) sent to_client =
        rw (upstream_round m sent to_client, final)
          (proxy_loops-passed es sent (to_client ++ shown m)
            ∙ ap (λ l. proxy_at incoming (sent ++ all_passed es) n l)
                (append_assoc to_client (shown m) (all_shown es)))
    proxy_loops-passed (upstream_error e ∷ es) sent to_client = at_end sent to_client
    proxy_loops-passed (ended ∷ es) sent to_client = at_end sent to_client
