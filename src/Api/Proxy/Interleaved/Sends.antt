-- ===== src/Api/Proxy/Interleaved/Sends.antt =====
-- crates/eiger-api/src/lib.rs: what the steps of the two loops of `proxy_websocket` send.
use eiger.Common.{
  ◌≡◌, refl, ap, ◌∙◌, ◌⊎◌, inl, inr, ℕ, String, Bool, true, false, List, [], ◌∷◌, ◌++◌, Option,
  none, some, fetch_add, append_assoc, Result-cases, Bool-cases, if◌then◌else◌,
}
use eiger.Common.Exec.{done, ◌>>=◌, give, after_done, final}
use eiger.Serde.{Serde}
use eiger.Socket.{UpstreamMessage, Socket, send, send-cases}
use eiger.Stealth.Scripts.{baseline_scripts}
use eiger.Api.Proxy.{
  Message, Proxy, sent_with, send_upstream, axum_to_upstream_message, send_proxy_cdp_command,
  send_scripts, send_stealth_commands, inject_into, inject_before, forward, is_eiger_cdp_response,
  attached_session, inject_stealth_from_proxy_event, pass_value, upstream_to_axum_message,
  client_message_stealth_session,
}
use eiger.Api.Proxy.Hiding.{injected}
use eiger.Api.Proxy.Transparent.{passed, shown}
use eiger.Api.Proxy.Interleaved.{to_add, to_run, commands, Woven, injection}

-- A message that there is or is not.
abbrev pub to_list : Option Message → List Message
to_list none = []
to_list (some m) = m ∷ []

module _ (J : Serde) where
  sent_with_done :
      (o : Option String × Socket) (m : UpstreamMessage) (sent : List UpstreamMessage) (p q : Proxy)
      (u : Unit {0})
      → (((o.0) ≡ none) × (o.1.sent ≡ sent ++ m ∷ []))
        ⊎ ((e : String) × (o.0 ≡ some e) × (o.1.sent ≡ sent))
      → sent_with o p ≡ done u q
      → (q.upstream.sent ≡ sent ++ m ∷ [])
        × (q.eiger_cdp_id ≡ p.eiger_cdp_id)
        × (q.to_client ≡ p.to_client)
  sent_with_done (none, s) m sent p q u (inl (g, e)) h =
      let same : record p { upstream = s } ≡ q = cc in
      (rw (← same) e, rw (← same) refl, rw (← same) refl)
  sent_with_done (none, s) m sent p q u (inr (x, g, e)) h = absurd cc
  sent_with_done (some y, s) m sent p q u c h = absurd cc

  send_upstream_done :
      (m : UpstreamMessage) (p q : Proxy) (u : Unit {0})
      → send_upstream m p ≡ done u q
      → (q.upstream.sent ≡ p.upstream.sent ++ m ∷ [])
        × (q.eiger_cdp_id ≡ p.eiger_cdp_id)
        × (q.to_client ≡ p.to_client)
  unfolding send_upstream
  send_upstream_done m p q u e =
      sent_with_done (send m p.upstream) m p.upstream.sent p q u (send-cases m p.upstream) e

  command_done :
      (s method : String) (params : J.Value) (p q : Proxy) (u : Unit {0})
      → send_proxy_cdp_command J (some s) method params p ≡ done u q
      → (q.upstream.sent ≡ p.upstream.sent ++ injected J s p.eiger_cdp_id method params ∷ [])
        × (q.eiger_cdp_id ≡ fetch_add p.eiger_cdp_id)
        × (q.to_client ≡ p.to_client)
  unfolding send_proxy_cdp_command ◌>>=◌
  command_done s method params p q u e =
      send_upstream_done (injected J s p.eiger_cdp_id method params)
        (record p { eiger_cdp_id = fetch_add p.eiger_cdp_id }) q u e

  commands_done :
      (s : String) (p q : Proxy) (u : Unit {0})
      → send_stealth_commands J s p ≡ done u q
      → (q.upstream.sent ≡ p.upstream.sent ++ commands J s p.eiger_cdp_id)
        × (q.eiger_cdp_id ≡ fetch_add (fetch_add (fetch_add p.eiger_cdp_id)))
        × (q.to_client ≡ p.to_client)
  unfolding send_stealth_commands send_scripts baseline_scripts ◌>>=◌ give
  commands_done s p q u e = after_done _ _ e λ v₁ p₁ first rest.
      after_done _ _ rest λ v₃ p₃ both last. after_done _ _ both λ v₂ p₂ second third.
        let d₁ = command_done s "Page.enable" (J.object []) p p₁ v₁ first in
        let d₂ =
          command_done s "Page.addScriptToEvaluateOnNewDocument" (to_add J) p₁ p₂ v₂ second in
        let d₃ = command_done s "Runtime.evaluate" (to_run J) p₂ p₃ v₃ third in
        let same : p₃ ≡ q = ap final last in
        rw (← same) (
          rw (d₃.0, d₂.0, d₂.1, d₁.0, d₁.1)
              (append_assoc (p.upstream.sent ++ _ ∷ []) (_ ∷ []) (_ ∷ [])
                ∙ append_assoc p.upstream.sent (_ ∷ []) (_ ∷ _ ∷ [])),
          rw (d₃.1, d₂.1, d₁.1) refl,
          d₃.2 ∙ d₂.2 ∙ d₁.2,
        )

  module _ (before : List UpstreamMessage) (first : ℕ) where
    -- A part of a loop that forwards nothing: it adds whole injections.
    abbrev Injects : Proxy → Proxy → Type 0
    Injects p q =
        ((fs : List UpstreamMessage)
          → Woven J before first fs p.eiger_cdp_id p.upstream.sent
          → Woven J before first fs q.eiger_cdp_id q.upstream.sent)
        × (q.to_client ≡ p.to_client)

    inject_into-Injects :
        (s : Option String) (p q : Proxy) (u : Unit {0})
        → inject_into J s p ≡ done u q
        → Injects p q
    unfolding give
    inject_into-Injects none p q u e = let same : p ≡ q = cc in rw (← same) ((λ fs w. w), refl)
    inject_into-Injects (some s) p q u e =
        let d = commands_done s p q u e in ((λ fs w. rw (d.0, d.1) (injection w s)), d.2)

    pub inject_before-Injects :
        (b : Bool) (m : Message) (p q : Proxy) (u : Unit {0})
        → inject_before J b m p ≡ done u q
        → Injects p q
    unfolding give
    inject_before-Injects true m p q u e =
        inject_into-Injects (client_message_stealth_session J m) p q u e
    inject_before-Injects false m p q u e = inject_into-Injects none p q u e

    given :
        (d o : Option Message) (p q : Proxy) (l : List Message)
        → to_list o ≡ l
        → give {E = String} o p ≡ done d q
        → Injects p q × (to_list d ≡ l)
    unfolding give
    given d o p q l h e =
        let same : p ≡ q = ap final e in
        let it : o ≡ d = cc in (rw (← same) ((λ fs w. w), refl), rw (← it) h)

    inject_event-Injects :
        (b : Bool) (v : J.Value) (p q : Proxy) (u : Unit {0})
        → (if b then inject_stealth_from_proxy_event J v else give tt) p ≡ done u q
        → Injects p q
    unfolding inject_stealth_from_proxy_event give
    inject_event-Injects true v p q u e = inject_into-Injects (attached_session J v) p q u e
    inject_event-Injects false v p q u e = inject_into-Injects none p q u e

    -- A text that is no answer to the proxy.
    event_given :
        (b : Bool) (v : J.Value) (t : String) (d : Option Message) (p q : Proxy)
        → pass_value J b t v p ≡ done d q
        → is_eiger_cdp_response J v ≡ false
        → Injects p q × (to_list d ≡ Message.text t ∷ [])
    unfolding pass_value ◌>>=◌
    event_given b v t d p q e g = after_done _ _ (rw g at e) λ u s first last.
        let injected_first = inject_event-Injects b v p s u first in
        let then_given = given d (some (Message.text t)) s q (Message.text t ∷ []) refl last in
        (
          ((λ fs w. then_given.0.0 fs (injected_first.0 fs w)), then_given.0.1 ∙ injected_first.1),
          then_given.1,
        )

    pub upstream_to_axum_message-Injects :
        (b : Bool) (m : UpstreamMessage) (d : Option Message) (p q : Proxy)
        → upstream_to_axum_message J b m p ≡ done d q
        → Injects p q × (to_list d ≡ shown J m)
    unfolding upstream_to_axum_message pass_value
    upstream_to_axum_message-Injects b (UpstreamMessage.text t) d p q e =
        elim (Result-cases (J.from_str t)) [
          | inr (x, h) ↦ rw h (
              given d (some (Message.text t)) p q (Message.text t ∷ []) refl
                (rw (h, upstream_to_axum_message) at e))
          | inl (v, h) ↦
              let passed_on = rw (h, upstream_to_axum_message) at e in
              elim (Bool-cases (is_eiger_cdp_response J v)) [
                | inl g ↦ rw (h, g) (given d none p q [] refl (rw g at passed_on))
                | inr g ↦ rw (h, g) (event_given b v t d p q passed_on g)
              ]
        ]
    upstream_to_axum_message-Injects b (UpstreamMessage.binary x) d p q e =
        given d (some (Message.binary x)) p q (Message.binary x ∷ []) refl e
    upstream_to_axum_message-Injects b (UpstreamMessage.ping x) d p q e =
        given d (some (Message.ping x)) p q (Message.ping x ∷ []) refl e
    upstream_to_axum_message-Injects b (UpstreamMessage.pong x) d p q e =
        given d (some (Message.pong x)) p q (Message.pong x ∷ []) refl e
    upstream_to_axum_message-Injects b (UpstreamMessage.close x) d p q e =
        given d (some (Message.close none)) p q (Message.close none ∷ []) refl e
    upstream_to_axum_message-Injects b (UpstreamMessage.frame x) d p q e =
        given d none p q [] refl e

  pub forward_done :
      (m : Message) (p q : Proxy) (u : Unit {0})
      → forward J (axum_to_upstream_message m) p ≡ done u q
      → (q.upstream.sent ≡ p.upstream.sent ++ passed m ∷ [])
        × (q.eiger_cdp_id ≡ p.eiger_cdp_id)
        × (q.to_client ≡ p.to_client)
  unfolding axum_to_upstream_message
  forward_done (Message.text t) p q u e = send_upstream_done (UpstreamMessage.text t) p q u e
  forward_done (Message.binary b) p q u e = send_upstream_done (UpstreamMessage.binary b) p q u e
  forward_done (Message.ping b) p q u e = send_upstream_done (UpstreamMessage.ping b) p q u e
  forward_done (Message.pong b) p q u e = send_upstream_done (UpstreamMessage.pong b) p q u e
  forward_done (Message.close c) p q u e = send_upstream_done (UpstreamMessage.close none) p q u e
