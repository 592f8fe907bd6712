-- ===== src/Api/Proxy/Hiding.antt =====
-- crates/eiger-api/src/lib.rs: the client never sees an answer to a command that it did not send.
use eiger.Common.{
  ◌≡◌, refl, ap, ◌∙◌, append_assoc, ℕ, ◌+◌, ◌≤◌, ◌<◌, String, Bool, true, List, [], ◌∷◌, ◌++◌, none,
  some, ok, u64_mod, fetch_add, leb, arith,
}
use eiger.Common.Exec.{done, ◌>>=◌, give}
use eiger.Serde.{Serde}
use eiger.Socket.{UpstreamMessage, Incoming, send}
use eiger.Stealth.Scripts.{baseline_script, baseline_scripts}
use eiger.Api.Cdp.{id_of, request}
use eiger.Api.Proxy.{
  eiger_cdp_id_start, Message, Proxy, send_upstream, is_eiger_cdp_response, send_proxy_cdp_command,
  send_scripts, send_stealth_commands, pass_value, upstream_to_axum_message,
}

-- A proxy whose sends succeed, with `n` as its next id.
abbrev pub proxy_at : List Incoming → List UpstreamMessage → ℕ → List Message → Proxy
proxy_at incoming sent n to_client = record {
  upstream = record { incoming = incoming; send_errors = []; sent = sent };
  eiger_cdp_id = n;
  to_client = to_client;
}

module _ (J : Serde) where
  -- A command of the proxy to a session, under an id.
  abbrev pub injected : String → ℕ → String → J.Value → UpstreamMessage
  injected session_id id method params =
      UpstreamMessage.text (J.value_text (request J (some session_id) id method params))

  -- The three commands of an injection, the first under the id `n`.
  abbrev pub injection : String → ℕ → List UpstreamMessage
  injection session_id n =
      injected session_id n "Page.enable" (J.object [])
      ∷ injected session_id (n + 1) "Page.addScriptToEvaluateOnNewDocument"
          (J.object (("source", J.string baseline_script) ∷ ("runImmediately", J.bool true) ∷ []))
      ∷ injected session_id (n + 2) "Runtime.evaluate"
          (J.object (("expression", J.string baseline_script) ∷ []))
      ∷ []

  command_sent :
      (session_id method : String) (params : J.Value) (incoming : List Incoming)
      (sent : List UpstreamMessage) (n m : ℕ) (to_client : List Message)
      → m ≡ n + 1
      → m < u64_mod
      → send_proxy_cdp_command J
          (some session_id)
          method
          params
          (proxy_at incoming sent n to_client)
        ≡ done tt (proxy_at incoming (sent ++ injected session_id n method params ∷ []) m to_client)
  unfolding send_proxy_cdp_command ◌>>=◌ send_upstream send
  command_sent session_id method params incoming sent n m to_client e small =
      let next : fetch_add n ≡ m = omega arith in rw next refl

  is_response :
      (v : J.Value) (k : ℕ)
      → id_of J v ≡ some k
      → leb eiger_cdp_id_start k ≡ true
      → is_eiger_cdp_response J v ≡ true
  unfolding is_eiger_cdp_response
  is_response v k named big = rw named big

  hidden :
      (stealth_enabled : Bool) (t : String) (v : J.Value) (k : ℕ) (q : Proxy)
      → eiger_cdp_id_start ≤ k
      → J.from_str t ≡ ok v
      → id_of J v ≡ some k
      → upstream_to_axum_message J stealth_enabled (UpstreamMessage.text t) q ≡ done none q
  unfolding upstream_to_axum_message pass_value give
  hidden stealth_enabled t v k q least parsed named =
      let big : leb eiger_cdp_id_start k ≡ true = ground arith in
      let hit : is_eiger_cdp_response J v ≡ true = is_response v k named big in
      rw (parsed, upstream_to_axum_message) (rw hit refl)

  pub injection_sent :
      (session_id : String) (incoming : List Incoming) (sent : List UpstreamMessage) (n : ℕ)
      (to_client : List Message)
      → n + 3 < u64_mod
      → send_stealth_commands J session_id (proxy_at incoming sent n to_client)
        ≡ done tt (proxy_at incoming (sent ++ injection session_id n) (n + 3) to_client)
  unfolding send_stealth_commands send_scripts baseline_scripts ◌>>=◌ give
  injection_sent session_id incoming sent n to_client small =
      let a = injected session_id n "Page.enable" (J.object []) in
      let add =
        J.object (("source", J.string baseline_script) ∷ ("runImmediately", J.bool true) ∷ []) in
      let b = injected session_id (n + 1) "Page.addScriptToEvaluateOnNewDocument" add in
      let run = J.object (("expression", J.string baseline_script) ∷ []) in
      let c = injected session_id (n + 2) "Runtime.evaluate" run in
      let first =
        command_sent session_id "Page.enable" (J.object []) incoming sent n (n + 1) to_client refl
          (omega arith) in
      let second =
        command_sent session_id "Page.addScriptToEvaluateOnNewDocument" add incoming
          (sent ++ a ∷ []) (n + 1) (n + 2) to_client (omega arith) (omega arith) in
      let third =
        command_sent session_id "Runtime.evaluate" run incoming ((sent ++ a ∷ []) ++ b ∷ []) (n + 2)
          (n + 3) to_client (omega arith) (omega arith) in
      rw (first, second, third)
        (ap (λ l. done tt (proxy_at incoming l (n + 3) to_client))
          (append_assoc (sent ++ a ∷ []) (b ∷ []) (c ∷ [])
            ∙ append_assoc sent (a ∷ []) (b ∷ c ∷ [])))

  -- From a counter in the proxy's range on that does not wrap around, and while sends succeed, an
  -- injection sends three commands under the next three ids. A text of the browser that is JSON with an
  -- id from there on is not passed on to the client, with or without stealth, and changes nothing: so the
  -- client sees no answer to the commands of the proxy, and none to its own under such an id.
  pub injection-hidden :
      (session_id : String) (incoming : List Incoming) (sent : List UpstreamMessage) (n : ℕ)
      (to_client : List Message) (stealth_enabled : Bool) (t : String) (v : J.Value) (k : ℕ)
      (q : Proxy)
      → eiger_cdp_id_start ≤ n
      → n + 3 < u64_mod
      → n ≤ k
      → J.from_str t ≡ ok v
      → id_of J v ≡ some k
      → (send_stealth_commands J session_id (proxy_at incoming sent n to_client)
          ≡ done tt (proxy_at incoming (sent ++ injection session_id n) (n + 3) to_client))
        × (upstream_to_axum_message J stealth_enabled (UpstreamMessage.text t) q ≡ done none q)
  injection-hidden session_id incoming sent n to_client stealth_enabled t v k q least small after
        parsed named =
      (
        injection_sent session_id incoming sent n to_client small,
        hidden stealth_enabled t v k q (omega arith) parsed named,
      )
