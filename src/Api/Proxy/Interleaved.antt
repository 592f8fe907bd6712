-- ===== src/Api/Proxy/Interleaved.antt =====
-- crates/eiger-api/src/lib.rs: the two loops of `proxy_websocket` in the middle of each other. An
-- injection holds the lock on the upstream sender, and a send takes it; so each of them is one step, and
-- between two steps of a loop the other one may run.
pub mod Order
pub mod Sends
use eiger.Common.{◌≡◌, ℕ, String, Bool, true, List, [], ◌∷◌, ◌++◌, Option, none, some, fetch_add}
use eiger.Common.Exec.{done}
use eiger.Serde.{Serde}
use eiger.Socket.{UpstreamMessage}
use eiger.Stealth.Scripts.{baseline_script}
use eiger.Api.Proxy.{
  Message, Proxy, axum_to_upstream_message, inject_before, forward, deliver,
  upstream_to_axum_message,
}
use eiger.Api.Proxy.Hiding.{injected}

-- The proxy with what each loop holds between its steps: the message of the client that is next for the
-- browser, and the message of the browser that is next for the client.
pub record Running : Type 0 where
  pub proxy : Proxy
  pub to_forward : Option Message
  pub to_deliver : Option Message

module _ (J : Serde) where
  -- The states that the two loops reach, in any order of their steps, where the client has sent the
  -- first list of messages and the browser the second one. A step whose send fails ends the proxy.
  pub data Reach (stealth_enabled : Bool) (start : Proxy)
      : List Message → List UpstreamMessage → Running → Type 0 where
    connected :
        Reach stealth_enabled start [] []
          (record { proxy = start; to_forward = none; to_deliver = none })
    client_receives :
        {cs : List Message} {us : List UpstreamMessage} {p q : Proxy} {o : Option Message}
        → Reach stealth_enabled start cs us
            (record { proxy = p; to_forward = none; to_deliver = o })
        → (m : Message) → inject_before J stealth_enabled m p ≡ done tt q
        → Reach stealth_enabled start
            (cs ++ m ∷ [])
            us
            (record { proxy = q; to_forward = some m; to_deliver = o })
    client_forwards :
        {cs : List Message} {us : List UpstreamMessage} {p q : Proxy} {o : Option Message}
        → (m : Message)
        → Reach stealth_enabled start cs us
            (record { proxy = p; to_forward = some m; to_deliver = o })
        → forward J (axum_to_upstream_message m) p ≡ done tt q
        → Reach stealth_enabled start cs us
            (record { proxy = q; to_forward = none; to_deliver = o })
    upstream_receives :
        {cs : List Message} {us : List UpstreamMessage} {p q : Proxy} {o : Option Message}
        → Reach stealth_enabled start cs us
            (record { proxy = p; to_forward = o; to_deliver = none })
        → (m : UpstreamMessage) (d : Option Message)
        → upstream_to_axum_message J stealth_enabled m p ≡ done d q
        → Reach stealth_enabled start cs
            (us ++ m ∷ [])
            (record { proxy = q; to_forward = o; to_deliver = d })
    delivers :
        {cs : List Message} {us : List UpstreamMessage} {p q : Proxy} {o : Option Message}
        → (m : Message)
        → Reach stealth_enabled start cs us
            (record { proxy = p; to_forward = o; to_deliver = some m })
        → deliver J (some m) p ≡ done tt q
        → Reach stealth_enabled start cs us
            (record { proxy = q; to_forward = o; to_deliver = none })

  abbrev pub to_add : J.Value
  to_add = J.object (("source", J.string baseline_script) ∷ ("runImmediately", J.bool true) ∷ [])

  abbrev pub to_run : J.Value
  to_run = J.object (("expression", J.string baseline_script) ∷ [])

  -- The commands of an injection, where the next id is `n`.
  abbrev pub commands : String → ℕ → List UpstreamMessage
  commands s n =
      injected J s n "Page.enable" (J.object [])
      ∷ injected J s (fetch_add n) "Page.addScriptToEvaluateOnNewDocument" to_add
      ∷ injected J s (fetch_add (fetch_add n)) "Runtime.evaluate" to_run
      ∷ []

  -- `Woven before first fs n l`: to `before` were appended the messages `fs`, in their order, and whole
  -- injections between them, under ids from `first` on up to `n`.
  pub data Woven (before : List UpstreamMessage) (first : ℕ)
      : List UpstreamMessage → ℕ → List UpstreamMessage → Type 0 where
    nothing : Woven before first [] first before
    message :
        {fs l : List UpstreamMessage} {n : ℕ}
        → Woven before first fs n l
        → (m : UpstreamMessage) → Woven before first (fs ++ m ∷ []) n (l ++ m ∷ [])
    injection :
        {fs l : List UpstreamMessage} {n : ℕ}
        → Woven before first fs n l
        → (s : String)
        → Woven before first fs (fetch_add (fetch_add (fetch_add n))) (l ++ commands s n)
