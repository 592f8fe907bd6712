-- ===== src/Api/Proxy/Forwards.antt =====
-- crates/eiger-api/src/lib.rs: the proxy of any session, with the commands that it adds.
use eiger.Common.{
  ℕ, ◌+◌, String, Bool, true, false, List, [], ◌∷◌, ◌++◌, Option, none, some, Result, ok, err,
  and_then, ◌||◌, if◌then◌else◌,
}
use text.Mathlib.Text.{◌==◌ as str_eq}
use eiger.Api.Cdp.{str_at}
use eiger.Serde.{Serde}
use eiger.Socket.{UpstreamMessage}
use eiger.Api.Proxy.{Message, is_eiger_cdp_response, Event, client, upstream, upstream_error, ended}
use eiger.Api.Proxy.Hiding.{injection}
use eiger.Api.Proxy.Transparent.{passed}

-- The session of a command of the client that loads or shows a page.
abbrev where_loads : Option String → Option String → Option String
where_loads none session = none
where_loads (some method) session =
    if str_eq method "Page.navigate"
      || (str_eq method "Page.reload"
          || (str_eq method "Page.printToPDF" || str_eq method "Page.captureScreenshot"))
    then session
    else none

abbrev shows_page : Option String → Bool
shows_page none = false
shows_page (some type) = str_eq type "page" || str_eq type "iframe"

-- The session of a target that is a page or a frame.
abbrev where_page : Option String → Option String → Option String
where_page type session = if shows_page type then session else none

module _ (J : Serde) where
  -- The session whose page a text of the client loads or shows.
  abbrev asked_for : Result J.Value String → Option String
  asked_for (err e) = none
  asked_for (ok v) = where_loads (str_at J v "method") (str_at J v "sessionId")

  unfoldable pub asked_by : Message → Option String
  asked_by (Message.text t) = asked_for (J.from_str t)
  asked_by (Message.binary b) = none
  asked_by (Message.ping b) = none
  asked_by (Message.pong b) = none
  asked_by (Message.close c) = none

  abbrev target_type : J.Value → Option String
  target_type params = and_then (J.get params "targetInfo") (λ target. str_at J target "type")

  abbrev arrival : Option String → Option J.Value → Option String
  arrival none params = none
  arrival (some method) none = none
  arrival (some method) (some params) =
      if str_eq method "Target.attachedToTarget"
      then where_page (target_type params) (str_at J params "sessionId")
      else none

  -- The session of the page or the frame that was attached, where a value is such an event.
  unfoldable pub attached_to : J.Value → Option String
  attached_to v = arrival (str_at J v "method") (J.get v "params")

  -- The session that a message of the browser says was attached. The proxy's own answers say nothing.
  abbrev attached_text : Result J.Value String → Option String
  attached_text (err e) = none
  attached_text (ok v) = if is_eiger_cdp_response J v then none else attached_to v

  abbrev attached_in : UpstreamMessage → Option String
  attached_in (UpstreamMessage.text t) = attached_text (J.from_str t)
  attached_in (UpstreamMessage.binary b) = none
  attached_in (UpstreamMessage.ping b) = none
  attached_in (UpstreamMessage.pong b) = none
  attached_in (UpstreamMessage.close c) = none
  attached_in (UpstreamMessage.frame b) = none

  -- The session that a message has the proxy inject the scripts into.
  abbrev only_if : Bool → Option String → Option String
  only_if false s = none
  only_if true s = s

  abbrev injection_for : Option String → ℕ → List UpstreamMessage
  injection_for none n = []
  injection_for (some s) n = injection J s n

  abbrev next_id : Option String → ℕ → ℕ
  next_id none n = n
  next_id (some s) n = n + 3

  -- What the browser gets up to the end, where `n` is the next id of the proxy: the messages of the
  -- client, and the injections, each before the message of the client that asks for it.
  unfoldable pub all_sent : Bool → ℕ → List Event → List UpstreamMessage
  all_sent stealth_enabled n [] = []
  all_sent stealth_enabled n (client m ∷ es) =
      let s = only_if stealth_enabled (asked_by m) in
      injection_for s n ++ passed m ∷ all_sent stealth_enabled (next_id s n) es
  all_sent stealth_enabled n (upstream m ∷ es) =
      let s = only_if stealth_enabled (attached_in m) in
      injection_for s n ++ all_sent stealth_enabled (next_id s n) es
  all_sent stealth_enabled n (upstream_error e ∷ es) = []
  all_sent stealth_enabled n (ended ∷ es) = []

  -- The next id at the end.
  unfoldable pub last_id : Bool → ℕ → List Event → ℕ
  last_id stealth_enabled n [] = n
  last_id stealth_enabled n (client m ∷ es) =
      last_id stealth_enabled (next_id (only_if stealth_enabled (asked_by m)) n) es
  last_id stealth_enabled n (upstream m ∷ es) =
      last_id stealth_enabled (next_id (only_if stealth_enabled (attached_in m)) n) es
  last_id stealth_enabled n (upstream_error e ∷ es) = n
  last_id stealth_enabled n (ended ∷ es) = n
