-- ===== src/Api/Proxy/Interleaved/Order.antt =====
-- crates/eiger-api/src/lib.rs: the two loops of `proxy_websocket` keep both orders of messages, wherever
-- they run in the middle of each other.
use eiger.Common.{◌≡◌, refl, ap, sym, ◌∙◌, append_assoc, Bool, List, [], ◌∷◌, ◌++◌, map}
use mathlib.Core.List.{append-nil}
use eiger.Common.Exec.{final}
use eiger.Serde.{Serde}
use eiger.Socket.{UpstreamMessage}
use eiger.Api.Proxy.{Message, Proxy}
use eiger.Api.Proxy.Transparent.{passed, shown}
use eiger.Api.Proxy.Interleaved.{
  Running, Reach, connected, client_receives, client_forwards, upstream_receives, delivers, Woven,
  nothing, message,
}
use eiger.Api.Proxy.Interleaved.Sends.{
  to_list, inject_before-Injects, upstream_to_axum_message-Injects, forward_done,
}

module _ (J : Serde) where
  -- What the client gets of the messages of the browser.
  abbrev pub shown_of : List UpstreamMessage → List Message
  shown_of [] = []
  shown_of (m ∷ ms) = shown J m ++ shown_of ms

  shown_of-snoc :
      (ms : List UpstreamMessage) (m : UpstreamMessage)
      → shown_of (ms ++ m ∷ []) ≡ shown_of ms ++ shown J m
  shown_of-snoc [] m = append-nil (shown J m)
  shown_of-snoc (x ∷ ms) m =
      ap (λ l. shown J x ++ l) (shown_of-snoc ms m)
      ∙ sym (append_assoc (shown J x) (shown_of ms) (shown J m))

  map-snoc :
      (cs : List Message) (m : Message) → map passed (cs ++ m ∷ []) ≡ map passed cs ++ passed m ∷ []
  map-snoc [] m = refl
  map-snoc (c ∷ cs) m = ap (λ l. passed c ∷ l) (map-snoc cs m)

  -- The browser got `forwarded`, with whole injections between, which with the message that is held for
  -- it is what the client sent; what the client got, with the message that is held for it, is what the
  -- browser has to show.
  pub record InOrder (start : Proxy) (cs : List Message) (us : List UpstreamMessage) (r : Running)
      : Type 0 where
    pub forwarded : List UpstreamMessage
    pub of_client : forwarded ++ map passed (to_list r.to_forward) ≡ map passed cs
    pub woven :
        Woven J start.upstream.sent start.eiger_cdp_id forwarded r.proxy.eiger_cdp_id
          r.proxy.upstream.sent
    pub of_browser : r.proxy.to_client ++ to_list r.to_deliver ≡ start.to_client ++ shown_of us

  -- Wherever the two loops run in the middle of each other, with or without stealth: the browser got
  -- the messages of the client in their order, none of them twice or left out but the one that is held,
  -- and what stands between them are whole injections, whose commands nothing divides; and the client
  -- got the messages of the browser in their order, but for raw frames and for the texts that are JSON
  -- with an id of the proxy's range, and the one that is held.
  pub Reach-InOrder :
      (stealth_enabled : Bool) (start : Proxy) (cs : List Message) (us : List UpstreamMessage)
      (r : Running)
      → Reach J stealth_enabled start cs us r
      → InOrder start cs us r
  Reach-InOrder b start cs us r connected = record {
    forwarded = [];
    of_client = refl;
    woven = nothing;
    of_browser = refl;
  }
  Reach-InOrder b start cs us r (client_receives {cs = cs'} {p = p} {q = q} before m e) =
      let h = Reach-InOrder b start _ us _ before in
      let d = inject_before-Injects J start.upstream.sent start.eiger_cdp_id b m p q tt e in
      record {
        forwarded = h.forwarded;
        of_client = rw (map-snoc cs' m, ← h.of_client, append-nil h.forwarded) refl;
        woven = d.0 h.forwarded h.woven;
        of_browser = rw d.1 h.of_browser;
      }
  Reach-InOrder b start cs us r (client_forwards {p = p} {q = q} m before e) =
      let h = Reach-InOrder b start cs us _ before in
      let d = forward_done J m p q tt e in
      record {
        forwarded = h.forwarded ++ passed m ∷ [];
        of_client = append-nil (h.forwarded ++ passed m ∷ []) ∙ h.of_client;
        woven = rw (d.0, d.1) (message h.woven (passed m));
        of_browser = rw d.2 h.of_browser;
      }
  Reach-InOrder b start cs us r (upstream_receives {us = us'} {p = p} {q = q} before m o e) =
      let h = Reach-InOrder b start cs _ _ before in
      let d =
        upstream_to_axum_message-Injects J start.upstream.sent start.eiger_cdp_id b m o p q e in
      record {
        forwarded = h.forwarded;
        of_client = h.of_client;
        woven = d.0.0 h.forwarded h.woven;
        of_browser =
            rw (d.0.1, d.1, shown_of-snoc us' m)
              (ap (λ l. l ++ shown J m) (sym (append-nil p.to_client) ∙ h.of_browser)
                ∙ append_assoc start.to_client (shown_of us') (shown J m));
      }
  Reach-InOrder b start cs us r (delivers {p = p} {q = q} m before e) =
      let h = Reach-InOrder b start cs us _ before in
      let same : record p { to_client = p.to_client ++ m ∷ [] } ≡ q = ap final e in
      record {
        forwarded = h.forwarded;
        of_client = h.of_client;
        woven = rw (← same) h.woven;
        of_browser = rw (← same) (append-nil (p.to_client ++ m ∷ []) ∙ h.of_browser);
      }
