-- ===== src/Tests/Interleaved.antt =====
-- A proxy whose loops run in the middle of each other.
use eiger.Common.{◌≡◌, refl, true, [], ◌∷◌, none, some}
use eiger.Common.Exec.{done, final, ◌>>=◌, give}
use eiger.Socket.{UpstreamMessage, send}
use eiger.Stealth.Scripts.{baseline_scripts}
use eiger.Api.Proxy.{
  Message, Proxy, send_upstream, axum_to_upstream_message, is_eiger_cdp_response,
  send_proxy_cdp_command, send_scripts, send_stealth_commands, attached_session,
  inject_stealth_from_proxy_event, pass_value, upstream_to_axum_message,
  client_message_stealth_session, inject_before, forward, deliver,
}
use eiger.Api.Proxy.Hiding.{proxy_at}
use eiger.Api.Proxy.Interleaved.{
  Running, Reach, connected, client_receives, client_forwards, upstream_receives, delivers,
}
use eiger.Api.Proxy.Interleaved.Order.{InOrder, Reach-InOrder}
use eiger.Tests.Json.{json}
use eiger.Tests.Browsing.{table}

abbrev goto : Message
goto = Message.text "goto"

abbrev page : UpstreamMessage
page = UpstreamMessage.text "page"

abbrev start : Proxy
start = proxy_at [] [] 9_000_000_000 []

-- The scripts go into the session of the client's command, and before the command is forwarded, into
-- the frame that the browser says was attached.
abbrev injected : Proxy
injected = final (inject_before (json table) true goto start)

abbrev attached : Proxy
attached = final (upstream_to_axum_message (json table) true page injected)

abbrev forwarded : Proxy
forwarded = final (forward (json table) (axum_to_upstream_message goto) attached)

abbrev delivered : Proxy
delivered = final (deliver (json table) (some (Message.text "page")) forwarded)

injects : inject_before (json table) true goto start ≡ done tt injected
unfolding send_upstream send_proxy_cdp_command send_scripts send_stealth_commands baseline_scripts
    send client_message_stealth_session ◌>>=◌ give
injects = refl

attaches :
    upstream_to_axum_message (json table) true page injected
    ≡ done (some (Message.text "page")) attached
unfolding send_upstream send_proxy_cdp_command send_scripts send_stealth_commands baseline_scripts
    send client_message_stealth_session upstream_to_axum_message pass_value is_eiger_cdp_response
    inject_stealth_from_proxy_event attached_session ◌>>=◌ give
attaches = refl

forwards : forward (json table) (axum_to_upstream_message goto) attached ≡ done tt forwarded
unfolding send_upstream send_proxy_cdp_command send_scripts send_stealth_commands baseline_scripts
    send client_message_stealth_session upstream_to_axum_message pass_value is_eiger_cdp_response
    inject_stealth_from_proxy_event attached_session axum_to_upstream_message ◌>>=◌ give
forwards = refl

abbrev end : Running
end = record { proxy = delivered; to_forward = none; to_deliver = none }

reached : Reach (json table) true start (goto ∷ []) (page ∷ []) end
reached =
    delivers (Message.text "page")
      (client_forwards goto
        (upstream_receives (client_receives connected goto injects) page
          (some (Message.text "page")) attaches)
        forwards)
      refl

Reach-InOrder_example : InOrder (json table) start (goto ∷ []) (page ∷ []) end
Reach-InOrder_example = Reach-InOrder (json table) true start (goto ∷ []) (page ∷ []) end reached
