-- ===== src/Agent/Dispatch/Runs.antt =====
-- Choices of a relay at concrete inputs.
use https_proxy.Base.{◌≡◌, refl, true, [], none, some}
use https_proxy.Base.Text.{codes, trim_space, to_lower}
use https_proxy.Proto.Types.{t_req_data}
use https_proxy.Shared.Modes.{
  normalize_proxy_mode, proxy_mode_legacy_framed, proxy_mode_transparent_tunnel,
}
use https_proxy.Gateway.Policy.Runs.{demo_config}
use https_proxy.Gateway.Route.{ws_route}
use https_proxy.Remote.Runs as Remote
use https_proxy.Agent.Dispatch.{
  Agent, to_ws_framed, to_ws_raw, refused, negotiated_proxy_mode_from_handshake, handle_stream,
  handle_request,
}
use https_proxy.Agent.Dispatch.Agreement.{Agree, agent_of, conn_of, mode_of, relay_modes-Agree}

relay_modes-Agree_example :
    Agree (ws_route (conn_of 5 (codes "t") demo_config Remote.demo_forward) 0 (codes "/x")) (
      handle_request
        (agent_of Remote.demo_forward)
        (mode_of (conn_of 5 (codes "t") demo_config Remote.demo_forward))
        true)
relay_modes-Agree_example =
    relay_modes-Agree Remote.demo_parse Remote.demo_net Remote.demo_config Remote.demo_forward
      demo_config (codes "t") 5 0 (codes "/x") Remote.forwarded

abbrev ws_agent : Agent
ws_agent = record {
  register_proxy_mode = proxy_mode_transparent_tunnel;
  register_target_kind = codes "ws";
  target_base = record { scheme = codes "WSS"; host = codes "h"; port = []; path = []; query = [] };
}

raw_relay : handle_request ws_agent proxy_mode_transparent_tunnel true ≡ to_ws_raw
unfolding handle_request trim_space to_lower
raw_relay = refl

framed_relay : handle_request ws_agent proxy_mode_legacy_framed true ≡ to_ws_framed
unfolding handle_request trim_space to_lower
framed_relay = refl

-- A registration without a kind keeps to the framed relay.
cautious_relay :
    handle_request
      (record ws_agent { register_target_kind = codes "unknown" })
      proxy_mode_transparent_tunnel
      true
    ≡ to_ws_framed
unfolding handle_request trim_space to_lower
cautious_relay = refl

no_start :
    handle_stream
      (λ b. none)
      ws_agent
      proxy_mode_legacy_framed
      (record { type = t_req_data; stream = 1; payload = [] })
    ≡ refused (codes "missing req_start")
unfolding handle_stream
no_start = refl

bad_header :
    negotiated_proxy_mode_from_handshake (some (codes "raw")) (codes " ") ≡ proxy_mode_legacy_framed
unfolding negotiated_proxy_mode_from_handshake trim_space normalize_proxy_mode to_lower
bad_header = refl
