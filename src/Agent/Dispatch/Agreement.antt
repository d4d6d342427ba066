-- ===== src/Agent/Dispatch/Agreement.antt =====
-- The gateway and the agent choose matching relays for a WebSocket request.
use https_proxy.Base.{
  ℕ, ◌≡◌, refl, sym, ◌∙◌, Bool, true, false, inl, inr, [], ◌∷◌, Option, none, some, arith,
  Bool-cases, if_elim, if◌then◌else◌,
}
use https_proxy.Base.Text.{
  Text, codes, text_eq, text_eq_refl, text_eq→eq, text_mem, trim_space, to_lower,
}
use https_proxy.Base.Results.{ok}
use https_proxy.Proto.Types.{ws_relay_mode_framed, ws_relay_mode_raw}
use https_proxy.Shared.Modes.{
  normalize_proxy_mode, proxy_mode_legacy_framed, proxy_mode_transparent_tunnel,
  target_kind_web_socket,
}
use https_proxy.Gateway.Policy.{
  Config, normalize_register_proxy_mode, normalize_register_target_kind,
}
use https_proxy.Gateway.Policy.Laws.{resolved, two_modes}
use https_proxy.Gateway.Registry.{RegisterRequest, register_conn}
use https_proxy.Gateway.Route.{
  Route, to_ws_legacy, to_ws_transparent, to_ws_transparent_raw, ws_route,
}
use https_proxy.Gateway.WebSocket.Modes.{is_framed_relay_mode, is_raw_relay_mode}
use https_proxy.Gateway.Stream.{AgentConn, new_agent_conn}
use https_proxy.Remote.Url.{Url, get_query}
use https_proxy.Remote.Register.{scheme_of, target_kind_from_target_url}
use https_proxy.Remote.Dial.{Resolver}
use https_proxy.Remote.Forward.{RemoteForwardConfig, RemoteForward, new_remote_forward}
use https_proxy.Remote.Announces.{Announces}
use https_proxy.Remote.Laws.{Reachable, new_remote_forward_ok}
use https_proxy.Agent.Dispatch.{
  Agent, Handler, to_ws_framed, to_ws_tcp, to_ws_tcp_transparent, to_ws_raw, new_agent,
  negotiated_proxy_mode_from_handshake, handle_request, handle_web_socket,
  handle_web_socket_transparent, is_tcp_target, is_web_socket_target, should_use_raw_transparent_ws,
  target_kind_from_register_url,
}

-- The relay mode that a handler of the agent announces when it opens, if it opens.
abbrev pub announced : Handler → Option Text
announced to_ws_framed = some ws_relay_mode_framed
announced to_ws_tcp = some ws_relay_mode_framed
announced to_ws_tcp_transparent = some ws_relay_mode_framed
announced to_ws_raw = some ws_relay_mode_raw
announced _ = none

-- Whether the gateway's handler takes an announced mode.
abbrev pub takes_mode : Route → Text → Bool
takes_mode (to_ws_legacy r path) mode = is_framed_relay_mode mode
takes_mode (to_ws_transparent r path) mode = is_framed_relay_mode mode
takes_mode (to_ws_transparent_raw r path) mode = is_raw_relay_mode mode
takes_mode _ mode = false

abbrev pub Agree : Route → Handler → Type 0
Agree route h = (mode : Text) × (announced h ≡ some mode) × (takes_mode route mode ≡ true)

-- The registration request that a gateway reads from a register URL.
abbrev pub request_of : Url → Text → RegisterRequest
request_of u token = record {
  token = token;
  uuid = get_query (codes "uuid") u;
  proxy_mode = get_query (codes "proxy_mode") u;
  target_kind = get_query (codes "target_kind") u;
  upgraded = true;
}

framed_taken : is_framed_relay_mode ws_relay_mode_framed ≡ true
unfolding is_framed_relay_mode trim_space to_lower
framed_taken = refl

raw_taken : is_raw_relay_mode ws_relay_mode_raw ≡ true
unfolding is_raw_relay_mode trim_space to_lower
raw_taken = refl

legacy-Agree : (a : Agent) (r : ℕ) (path : Text) → Agree (to_ws_legacy r path) (handle_web_socket a)
unfolding handle_web_socket
legacy-Agree a r path =
    if_elim (Agree (to_ws_legacy r path)) (is_tcp_target a.target_base)
      (λ _. (ws_relay_mode_framed, refl, framed_taken))
      (λ _. (ws_relay_mode_framed, refl, framed_taken))

raw_kind : should_use_raw_transparent_ws target_kind_web_socket ≡ true
unfolding should_use_raw_transparent_ws trim_space to_lower
raw_kind = refl

ws_kind :
    (u : Url)
    → target_kind_from_target_url u ≡ target_kind_web_socket
    → (is_web_socket_target u ≡ true) × (is_tcp_target u ≡ false)
unfolding target_kind_from_target_url is_web_socket_target is_tcp_target
ws_kind u h = ground arith

tcp_kind :
    (u : Url)
    → text_mem (scheme_of u) (codes "tcp" ∷ codes "ws" ∷ codes "wss" ∷ []) ≡ true
    → text_eq (target_kind_from_target_url u) target_kind_web_socket ≡ false
    → is_tcp_target u ≡ true
unfolding target_kind_from_target_url is_tcp_target
tcp_kind u h k = ground (
  arith,
  text_eq_refl target_kind_web_socket,
  text_eq→eq (scheme_of u) (codes "http"),
  text_eq→eq (scheme_of u) (codes "https"),
  text_eq→eq (scheme_of u) (codes "ws"),
  text_eq→eq (scheme_of u) (codes "wss"),
)

legacy_negotiated :
    negotiated_proxy_mode_from_handshake (some proxy_mode_legacy_framed) proxy_mode_legacy_framed
    ≡ proxy_mode_legacy_framed
unfolding negotiated_proxy_mode_from_handshake trim_space normalize_proxy_mode to_lower
legacy_negotiated = refl

transparent_negotiated :
    negotiated_proxy_mode_from_handshake
      (some proxy_mode_transparent_tunnel)
      proxy_mode_legacy_framed
    ≡ proxy_mode_transparent_tunnel
unfolding negotiated_proxy_mode_from_handshake trim_space normalize_proxy_mode to_lower
transparent_negotiated = refl

transparent-Agree :
    (a : Agent) (kind : Text) (r : ℕ) (path : Text)
    → a.register_target_kind ≡ kind
    → target_kind_from_target_url a.target_base ≡ kind
    → text_mem (scheme_of a.target_base) (codes "tcp" ∷ codes "ws" ∷ codes "wss" ∷ []) ≡ true
    → Agree
        (if text_eq kind target_kind_web_socket
          then to_ws_transparent_raw r path
          else to_ws_transparent r path)
        (handle_web_socket_transparent a)
unfolding handle_web_socket_transparent
transparent-Agree a kind r path i k m = elim (Bool-cases (text_eq kind target_kind_web_socket)) [
  | inl w ↦
      let e : kind ≡ target_kind_web_socket = text_eq→eq kind target_kind_web_socket w in
      let (ws, tcp) = ws_kind a.target_base (k ∙ e) in
      (ws_relay_mode_raw, ground (arith, ws, tcp, raw_kind), ground (arith, raw_taken))
  | inr w ↦
      let t = tcp_kind a.target_base m (ground arith) in
      (ws_relay_mode_framed, ground arith, ground (arith, framed_taken))
]

-- The agent of a forward, and the gateway's connection for its registration.
abbrev pub agent_of : RemoteForward → Agent
agent_of f = new_agent f.register_url f.target

abbrev pub conn_of : ℕ → Text → Config → RemoteForward → AgentConn
conn_of now token s f = register_conn now (request_of f.register_url token) s

-- The mode that the agent reads from the handshake's header.
abbrev pub mode_of : AgentConn → Text
mode_of c =
    negotiated_proxy_mode_from_handshake (some c.proxy_mode_effective) proxy_mode_legacy_framed

legacy_route :
    (a : Agent) (c : AgentConn) (r : ℕ) (path : Text)
    → c.proxy_mode_effective ≡ proxy_mode_legacy_framed
    → Agree (ws_route c r path) (handle_request a (mode_of c) true)
unfolding ws_route handle_request
legacy_route a c r path e = rw (e, legacy_negotiated) (legacy-Agree a r path)

transparent_route :
    (a : Agent) (c : AgentConn) (r : ℕ) (path : Text)
    → c.proxy_mode_effective ≡ proxy_mode_transparent_tunnel
    → a.register_target_kind ≡ c.target_kind
    → target_kind_from_target_url a.target_base ≡ c.target_kind
    → text_mem (scheme_of a.target_base) (codes "tcp" ∷ codes "ws" ∷ codes "wss" ∷ []) ≡ true
    → Agree (ws_route c r path) (handle_request a (mode_of c) true)
unfolding ws_route handle_request
transparent_route a c r path e i k m =
    rw (e, transparent_negotiated) (transparent-Agree a c.target_kind r path i k m)

ws_route-handle_request :
    (s : Config) (token uuid mode : Text) (f : RemoteForward) (now r : ℕ) (path : Text)
    → Reachable mode f.target
    → Announces uuid mode (target_kind_from_target_url f.target) f.register_url
    → Agree
        (ws_route (conn_of now token s f) r path)
        (handle_request (agent_of f) (mode_of (conn_of now token s f)) true)
unfolding register_conn new_agent_conn new_agent target_kind_from_register_url
    normalize_register_target_kind
ws_route-handle_request s token uuid mode f now r path reach ann =
    let id : Text = get_query (codes "uuid") f.register_url in
    let asked : Text =
      normalize_register_proxy_mode (get_query (codes "proxy_mode") f.register_url) in
    let c : AgentConn = conn_of now token s f in
    elim (two_modes s id asked) [
      | inr legacy ↦ legacy_route (agent_of f) c r path legacy
      | inl tunnel ↦
          let wanted : mode ≡ proxy_mode_transparent_tunnel =
            sym ann.mode_read ∙ ((resolved s id asked).0 tunnel).0 in
          transparent_route (agent_of f) c r path tunnel refl (sym ann.kind_read)
            (reach.tunnelled wanted)
    ]

-- For every agent that the forward library creates and every configuration of the gateway: when the
-- gateway has taken its registration, it and the agent, which reads the mode from the handshake, choose
-- relays that speak the same mode for every WebSocket request, so no request fails on a mismatch.
pub relay_modes-Agree :
    (parse : Text → Option Url) (n : Resolver) (config : RemoteForwardConfig) (f : RemoteForward)
    (s : Config) (token : Text) (now r : ℕ) (path : Text)
    → new_remote_forward parse n config ≡ ok f
    → Agree
        (ws_route (conn_of now token s f) r path)
        (handle_request (agent_of f) (mode_of (conn_of now token s f)) true)
relay_modes-Agree parse n config f s token now r path h =
    let (mode, m, p, reach, ann, d) = new_remote_forward_ok parse n config f h in
    ws_route-handle_request s token config.uuid mode f now r path reach ann
