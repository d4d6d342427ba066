-- ===== src/Agent/Dispatch.antt =====
-- internal/agent/agent.go: handleStream and handleWebSocketTransparent up to the choice of the relay,
-- and the modes that the choice depends on.
pub mod Agreement
mod Runs
use https_proxy.Base.{
  ℕ, zero, suc, Bool, true, false, not, ◌&&◌, List, [], ◌∷◌, Option, none, some, ◌==◌,
  if◌then◌else◌,
}
use https_proxy.Base.Text.{Text, codes, text_eq, text_mem, trim_space, to_lower, is_empty}
use https_proxy.Base.Results.{ok, err}
use https_proxy.Proto.Frame.{Frame}
use https_proxy.Proto.Types.{ReqStart, t_req_start}
use https_proxy.Shared.Modes.{
  normalize_proxy_mode, normalize_target_kind, proxy_mode_legacy_framed,
  proxy_mode_transparent_tunnel, target_kind_unknown,
}
use https_proxy.Remote.Url.{Url, get_query}
use https_proxy.Remote.Register.{scheme_of}

-- strings.EqualFold with "ws": beyond upper case, only U+017F folds to one of its letters, s.
unfoldable pub fold_from : ℕ → Text → Text
fold_from k [] = []
fold_from (suc k) (a ∷ s) = fold_from k s
fold_from zero (a ∷ []) = a ∷ []
fold_from zero (a ∷ b ∷ s) =
    let rest = fold_from zero (b ∷ s) in
    let skip = fold_from (suc zero) (b ∷ s) in
    if (a == 0xc5) && (b == 0xbf) then b's' ∷ skip else a ∷ rest

unfoldable pub equal_fold_ws : Text → Bool
unfolding fold_from
equal_fold_ws s = text_eq (to_lower (fold_from 0 s)) (codes "ws")

-- strings.EqualFold with "tcp", to whose letters nothing else folds.
unfoldable pub is_tcp_target : Url → Bool
is_tcp_target u = text_eq (scheme_of u) (codes "tcp")

unfoldable pub is_web_socket_target : Url → Bool
is_web_socket_target u = text_mem (scheme_of u) (codes "ws" ∷ codes "wss" ∷ [])

unfoldable pub should_use_raw_transparent_ws : Text → Bool
unfolding equal_fold_ws
should_use_raw_transparent_ws kind = equal_fold_ws (trim_space kind)

-- What an agent knows of its registration and its target.
pub record Agent : Type 0 where
  pub register_proxy_mode : Text
  pub register_target_kind : Text
  pub target_base : Url

unfoldable pub target_kind_from_register_url : Url → Text
target_kind_from_register_url u = elim (normalize_target_kind (get_query (codes "target_kind") u)) [
  | ok kind ↦ kind
  | err e ↦ target_kind_unknown
]

unfoldable pub proxy_mode_from_register_url : Url → Text
proxy_mode_from_register_url u = elim (normalize_proxy_mode (get_query (codes "proxy_mode") u)) [
  | ok mode ↦ mode
  | err e ↦ proxy_mode_legacy_framed
]

unfoldable pub new_agent : Url → Url → Agent
unfolding proxy_mode_from_register_url target_kind_from_register_url
new_agent register_url target_base = record {
  register_proxy_mode = proxy_mode_from_register_url register_url;
  register_target_kind = target_kind_from_register_url register_url;
  target_base = target_base;
}

-- The handshake's proxy mode header, or `none` where there is no response.
unfoldable pub negotiated_proxy_mode_from_handshake : Option Text → Text → Text
negotiated_proxy_mode_from_handshake header fallback =
    let default = if is_empty (trim_space fallback) then proxy_mode_legacy_framed else fallback in
    elim header [
      | none ↦ default
      | some raw ↦
          if is_empty (trim_space raw)
          then default
          else elim (normalize_proxy_mode (trim_space raw)) [ ok mode ↦ mode | err e ↦ default ]
    ]

-- How a stream is handled: by a relay, or by one frame that refuses it.
pub data Handler : Type 0 where
  to_http to_ws_framed to_ws_tcp to_ws_tcp_transparent to_ws_raw : Handler
  refused : Text → Handler
  open_refused : Text → Handler

unfoldable pub handle_web_socket : Agent → Handler
unfolding is_tcp_target
handle_web_socket a = if is_tcp_target a.target_base then to_ws_tcp else to_ws_framed

unfoldable pub handle_web_socket_transparent : Agent → Handler
unfolding handle_web_socket is_tcp_target is_web_socket_target should_use_raw_transparent_ws
handle_web_socket_transparent a =
    if is_tcp_target a.target_base
    then to_ws_tcp_transparent
    else if is_web_socket_target a.target_base
    then (if not (should_use_raw_transparent_ws a.register_target_kind)
        then handle_web_socket a
        else to_ws_raw)
    else open_refused (codes "transparent mode supports only tcp/ws/wss target")

unfoldable pub handle_request : Agent → Text → Bool → Handler
unfolding handle_web_socket handle_web_socket_transparent
handle_request a proxy_mode is_web_socket =
    if is_web_socket
    then (if text_eq proxy_mode proxy_mode_transparent_tunnel
        then handle_web_socket_transparent a
        else handle_web_socket a)
    else if is_tcp_target a.target_base
    then refused (codes "tcp target only supports websocket upgrade")
    else to_http

-- `decode` is json.Unmarshal into a ReqStart, `none` its error.
unfoldable pub handle_stream : (Text → Option ReqStart) → Agent → Text → Frame → Handler
unfolding handle_request
handle_stream decode a proxy_mode f =
    if not (f.type == t_req_start)
    then refused (codes "missing req_start")
    else elim (decode f.payload) [
      | none ↦ refused (codes "bad req_start")
      | some rs ↦ handle_request a proxy_mode rs.is_web_socket
    ]
