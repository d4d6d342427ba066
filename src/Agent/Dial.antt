-- ===== src/Agent/Dial.antt =====
-- internal/agent/agent.go: how the WebSocket handlers reach the target and tell the gateway: handleWebSocket,
-- handleWebSocketToTCP and handleWebSocketToWSTransparent up to their relays, and dialWebSocketUpstreamRaw.
pub mod Agreement
mod Runs
use https_proxy.Base.{
  ℕ, Bool, true, false, not, List, [], ◌∷◌, ◌++◌, Option, none, some, ◌==◌, if◌then◌else◌,
}
use https_proxy.Base.Text.{Text, codes, is_empty, text_eq, to_lower, trim_space}
use https_proxy.Base.Results.{Result, ok, err}
use https_proxy.Proto.Types.{
  Header, ReqStart, WsOpenOk, t_ws_open_ok, t_ws_open_err, ws_relay_mode_framed, ws_relay_mode_raw,
}
use https_proxy.Proto.WsData.{Packet, Takes}
use https_proxy.Shared.Headers.{canonical_header_key, get, values}
use https_proxy.Agent.Dispatch.{fold_from}

-- The parts of the target's URL; `request_uri` is what RequestURI answers.
pub record Target : Type 0 where
  pub scheme : Text
  pub host : Text
  pub request_uri : Text

-- What http.ReadResponse returns, with the first 1024 bytes of the body.
pub record Handshake : Type 0 where
  pub status_code : ℕ
  pub status : Text
  pub body : Text
  pub header : Header

-- The network: the error of a dial, with TLS or without; whether the connection takes the request; and the
-- answer to it.
pub record Network : Type 0 where
  pub dial_error : Bool → Text → Option Text
  pub takes : Text → Bool
  pub answer : Text → Option Handshake

pub data DialError : Type 0 where
  empty_host not_written no_response : DialError
  unsupported_scheme not_connected handshake_failed : Text → DialError

-- strings.EqualFold with "Host"; the letter s has one more form, which `fold_from` rewrites.
unfoldable pub is_host_key : Text → Bool
is_host_key k = text_eq (to_lower (fold_from 0 k)) (codes "host")

abbrev pub line_end : Text
line_end = 13 ∷ 10 ∷ []

abbrev pub value_lines : Text → List Text → Text
value_lines k [] = []
value_lines k (v ∷ vs) = k ++ codes ": " ++ v ++ line_end ++ value_lines k vs

-- The map's keys in the order of the list, which stands for the order in which Go walks it.
unfoldable pub header_lines : Header → Text
unfolding is_host_key
header_lines [] = []
header_lines ((k, vs) ∷ h) =
    let rest = header_lines h in
    if is_host_key k then rest else value_lines (canonical_header_key k) vs ++ rest

abbrev pub or_else : Text → Text → Text
or_else s t = if is_empty s then t else s

unfoldable pub upgrade_request : Target → ReqStart → Text
unfolding header_lines
upgrade_request t rs =
    or_else (trim_space rs.method) (codes "GET")
    ++ codes " "
    ++ or_else t.request_uri (codes "/")
    ++ codes " HTTP/1.1"
    ++ line_end
    ++ codes "Host: "
    ++ or_else (trim_space rs.host) t.host
    ++ line_end
    ++ header_lines rs.header
    ++ line_end

-- The subprotocol and the extensions of a handshake that succeeds.
abbrev pub read_handshake : Handshake → Result DialError (Text × List Text)
read_handshake r =
    if not (r.status_code == 101)
    then err (handshake_failed (or_else (trim_space r.body) r.status))
    else ok (
      trim_space (get r.header (codes "Sec-WebSocket-Protocol")),
      values r.header (codes "Sec-WebSocket-Extensions"),
    )

abbrev pub exchange_handshake : Network → Text → Result DialError (Text × List Text)
exchange_handshake n request =
    if n.takes request
    then (elim (n.answer request) [ none ↦ err no_response | some r ↦ read_handshake r ])
    else err not_written

abbrev pub dial_with : Network → Bool → Target → ReqStart → Result DialError (Text × List Text)
dial_with n tls t rs = elim (n.dial_error tls (trim_space t.host)) [
  | some e ↦ err (not_connected e)
  | none ↦ exchange_handshake n (upgrade_request t rs)
]

unfoldable pub dial_web_socket_upstream_raw :
    Network → Target → ReqStart → Result DialError (Text × List Text)
unfolding upgrade_request
dial_web_socket_upstream_raw n t rs =
    let scheme = to_lower (trim_space t.scheme) in
    if is_empty (trim_space t.host)
    then err empty_host
    else if text_eq scheme (codes "ws")
    then dial_with n false t rs
    else if text_eq scheme (codes "wss")
    then dial_with n true t rs
    else err (unsupported_scheme t.scheme)

-- json.Marshal of the two answers, and the text of an error.
pub record OpenCodec : Type 0 where
  pub open_ok_json : WsOpenOk → Text
  pub open_err_json : Text → Text
  pub message : DialError → Text

-- The answer to the gateway: what has been sent, and whether the relay starts.
abbrev pub refuse_open : Takes → OpenCodec → Text → List Packet × Bool
refuse_open takes c reason =
    if takes [] then ((t_ws_open_err, c.open_err_json reason) ∷ [], false) else ([], false)

abbrev pub accept_open : Takes → OpenCodec → WsOpenOk → List Packet × Bool
accept_open takes c m =
    if takes [] then ((t_ws_open_ok, c.open_ok_json m) ∷ [], true) else ([], false)

abbrev pub raw_open : Text × List Text → WsOpenOk
raw_open (subprotocol, extensions) = record {
  subprotocol = subprotocol;
  relay_mode = ws_relay_mode_raw;
  extensions = extensions;
}

abbrev pub framed_open : Text → WsOpenOk
framed_open subprotocol = record {
  subprotocol = subprotocol;
  relay_mode = ws_relay_mode_framed;
  extensions = [];
}

-- handleWebSocketToWSTransparent.
unfoldable pub start_raw : Takes → OpenCodec → Network → Target → ReqStart → List Packet × Bool
unfolding dial_web_socket_upstream_raw
start_raw takes c n t rs = elim (dial_web_socket_upstream_raw n t rs) [
  | err e ↦ refuse_open takes c (c.message e)
  | ok agreed ↦ accept_open takes c (raw_open agreed)
]

-- handleWebSocket: the WebSocket library's dialer returns an error or the subprotocol.
unfoldable pub start_framed : Takes → OpenCodec → Result Text Text → List Packet × Bool
start_framed takes c (err reason) = refuse_open takes c reason
start_framed takes c (ok subprotocol) = accept_open takes c (framed_open subprotocol)

-- handleWebSocketToTCP, and its copy for the transparent mode.
unfoldable pub start_tcp : Takes → OpenCodec → (Text → Option Text) → Text → List Packet × Bool
start_tcp takes c dial_error host =
    if is_empty (trim_space host)
    then refuse_open takes c (codes "invalid tcp target: empty host")
    else elim (dial_error (trim_space host)) [
      | some reason ↦ refuse_open takes c reason
      | none ↦ accept_open takes c (framed_open [])
    ]
