-- ===== src/Gateway/WebSocket/Open.antt =====
-- internal/gateway/server.go: how the handlers of WebSocket requests begin, until the client's connection is
-- upgraded or taken over. The agent is asked first, so that the client is upgraded only after it agrees.
pub mod Answers
pub mod Splitting
use https_proxy.Base.{Bool, true, false, not, List, [], ◌∷◌, ◌++◌, if◌then◌else◌, ◌==◌}
use https_proxy.Base.Int.{pos}
use https_proxy.Base.Text.{Text, codes, is_empty, trim_space}
use https_proxy.Base.Results.{Result, ok, err}
use https_proxy.Proto.Frame.{Frame}
use https_proxy.Proto.Types.{
  Header, ReqStart, WsOpenOk, WsClose, t_req_start, t_ws_open_ok, t_ws_open_err, t_ws_close, t_rst,
}
use https_proxy.Shared.Headers.{get, set_value}
use https_proxy.Shared.WsClose.{close_protocol_error}
use https_proxy.Gateway.Http.Exchange.{
  World, Peer, Codec, Recv, frame, timed_out, failed, page, closed, log, send, try_send,
}
use https_proxy.Gateway.Http.Auth.{apply_query_bearer_auth, strip_forwarding_ip_headers}
use https_proxy.Gateway.Http.Request.{Request, send_failed}
use https_proxy.Gateway.WebSocket.Modes.{
  is_framed_relay_mode, is_raw_relay_mode, sanitize_web_socket_header_value,
}

-- encoding/json on the messages of a WebSocket, where a decoder that fails leaves what it leaves, and whether
-- the client's connection is upgraded with a header.
pub record Upgrader : Type 0 where
  pub open_ok : Text → WsOpenOk
  pub close_json : WsClose → Text
  pub upgrades : Header → Bool

-- The relay that follows has the upgraded header, or the bytes of the response. `refused` is an error page;
-- `upgrade_failed` leaves the client to the upgrader, and `hijack_failed` to net/http.
pub data Outcome : Type 0 where
  relaying : Header → Outcome
  relaying_raw : Text → Outcome
  refused upgrade_failed hijack_failed : Outcome

-- Only handleClientWebSocket, the one that is not transparent, looks for credentials in the query.
unfoldable pub ws_request_start : Codec → Bool → Request → Text → ReqStart
ws_request_start c transparent r suffix_path =
    let h = strip_forwarding_ip_headers r.header in
    let (with_auth, cleaned) = apply_query_bearer_auth c h r.raw_query in
    record {
      method = r.method;
      path = suffix_path;
      raw_query = if transparent then r.raw_query else cleaned;
      host = r.host;
      header = if transparent then h else with_auth;
      trailer_keys = [];
      is_web_socket = true;
    }

-- `_ = st.send(proto.TRst, ...)` and http.Error.
abbrev pub refuse : Peer → Text → Text → World → World × Outcome
refuse p reason shown w = (log (page 502 shown) (try_send p t_rst reason w), refused)

unfoldable pub upgrade : Peer → Upgrader → Header → World → World × Outcome
unfolding try_send
upgrade p u h w = if u.upgrades h then (w, relaying h) else (
  try_send p t_ws_close
      (u.close_json
        (record { code = pos close_protocol_error; reason = codes "client upgrade failed" }))
      w,
  upgrade_failed,
)

unfoldable pub accept_framed : Peer → Upgrader → WsOpenOk → World → World × Outcome
unfolding upgrade try_send
accept_framed p u m w =
    if not (is_framed_relay_mode m.relay_mode)
    then refuse p (codes "agent ws relay mismatch") (codes "agent ws relay mismatch") w
    else if is_empty m.subprotocol
    then upgrade p u [] w
    else elim (sanitize_web_socket_header_value m.subprotocol) [
      | err e ↦ refuse p (codes "agent ws bad subprotocol") (codes "agent ws bad handshake") w
      | ok sp ↦
          upgrade p u (if is_empty sp then [] else set_value [] (codes "Sec-WebSocket-Protocol") sp)
            w
    ]

-- `w.(http.Hijacker)`, `Hijack`, whether the connection takes the response, and the base64 of a SHA-1 sum.
pub record Hijacker : Type 0 where
  pub supported : Bool
  pub hijacks : Bool
  pub takes : Text → Bool
  pub digest : Text → Text

pub data HijackError : Type 0 where
  not_supported invalid_subprotocol invalid_extensions missing_key not_hijacked not_written :
      HijackError

abbrev pub web_socket_guid : Text
web_socket_guid = codes "258EAFA5-E914-47DA-95CA-C5AB0DC85B11"

unfoldable pub web_socket_accept : Hijacker → Text → Text
web_socket_accept j key = j.digest (trim_space key ++ web_socket_guid)

-- The extensions that are not blank.
unfoldable pub sanitize_extensions : List Text → Result HijackError (List Text)
sanitize_extensions [] = ok []
sanitize_extensions (raw ∷ raws) =
    let rest = sanitize_extensions raws in
    elim (sanitize_web_socket_header_value raw) [
      | err e ↦ err invalid_extensions
      | ok ext ↦
          if is_empty ext then rest else elim rest [ err e ↦ err e | ok exts ↦ ok (ext ∷ exts) ]
    ]

abbrev pub crlf : Text
crlf = 13 ∷ 10 ∷ []

abbrev pub extension_lines : List Text → Text
extension_lines [] = []
extension_lines (e ∷ es) = codes "Sec-WebSocket-Extensions: " ++ e ++ crlf ++ extension_lines es

abbrev pub protocol_line : Text → Text
protocol_line sp = if is_empty sp then [] else codes "Sec-WebSocket-Protocol: " ++ sp ++ crlf

abbrev pub switching_protocols : Text → Text → List Text → Text
switching_protocols accept sp exts =
    codes "HTTP/1.1 101 Switching Protocols"
    ++ crlf
    ++ codes "Upgrade: websocket"
    ++ crlf
    ++ codes "Connection: Upgrade"
    ++ crlf
    ++ codes "Sec-WebSocket-Accept: "
    ++ accept
    ++ crlf
    ++ protocol_line sp
    ++ extension_lines exts
    ++ crlf

abbrev pub write_switching : Hijacker → Text → Text → List Text → Result HijackError Text
write_switching j key sp exts =
    if is_empty (trim_space key)
    then err missing_key
    else if not j.hijacks
    then err not_hijacked
    else let response = switching_protocols (web_socket_accept j (trim_space key)) sp exts in
      if j.takes response then ok response else err not_written

unfoldable pub hijack_and_write : Hijacker → Header → WsOpenOk → Result HijackError Text
unfolding sanitize_extensions
hijack_and_write j h m =
    if not j.supported
    then err not_supported
    else elim (sanitize_web_socket_header_value m.subprotocol) [
      | err e ↦ err invalid_subprotocol
      | ok sp ↦ elim (sanitize_extensions m.extensions) [
        | err e ↦ err e
        | ok exts ↦ write_switching j (get h (codes "Sec-WebSocket-Key")) sp exts
      ]
    ]

unfoldable pub accept_raw : Peer → Hijacker → Header → WsOpenOk → World → World × Outcome
unfolding hijack_and_write try_send
accept_raw p j h m w =
    if not (is_raw_relay_mode m.relay_mode)
    then refuse p (codes "agent ws relay mismatch") (codes "agent ws relay mismatch") w
    else elim (hijack_and_write j h m) [
      | err e ↦ (try_send p t_rst (codes "client upgrade failed") w, hijack_failed)
      | ok response ↦ (w, relaying_raw response)
    ]

-- The agent's answer; `accept` goes on where it agrees.
abbrev pub on_answer :
    Peer → Upgrader → (WsOpenOk → World → World × Outcome) → Recv → World → World × Outcome
on_answer p u accept timed_out w = refuse p (codes "agent ws timeout") (codes "agent ws timeout") w
on_answer p u accept failed w = refuse p (codes "agent ws timeout") (codes "agent ws timeout") w
on_answer p u accept (frame f) w =
    if f.type == t_ws_open_err
    then (log (page 502 (codes "agent ws open failed")) w, refused)
    else if not (f.type == t_ws_open_ok)
    then refuse p (codes "agent ws bad handshake") (codes "agent ws bad handshake") w
    else accept (u.open_ok f.payload) w

-- `opened` says whether newStream succeeds; the deferred close of the stream follows the relay.
unfoldable pub open_with :
    Bool
    → Peer
    → Codec
    → Upgrader
    → Bool
    → (WsOpenOk → World → World × Outcome)
    → Request
    → Text
    → Recv
    → World × Outcome
unfolding send ws_request_start try_send
open_with opened p c u transparent accept r suffix_path answer =
    let fresh : World = record { trace = []; header = [] } in
    let (w, taken) =
      send p t_req_start (c.req_start (ws_request_start c transparent r suffix_path)) fresh in
    if not opened
    then (log (page 429 (codes "too many concurrent streams")) fresh, refused)
    else if taken
    then on_answer p u accept answer w
    else (send_failed w, refused)

-- handleClientWebSocket, and handleClientWebSocketTransparent where `transparent` holds.
unfoldable pub open_framed :
    Bool → Peer → Codec → Upgrader → Bool → Request → Text → Recv → World × Outcome
unfolding open_with accept_framed
open_framed opened p c u transparent r = open_with opened p c u transparent (accept_framed p u) r

abbrev pub open_transparent :
    Bool → Peer → Codec → Upgrader → Request → Text → Recv → World × Outcome
open_transparent opened p c u = open_framed opened p c u true

-- handleClientWebSocketTransparentRaw.
unfoldable pub open_raw :
    Bool → Peer → Codec → Upgrader → Hijacker → Request → Text → Recv → World × Outcome
unfolding open_with accept_raw
open_raw opened p c u j r = open_with opened p c u true (accept_raw p j r.header) r
