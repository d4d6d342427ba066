-- ===== src/Gateway/WebSocket/Runs.antt =====
-- WebSocket requests at concrete inputs.
use https_proxy.Base.{true, false, [], ◌∷◌, none, ◌≡◌, refl}
use https_proxy.Base.Int.{pos}
use https_proxy.Base.Text.{codes, trim_space, to_lower}
use https_proxy.Base.Results.{err}
use https_proxy.Proto.Types.{
  WsOpenOk, t_ws_open_ok, t_rst, t_req_start, t_ws_a2c, ws_relay_mode_raw,
}
use https_proxy.Base.Assoc.{lookup}
use https_proxy.Shared.Headers.{get, values_at}
use https_proxy.Gateway.Http.Exchange.{Peer, Codec, Recv, frame, page, sent}
use https_proxy.Gateway.Http.Request.{Request}
use https_proxy.Gateway.WebSocket.Modes.{
  is_framed_relay_mode, sanitize_web_socket_header_value, check_value,
}
use https_proxy.Proto.WsData.{wrote}
use https_proxy.Gateway.WebSocket.Relay
use https_proxy.Gateway.WebSocket.Relay.{run_transparent, upgraded, run}
use https_proxy.Gateway.WebSocket.Open.{
  Upgrader, Hijacker, missing_key, open_framed, open_raw, open_transparent, refused,
  hijack_and_write, web_socket_accept,
}
use https_proxy.Gateway.WebSocket.Open.Answers.{Answered, open_framed-Answered, open_raw-Answered}
use https_proxy.Gateway.WebSocket.Open.Splitting.{
  Succeeds, HasOwnLines, hijack_and_write-HasOwnLines,
}

abbrev willing : Peer
willing = record { can_send = λ t. true; can_write = λ t. true; flushes = false }

abbrev demo_codec : Codec
demo_codec = record {
  req_start = λ r. r.path;
  header_json = λ h. [];
  res_start = λ b. record { status = pos 200; header = []; trailer_keys = []; interim = false };
  header_of = λ b. [];
  parse_query = λ s. none;
  encode_query = λ q. [];
}

abbrev demo_open : WsOpenOk
demo_open = record {
  subprotocol = codes "chat";
  relay_mode = ws_relay_mode_raw;
  extensions = codes "permessage-deflate" ∷ [];
}

abbrev demo_upgrader : Upgrader
demo_upgrader = record {
  open_ok = λ b. demo_open;
  close_json = λ m. m.reason;
  upgrades = λ h. true;
}

abbrev demo_hijacker : Hijacker
demo_hijacker = record { supported = true; hijacks = true; takes = λ b. true; digest = λ b. b }

abbrev demo_request : Request
demo_request = record {
  method = codes "GET";
  raw_query = codes "token=abc";
  host = codes "example.test";
  header = (codes "Sec-Websocket-Key", codes "a2V5" ∷ []) ∷ [];
  content_length = pos 0;
  declared = [];
  trailer = [];
}

abbrev agreed : Recv
agreed = frame (record { type = t_ws_open_ok; stream = 1; payload = [] })

open_framed-Answered_example :
    Answered
      (open_framed true willing demo_codec demo_upgrader false demo_request (codes "/ws") agreed)
open_framed-Answered_example =
    open_framed-Answered true willing demo_codec demo_upgrader false demo_request (codes "/ws")
      agreed

open_raw-Answered_example :
    Answered (
      open_raw true willing demo_codec demo_upgrader demo_hijacker demo_request
        (codes "/ws")
        agreed)
open_raw-Answered_example =
    open_raw-Answered true willing demo_codec demo_upgrader demo_hijacker demo_request (codes "/ws")
      agreed

hijack_and_write-HasOwnLines_example :
    Succeeds
      (HasOwnLines
        (web_socket_accept demo_hijacker
          (trim_space (get demo_request.header (codes "Sec-WebSocket-Key"))))
        demo_open)
      (hijack_and_write demo_hijacker demo_request.header demo_open)
hijack_and_write-HasOwnLines_example =
    hijack_and_write-HasOwnLines demo_hijacker demo_request.header demo_open

-- A request without a key is not taken over.
keyless : hijack_and_write demo_hijacker [] demo_open ≡ err missing_key
unfolding hijack_and_write sanitize_web_socket_header_value check_value trim_space values_at lookup
keyless = refl

-- The transparent handler passes credentials in a query on, and does not relay for an agent that wants to be raw.
refused_open :
    open_transparent true willing demo_codec demo_upgrader demo_request (codes "/ws") agreed ≡ (
      record {
        trace =
            page 502 (codes "agent ws relay mismatch")
            ∷ sent t_rst (codes "agent ws relay mismatch")
            ∷ sent t_req_start (codes "/ws")
            ∷ [];
        header = [];
      },
      refused,
    )
unfolding open_framed is_framed_relay_mode trim_space to_lower
refused_open = refl

-- A message of an unknown type reaches the client as a binary one, in the transparent handler only.
unknown_type :
    (run_transparent
      (λ ps. true)
      (record { close_json = λ m. []; close_of = λ b. record { code = pos 0; reason = b } })
      (Relay.frame t_ws_a2c (9 ∷ codes "x") wrote ∷ [])
      (upgraded [])).written
    ≡ (2, codes "x") ∷ []
unfolding run
unknown_type = refl
