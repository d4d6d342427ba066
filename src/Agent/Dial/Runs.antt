-- ===== src/Agent/Dial/Runs.antt =====
-- Handshakes at concrete inputs.
use https_proxy.Base.{ℕ, true, false, [], ◌∷◌, ◌++◌, none, some, ◌≡◌, refl}
use https_proxy.Base.Text.{codes, trim_space, to_lower}
use https_proxy.Base.Results.{err}
use https_proxy.Proto.Types.{ReqStart}
use https_proxy.Shared.Headers.{canonical_header_key}
use https_proxy.Gateway.Http.Exchange.{Peer, World}
use https_proxy.Gateway.WebSocket.Open.{Upgrader, Hijacker}
use https_proxy.Agent.Dispatch.{fold_from}
use https_proxy.Agent.Dial.{
  Target, Network, handshake_failed, OpenCodec, line_end, upgrade_request,
  dial_web_socket_upstream_raw, is_host_key,
}

abbrev demo_target : Target
demo_target = record {
  scheme = codes "ws";
  host = codes "127.0.0.1:9000";
  request_uri = codes "/ws";
}

abbrev demo_start : ReqStart
demo_start = record {
  method = codes "GET";
  path = codes "/ws";
  raw_query = [];
  host = codes "app.test";
  header = (codes "host", codes "evil" ∷ []) ∷ (codes "upgrade", codes "websocket" ∷ []) ∷ [];
  trailer_keys = [];
  is_web_socket = true;
}

abbrev answering : ℕ → Network
answering code = record {
  dial_error = λ tls addr. none;
  takes = λ b. true;
  answer = λ request. some (record {
    status_code = code;
    status = codes "403 Forbidden";
    body = codes " no ";
    header = [];
  });
}

abbrev mode_codec : OpenCodec
mode_codec = record { open_ok_json = λ m. m.relay_mode; open_err_json = λ t. t; message = λ e. [] }

abbrev mode_upgrader : Upgrader
mode_upgrader = record {
  open_ok = λ b. record { subprotocol = []; relay_mode = b; extensions = [] };
  close_json = λ m. m.reason;
  upgrades = λ h. true;
}

abbrev demo_peer : Peer
demo_peer = record { can_send = λ t. true; can_write = λ t. true; flushes = false }

abbrev demo_hijacker : Hijacker
demo_hijacker = record { supported = true; hijacks = true; takes = λ b. true; digest = λ b. b }

abbrev fresh : World
fresh = record { trace = []; header = [] }

-- The client's Host goes into the first line of the header, and into no other.
one_host :
    upgrade_request demo_target demo_start
    ≡ codes "GET /ws HTTP/1.1"
      ++ line_end
      ++ codes "Host: app.test"
      ++ line_end
      ++ codes "Upgrade: websocket"
      ++ line_end
      ++ line_end
unfolding upgrade_request is_host_key fold_from trim_space to_lower canonical_header_key
one_host = refl

not_switched :
    dial_web_socket_upstream_raw (answering 403) demo_target demo_start
    ≡ err (handshake_failed (codes "no"))
unfolding dial_web_socket_upstream_raw trim_space to_lower
not_switched = refl
