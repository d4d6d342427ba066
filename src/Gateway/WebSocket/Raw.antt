-- ===== src/Gateway/WebSocket/Raw.antt =====
-- internal/gateway/server.go: what handleClientWebSocketTransparentRaw runs once the client's connection is
-- taken over: the reader of the client and the loop over the agent's frames. Steps are as in the framed relay.
pub mod Bytes
use https_proxy.Base.{ℕ, Bool, true, false, List, [], ◌∷◌, ◌++◌, if◌then◌else◌, ◌==◌}
use https_proxy.Base.Text.{Text, codes, is_empty}
use https_proxy.Proto.Types.{t_ws_c2a, t_ws_a2c, t_ws_close, t_rst}
use https_proxy.Proto.WsData.{Packet, Takes}
use https_proxy.Gateway.WebSocket.Relay.{Phase, looping, leaving, left}

-- `written` are the bytes that the client's connection has been given.
pub record RawRelay : Type 0 where
  pub sent : List Packet
  pub written : Text
  pub ctx_done : Bool
  pub closed_once : Bool
  pub stream_closed : Bool
  pub reading : Bool
  pub phase : Phase

abbrev pub hijacked : List Packet → RawRelay
hijacked sent = record {
  sent = sent;
  written = [];
  ctx_done = false;
  closed_once = false;
  stream_closed = false;
  reading = true;
  phase = looping;
}

-- How a read ends: more may come, io.EOF or net.ErrClosed, another error, or an error from the bytes
-- that the server had read ahead.
pub data End : Type 0 where
  more closed failed buffered_failed : End

-- The bytes that the server had read ahead are the first read.
pub data Event : Type 0 where
  client_read : Text → End → Event
  frame : ℕ → Text → Bool → Event
  recv_failed cancelled stream_lost check leave : Event

unfoldable pub send : Takes → ℕ → Text → RawRelay → RawRelay × Bool
send takes t payload s =
    if s.stream_closed
    then (s, false)
    else if takes s.sent
    then (record s { sent = s.sent ++ ((t, payload) ∷ []) }, true)
    else (s, false)

-- The body of `closeOnce` is one step.
unfoldable pub close_stream : Takes → Text → RawRelay → RawRelay
unfolding send
close_stream takes reason s = if s.closed_once then s else record (send takes t_rst reason s).0 {
  closed_once = true;
  stream_closed = true;
  ctx_done = true;
}

-- The reader's `defer cancel()`.
abbrev pub stop_reading : RawRelay → RawRelay
stop_reading s = record s { reading = false; ctx_done = true }

abbrev pub returns : RawRelay → RawRelay
returns s = record s { phase = leaving; ctx_done = true }

abbrev pub on_end : Takes → End → RawRelay → RawRelay
on_end takes more s = s
on_end takes closed s = stop_reading (close_stream takes (codes "raw client closed") s)
on_end takes failed s = stop_reading (close_stream takes (codes "raw client read failed") s)
on_end takes buffered_failed s =
    stop_reading (close_stream takes (codes "raw client buffered read failed") s)

unfoldable pub on_client_read : Takes → Text → End → RawRelay → RawRelay
unfolding send close_stream
on_client_read takes bytes e s =
    let (s', taken) = send takes t_ws_c2a bytes s in
    if is_empty bytes
    then on_end takes e s
    else if taken
    then on_end takes e s'
    else stop_reading (close_stream takes (codes "raw send to agent failed") s')

-- `wrote` says whether the client's connection takes the bytes.
unfoldable pub on_frame : Takes → ℕ → Text → Bool → RawRelay → RawRelay
unfolding close_stream
on_frame takes t payload wrote s =
    if t == t_ws_a2c
    then (if is_empty payload
        then s
        else if wrote
        then record s { written = s.written ++ payload }
        else returns (close_stream takes (codes "raw client write failed") s))
    else if t == t_ws_close
    then returns (close_stream takes (codes "agent closed stream") s)
    else if t == t_rst
    then returns (close_stream takes (codes "agent closed stream") s)
    else s

abbrev pub in_loop : RawRelay → RawRelay → RawRelay
in_loop s s' = elim s.phase [ looping ↦ s' | _ ↦ s ]

unfoldable pub step : Takes → Event → RawRelay → RawRelay
unfolding on_client_read on_frame close_stream
step takes (client_read bytes e) s = if s.reading then on_client_read takes bytes e s else s
step takes (frame t payload wrote) s = in_loop s (on_frame takes t payload wrote s)
step takes recv_failed s =
    in_loop s
      (if s.stream_closed then returns (close_stream takes (codes "agent stream closed") s) else s)
step takes check s = in_loop s (if s.ctx_done then returns s else s)
step takes cancelled s = record s { ctx_done = true }
step takes stream_lost s = record s { stream_closed = true }
step takes leave s = elim s.phase [
  | leaving ↦ record s { phase = left; stream_closed = true }
  | _ ↦ s
]

unfoldable pub run : Takes → List Event → RawRelay → RawRelay
unfolding step
run takes [] s = s
run takes (e ∷ es) s = run takes es (step takes e s)
