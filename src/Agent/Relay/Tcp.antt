-- ===== src/Agent/Relay/Tcp.antt =====
-- internal/agent/agent.go: handleWebSocketToTCP and handleWebSocketToTCPTransparent, which do the same
-- once the target's TCP connection is open.
pub mod CloseOnce
use https_proxy.Base.{
  ℕ, Bool, true, false, List, [], ◌∷◌, ◌++◌, Option, none, some, if◌then◌else◌, ◌==◌,
}
use https_proxy.Base.Int.{pos}
use https_proxy.Base.Text.{Text, codes, is_empty}
use https_proxy.Proto.Types.{t_ws_c2a, t_ws_a2c, t_ws_close, t_rst}
use https_proxy.Proto.WsData.{binary_message, CloseCodec, Takes, Write, wrote, write_failed}
use https_proxy.Shared.WsClose.{close_going_away, close_normal_closure}
use https_proxy.Agent.Relay.{Relay, send, send_close_to_gateway, stop_reading, returns}

-- How a read of the connection ends: more may come, io.EOF, net.ErrClosed, or another error.
pub data End : Type 0 where
  more eof closed failed : End

pub data Event : Type 0 where
  upstream_read : Text → End → Event
  frame : ℕ → Text → Write → Event
  end_of_context end_of_stream stream_lost : Event

abbrev pub on_end : Takes → CloseCodec → End → Relay → Relay
on_end takes c more s = s
on_end takes c eof s =
    stop_reading
      (send_close_to_gateway takes c (pos close_normal_closure) (codes "upstream tcp closed") s)
on_end takes c closed s = stop_reading s
on_end takes c failed s =
    stop_reading
      (send_close_to_gateway takes c (pos close_going_away) (codes "upstream tcp read failed") s)

-- The bytes of a read go out as one binary message.
unfoldable pub on_upstream_read : Takes → CloseCodec → Text → End → Relay → Relay
unfolding send send_close_to_gateway
on_upstream_read takes c bytes e s =
    let (s', taken) = send takes t_ws_a2c (binary_message ∷ bytes) s in
    if is_empty bytes
    then on_end takes c e s
    else if taken
    then on_end takes c e s'
    else stop_reading s'

-- A payload of one byte names a type and has no bytes.
unfoldable pub on_data : Takes → CloseCodec → Text → Write → Relay → Relay
unfolding send_close_to_gateway
on_data takes c [] w s = s
on_data takes c (mt ∷ []) w s = s
on_data takes c (mt ∷ b ∷ bytes) wrote s = record s {
  written = s.written ++ ((binary_message, b ∷ bytes) ∷ []);
}
on_data takes c (mt ∷ b ∷ bytes) (write_failed o) s =
    returns
      (send_close_to_gateway takes c (pos close_going_away) (codes "upstream tcp write failed") s)

unfoldable pub on_frame : Takes → CloseCodec → ℕ → Text → Write → Relay → Relay
unfolding on_data
on_frame takes c t payload w s =
    if t == t_ws_c2a
    then on_data takes c payload w s
    else if t == t_ws_close
    then returns s
    else if t == t_rst
    then returns s
    else s

unfoldable pub step : Takes → CloseCodec → Event → Relay → Relay
unfolding on_upstream_read on_frame
step takes c (upstream_read bytes e) s = if s.reading then on_upstream_read takes c bytes e s else s
step takes c (frame t payload w) s = if s.looping then on_frame takes c t payload w s else s
step takes c end_of_context s = returns s
step takes c end_of_stream s = if s.stream_closed then returns s else s
step takes c stream_lost s = record s { stream_closed = true }

unfoldable pub run : Takes → CloseCodec → List Event → Relay → Relay
unfolding step
run takes c [] s = s
run takes c (e ∷ es) s = run takes c es (step takes c e s)
