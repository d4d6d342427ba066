-- ===== src/Agent/Relay/Raw.antt =====
-- internal/agent/agent.go: handleWebSocketToWSTransparent once the target has switched protocols.
pub mod Bytes
use https_proxy.Base.{ℕ, Bool, true, false, List, [], ◌∷◌, ◌++◌, if◌then◌else◌, ◌==◌}
use https_proxy.Base.Text.{Text, codes, is_empty}
use https_proxy.Proto.Types.{t_ws_c2a, t_ws_a2c, t_ws_close, t_rst}
use https_proxy.Proto.WsData.{Packet, Takes}

-- `written` are the bytes that the target's connection has been given.
pub record RawRelay : Type 0 where
  pub sent : List Packet
  pub written : Text
  pub closed_once : Bool
  pub stream_closed : Bool
  pub reading : Bool
  pub looping : Bool

abbrev pub dialed : List Packet → RawRelay
dialed sent = record {
  sent = sent;
  written = [];
  closed_once = false;
  stream_closed = false;
  reading = true;
  looping = true;
}

-- How a read ends: more may come, io.EOF or net.ErrClosed, another error, or an error from the bytes
-- that came with the handshake.
pub data End : Type 0 where
  more closed failed buffered_failed : End

-- The bytes that came with the handshake are the first read.
pub data Event : Type 0 where
  upstream_read : Text → End → Event
  frame : ℕ → Text → Bool → Event
  end_of_context end_of_stream stream_lost : Event

unfoldable pub send : Takes → ℕ → Text → RawRelay → RawRelay × Bool
send takes t payload s =
    if takes s.sent then (record s { sent = s.sent ++ ((t, payload) ∷ []) }, true) else (s, false)

-- The body of `closeOnce` is one step.
unfoldable pub close_stream : Takes → Text → RawRelay → RawRelay
unfolding send
close_stream takes reason s =
    if s.closed_once
    then s
    else record (send takes t_rst reason s).0 { closed_once = true; stream_closed = true }

abbrev pub stop_reading : RawRelay → RawRelay
stop_reading s = record s { reading = false }

abbrev pub returns : RawRelay → RawRelay
returns s = record s { looping = false }

abbrev pub on_end : Takes → End → RawRelay → RawRelay
on_end takes more s = s
on_end takes closed s = stop_reading (close_stream takes (codes "raw upstream closed") s)
on_end takes failed s = stop_reading (close_stream takes (codes "raw upstream read failed") s)
on_end takes buffered_failed s =
    stop_reading (close_stream takes (codes "raw upstream buffered read failed") s)

unfoldable pub on_upstream_read : Takes → Text → End → RawRelay → RawRelay
unfolding send close_stream
on_upstream_read takes bytes e s =
    let (s', taken) = send takes t_ws_a2c bytes s in
    if is_empty bytes
    then on_end takes e s
    else if taken
    then on_end takes e s'
    else stop_reading s'

-- `wrote` says whether the target's connection takes the bytes.
unfoldable pub on_frame : Takes → ℕ → Text → Bool → RawRelay → RawRelay
unfolding close_stream
on_frame takes t payload wrote s =
    if t == t_ws_c2a
    then (if is_empty payload
        then s
        else if wrote
        then record s { written = s.written ++ payload }
        else returns (close_stream takes (codes "raw upstream write failed") s))
    else if t == t_ws_close
    then returns (close_stream takes (codes "gateway closed stream") s)
    else if t == t_rst
    then returns (close_stream takes (codes "gateway closed stream") s)
    else s

unfoldable pub step : Takes → Event → RawRelay → RawRelay
unfolding on_upstream_read on_frame
step takes (upstream_read bytes e) s = if s.reading then on_upstream_read takes bytes e s else s
step takes (frame t payload wrote) s = if s.looping then on_frame takes t payload wrote s else s
step takes end_of_context s = returns s
step takes end_of_stream s = if s.stream_closed then returns s else s
step takes stream_lost s = record s { stream_closed = true }

unfoldable pub run : Takes → List Event → RawRelay → RawRelay
unfolding step
run takes [] s = s
run takes (e ∷ es) s = run takes es (step takes e s)
