-- ===== src/Agent/Relay.antt =====
-- internal/agent/agent.go: what the agent's WebSocket handlers run once the target is connected: the reader of
-- the target and the loop over the gateway's frames. A step is what one of them does between two waits, so
-- that every interleaving is a list of events; a step that is not enabled changes nothing.
pub mod Framed
pub mod Tcp
pub mod Raw
pub mod CloseOnce
pub mod Feeding
pub mod EndToEnd
pub mod RawEndToEnd
pub mod Complete
mod Runs
use https_proxy.Base.{ℕ, Bool, true, false, List, [], ◌∷◌, ◌++◌, if◌then◌else◌}
use https_proxy.Base.Int.{ℤ}
use https_proxy.Base.Text.{Text}
use https_proxy.Proto.Types.{t_ws_close}
use https_proxy.Proto.WsData.{Packet, Message, CloseCodec, Takes}

-- `closed_once` says that `closeOnce` has run, `reading` and `looping` that the reader and the loop
-- have not returned. To a TCP target only the bytes of a message are written.
pub record Relay : Type 0 where
  pub sent : List Packet
  pub written : List Message
  pub controls : List (ℕ × Text)
  pub closed_once : Bool
  pub stream_closed : Bool
  pub reading : Bool
  pub looping : Bool

abbrev pub opened : List Packet → Relay
opened sent = record {
  sent = sent;
  written = [];
  controls = [];
  closed_once = false;
  stream_closed = false;
  reading = true;
  looping = true;
}

-- `s.send`: the connection takes the frame, whether or not the stream is closed.
unfoldable pub send : Takes → ℕ → Text → Relay → Relay × Bool
send takes t payload s =
    if takes s.sent then (record s { sent = s.sent ++ ((t, payload) ∷ []) }, true) else (s, false)

unfoldable pub send_close_to_gateway : Takes → CloseCodec → ℤ → Text → Relay → Relay
unfolding send
send_close_to_gateway takes c code reason s =
    if s.closed_once
    then s
    else record (send takes t_ws_close (c.close_json (record { code = code; reason = reason }))
        s).0 { closed_once = true; stream_closed = true }

abbrev pub stop_reading : Relay → Relay
stop_reading s = record s { reading = false }

abbrev pub returns : Relay → Relay
returns s = record s { looping = false }
