-- ===== src/Agent/Relay/Framed.antt =====
-- internal/agent/agent.go: handleWebSocket after the target's WebSocket is open.
pub mod CloseOnce
pub mod Delivery
use https_proxy.Base.{
  ℕ, Bool, true, false, not, List, [], ◌∷◌, ◌++◌, Option, none, some, if◌then◌else◌, ◌==◌,
}
use https_proxy.Base.Int.{ℤ, pos}
use https_proxy.Base.Text.{Text, codes}
use https_proxy.Proto.Types.{WsClose, t_ws_c2a, t_ws_a2c, t_ws_close, t_rst}
use https_proxy.Proto.WsData.{is_data, CloseCodec, Takes, Write, wrote, write_failed}
use https_proxy.Shared.WsClose.{sanitize_close_code, close_going_away}
use https_proxy.Agent.Relay.{Relay, send, send_close_to_gateway, stop_reading, returns}

-- `upstream_failed` has what CloseFromErr makes of the error; `end_of_context` and `end_of_stream` are the
-- other two cases of the loop's `select`.
pub data Event : Type 0 where
  upstream_message : ℕ → Text → Event
  upstream_failed : Option (ℤ × Text) → Event
  frame : ℕ → Text → Write → Event
  end_of_context end_of_stream stream_lost : Event

unfoldable pub on_upstream_message : Takes → ℕ → Text → Relay → Relay
unfolding send
on_upstream_message takes mt bytes s =
    let (s', taken) = send takes t_ws_a2c (mt ∷ bytes) s in
    if not (is_data mt) then s else if taken then s' else stop_reading s'

unfoldable pub on_upstream_failed : Takes → CloseCodec → Option (ℤ × Text) → Relay → Relay
unfolding send_close_to_gateway
on_upstream_failed takes c none s =
    stop_reading (send_close_to_gateway takes c (pos close_going_away) (codes "upstream closed") s)
on_upstream_failed takes c (some (code, reason)) s =
    stop_reading (send_close_to_gateway takes c code reason s)

unfoldable pub on_data : Takes → CloseCodec → Text → Write → Relay → Relay
unfolding send_close_to_gateway
on_data takes c [] w s = s
on_data takes c (mt ∷ bytes) wrote s = record s { written = s.written ++ ((mt, bytes) ∷ []) }
on_data takes c (mt ∷ bytes) (write_failed none) s =
    returns (send_close_to_gateway takes c (pos close_going_away) (codes "upstream write failed") s)
on_data takes c (mt ∷ bytes) (write_failed (some (code, reason))) s =
    returns (send_close_to_gateway takes c code reason s)

abbrev pub on_close : WsClose → Relay → Relay
on_close m s =
    returns (record s { controls = s.controls ++ ((sanitize_close_code m.code, m.reason) ∷ []) })

unfoldable pub on_frame : Takes → CloseCodec → ℕ → Text → Write → Relay → Relay
unfolding on_data
on_frame takes c t payload w s =
    if t == t_ws_c2a
    then on_data takes c payload w s
    else if t == t_ws_close
    then on_close (c.close_of payload) s
    else if t == t_rst
    then returns s
    else s

unfoldable pub step : Takes → CloseCodec → Event → Relay → Relay
unfolding on_upstream_message on_upstream_failed on_frame
step takes c (upstream_message mt bytes) s =
    if s.reading then on_upstream_message takes mt bytes s else s
step takes c (upstream_failed o) s = if s.reading then on_upstream_failed takes c o s else s
step takes c (frame t payload w) s = if s.looping then on_frame takes c t payload w s else s
step takes c end_of_context s = returns s
step takes c end_of_stream s = if s.stream_closed then returns s else s
step takes c stream_lost s = record s { stream_closed = true }

unfoldable pub run : Takes → CloseCodec → List Event → Relay → Relay
unfolding step
run takes c [] s = s
run takes c (e ∷ es) s = run takes c es (step takes c e s)
