-- ===== src/Gateway/WebSocket/Relay.antt =====
-- internal/gateway/server.go: what handleClientWebSocket and handleClientWebSocketTransparent run once
-- the client's connection is upgraded: the reader of the client, the goroutine that waits for the context,
-- and the loop over the agent's frames. A step is what one of them does between two waits, so that
-- every interleaving is a list of events; a step that is not enabled changes nothing. The body of `closeOnce` is one step.
use https_proxy.Base.{
  ℕ, Bool, true, false, not, List, [], ◌∷◌, ◌++◌, Option, none, some, if◌then◌else◌, ◌==◌,
}
use https_proxy.Base.Int.{ℤ, pos}
use https_proxy.Base.Text.{Text, codes}
use https_proxy.Proto.Types.{WsClose, t_ws_c2a, t_ws_a2c, t_ws_close, t_rst}
use https_proxy.Proto.WsData.{
  Packet, Message, is_data, binary_message, CloseCodec, Takes, Write, wrote, write_failed,
}
use https_proxy.Shared.WsClose.{sanitize_close_code, close_going_away}

-- The loop runs, it has returned and the stream is about to be closed, or it is closed.
pub data Phase : Type 0 where
  looping leaving left : Phase

-- `ctx_done` is the context's end, `closed_once` that `closeOnce` has run, `reading` and `watching` the goroutines.
pub record Relay : Type 0 where
  pub sent : List Packet
  pub written : List Message
  pub controls : List (ℕ × Text)
  pub ctx_done : Bool
  pub closed_once : Bool
  pub close_done : Bool
  pub stream_closed : Bool
  pub reading : Bool
  pub watching : Bool
  pub phase : Phase

abbrev pub upgraded : List Packet → Relay
upgraded sent = record {
  sent = sent;
  written = [];
  controls = [];
  ctx_done = false;
  closed_once = false;
  close_done = false;
  stream_closed = false;
  reading = true;
  watching = true;
  phase = looping;
}

-- `client_failed` has what CloseFromErr makes of the error; `stream_lost` is a stream that the connection closes;
-- `cancelled` the end of the request or a failed ping; `watch` the end of the wait for the context.
pub data Event : Type 0 where
  client_message : ℕ → Text → Event
  client_failed : Option (ℤ × Text) → Event
  frame : ℕ → Text → Write → Event
  recv_failed cancelled stream_lost watch check leave : Event

-- `st.send`: a stream that is closed refuses it.
unfoldable pub send : Takes → ℕ → Text → Relay → Relay × Bool
send takes t payload s =
    if s.stream_closed
    then (s, false)
    else if takes s.sent
    then (record s { sent = s.sent ++ ((t, payload) ∷ []) }, true)
    else (s, false)

unfoldable pub send_close_to_agent : Takes → CloseCodec → ℤ → Text → Relay → Relay
unfolding send
send_close_to_agent takes c code reason s =
    if s.closed_once
    then s
    else record (send takes t_ws_close (c.close_json (record { code = code; reason = reason }))
        s).0 { closed_once = true; close_done = true }

-- The reader's `defer cancel()`.
abbrev pub stop_reading : Relay → Relay
stop_reading s = record s { reading = false; ctx_done = true }

-- The handler's deferred `cancel()`; what it defers to close the stream is the step `leave`.
abbrev pub returns : Relay → Relay
returns s = record s { phase = leaving; ctx_done = true }

unfoldable pub on_client_message : Takes → ℕ → Text → Relay → Relay
unfolding send
on_client_message takes mt bytes s =
    let (s', taken) = send takes t_ws_c2a (mt ∷ bytes) s in
    if not (is_data mt) then s else if taken then s' else stop_reading s'

unfoldable pub on_client_failed : Takes → CloseCodec → Option (ℤ × Text) → Relay → Relay
unfolding send_close_to_agent
on_client_failed takes c none s =
    stop_reading (send_close_to_agent takes c (pos close_going_away) (codes "client closed") s)
on_client_failed takes c (some (code, reason)) s =
    stop_reading (send_close_to_agent takes c code reason s)

unfoldable pub on_watch : Takes → Relay → Relay
unfolding send
on_watch takes s =
    let s' = if s.close_done then s else (send takes t_rst (codes "ws client closed") s).0 in
    record s' { stream_closed = true; watching = false }

-- `as_type` is the type that a message is written with.
unfoldable pub on_data : Takes → CloseCodec → (ℕ → ℕ) → Text → Write → Relay → Relay
unfolding send send_close_to_agent
on_data takes c as_type [] w s = s
on_data takes c as_type (mt ∷ bytes) wrote s = record s {
  written = s.written ++ ((as_type mt, bytes) ∷ []);
}
on_data takes c as_type (mt ∷ bytes) (write_failed none) s =
    returns (send takes t_rst (codes "client write failed") s).0
on_data takes c as_type (mt ∷ bytes) (write_failed (some (code, reason))) s =
    returns (send_close_to_agent takes c code reason s)

abbrev pub on_close : WsClose → Relay → Relay
on_close m s = returns (record s {
  close_done = true;
  controls = s.controls ++ ((sanitize_close_code m.code, m.reason) ∷ []);
})

unfoldable pub on_frame : Takes → CloseCodec → (ℕ → ℕ) → ℕ → Text → Write → Relay → Relay
unfolding on_data
on_frame takes c as_type t payload w s =
    if t == t_ws_a2c
    then on_data takes c as_type payload w s
    else if t == t_ws_close
    then on_close (c.close_of payload) s
    else if t == t_rst
    then returns s
    else s

abbrev pub in_loop : Relay → Relay → Relay
in_loop s s' = elim s.phase [ looping ↦ s' | _ ↦ s ]

unfoldable pub step : Takes → CloseCodec → (ℕ → ℕ) → Event → Relay → Relay
unfolding on_client_message on_client_failed on_watch on_frame
step takes c as_type (client_message mt bytes) s =
    if s.reading then on_client_message takes mt bytes s else s
step takes c as_type (client_failed o) s = if s.reading then on_client_failed takes c o s else s
step takes c as_type (frame t payload w) s = in_loop s (on_frame takes c as_type t payload w s)
step takes c as_type recv_failed s = in_loop s (if s.stream_closed then returns s else s)
step takes c as_type check s = in_loop s (if s.ctx_done then returns s else s)
step takes c as_type cancelled s = record s { ctx_done = true }
step takes c as_type stream_lost s = record s { stream_closed = true }
step takes c as_type watch s =
    if s.watching then (if s.ctx_done then on_watch takes s else s) else s
step takes c as_type leave s = elim s.phase [
  | leaving ↦ record s { phase = left; stream_closed = true }
  | _ ↦ s
]

unfoldable pub run : Takes → CloseCodec → (ℕ → ℕ) → List Event → Relay → Relay
unfolding step
run takes c as_type [] s = s
run takes c as_type (e ∷ es) s = run takes c as_type es (step takes c as_type e s)

-- handleClientWebSocket writes the type that the frame names.
abbrev pub framed_type : ℕ → ℕ
framed_type mt = mt

-- handleClientWebSocketTransparent writes a message of any other type as binary.
abbrev pub transparent_type : ℕ → ℕ
transparent_type mt = if not (is_data mt) then binary_message else mt

-- The loops and the reader of handleClientWebSocketTransparent, which are those of handleClientWebSocket but
-- for the type.
abbrev pub run_transparent : Takes → CloseCodec → List Event → Relay → Relay
run_transparent takes c es s = run takes c transparent_type es s
