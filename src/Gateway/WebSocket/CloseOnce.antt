-- ===== src/Gateway/WebSocket/CloseOnce.antt =====
-- How often a relay's handler announces a close to the agent.
use https_proxy.Base.{ℕ, false, List, [], ◌∷◌, Option, none, some, ◌≡◌, ◌≢◌, ◌≤◌, arith}
use https_proxy.Base.Int.{ℤ}
use https_proxy.Base.Text.{Text, codes}
use https_proxy.Proto.Types.{t_ws_close, t_ws_c2a, t_rst}
use https_proxy.Proto.WsData.{
  CloseCodec, Takes, Write, wrote, write_failed, frames_of, frames_of-append,
}
use https_proxy.Gateway.WebSocket.Relay.{
  Relay, Event, client_message, client_failed, frame, recv_failed, cancelled, stream_lost, watch,
  check, leave, send, send_close_to_agent, on_client_message, on_client_failed, on_watch, on_data,
  on_frame, step, run,
}

-- At most one close frame is sent, and none before `closeOnce` has run.
abbrev pub ClosesOnce : Relay → Type 0
ClosesOnce s =
    (frames_of t_ws_close s.sent ≤ 1) × (s.closed_once ≡ false → frames_of t_ws_close s.sent ≡ 0)

send-ClosesOnce :
    (takes : Takes) (t : ℕ) (b : Text) (s : Relay)
    → t ≢ t_ws_close
    → ClosesOnce s
    → ClosesOnce (send takes t b s).0
unfolding send
send-ClosesOnce takes t b s ne h = ground (arith, frames_of-append t_ws_close s.sent ((t, b) ∷ []))

send_close_to_agent-ClosesOnce :
    (takes : Takes) (c : CloseCodec) (code : ℤ) (reason : Text) (s : Relay)
    → ClosesOnce s
    → ClosesOnce (send_close_to_agent takes c code reason s)
unfolding send send_close_to_agent
send_close_to_agent-ClosesOnce takes c code reason s h = ground (
  arith,
  frames_of-append t_ws_close s.sent
      ((t_ws_close, c.close_json (record { code = code; reason = reason })) ∷ []),
)

data_is_not_close : t_ws_c2a ≢ t_ws_close
data_is_not_close = omega arith

reset_is_not_close : t_rst ≢ t_ws_close
reset_is_not_close = omega arith

on_client_message-ClosesOnce :
    (takes : Takes) (mt : ℕ) (b : Text) (s : Relay)
    → ClosesOnce s
    → ClosesOnce (on_client_message takes mt b s)
unfolding on_client_message
on_client_message-ClosesOnce takes mt b s h =
    ground (arith, send-ClosesOnce takes t_ws_c2a (mt ∷ b) s data_is_not_close h)

on_client_failed-ClosesOnce :
    (takes : Takes) (c : CloseCodec) (o : Option (ℤ × Text)) (s : Relay)
    → ClosesOnce s
    → ClosesOnce (on_client_failed takes c o s)
unfolding on_client_failed
on_client_failed-ClosesOnce takes c none s h = send_close_to_agent-ClosesOnce takes c _ _ s h
on_client_failed-ClosesOnce takes c (some (code, r)) s h =
    send_close_to_agent-ClosesOnce takes c code r s h

on_watch-ClosesOnce : (takes : Takes) (s : Relay) → ClosesOnce s → ClosesOnce (on_watch takes s)
unfolding on_watch
on_watch-ClosesOnce takes s h =
    ground (arith, send-ClosesOnce takes t_rst (codes "ws client closed") s reset_is_not_close h)

on_data-ClosesOnce :
    (takes : Takes) (c : CloseCodec) (as_type : ℕ → ℕ) (b : Text) (w : Write) (s : Relay)
    → ClosesOnce s
    → ClosesOnce (on_data takes c as_type b w s)
unfolding on_data
on_data-ClosesOnce takes c as_type [] w s h = h
on_data-ClosesOnce takes c as_type (mt ∷ b) wrote s h = h
on_data-ClosesOnce takes c as_type (mt ∷ b) (write_failed none) s h =
    send-ClosesOnce takes t_rst _ s reset_is_not_close h
on_data-ClosesOnce takes c as_type (mt ∷ b) (write_failed (some (code, r))) s h =
    send_close_to_agent-ClosesOnce takes c code r s h

on_frame-ClosesOnce :
    (takes : Takes) (c : CloseCodec) (as_type : ℕ → ℕ) (t : ℕ) (b : Text) (w : Write) (s : Relay)
    → ClosesOnce s
    → ClosesOnce (on_frame takes c as_type t b w s)
unfolding on_frame
on_frame-ClosesOnce takes c as_type t b w s h =
    ground (arith, on_data-ClosesOnce takes c as_type b w s h)

step-ClosesOnce :
    (takes : Takes) (c : CloseCodec) (as_type : ℕ → ℕ) (e : Event) (s : Relay)
    → ClosesOnce s
    → ClosesOnce (step takes c as_type e s)
unfolding step
step-ClosesOnce takes c as_type (client_message mt b) s h =
    ground (arith, on_client_message-ClosesOnce takes mt b s h)
step-ClosesOnce takes c as_type (client_failed o) s h =
    ground (arith, on_client_failed-ClosesOnce takes c o s h)
step-ClosesOnce takes c as_type (frame t b w) s h =
    ground (arith, on_frame-ClosesOnce takes c as_type t b w s h)
step-ClosesOnce takes c as_type recv_failed s h = ground arith
step-ClosesOnce takes c as_type check s h = ground arith
step-ClosesOnce takes c as_type cancelled s h = h
step-ClosesOnce takes c as_type stream_lost s h = h
step-ClosesOnce takes c as_type watch s h = ground (arith, on_watch-ClosesOnce takes s h)
step-ClosesOnce takes c as_type leave s h = ground arith

-- From a state in which no more than one close frame has been sent, and none unless `closeOnce` has run, every
-- interleaving leads to such a state: the client's reader and the loop never announce two closes.
pub run-ClosesOnce :
    (takes : Takes) (c : CloseCodec) (as_type : ℕ → ℕ) (es : List Event) (s : Relay)
    → ClosesOnce s
    → ClosesOnce (run takes c as_type es s)
unfolding run
run-ClosesOnce takes c as_type [] s h = h
run-ClosesOnce takes c as_type (e ∷ es) s h =
    run-ClosesOnce takes c as_type es (step takes c as_type e s)
      (step-ClosesOnce takes c as_type e s h)
