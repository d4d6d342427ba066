-- ===== src/Agent/Relay/Framed/CloseOnce.antt =====
-- How often the relay to a WebSocket target announces a close.
use https_proxy.Base.{ℕ, List, [], ◌∷◌, Option, none, some, arith}
use https_proxy.Base.Int.{ℤ}
use https_proxy.Base.Text.{Text}
use https_proxy.Proto.WsData.{CloseCodec, Takes, Write, wrote, write_failed}
use https_proxy.Agent.Relay.{Relay}
use https_proxy.Agent.Relay.CloseOnce.{
  ClosesOnce, send-ClosesOnce, send_close_to_gateway-ClosesOnce,
}
use https_proxy.Agent.Relay.Framed.{
  Event, upstream_message, upstream_failed, frame, end_of_context, end_of_stream, stream_lost,
  on_upstream_message, on_upstream_failed, on_data, on_frame, step, run,
}

on_upstream_message-ClosesOnce :
    (takes : Takes) (mt : ℕ) (b : Text) (s : Relay)
    → ClosesOnce s
    → ClosesOnce (on_upstream_message takes mt b s)
unfolding on_upstream_message
on_upstream_message-ClosesOnce takes mt b s h = ground (arith, send-ClosesOnce takes (mt ∷ b) s h)

on_upstream_failed-ClosesOnce :
    (takes : Takes) (c : CloseCodec) (o : Option (ℤ × Text)) (s : Relay)
    → ClosesOnce s
    → ClosesOnce (on_upstream_failed takes c o s)
unfolding on_upstream_failed
on_upstream_failed-ClosesOnce takes c none s h = send_close_to_gateway-ClosesOnce takes c _ _ s h
on_upstream_failed-ClosesOnce takes c (some (code, r)) s h =
    send_close_to_gateway-ClosesOnce takes c code r s h

on_data-ClosesOnce :
    (takes : Takes) (c : CloseCodec) (b : Text) (w : Write) (s : Relay)
    → ClosesOnce s
    → ClosesOnce (on_data takes c b w s)
unfolding on_data
on_data-ClosesOnce takes c [] w s h = h
on_data-ClosesOnce takes c (mt ∷ b) wrote s h = h
on_data-ClosesOnce takes c (mt ∷ b) (write_failed none) s h =
    send_close_to_gateway-ClosesOnce takes c _ _ s h
on_data-ClosesOnce takes c (mt ∷ b) (write_failed (some (code, r))) s h =
    send_close_to_gateway-ClosesOnce takes c code r s h

on_frame-ClosesOnce :
    (takes : Takes) (c : CloseCodec) (t : ℕ) (b : Text) (w : Write) (s : Relay)
    → ClosesOnce s
    → ClosesOnce (on_frame takes c t b w s)
unfolding on_frame
on_frame-ClosesOnce takes c t b w s h = ground (arith, on_data-ClosesOnce takes c b w s h)

step-ClosesOnce :
    (takes : Takes) (c : CloseCodec) (e : Event) (s : Relay)
    → ClosesOnce s
    → ClosesOnce (step takes c e s)
unfolding step
step-ClosesOnce takes c (upstream_message mt b) s h =
    ground (arith, on_upstream_message-ClosesOnce takes mt b s h)
step-ClosesOnce takes c (upstream_failed o) s h =
    ground (arith, on_upstream_failed-ClosesOnce takes c o s h)
step-ClosesOnce takes c (frame t b w) s h = ground (arith, on_frame-ClosesOnce takes c t b w s h)
step-ClosesOnce takes c end_of_context s h = h
step-ClosesOnce takes c end_of_stream s h = ground arith
step-ClosesOnce takes c stream_lost s h = h

pub run-ClosesOnce_framed :
    (takes : Takes) (c : CloseCodec) (es : List Event) (s : Relay)
    → ClosesOnce s
    → ClosesOnce (run takes c es s)
unfolding run
run-ClosesOnce_framed takes c [] s h = h
run-ClosesOnce_framed takes c (e ∷ es) s h =
    run-ClosesOnce_framed takes c es (step takes c e s) (step-ClosesOnce takes c e s h)
