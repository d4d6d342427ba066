-- ===== src/Agent/Relay/Tcp/CloseOnce.antt =====
-- How often the relay to a TCP target announces a close.
use https_proxy.Base.{List, [], ◌∷◌, arith}
use https_proxy.Base.Text.{Text}
use https_proxy.Proto.Types.{t_ws_a2c}
use https_proxy.Proto.WsData.{CloseCodec, Takes, Write, wrote, write_failed, binary_message}
use https_proxy.Agent.Relay.{Relay, send}
use https_proxy.Agent.Relay.CloseOnce.{
  ClosesOnce, send-ClosesOnce, send_close_to_gateway-ClosesOnce,
}
use https_proxy.Agent.Relay.Tcp.{
  End, more, eof, closed, failed, Event, upstream_read, frame, end_of_context, end_of_stream,
  stream_lost, on_end, on_upstream_read, on_data, on_frame, step, run,
}

on_end-ClosesOnce :
    (takes : Takes) (c : CloseCodec) (e : End) (s : Relay)
    → ClosesOnce s
    → ClosesOnce (on_end takes c e s)
on_end-ClosesOnce takes c more s h = h
on_end-ClosesOnce takes c eof s h = send_close_to_gateway-ClosesOnce takes c _ _ s h
on_end-ClosesOnce takes c closed s h = h
on_end-ClosesOnce takes c failed s h = send_close_to_gateway-ClosesOnce takes c _ _ s h

on_upstream_read-ClosesOnce :
    (takes : Takes) (c : CloseCodec) (b : Text) (e : End) (s : Relay)
    → ClosesOnce s
    → ClosesOnce (on_upstream_read takes c b e s)
unfolding on_upstream_read
on_upstream_read-ClosesOnce takes c b e s h =
    let h' = send-ClosesOnce takes (binary_message ∷ b) s h in
    ground (
      arith,
      h',
      on_end-ClosesOnce takes c e s h,
      on_end-ClosesOnce takes c e (send takes t_ws_a2c (binary_message ∷ b) s).0 h',
    )

on_data-ClosesOnce :
    (takes : Takes) (c : CloseCodec) (b : Text) (w : Write) (s : Relay)
    → ClosesOnce s
    → ClosesOnce (on_data takes c b w s)
unfolding on_data
on_data-ClosesOnce takes c [] w s h = h
on_data-ClosesOnce takes c (mt ∷ []) w s h = h
on_data-ClosesOnce takes c (mt ∷ a ∷ b) wrote s h = h
on_data-ClosesOnce takes c (mt ∷ a ∷ b) (write_failed o) s h =
    send_close_to_gateway-ClosesOnce takes c _ _ s h

step-ClosesOnce :
    (takes : Takes) (c : CloseCodec) (e : Event) (s : Relay)
    → ClosesOnce s
    → ClosesOnce (step takes c e s)
unfolding step on_frame
step-ClosesOnce takes c (upstream_read b e) s h =
    ground (arith, on_upstream_read-ClosesOnce takes c b e s h)
step-ClosesOnce takes c (frame t b w) s h = ground (arith, on_data-ClosesOnce takes c b w s h)
step-ClosesOnce takes c end_of_context s h = h
step-ClosesOnce takes c end_of_stream s h = ground arith
step-ClosesOnce takes c stream_lost s h = h

pub run-ClosesOnce_tcp :
    (takes : Takes) (c : CloseCodec) (es : List Event) (s : Relay)
    → ClosesOnce s
    → ClosesOnce (run takes c es s)
unfolding run
run-ClosesOnce_tcp takes c [] s h = h
run-ClosesOnce_tcp takes c (e ∷ es) s h =
    run-ClosesOnce_tcp takes c es (step takes c e s) (step-ClosesOnce takes c e s h)
