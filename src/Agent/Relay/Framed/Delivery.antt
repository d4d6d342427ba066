-- ===== src/Agent/Relay/Framed/Delivery.antt =====
-- What the relay to a WebSocket target forwards, and what it writes to the target.
use https_proxy.Base.{
  ℕ, true, false, List, [], ◌∷◌, ◌++◌, Option, none, some, if◌then◌else◌, ◌==◌, ◌≡◌, inl, inr,
  arith, refl,
}
use mathlib.Core.List.{append-nil}
use https_proxy.Base.Prefix.{Prefix}
use https_proxy.Base.Feed.{items, Keeps-Feeds, run-Prefix, run_all}
use https_proxy.Base.Int.{ℤ}
use https_proxy.Base.Text.{Text}
use https_proxy.Proto.Types.{t_ws_a2c, t_ws_c2a}
use https_proxy.Proto.WsData.{
  Message, is_data, CloseCodec, Takes, Write, wrote, write_failed, payloads-append,
}
use https_proxy.Agent.Relay.{Relay, send}
use https_proxy.Agent.Relay.Feeding.{
  forwarded, is_reading, Forwards, KeepsReader, send_close_to_gateway-KeepsReader, is_looping,
  output, Writes, KeepsLoop, send_close_to_gateway-KeepsLoop,
}
use https_proxy.Agent.Relay.Framed.{
  Event, upstream_message, upstream_failed, frame, end_of_context, end_of_stream, stream_lost,
  on_upstream_message, on_upstream_failed, on_data, on_frame, step, run,
}

-- The payloads that the target's messages become.
abbrev pub read_event : Event → List Text
read_event (upstream_message mt b) = if is_data mt then (mt ∷ b) ∷ [] else []
read_event (upstream_failed o) = []
read_event (frame t b w) = []
read_event end_of_context = []
read_event end_of_stream = []
read_event stream_lost = []

on_upstream_message-Forwards :
    (takes : Takes) (mt : ℕ) (b : Text) (s : Relay)
    → s.reading ≡ true
    → Forwards (read_event (upstream_message mt b)) s (on_upstream_message takes mt b s)
unfolding on_upstream_message send
on_upstream_message-Forwards takes mt b s on =
    ground
      (arith, payloads-append t_ws_a2c s.sent ((t_ws_a2c, mt ∷ b) ∷ []), append-nil (forwarded s))

on_upstream_failed-forwarded :
    (takes : Takes) (c : CloseCodec) (o : Option (ℤ × Text)) (s : Relay)
    → (forwarded (on_upstream_failed takes c o s) ≡ forwarded s)
      × ((on_upstream_failed takes c o s).reading ≡ false)
unfolding on_upstream_failed
on_upstream_failed-forwarded takes c none s =
    ((send_close_to_gateway-KeepsReader takes c _ _ s).0, refl)
on_upstream_failed-forwarded takes c (some (code, r)) s =
    ((send_close_to_gateway-KeepsReader takes c code r s).0, refl)

on_data-KeepsReader :
    (takes : Takes) (c : CloseCodec) (b : Text) (w : Write) (s : Relay)
    → KeepsReader s (on_data takes c b w s)
unfolding on_data
on_data-KeepsReader takes c [] w s = (refl, refl)
on_data-KeepsReader takes c (mt ∷ b) wrote s = (refl, refl)
on_data-KeepsReader takes c (mt ∷ b) (write_failed none) s =
    send_close_to_gateway-KeepsReader takes c _ _ s
on_data-KeepsReader takes c (mt ∷ b) (write_failed (some (code, r))) s =
    send_close_to_gateway-KeepsReader takes c code r s

step-Forwards :
    (takes : Takes) (c : CloseCodec) (e : Event) (s : Relay)
    → Forwards (read_event e) s (step takes c e s)
unfolding step on_frame
step-Forwards takes c (upstream_message mt b) s =
    ground (arith, on_upstream_message-Forwards takes mt b s)
step-Forwards takes c (upstream_failed o) s =
    ground (arith, on_upstream_failed-forwarded takes c o s)
step-Forwards takes c (frame t b w) s =
    Keeps-Feeds is_reading forwarded s (step takes c (frame t b w) s)
      (ground (arith, on_data-KeepsReader takes c b w s))
step-Forwards takes c end_of_context s = ground (arith, append-nil (forwarded s))
step-Forwards takes c end_of_stream s = ground (arith, append-nil (forwarded s))
step-Forwards takes c stream_lost s = ground (arith, append-nil (forwarded s))

-- What has been forwarded to the gateway begins what had been, and the target's messages.
pub run-forwarded :
    (takes : Takes) (c : CloseCodec) (es : List Event) (s : Relay)
    → Prefix (forwarded (run takes c es s)) (forwarded s ++ items read_event es)
unfolding run
run-forwarded takes c =
    run-Prefix is_reading forwarded read_event (step takes c) (run takes c) (λ s. refl)
      (λ e es s. refl) (step-Forwards takes c)

abbrev pub message_of : Text → List Message
message_of [] = []
message_of (mt ∷ b) = (mt, b) ∷ []

-- The message that a frame of the gateway carries.
abbrev pub arrives : Event → List Message
arrives (upstream_message mt b) = []
arrives (upstream_failed o) = []
arrives (frame t b w) = if t == t_ws_c2a then message_of b else []
arrives end_of_context = []
arrives end_of_stream = []
arrives stream_lost = []

on_upstream_failed-KeepsLoop :
    (takes : Takes) (c : CloseCodec) (o : Option (ℤ × Text)) (s : Relay)
    → KeepsLoop s (on_upstream_failed takes c o s)
unfolding on_upstream_failed
on_upstream_failed-KeepsLoop takes c none s = send_close_to_gateway-KeepsLoop takes c _ _ s
on_upstream_failed-KeepsLoop takes c (some (code, r)) s =
    send_close_to_gateway-KeepsLoop takes c code r s

on_upstream_message-KeepsLoop :
    (takes : Takes) (mt : ℕ) (b : Text) (s : Relay) → KeepsLoop s (on_upstream_message takes mt b s)
unfolding on_upstream_message send
on_upstream_message-KeepsLoop takes mt b s = ground arith

on_data-Writes :
    (takes : Takes) (c : CloseCodec) (b : Text) (w : Write) (s : Relay)
    → s.looping ≡ true
    → Writes (message_of b) s (on_data takes c b w s)
unfolding on_data
on_data-Writes takes c [] w s on = Keeps-Feeds is_looping output s s (refl, refl)
on_data-Writes takes c (mt ∷ b) wrote s on = inl (on, refl)
on_data-Writes takes c (mt ∷ b) (write_failed none) s on =
    inr (refl, (send_close_to_gateway-KeepsLoop takes c _ _ s).0)
on_data-Writes takes c (mt ∷ b) (write_failed (some (code, r))) s on =
    inr (refl, (send_close_to_gateway-KeepsLoop takes c code r s).0)

step-Writes :
    (takes : Takes) (c : CloseCodec) (e : Event) (s : Relay)
    → Writes (arrives e) s (step takes c e s)
unfolding step on_frame
step-Writes takes c (upstream_message mt b) s =
    Keeps-Feeds is_looping output s (step takes c (upstream_message mt b) s)
      (ground (arith, on_upstream_message-KeepsLoop takes mt b s))
step-Writes takes c (upstream_failed o) s =
    Keeps-Feeds is_looping output s (step takes c (upstream_failed o) s)
      (ground (arith, on_upstream_failed-KeepsLoop takes c o s))
step-Writes takes c (frame t b w) s =
    ground (arith, on_data-Writes takes c b w s, append-nil s.written)
step-Writes takes c end_of_context s = ground (arith, append-nil s.written)
step-Writes takes c end_of_stream s = ground (arith, append-nil s.written)
step-Writes takes c stream_lost s = ground (arith, append-nil s.written)

-- What the target has been written begins what it had been, and the messages that the gateway's frames carry.
pub run-written :
    (takes : Takes) (c : CloseCodec) (es : List Event) (s : Relay)
    → Prefix (run takes c es s).written (s.written ++ items arrives es)
unfolding run
run-written takes c =
    run-Prefix is_looping output arrives (step takes c) (run takes c) (λ s. refl) (λ e es s. refl)
      (step-Writes takes c)

-- While the target is read, all of its messages have been forwarded.
pub run-forwarded_all :
    (takes : Takes) (c : CloseCodec) (es : List Event) (s : Relay)
    → (run takes c es s).reading ≡ true
    → forwarded (run takes c es s) ≡ forwarded s ++ items read_event es
unfolding run
run-forwarded_all takes c =
    run_all is_reading forwarded read_event (step takes c) (run takes c) (λ s. refl)
      (λ e es s. refl) (step-Forwards takes c)

-- While the loop runs, all that has arrived is written.
pub run-written_all :
    (takes : Takes) (c : CloseCodec) (es : List Event) (s : Relay)
    → (run takes c es s).looping ≡ true
    → (run takes c es s).written ≡ s.written ++ items arrives es
unfolding run
run-written_all takes c =
    run_all is_looping output arrives (step takes c) (run takes c) (λ s. refl) (λ e es s. refl)
      (step-Writes takes c)
