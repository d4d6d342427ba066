-- ===== src/Gateway/WebSocket/Delivery.antt =====
-- What a framed relay of the gateway forwards: the client's messages to the agent, and the agent's to the client.
use https_proxy.Base.{
  ℕ, Bool, true, false, List, [], ◌∷◌, ◌++◌, Option, none, some, if◌then◌else◌, ◌≡◌, ◌≢◌, arith,
  refl,
}
use mathlib.Core.List.{append-nil}
use https_proxy.Base.Prefix.{Prefix}
use https_proxy.Base.Feed.{Feeds, Keeps, items, Keeps-Feeds, run-Prefix, run_all}
use https_proxy.Base.Int.{ℤ}
use https_proxy.Base.Text.{Text, codes}
use https_proxy.Proto.Types.{WsClose, t_ws_close, t_ws_c2a, t_rst}
use https_proxy.Proto.WsData.{
  is_data, CloseCodec, Takes, Write, wrote, write_failed, payloads, payloads-append,
}
use https_proxy.Gateway.WebSocket.Relay.{
  Relay, Event, client_message, client_failed, frame, recv_failed, cancelled, stream_lost, watch,
  check, leave, send, send_close_to_agent, on_client_message, on_client_failed, on_watch, on_data,
  on_frame, step, run,
}

-- The payloads that the client's messages become.
abbrev pub read_event : Event → List Text
read_event (client_message mt b) = if is_data mt then (mt ∷ b) ∷ [] else []
read_event (client_failed o) = []
read_event (frame t b w) = []
read_event recv_failed = []
read_event cancelled = []
read_event stream_lost = []
read_event watch = []
read_event check = []
read_event leave = []

abbrev pub forwarded : Relay → List Text
forwarded s = payloads t_ws_c2a s.sent

abbrev is_reading : Relay → Bool
is_reading s = s.reading

abbrev Forwards : List Text → Relay → Relay → Type 0
Forwards = Feeds is_reading forwarded

abbrev KeepsReader : Relay → Relay → Type 0
KeepsReader = Keeps is_reading forwarded

send-KeepsReader :
    (takes : Takes) (t : ℕ) (b : Text) (s : Relay)
    → t ≢ t_ws_c2a
    → KeepsReader s (send takes t b s).0
unfolding send
send-KeepsReader takes t b s ne =
    ground (arith, payloads-append t_ws_c2a s.sent ((t, b) ∷ []), append-nil (forwarded s))

send_close_to_agent-KeepsReader :
    (takes : Takes) (c : CloseCodec) (code : ℤ) (reason : Text) (s : Relay)
    → KeepsReader s (send_close_to_agent takes c code reason s)
unfolding send_close_to_agent
send_close_to_agent-KeepsReader takes c code reason s =
    let m : WsClose = record { code = code; reason = reason } in
    ground (arith, send-KeepsReader takes t_ws_close (c.close_json m) s (omega arith))

on_client_message-Forwards :
    (takes : Takes) (mt : ℕ) (b : Text) (s : Relay)
    → s.reading ≡ true
    → Forwards (read_event (client_message mt b)) s (on_client_message takes mt b s)
unfolding on_client_message send
on_client_message-Forwards takes mt b s on =
    ground
      (arith, payloads-append t_ws_c2a s.sent ((t_ws_c2a, mt ∷ b) ∷ []), append-nil (forwarded s))

on_client_failed-forwarded :
    (takes : Takes) (c : CloseCodec) (o : Option (ℤ × Text)) (s : Relay)
    → forwarded (on_client_failed takes c o s) ≡ forwarded s
unfolding on_client_failed
on_client_failed-forwarded takes c none s = (send_close_to_agent-KeepsReader takes c _ _ s).0
on_client_failed-forwarded takes c (some (code, r)) s =
    (send_close_to_agent-KeepsReader takes c code r s).0

on_client_failed-reading :
    (takes : Takes) (c : CloseCodec) (o : Option (ℤ × Text)) (s : Relay)
    → (on_client_failed takes c o s).reading ≡ false
unfolding on_client_failed
on_client_failed-reading takes c none s = refl
on_client_failed-reading takes c (some (code, r)) s = refl

on_watch-KeepsReader : (takes : Takes) (s : Relay) → KeepsReader s (on_watch takes s)
unfolding on_watch
on_watch-KeepsReader takes s =
    ground (arith, send-KeepsReader takes t_rst (codes "ws client closed") s (omega arith))

on_data-KeepsReader :
    (takes : Takes) (c : CloseCodec) (as_type : ℕ → ℕ) (b : Text) (w : Write) (s : Relay)
    → KeepsReader s (on_data takes c as_type b w s)
unfolding on_data
on_data-KeepsReader takes c as_type [] w s = (refl, refl)
on_data-KeepsReader takes c as_type (mt ∷ b) wrote s = (refl, refl)
on_data-KeepsReader takes c as_type (mt ∷ b) (write_failed none) s =
    send-KeepsReader takes t_rst _ s (omega arith)
on_data-KeepsReader takes c as_type (mt ∷ b) (write_failed (some (code, r))) s =
    send_close_to_agent-KeepsReader takes c code r s

on_frame-KeepsReader :
    (takes : Takes) (c : CloseCodec) (as_type : ℕ → ℕ) (t : ℕ) (b : Text) (w : Write) (s : Relay)
    → KeepsReader s (on_frame takes c as_type t b w s)
unfolding on_frame
on_frame-KeepsReader takes c as_type t b w s =
    ground (arith, on_data-KeepsReader takes c as_type b w s)

step-Forwards :
    (takes : Takes) (c : CloseCodec) (as_type : ℕ → ℕ) (e : Event) (s : Relay)
    → Forwards (read_event e) s (step takes c as_type e s)
unfolding step
step-Forwards takes c as_type (client_message mt b) s =
    ground (arith, on_client_message-Forwards takes mt b s)
step-Forwards takes c as_type (client_failed o) s =
    ground (arith, on_client_failed-forwarded takes c o s, on_client_failed-reading takes c o s)
step-Forwards takes c as_type (frame t b w) s =
    Keeps-Feeds is_reading forwarded s (step takes c as_type (frame t b w) s)
      (ground (arith, on_frame-KeepsReader takes c as_type t b w s))
step-Forwards takes c as_type recv_failed s =
    Keeps-Feeds is_reading forwarded s (step takes c as_type recv_failed s) (ground arith)
step-Forwards takes c as_type check s =
    Keeps-Feeds is_reading forwarded s (step takes c as_type check s) (ground arith)
step-Forwards takes c as_type cancelled s =
    Keeps-Feeds is_reading forwarded s (step takes c as_type cancelled s) (refl, refl)
step-Forwards takes c as_type stream_lost s =
    Keeps-Feeds is_reading forwarded s (step takes c as_type stream_lost s) (refl, refl)
step-Forwards takes c as_type watch s =
    Keeps-Feeds is_reading forwarded s (step takes c as_type watch s)
      (ground (arith, on_watch-KeepsReader takes s))
step-Forwards takes c as_type leave s =
    Keeps-Feeds is_reading forwarded s (step takes c as_type leave s) (ground arith)

-- What has been forwarded to the agent begins what had been, and the client's messages.
pub run-forwarded :
    (takes : Takes) (c : CloseCodec) (as_type : ℕ → ℕ) (es : List Event) (s : Relay)
    → Prefix (forwarded (run takes c as_type es s)) (forwarded s ++ items read_event es)
unfolding run
run-forwarded takes c as_type =
    run-Prefix is_reading forwarded read_event (step takes c as_type) (run takes c as_type)
      (λ s. refl) (λ e es s. refl) (step-Forwards takes c as_type)

-- While the client is read, all of its messages have been forwarded.
pub run-forwarded_all :
    (takes : Takes) (c : CloseCodec) (as_type : ℕ → ℕ) (es : List Event) (s : Relay)
    → (run takes c as_type es s).reading ≡ true
    → forwarded (run takes c as_type es s) ≡ forwarded s ++ items read_event es
unfolding run
run-forwarded_all takes c as_type =
    run_all is_reading forwarded read_event (step takes c as_type) (run takes c as_type) (λ s. refl)
      (λ e es s. refl) (step-Forwards takes c as_type)
