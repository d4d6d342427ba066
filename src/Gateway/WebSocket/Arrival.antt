-- ===== src/Gateway/WebSocket/Arrival.antt =====
-- What a framed relay of the gateway writes to the client.
use https_proxy.Base.{
  ℕ, Bool, true, false, List, [], ◌∷◌, ◌++◌, Option, none, some, if◌then◌else◌, ◌==◌, ◌≡◌, inl, inr,
  arith, refl,
}
use mathlib.Core.List.{append-nil}
use https_proxy.Base.Prefix.{Prefix}
use https_proxy.Base.Feed.{Feeds, Keeps, items, Keeps-Feeds, run-Prefix, run_all}
use https_proxy.Base.Int.{ℤ}
use https_proxy.Base.Text.{Text}
use https_proxy.Proto.Types.{t_ws_a2c}
use https_proxy.Proto.WsData.{Message, CloseCodec, Takes, Write, wrote, write_failed}
use https_proxy.Gateway.WebSocket.Relay.{
  Relay, Event, client_message, client_failed, frame, recv_failed, cancelled, stream_lost, watch,
  check, leave, looping, leaving, left, send, send_close_to_agent, on_client_message,
  on_client_failed, on_watch, on_data, on_frame, step, run,
}

abbrev pub message_of : (ℕ → ℕ) → Text → List Message
message_of as_type [] = []
message_of as_type (mt ∷ b) = (as_type mt, b) ∷ []

-- The message that a frame of the agent carries.
abbrev pub arrives : (ℕ → ℕ) → Event → List Message
arrives as_type (client_message mt b) = []
arrives as_type (client_failed o) = []
arrives as_type (frame t b w) = if t == t_ws_a2c then message_of as_type b else []
arrives as_type recv_failed = []
arrives as_type cancelled = []
arrives as_type stream_lost = []
arrives as_type watch = []
arrives as_type check = []
arrives as_type leave = []

abbrev pub is_looping : Relay → Bool
is_looping s = elim s.phase [ looping ↦ true | leaving ↦ false | left ↦ false ]

abbrev output : Relay → List Message
output s = s.written

abbrev Writes : List Message → Relay → Relay → Type 0
Writes = Feeds is_looping output

abbrev KeepsLoop : Relay → Relay → Type 0
KeepsLoop = Keeps is_looping output

send-KeepsLoop : (takes : Takes) (t : ℕ) (b : Text) (s : Relay) → KeepsLoop s (send takes t b s).0
unfolding send
send-KeepsLoop takes t b s = ground arith

send_close_to_agent-KeepsLoop :
    (takes : Takes) (c : CloseCodec) (code : ℤ) (reason : Text) (s : Relay)
    → KeepsLoop s (send_close_to_agent takes c code reason s)
unfolding send_close_to_agent send
send_close_to_agent-KeepsLoop takes c code reason s = ground arith

on_client_message-KeepsLoop :
    (takes : Takes) (mt : ℕ) (b : Text) (s : Relay) → KeepsLoop s (on_client_message takes mt b s)
unfolding on_client_message send
on_client_message-KeepsLoop takes mt b s = ground arith

on_client_failed-KeepsLoop :
    (takes : Takes) (c : CloseCodec) (o : Option (ℤ × Text)) (s : Relay)
    → KeepsLoop s (on_client_failed takes c o s)
unfolding on_client_failed
on_client_failed-KeepsLoop takes c none s = send_close_to_agent-KeepsLoop takes c _ _ s
on_client_failed-KeepsLoop takes c (some (code, r)) s =
    send_close_to_agent-KeepsLoop takes c code r s

on_watch-KeepsLoop : (takes : Takes) (s : Relay) → KeepsLoop s (on_watch takes s)
unfolding on_watch send
on_watch-KeepsLoop takes s = ground arith

-- A frame that does not carry a message, or cannot be written, adds nothing.
on_data-Writes :
    (takes : Takes) (c : CloseCodec) (as_type : ℕ → ℕ) (b : Text) (w : Write) (s : Relay)
    → is_looping s ≡ true
    → Writes (message_of as_type b) s (on_data takes c as_type b w s)
unfolding on_data
on_data-Writes takes c as_type [] w s on = Keeps-Feeds is_looping output s s (refl, refl)
on_data-Writes takes c as_type (mt ∷ b) wrote s on = inl (on, refl)
on_data-Writes takes c as_type (mt ∷ b) (write_failed none) s on =
    inr (refl, (send-KeepsLoop takes _ _ s).0)
on_data-Writes takes c as_type (mt ∷ b) (write_failed (some (code, r))) s on =
    inr (refl, (send_close_to_agent-KeepsLoop takes c code r s).0)

on_frame-Writes :
    (takes : Takes) (c : CloseCodec) (as_type : ℕ → ℕ) (t : ℕ) (b : Text) (w : Write) (s : Relay)
    → is_looping s ≡ true
    → Writes (arrives as_type (frame t b w)) s (on_frame takes c as_type t b w s)
unfolding on_frame
on_frame-Writes takes c as_type t b w s on =
    ground (
      arith,
      on_data-Writes takes c as_type b w s on,
      Keeps-Feeds is_looping output s s (refl, refl),
    )

step-Writes :
    (takes : Takes) (c : CloseCodec) (as_type : ℕ → ℕ) (e : Event) (s : Relay)
    → Writes (arrives as_type e) s (step takes c as_type e s)
unfolding step
step-Writes takes c as_type (client_message mt b) s =
    Keeps-Feeds is_looping output s (step takes c as_type (client_message mt b) s)
      (ground (arith, on_client_message-KeepsLoop takes mt b s))
step-Writes takes c as_type (client_failed o) s =
    Keeps-Feeds is_looping output s (step takes c as_type (client_failed o) s)
      (ground (arith, on_client_failed-KeepsLoop takes c o s))
step-Writes takes c as_type (frame t b w) s =
    ground (arith, on_frame-Writes takes c as_type t b w s)
step-Writes takes c as_type recv_failed s = ground (arith, append-nil s.written)
step-Writes takes c as_type check s = ground (arith, append-nil s.written)
step-Writes takes c as_type cancelled s = Keeps-Feeds is_looping output s s (refl, refl)
step-Writes takes c as_type stream_lost s = Keeps-Feeds is_looping output s s (refl, refl)
step-Writes takes c as_type watch s =
    Keeps-Feeds is_looping output s (step takes c as_type watch s)
      (ground (arith, on_watch-KeepsLoop takes s))
step-Writes takes c as_type leave s = ground (arith, append-nil s.written)

-- What the client has been written begins what it had been, and the messages that the agent's frames carry.
pub run-written :
    (takes : Takes) (c : CloseCodec) (as_type : ℕ → ℕ) (es : List Event) (s : Relay)
    → Prefix (run takes c as_type es s).written (s.written ++ items (arrives as_type) es)
unfolding run
run-written takes c as_type =
    run-Prefix is_looping output (arrives as_type) (step takes c as_type) (run takes c as_type)
      (λ s. refl) (λ e es s. refl) (step-Writes takes c as_type)

-- While the loop runs, all that has arrived is written.
pub run-written_all :
    (takes : Takes) (c : CloseCodec) (as_type : ℕ → ℕ) (es : List Event) (s : Relay)
    → is_looping (run takes c as_type es s) ≡ true
    → (run takes c as_type es s).written ≡ s.written ++ items (arrives as_type) es
unfolding run
run-written_all takes c as_type =
    run_all is_looping output (arrives as_type) (step takes c as_type) (run takes c as_type)
      (λ s. refl) (λ e es s. refl) (step-Writes takes c as_type)
