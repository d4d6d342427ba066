-- ===== src/Gateway/WebSocket/Raw/Bytes.antt =====
-- The bytes that a raw relay of the gateway carries.
use https_proxy.Base.{
  ℕ, Bool, true, false, List, [], ◌∷◌, ◌++◌, if◌then◌else◌, ◌==◌, ◌≡◌, arith, refl,
}
use mathlib.Core.List.{append-nil}
use https_proxy.Base.Prefix.{Prefix}
use https_proxy.Base.Feed.{Feeds, Keeps, items, Keeps-Feeds, run-Prefix}
use https_proxy.Base.Text.{Text, codes, is_empty}
use https_proxy.Proto.Types.{t_ws_c2a, t_ws_a2c, t_rst}
use https_proxy.Proto.WsData.{Takes, payloads, payloads-append}
use https_proxy.Gateway.WebSocket.Relay.{looping, leaving, left}
use https_proxy.Gateway.WebSocket.Raw.{
  RawRelay, End, more, closed, failed, buffered_failed, Event, client_read, frame, recv_failed,
  cancelled, stream_lost, check, leave, send, close_stream, on_end, on_client_read, on_frame, step,
  run,
}

abbrev pub read_event : Event → List Text
read_event (client_read b e) = if is_empty b then [] else b ∷ []
read_event (frame t b w) = []
read_event recv_failed = []
read_event cancelled = []
read_event stream_lost = []
read_event check = []
read_event leave = []

abbrev pub forwarded : RawRelay → List Text
forwarded s = payloads t_ws_c2a s.sent

abbrev is_reading : RawRelay → Bool
is_reading s = s.reading

-- A close sends a reset at most, and stops nothing that it does not say.
close_stream-forwarded :
    (takes : Takes) (reason : Text) (s : RawRelay)
    → Keeps is_reading forwarded s (close_stream takes reason s)
unfolding close_stream send
close_stream-forwarded takes reason s =
    ground (arith, payloads-append t_ws_c2a s.sent ((t_rst, reason) ∷ []), append-nil (forwarded s))

on_end-forwarded :
    (takes : Takes) (e : End) (s : RawRelay) → forwarded (on_end takes e s) ≡ forwarded s
on_end-forwarded takes more s = refl
on_end-forwarded takes closed s = (close_stream-forwarded takes _ s).0
on_end-forwarded takes failed s = (close_stream-forwarded takes _ s).0
on_end-forwarded takes buffered_failed s = (close_stream-forwarded takes _ s).0

send-forwarded :
    (takes : Takes) (b : Text) (s : RawRelay)
    → ((send takes t_ws_c2a b s).1 ≡ true
        → forwarded (send takes t_ws_c2a b s).0 ≡ forwarded s ++ (b ∷ []))
      × ((send takes t_ws_c2a b s).1 ≡ false → (send takes t_ws_c2a b s).0 ≡ s)
unfolding send
send-forwarded takes b s = ground (arith, payloads-append t_ws_c2a s.sent ((t_ws_c2a, b) ∷ []))

on_client_read-Forwards :
    (takes : Takes) (b : Text) (e : End) (s : RawRelay)
    → s.reading ≡ true
    → Feeds is_reading forwarded (read_event (client_read b e)) s (on_client_read takes b e s)
unfolding on_client_read
on_client_read-Forwards takes b e s on =
    let s' = (send takes t_ws_c2a b s).0 in
    ground (
      arith,
      append-nil (forwarded s),
      on_end-forwarded takes e s,
      on_end-forwarded takes e s',
      send-forwarded takes b s,
      close_stream-forwarded takes (codes "raw send to agent failed") s',
    )

on_frame-forwarded :
    (takes : Takes) (t : ℕ) (b : Text) (w : Bool) (s : RawRelay)
    → Keeps is_reading forwarded s (on_frame takes t b w s)
unfolding on_frame
on_frame-forwarded takes t b w s = ground (
  arith,
  close_stream-forwarded takes (codes "raw client write failed") s,
  close_stream-forwarded takes (codes "agent closed stream") s,
)

step-Forwards :
    (takes : Takes) (e : Event) (s : RawRelay)
    → Feeds is_reading forwarded (read_event e) s (step takes e s)
unfolding step
step-Forwards takes (client_read b e) s = ground (arith, on_client_read-Forwards takes b e s)
step-Forwards takes (frame t b w) s =
    Keeps-Feeds is_reading forwarded s (step takes (frame t b w) s)
      (ground (arith, on_frame-forwarded takes t b w s))
step-Forwards takes recv_failed s =
    Keeps-Feeds is_reading forwarded s (step takes recv_failed s)
      (ground (arith, close_stream-forwarded takes (codes "agent stream closed") s))
step-Forwards takes cancelled s = Keeps-Feeds is_reading forwarded s s (refl, refl)
step-Forwards takes stream_lost s = Keeps-Feeds is_reading forwarded s s (refl, refl)
step-Forwards takes check s = ground (arith, append-nil (forwarded s))
step-Forwards takes leave s = ground (arith, append-nil (forwarded s))

-- What has been forwarded to the agent begins what had been, and what is read from the client.
pub run-forwarded :
    (takes : Takes) (es : List Event) (s : RawRelay)
    → Prefix (forwarded (run takes es s)) (forwarded s ++ items read_event es)
unfolding run
run-forwarded takes =
    run-Prefix is_reading forwarded read_event (step takes) (run takes) (λ s. refl) (λ e es s. refl)
      (step-Forwards takes)

-- The bytes of a frame of the agent.
abbrev pub arrives : Event → Text
arrives (client_read b e) = []
arrives (frame t b w) = if t == t_ws_a2c then b else []
arrives recv_failed = []
arrives cancelled = []
arrives stream_lost = []
arrives check = []
arrives leave = []

abbrev is_looping : RawRelay → Bool
is_looping s = elim s.phase [ looping ↦ true | leaving ↦ false | left ↦ false ]

abbrev output : RawRelay → Text
output s = s.written

close_stream-output :
    (takes : Takes) (reason : Text) (s : RawRelay)
    → Keeps is_looping output s (close_stream takes reason s)
unfolding close_stream send
close_stream-output takes reason s = ground arith

on_client_read-output :
    (takes : Takes) (b : Text) (e : End) (s : RawRelay)
    → Keeps is_looping output s (on_client_read takes b e s)
unfolding on_client_read send close_stream
on_client_read-output takes b more s = ground arith
on_client_read-output takes b closed s = ground arith
on_client_read-output takes b failed s = ground arith
on_client_read-output takes b buffered_failed s = ground arith

step-Writes :
    (takes : Takes) (e : Event) (s : RawRelay)
    → Feeds is_looping output (arrives e) s (step takes e s)
unfolding step on_frame
step-Writes takes (client_read b e) s =
    Keeps-Feeds is_looping output s (step takes (client_read b e) s)
      (ground (arith, on_client_read-output takes b e s))
step-Writes takes (frame t b w) s = ground (
  arith,
  append-nil s.written,
  close_stream-output takes (codes "raw client write failed") s,
  close_stream-output takes (codes "agent closed stream") s,
)
step-Writes takes recv_failed s =
    ground (arith, append-nil s.written, close_stream-output takes (codes "agent stream closed") s)
step-Writes takes cancelled s = Keeps-Feeds is_looping output s s (refl, refl)
step-Writes takes stream_lost s = Keeps-Feeds is_looping output s s (refl, refl)
step-Writes takes check s = ground (arith, append-nil s.written)
step-Writes takes leave s = ground (arith, append-nil s.written)

-- What the client has been written begins what it had been, and the bytes that arrive.
pub run-written :
    (takes : Takes) (es : List Event) (s : RawRelay)
    → Prefix (run takes es s).written (s.written ++ items arrives es)
unfolding run
run-written takes =
    run-Prefix is_looping output arrives (step takes) (run takes) (λ s. refl) (λ e es s. refl)
      (step-Writes takes)
