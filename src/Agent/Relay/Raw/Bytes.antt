-- ===== src/Agent/Relay/Raw/Bytes.antt =====
-- The bytes that the raw relay of the agent carries.
use https_proxy.Base.{
  ℕ, Bool, true, false, List, [], ◌∷◌, ◌++◌, if◌then◌else◌, ◌==◌, ◌≡◌, arith, refl,
}
use mathlib.Core.List.{append-nil}
use https_proxy.Base.Prefix.{Prefix}
use https_proxy.Base.Feed.{Feeds, Keeps, items, Keeps-Feeds, run-Prefix}
use https_proxy.Base.Text.{Text, codes, is_empty}
use https_proxy.Proto.Types.{t_ws_a2c, t_ws_c2a, t_rst}
use https_proxy.Proto.WsData.{Takes, payloads, payloads-append}
use https_proxy.Agent.Relay.Raw.{
  RawRelay, End, more, closed, failed, buffered_failed, Event, upstream_read, frame, end_of_context,
  end_of_stream, stream_lost, send, close_stream, on_end, on_upstream_read, on_frame, step, run,
}

abbrev pub read_event : Event → List Text
read_event (upstream_read b e) = if is_empty b then [] else b ∷ []
read_event (frame t b w) = []
read_event end_of_context = []
read_event end_of_stream = []
read_event stream_lost = []

abbrev pub forwarded : RawRelay → List Text
forwarded s = payloads t_ws_a2c s.sent

abbrev is_reading : RawRelay → Bool
is_reading s = s.reading

-- A close sends a reset at most, and stops nothing that it does not say.
close_stream-forwarded :
    (takes : Takes) (reason : Text) (s : RawRelay)
    → Keeps is_reading forwarded s (close_stream takes reason s)
unfolding close_stream send
close_stream-forwarded takes reason s =
    ground (arith, payloads-append t_ws_a2c s.sent ((t_rst, reason) ∷ []), append-nil (forwarded s))

on_end-forwarded :
    (takes : Takes) (e : End) (s : RawRelay) → forwarded (on_end takes e s) ≡ forwarded s
on_end-forwarded takes more s = refl
on_end-forwarded takes closed s = (close_stream-forwarded takes _ s).0
on_end-forwarded takes failed s = (close_stream-forwarded takes _ s).0
on_end-forwarded takes buffered_failed s = (close_stream-forwarded takes _ s).0

send-forwarded :
    (takes : Takes) (b : Text) (s : RawRelay)
    → ((send takes t_ws_a2c b s).1 ≡ true
        → forwarded (send takes t_ws_a2c b s).0 ≡ forwarded s ++ (b ∷ []))
      × ((send takes t_ws_a2c b s).1 ≡ false → (send takes t_ws_a2c b s).0 ≡ s)
unfolding send
send-forwarded takes b s = ground (arith, payloads-append t_ws_a2c s.sent ((t_ws_a2c, b) ∷ []))

on_upstream_read-Forwards :
    (takes : Takes) (b : Text) (e : End) (s : RawRelay)
    → s.reading ≡ true
    → Feeds is_reading forwarded (read_event (upstream_read b e)) s (on_upstream_read takes b e s)
unfolding on_upstream_read
on_upstream_read-Forwards takes b e s on =
    let s' = (send takes t_ws_a2c b s).0 in
    ground (
      arith,
      append-nil (forwarded s),
      on_end-forwarded takes e s,
      on_end-forwarded takes e s',
      send-forwarded takes b s,
    )

on_frame-forwarded :
    (takes : Takes) (t : ℕ) (b : Text) (w : Bool) (s : RawRelay)
    → Keeps is_reading forwarded s (on_frame takes t b w s)
unfolding on_frame
on_frame-forwarded takes t b w s = ground (
  arith,
  close_stream-forwarded takes (codes "raw upstream write failed") s,
  close_stream-forwarded takes (codes "gateway closed stream") s,
)

step-Forwards :
    (takes : Takes) (e : Event) (s : RawRelay)
    → Feeds is_reading forwarded (read_event e) s (step takes e s)
unfolding step
step-Forwards takes (upstream_read b e) s = ground (arith, on_upstream_read-Forwards takes b e s)
step-Forwards takes (frame t b w) s =
    Keeps-Feeds is_reading forwarded s (step takes (frame t b w) s)
      (ground (arith, on_frame-forwarded takes t b w s))
step-Forwards takes end_of_context s = ground (arith, append-nil (forwarded s))
step-Forwards takes end_of_stream s = ground (arith, append-nil (forwarded s))
step-Forwards takes stream_lost s = ground (arith, append-nil (forwarded s))

-- What has been forwarded to the gateway begins what had been, and what is read from the target.
pub run-forwarded :
    (takes : Takes) (es : List Event) (s : RawRelay)
    → Prefix (forwarded (run takes es s)) (forwarded s ++ items read_event es)
unfolding run
run-forwarded takes =
    run-Prefix is_reading forwarded read_event (step takes) (run takes) (λ s. refl) (λ e es s. refl)
      (step-Forwards takes)

-- The bytes of a frame of the gateway.
abbrev pub arrives : Event → Text
arrives (upstream_read b e) = []
arrives (frame t b w) = if t == t_ws_c2a then b else []
arrives end_of_context = []
arrives end_of_stream = []
arrives stream_lost = []

abbrev is_looping : RawRelay → Bool
is_looping s = s.looping

abbrev output : RawRelay → Text
output s = s.written

close_stream-output :
    (takes : Takes) (reason : Text) (s : RawRelay)
    → Keeps is_looping output s (close_stream takes reason s)
unfolding close_stream send
close_stream-output takes reason s = ground arith

on_upstream_read-output :
    (takes : Takes) (b : Text) (e : End) (s : RawRelay)
    → Keeps is_looping output s (on_upstream_read takes b e s)
unfolding on_upstream_read send close_stream
on_upstream_read-output takes b more s = ground arith
on_upstream_read-output takes b closed s = ground arith
on_upstream_read-output takes b failed s = ground arith
on_upstream_read-output takes b buffered_failed s = ground arith

step-Writes :
    (takes : Takes) (e : Event) (s : RawRelay)
    → Feeds is_looping output (arrives e) s (step takes e s)
unfolding step on_frame
step-Writes takes (upstream_read b e) s =
    Keeps-Feeds is_looping output s (step takes (upstream_read b e) s)
      (ground (arith, on_upstream_read-output takes b e s))
step-Writes takes (frame t b w) s = ground (
  arith,
  append-nil s.written,
  close_stream-output takes (codes "raw upstream write failed") s,
  close_stream-output takes (codes "gateway closed stream") s,
)
step-Writes takes end_of_context s = ground (arith, append-nil s.written)
step-Writes takes end_of_stream s = ground (arith, append-nil s.written)
step-Writes takes stream_lost s = ground (arith, append-nil s.written)

-- What the target has been written begins what it had been, and the bytes that arrive.
pub run-written :
    (takes : Takes) (es : List Event) (s : RawRelay)
    → Prefix (run takes es s).written (s.written ++ items arrives es)
unfolding run
run-written takes =
    run-Prefix is_looping output arrives (step takes) (run takes) (λ s. refl) (λ e es s. refl)
      (step-Writes takes)
