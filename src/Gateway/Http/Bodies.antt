-- ===== src/Gateway/Http/Bodies.antt =====
-- The bytes of the bodies, in both directions.
use https_proxy.Base.{ℕ, ◌≡◌, refl, true, List, [], ◌∷◌, ◌++◌, arith, ◌==◌, if◌then◌else◌, ◌||◌}
use mathlib.Core.List.{append-nil, append_assoc}
use https_proxy.Base.Text.{Text, codes}
use https_proxy.Proto.Frame.{Frame}
use https_proxy.Proto.Types.{t_req_data, t_rst, t_res_data, t_res_end}
use https_proxy.Gateway.Http.Exchange.{
  Event, World, Peer, Codec, Recv, Read, chunk, ended, too_large, frame, timed_out, failed, sent,
  page, interim, head, wrote, flushed, closed, log, send, try_send, flush,
}
use https_proxy.Gateway.Http.Response.{body_frame, relay_body}
use https_proxy.Gateway.Http.Request.{send_body, send_chunk}

-- The bytes that an event adds to the response's body, and those that it sends to the agent.
abbrev pub written_by : Event → Text
written_by (wrote bytes) = bytes
written_by (sent t b) = []
written_by (page code text) = []
written_by (interim code h) = []
written_by (head code h) = []
written_by flushed = []
written_by closed = []

abbrev pub data_of : Event → Text
data_of (sent t b) = if t == t_req_data then b else []
data_of (wrote bytes) = []
data_of (page code text) = []
data_of (interim code h) = []
data_of (head code h) = []
data_of flushed = []
data_of closed = []

unfoldable pub bytes_by : (Event → Text) → List Event → Text
bytes_by f [] = []
bytes_by f (e ∷ es) = bytes_by f es ++ f e

-- The payloads of the data frames that come before the end, a reset or an error.
unfoldable pub body_of : List Recv → Text
body_of [] = []
body_of (timed_out ∷ rs) = []
body_of (failed ∷ rs) = []
body_of (frame f ∷ rs) =
    let rest = body_of rs in
    if f.type == t_res_data
    then f.payload ++ rest
    else if (f.type == t_res_end) || (f.type == t_rst)
    then []
    else rest

unfoldable pub read_bytes : List Read → Text
read_bytes [] = []
read_bytes (chunk bytes ∷ rs) = bytes ++ read_bytes rs
read_bytes (ended bytes ∷ rs) = bytes
read_bytes (too_large bytes ∷ rs) = bytes

abbrev pub written : World → Text
written w = bytes_by written_by w.trace

abbrev pub sent_data : World → Text
sent_data w = bytes_by data_of w.trace

try_send-written :
    (p : Peer) (t : ℕ) (b : Text) (w : World) → written (try_send p t b w) ≡ written w
unfolding try_send bytes_by
try_send-written p t b w = ground (arith, append-nil (written w))

flush-written : (p : Peer) (w : World) → written (flush p w) ≡ written w
unfolding flush bytes_by
flush-written p w = ground (arith, append-nil (written w))

body_frame-written :
    (p : Peer) (c : Codec) (f : Frame) (w : World)
    → ((t : List Event) → p.can_write t ≡ true)
    → written (body_frame p c f w).0 ≡ written w ++ (if f.type == t_res_data then f.payload else [])
unfolding body_frame bytes_by
body_frame-written p c f w ok =
    ground (arith, ok w.trace, flush-written p (log (wrote f.payload) w), append-nil (written w))

body_frame-stops :
    (p : Peer) (c : Codec) (f : Frame) (w : World)
    → p.can_write w.trace ≡ true
    → (body_frame p c f w).1 ≡ ((f.type == t_res_end) || (f.type == t_rst))
unfolding body_frame
body_frame-stops p c f w ok = ground arith

-- While the client takes the writes, its body grows by exactly the payloads of the data frames that
-- come before the end, a reset or an error, in their order.
pub written-relay_body :
    (p : Peer) (c : Codec) (rs : List Recv) (w : World)
    → ((t : List Event) → p.can_write t ≡ true)
    → written (relay_body p c rs w).0 ≡ written w ++ body_of rs
unfolding relay_body body_of
written-relay_body p c [] w ok = ground (arith, append-nil (written w))
written-relay_body p c (timed_out ∷ rs) w ok =
    ground (arith, append-nil (written w), try_send-written p t_rst (codes "stream idle timeout") w)
written-relay_body p c (failed ∷ rs) w ok = ground (arith, append-nil (written w))
written-relay_body p c (frame f ∷ rs) w ok =
    let w' = (body_frame p c f w).0 in
    let part : Text = if f.type == t_res_data then f.payload else [] in
    ground (
      arith,
      body_frame-written p c f w ok,
      written-relay_body p c rs w' ok,
      append_assoc (written w) f.payload (body_of rs),
      append-nil (written w),
      body_frame-stops p c f w (ok w.trace),
    )

-- A reset in the middle of a body and its regular end do the same: the handler returns, and nothing
-- tells the client that the body is not complete.
pub relay_body-reset :
    (p : Peer) (c : Codec) (rs : List Recv) (f g : Frame) (w : World)
    → f.type ≡ t_rst
    → g.type ≡ t_res_end
    → relay_body p c (rs ++ (frame f ∷ [])) w ≡ relay_body p c (rs ++ (frame g ∷ [])) w
unfolding relay_body body_frame
relay_body-reset p c [] f g w x y = ground arith
relay_body-reset p c (timed_out ∷ rs) f g w x y = refl
relay_body-reset p c (failed ∷ rs) f g w x y = refl
relay_body-reset p c (frame h ∷ rs) f g w x y =
    ground (arith, relay_body-reset p c rs f g (body_frame p c h w).0 x y)

sent_data-send_chunk :
    (p : Peer) (bytes : Text) (w : World)
    → ((t : List Event) → p.can_send t ≡ true)
    → (sent_data (send_chunk p bytes w).0 ≡ sent_data w ++ bytes)
      × ((send_chunk p bytes w).1 ≡ true)
unfolding send bytes_by
sent_data-send_chunk p [] w ok = (ground (arith, append-nil (sent_data w)), refl)
sent_data-send_chunk p (a ∷ bytes) w ok = ground (arith, ok w.trace)

sent_data-try_reset :
    (p : Peer) (b : Text) (w : World) → sent_data (try_send p t_rst b w) ≡ sent_data w
unfolding try_send bytes_by
sent_data-try_reset p b w = ground (arith, append-nil (sent_data w))

-- While the agent's connection takes the frames, a request's data that is sent is exactly what was
-- read of its body.
pub sent_data-send_body :
    (p : Peer) (rs : List Read) (w : World)
    → ((t : List Event) → p.can_send t ≡ true)
    → sent_data (send_body p rs w).0 ≡ sent_data w ++ read_bytes rs
unfolding send_body read_bytes bytes_by
sent_data-send_body p [] w ok = ground (arith, append-nil (sent_data w))
sent_data-send_body p (chunk bytes ∷ rs) w ok =
    let w' = (send_chunk p bytes w).0 in
    ground (
      arith,
      sent_data-send_chunk p bytes w ok,
      sent_data-send_body p rs w' ok,
      append_assoc (sent_data w) bytes (read_bytes rs),
    )
sent_data-send_body p (ended bytes ∷ rs) w ok = ground (arith, sent_data-send_chunk p bytes w ok)
sent_data-send_body p (too_large bytes ∷ rs) w ok = ground (
  arith,
  sent_data-send_chunk p bytes w ok,
  append-nil (sent_data w),
  append-nil (sent_data (send_chunk p bytes w).0),
  sent_data-try_reset p (codes "body too large") (send_chunk p bytes w).0,
)
