-- ===== src/Gateway/Http/Reply.antt =====
-- The order of the writes to the client.
use https_proxy.Base.{
  ℕ, ◌≡◌, refl, Bool, true, false, List, [], ◌∷◌, arith, Bool-cases, if_elim, inl, inr, ◌==◌, not,
  ◌||◌, ◌&&◌, if◌then◌else◌, All,
}
use https_proxy.Base.Int.{pos, ltb_ℤ}
use https_proxy.Base.Text.{Text, codes}
use https_proxy.Proto.Frame.{Frame}
use https_proxy.Proto.Types.{ResStart, t_req_start, t_rst, t_res_start}
use https_proxy.Gateway.Http.Exchange.{
  Event, World, Peer, Codec, Recv, Read, Ending, returned, waiting, chunk, ended, too_large, frame,
  timed_out, failed, sent, page, interim, head, wrote, flushed, closed, log, send, try_send, flush,
}
use https_proxy.Gateway.Http.Response.{
  body_frame, relay_body, no_response, relay_response, write_interim, start_response, is_interim,
  is_informational,
}
use https_proxy.Gateway.Http.Request.{
  Request, BodyEnd, body_sent, body_refused, body_waiting, send_body, send_chunk, finish_request,
  after_body, exchange, handle_client_http, request_start, is_too_long, deferred, send_failed,
}

-- What the client has: no final status yet, an error page, or a status with a body under way;
-- `garbled` is for every other order of writes.
pub data Reply : Type 0 where
  unanswered paged streaming garbled : Reply

abbrev pub reply_after : Event → Reply → Reply
reply_after (page code text) unanswered = paged
reply_after (page code text) _ = garbled
reply_after (interim code h) unanswered = unanswered
reply_after (interim code h) _ = garbled
reply_after (head code h) unanswered = streaming
reply_after (head code h) _ = garbled
reply_after (wrote bytes) streaming = streaming
reply_after (wrote bytes) _ = garbled
reply_after flushed streaming = streaming
reply_after flushed _ = garbled
reply_after (sent t payload) r = r
reply_after closed r = r

unfoldable pub reply : List Event → Reply
reply [] = unanswered
reply (e ∷ es) = reply_after e (reply es)

-- One final answer has been started.
abbrev pub is_answered : Reply → Bool
is_answered paged = true
is_answered streaming = true
is_answered _ = false

abbrev pub is_sound : Reply → Bool
is_sound garbled = false
is_sound _ = true

-- A handler that has returned has answered, and one that waits has not garbled the answer.
abbrev pub Answers : World × Ending → Type 0
Answers (w, returned) = is_answered (reply w.trace) ≡ true
Answers (w, waiting) = is_sound (reply w.trace) ≡ true

abbrev has : World → Reply
has w = reply w.trace

try_send-has : (p : Peer) (t : ℕ) (b : Text) (w : World) → has (try_send p t b w) ≡ has w
unfolding try_send reply
try_send-has p t b w = ground arith

body_frame-has :
    (p : Peer) (c : Codec) (f : Frame) (w : World)
    → has w ≡ streaming
    → has (body_frame p c f w).0 ≡ streaming
unfolding body_frame flush reply
body_frame-has p c f w h = ground (arith, try_send-has p t_rst (codes "client write failed") w)

relay_body-Answers :
    (p : Peer) (c : Codec) (rs : List Recv) (w : World)
    → has w ≡ streaming
    → Answers (relay_body p c rs w)
unfolding relay_body
relay_body-Answers p c [] w h = ground arith
relay_body-Answers p c (timed_out ∷ rs) w h =
    ground (arith, try_send-has p t_rst (codes "stream idle timeout") w)
relay_body-Answers p c (failed ∷ rs) w h = ground arith
relay_body-Answers p c (frame f ∷ rs) w h =
    if_elim Answers (body_frame p c f w).1 (λ e. ground (arith, body_frame-has p c f w h))
      (λ e. relay_body-Answers p c rs (body_frame p c f w).0 (body_frame-has p c f w h))

no_response-Answers :
    (p : Peer) (w : World) → has w ≡ unanswered → is_answered (has (no_response p w)) ≡ true
unfolding no_response reply
no_response-Answers p w h = ground (arith, try_send-has p t_rst (codes "gateway timeout") w)

-- A start whose status net/http takes the way the frame says: none at all, an informational status in an
-- interim start, and three digits in a final one.
abbrev pub is_proper_start : ResStart → Bool
is_proper_start s =
    not (ltb_ℤ (pos 0) s.status)
    || (if is_interim s
        then is_informational s.status
        else ltb_ℤ (pos 99) s.status && ltb_ℤ s.status (pos 1000))

abbrev pub IsProper : Codec → Recv → Type 0
IsProper c (frame f) = not (f.type == t_res_start) || is_proper_start (c.res_start f.payload) ≡ true
IsProper c timed_out = Unit
IsProper c failed = Unit

interim-has :
    (s : ResStart) (w : World)
    → is_proper_start s ≡ true
    → is_interim s ≡ true
    → has w ≡ unanswered
    → has (write_interim s w) ≡ unanswered
unfolding write_interim reply
interim-has s w k i h = ground arith

start-has :
    (p : Peer) (s : ResStart) (w : World)
    → has w ≡ unanswered
    → has (start_response p s w) ≡ streaming
unfolding start_response flush reply
start-has p s w h = ground arith

relay_response-Answers :
    (p : Peer) (c : Codec) (rs : List Recv) (w : World)
    → All (IsProper c) rs
    → has w ≡ unanswered
    → Answers (relay_response p c rs w)
unfolding relay_response
relay_response-Answers p c [] w ks h = ground arith
relay_response-Answers p c (timed_out ∷ rs) w ks h = no_response-Answers p w h
relay_response-Answers p c (failed ∷ rs) w ks h = no_response-Answers p w h
relay_response-Answers p c (frame f ∷ rs) w (k, ks) h =
    let s = c.res_start f.payload in
    if_elim Answers (not (f.type == t_res_start)) (λ e. no_response-Answers p w h)
      (λ e.
        let proper : is_proper_start s ≡ true = ground (arith, k, e) in
        if_elim Answers (is_interim s)
          (λ i. relay_response-Answers p c rs (write_interim s w) ks (interim-has s w proper i h))
          (λ i. relay_body-Answers p c rs (start_response p s w) (start-has p s w h)))

send_chunk-has : (p : Peer) (bytes : Text) (w : World) → has (send_chunk p bytes w).0 ≡ has w
unfolding send reply
send_chunk-has p bytes w = ground arith

abbrev BodyReply : World × BodyEnd → Type 0
BodyReply (w, body_sent) = has w ≡ unanswered
BodyReply (w, body_refused) = is_answered (has w) ≡ true
BodyReply (w, body_waiting) = is_sound (has w) ≡ true

refused-answered :
    (p : Peer) (bytes : Text) (w : World)
    → has w ≡ unanswered
    → is_answered (has (send_failed (send_chunk p bytes w).0)) ≡ true
unfolding reply
refused-answered p bytes w h = ground (arith, send_chunk-has p bytes w)

send_body-BodyReply :
    (p : Peer) (rs : List Read) (w : World) → has w ≡ unanswered → BodyReply (send_body p rs w)
unfolding send_body reply
send_body-BodyReply p [] w h = ground arith
send_body-BodyReply p (chunk bytes ∷ rs) w h =
    if_elim BodyReply (send_chunk p bytes w).1
      (λ e.
        send_body-BodyReply p rs (send_chunk p bytes w).0
          (ground (arith, send_chunk-has p bytes w)))
      (λ e. refused-answered p bytes w h)
send_body-BodyReply p (ended bytes ∷ rs) w h =
    if_elim BodyReply (send_chunk p bytes w).1 (λ e. ground (arith, send_chunk-has p bytes w))
      (λ e. refused-answered p bytes w h)
send_body-BodyReply p (too_large bytes ∷ rs) w h =
    if_elim BodyReply (send_chunk p bytes w).1
      (λ e. ground (
        arith,
        send_chunk-has p bytes w,
        try_send-has p t_rst (codes "body too large") (send_chunk p bytes w).0,
      ))
      (λ e. refused-answered p bytes w h)

finish_request-has :
    (p : Peer) (c : Codec) (r : Request) (w : World) → has (finish_request p c r w) ≡ has w
unfolding finish_request try_send reply
finish_request-has p c r w = ground arith

after_body-Answers :
    (p : Peer) (c : Codec) (r : Request) (recvs : List Recv) (x : World × BodyEnd)
    → All (IsProper c) recvs
    → BodyReply x
    → Answers (after_body p c r recvs x)
after_body-Answers p c r recvs (w, body_sent) ks h =
    relay_response-Answers p c recvs (finish_request p c r w) ks
      (ground (arith, finish_request-has p c r w))
after_body-Answers p c r recvs (w, body_refused) ks h = h
after_body-Answers p c r recvs (w, body_waiting) ks h = h

deferred-Answers : (x : World × Ending) → Answers x → Answers (deferred x)
unfolding reply
deferred-Answers (w, returned) h = h
deferred-Answers (w, waiting) h = h

exchange-Answers :
    (max : ℕ) (p : Peer) (c : Codec) (r : Request) (path : Text) (reads : List Read)
    (recvs : List Recv) (w : World)
    → All (IsProper c) recvs
    → has w ≡ unanswered
    → Answers (exchange max p c r path reads recvs w)
unfolding exchange send try_send reply
exchange-Answers max p c r path reads recvs w ks h =
    if_elim Answers (is_too_long max r) (λ e. ground arith)
      (λ e. elim (Bool-cases (p.can_send w.trace)) [
        | inl s ↦
            let w' = log (sent t_req_start (c.req_start (request_start c r path))) w in
            ground (
              arith,
              after_body-Answers p c r recvs (send_body p reads w') ks
                  (send_body-BodyReply p reads w' (ground arith)),
            )
        | inr s ↦ ground arith
      ])

-- Where the status of each interim start that the agent sends is an informational one, or none, and the
-- status of each final start has three digits, or is none: whatever else the client, the agent and the
-- sockets do, the client of a handler that returns was given exactly one final answer, an error page
-- or a status, after any interim ones; the body follows the status, and nothing follows an error page.
-- A handler that still waits has kept to that order.
pub handle_client_http-Answers :
    (opened : Bool) (max : ℕ) (p : Peer) (c : Codec) (r : Request) (path : Text) (reads : List Read)
    (recvs : List Recv)
    → All (IsProper c) recvs
    → Answers (handle_client_http opened max p c r path reads recvs)
unfolding handle_client_http reply
handle_client_http-Answers false max p c r path reads recvs ks = refl
handle_client_http-Answers true max p c r path reads recvs ks =
    let empty : World = record { trace = []; header = [] } in
    deferred-Answers (exchange max p c r path reads recvs empty)
      (exchange-Answers max p c r path reads recvs empty ks refl)
