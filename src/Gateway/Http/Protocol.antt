-- ===== src/Gateway/Http/Protocol.antt =====
-- The order of the frames that the handler of an exchange sends to the agent.
use https_proxy.Base.{
  ℕ, ◌≡◌, refl, Bool, true, false, List, [], ◌∷◌, arith, Bool-cases, if_elim, ◌==◌, if◌then◌else◌,
  inl, inr,
}
use https_proxy.Base.Text.{Text, codes}
use https_proxy.Proto.Frame.{Frame}
use https_proxy.Proto.Types.{ResStart, t_req_start, t_req_data, t_req_end, t_req_trailer, t_rst}
use https_proxy.Gateway.Http.Exchange.{
  Event, World, Peer, Codec, Recv, Read, Ending, returned, waiting, chunk, ended, too_large, frame,
  timed_out, failed, sent, page, interim, head, wrote, flushed, closed, log, send, try_send, flush,
}
use https_proxy.Gateway.Http.Response.{
  body_frame, relay_body, no_response, relay_response, write_interim, start_response,
}
use https_proxy.Gateway.Http.Request.{
  Request, BodyEnd, body_sent, body_refused, body_waiting, send_body, send_chunk, finish_request,
  after_body, exchange, handle_client_http, request_start, is_too_long, deferred,
}

-- How far the request is: nothing sent, the start, the trailers, the end, or a reset after which
-- nothing may follow; `misordered` is for every other order.
pub data Phase : Type 0 where
  fresh started trailed complete reset misordered : Phase

abbrev pub next : ℕ → Phase → Phase
next t fresh = if t == t_req_start then started else if t == t_rst then reset else misordered
next t started =
    if t == t_req_data
    then started
    else if t == t_req_trailer
    then trailed
    else if t == t_req_end
    then complete
    else if t == t_rst
    then reset
    else misordered
next t trailed = if t == t_req_end then complete else if t == t_rst then reset else misordered
next t complete = if t == t_rst then reset else misordered
next t reset = misordered
next t misordered = misordered

abbrev pub after : Event → Phase → Phase
after (sent t payload) ph = next t ph
after (page code text) ph = ph
after (interim code h) ph = ph
after (head code h) ph = ph
after (wrote bytes) ph = ph
after flushed ph = ph
after closed ph = ph

unfoldable pub phase : List Event → Phase
phase [] = fresh
phase (e ∷ es) = after e (phase es)

abbrev pub in_order : Phase → Bool
in_order misordered = false
in_order _ = true

-- A reset may follow.
abbrev pub is_live : Phase → Bool
is_live started = true
is_live trailed = true
is_live complete = true
is_live _ = false

abbrev at : World → Phase
at w = phase w.trace

live-in_order : (ph : Phase) → is_live ph ≡ true → in_order ph ≡ true
live-in_order started h = refl
live-in_order trailed h = refl
live-in_order complete h = refl
live-in_order fresh h = cc
live-in_order reset h = cc
live-in_order misordered h = cc

reset-in_order : (ph : Phase) → is_live ph ≡ true → in_order (next t_rst ph) ≡ true
reset-in_order started h = refl
reset-in_order trailed h = refl
reset-in_order complete h = refl
reset-in_order fresh h = cc
reset-in_order reset h = cc
reset-in_order misordered h = cc

try_reset-in_order :
    (p : Peer) (text : Text) (w : World)
    → is_live (at w) ≡ true
    → in_order (at (try_send p t_rst text w)) ≡ true
unfolding try_send phase
try_reset-in_order p text w h = ground (arith, live-in_order (at w) h, reset-in_order (at w) h)

flush-at : (p : Peer) (w : World) → at (flush p w) ≡ at w
unfolding flush phase
flush-at p w = ground arith

body_frame-in_order :
    (p : Peer) (c : Codec) (f : Frame) (w : World)
    → is_live (at w) ≡ true
    → (in_order (at (body_frame p c f w).0) ≡ true)
      × ((body_frame p c f w).1 ≡ false → is_live (at (body_frame p c f w).0) ≡ true)
unfolding body_frame phase
body_frame-in_order p c f w h = ground (
  arith,
  live-in_order (at w) h,
  try_reset-in_order p (codes "client write failed") w h,
  flush-at p (log (wrote f.payload) w),
)

relay_body-in_order :
    (p : Peer) (c : Codec) (rs : List Recv) (w : World)
    → is_live (at w) ≡ true
    → in_order (at (relay_body p c rs w).0) ≡ true
unfolding relay_body
relay_body-in_order p c [] w h = live-in_order (at w) h
relay_body-in_order p c (timed_out ∷ rs) w h =
    try_reset-in_order p (codes "stream idle timeout") w h
relay_body-in_order p c (failed ∷ rs) w h = live-in_order (at w) h
relay_body-in_order p c (frame f ∷ rs) w h =
    let (o, l) = body_frame-in_order p c f w h in
    elim (Bool-cases (body_frame p c f w).1) [
      | inl e ↦ ground (arith, o, e)
      | inr e ↦ ground (arith, e, relay_body-in_order p c rs (body_frame p c f w).0 (l e))
    ]

no_response-in_order :
    (p : Peer) (w : World) → is_live (at w) ≡ true → in_order (at (no_response p w)) ≡ true
unfolding no_response phase
no_response-in_order p w h = try_reset-in_order p (codes "gateway timeout") w h

interim-at : (s : ResStart) (w : World) → at (write_interim s w) ≡ at w
unfolding write_interim phase
interim-at s w = ground arith

start-at : (p : Peer) (s : ResStart) (w : World) → at (start_response p s w) ≡ at w
unfolding start_response flush phase
start-at p s w = ground arith

relay_response-in_order :
    (p : Peer) (c : Codec) (rs : List Recv) (w : World)
    → is_live (at w) ≡ true
    → in_order (at (relay_response p c rs w).0) ≡ true
unfolding relay_response
relay_response-in_order p c [] w h = live-in_order (at w) h
relay_response-in_order p c (timed_out ∷ rs) w h = no_response-in_order p w h
relay_response-in_order p c (failed ∷ rs) w h = no_response-in_order p w h
relay_response-in_order p c (frame f ∷ rs) w h =
    let s = c.res_start f.payload in
    ground (
      arith,
      no_response-in_order p w h,
      relay_response-in_order p c rs (write_interim s w) (ground (arith, interim-at s w)),
      relay_body-in_order p c rs (start_response p s w) (ground (arith, start-at p s w)),
    )

send_chunk-started :
    (p : Peer) (bytes : Text) (w : World) → at w ≡ started → at (send_chunk p bytes w).0 ≡ started
unfolding send phase
send_chunk-started p bytes w h = ground arith

abbrev Kept : World × BodyEnd → Type 0
Kept (w, body_sent) = at w ≡ started
Kept (w, body_refused) = in_order (at w) ≡ true
Kept (w, body_waiting) = in_order (at w) ≡ true

send_body-Kept : (p : Peer) (rs : List Read) (w : World) → at w ≡ started → Kept (send_body p rs w)
unfolding send_body phase
send_body-Kept p [] w h = ground arith
send_body-Kept p (chunk bytes ∷ rs) w h =
    if_elim Kept (send_chunk p bytes w).1
      (λ e. send_body-Kept p rs (send_chunk p bytes w).0 (send_chunk-started p bytes w h))
      (λ e. ground (arith, send_chunk-started p bytes w h))
send_body-Kept p (ended bytes ∷ rs) w h =
    if_elim Kept (send_chunk p bytes w).1 (λ e. send_chunk-started p bytes w h)
      (λ e. ground (arith, send_chunk-started p bytes w h))
send_body-Kept p (too_large bytes ∷ rs) w h =
    if_elim Kept (send_chunk p bytes w).1
      (λ e.
        try_reset-in_order p (codes "body too large") (send_chunk p bytes w).0
          (ground (arith, send_chunk-started p bytes w h)))
      (λ e. ground (arith, send_chunk-started p bytes w h))

finish_request-live :
    (p : Peer) (c : Codec) (r : Request) (w : World)
    → at w ≡ started
    → is_live (at (finish_request p c r w)) ≡ true
unfolding finish_request try_send phase
finish_request-live p c r w h = ground arith

after_body-in_order :
    (p : Peer) (c : Codec) (r : Request) (recvs : List Recv) (x : World × BodyEnd)
    → Kept x
    → in_order (at (after_body p c r recvs x).0) ≡ true
after_body-in_order p c r recvs (w, body_sent) h =
    relay_response-in_order p c recvs (finish_request p c r w) (finish_request-live p c r w h)
after_body-in_order p c r recvs (w, body_refused) h = h
after_body-in_order p c r recvs (w, body_waiting) h = h

deferred-at : (x : World × Ending) → at (deferred x).0 ≡ at x.0
unfolding phase
deferred-at (w, returned) = refl
deferred-at (w, waiting) = refl

exchange-in_order :
    (max : ℕ) (p : Peer) (c : Codec) (r : Request) (path : Text) (reads : List Read)
    (recvs : List Recv) (w : World)
    → at w ≡ fresh
    → in_order (at (exchange max p c r path reads recvs w).0) ≡ true
unfolding exchange send try_send phase
exchange-in_order max p c r path reads recvs w h = elim (Bool-cases (is_too_long max r)) [
  | inl e ↦ ground arith
  | inr e ↦ elim (Bool-cases (p.can_send w.trace)) [
    | inl s ↦
        let start = c.req_start (request_start c r path) in
        let w' = log (sent t_req_start start) w in
        ground (
          arith,
          after_body-in_order p c r recvs (send_body p reads w')
              (send_body-Kept p reads w' (ground arith)),
        )
    | inr s ↦ ground arith
  ]
]

-- Whatever the client, the agent and the sockets do, the frames that the handler sends to the agent
-- itself, without its goroutine for a client that goes away, are a start, then the body's data, then
-- trailers if any, then the end, each left out where its send fails; a reset may cut this short at any
-- point, and nothing follows it.
pub handle_client_http-in_order :
    (opened : Bool) (max : ℕ) (p : Peer) (c : Codec) (r : Request) (path : Text) (reads : List Read)
    (recvs : List Recv)
    → in_order (phase (handle_client_http opened max p c r path reads recvs).0.trace) ≡ true
unfolding handle_client_http phase
handle_client_http-in_order false max p c r path reads recvs = refl
handle_client_http-in_order true max p c r path reads recvs = ground (
  arith,
  exchange-in_order max p c r path reads recvs (record { trace = []; header = [] }) refl,
  deferred-at (exchange max p c r path reads recvs (record { trace = []; header = [] })),
)
