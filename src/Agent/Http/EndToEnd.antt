-- ===== src/Agent/Http/EndToEnd.antt =====
-- The response of a target, through the agent and the gateway, to the client.
use mathlib.Core.List.{append-nil, append_assoc}
use https_proxy.Base.{
  ℕ, ◌≡◌, ◌≤◌, ◌<◌, refl, sym, ap, ◌∙◌, true, false, List, [], ◌∷◌, ◌++◌, Option, none, some, arith,
  All,
}
use https_proxy.Base.Int.{ℤ, pos}
use https_proxy.Base.Text.{Text, codes}
use https_proxy.Proto.Frame.{Frame}
use https_proxy.Proto.Types.{Header, ResStart, t_res_end, t_rst}
use https_proxy.Gateway.Http.Exchange.{
  Event, World, Peer, Codec, Recv, Ending, returned, frame, head, flush, try_send,
}
use https_proxy.Gateway.Http.Response.{
  relay_body, relay_response, body_frame, write_interim, start_response, is_interim,
}
use https_proxy.Gateway.Http.Bodies.{written, body_of, written-relay_body, bytes_by}
use https_proxy.Agent.Http.{
  Read, chunk, eof, broken, Response, Encoder, Link, frame_of, interim_start, response_start,
  handle_http,
}
use https_proxy.Agent.Http.Frames.{
  is_complete, body_bytes, interim_frames, chunk_frames, data_frames, trailer_frames,
  response_frames, handle_http_all,
}

-- The frames as the gateway's stream hands them to the handler.
abbrev pub delivered : List Frame → List Recv
delivered [] = []
delivered (f ∷ fs) = frame f ∷ delivered fs

delivered-append : (fs gs : List Frame) → delivered (fs ++ gs) ≡ delivered fs ++ delivered gs
delivered-append [] gs = refl
delivered-append (f ∷ fs) gs = ap (λ x. frame f ∷ x) (delivered-append fs gs)

body_of-append_data :
    (id : ℕ) (b : Text) (rs : List Recv)
    → body_of (delivered (chunk_frames id b) ++ rs) ≡ b ++ body_of rs
unfolding body_of
body_of-append_data id [] rs = refl
body_of-append_data id (a ∷ b) rs = refl

body_of-data :
    (id : ℕ) (reads : List Read) (rs : List Recv)
    → body_of (delivered (data_frames id reads) ++ rs) ≡ body_bytes reads ++ body_of rs
body_of-data id [] rs = refl
body_of-data id (chunk b ∷ reads) rs =
    ap (λ x. body_of (x ++ rs)) (delivered-append (chunk_frames id b) (data_frames id reads))
    ∙ ap body_of
        (append_assoc (delivered (chunk_frames id b)) (delivered (data_frames id reads)) rs)
    ∙ body_of-append_data id b (delivered (data_frames id reads) ++ rs)
    ∙ ap (λ x. b ++ x) (body_of-data id reads rs)
    ∙ sym (append_assoc b (body_bytes reads) (body_of rs))
body_of-data id (eof b ∷ reads) rs = body_of-append_data id b rs
body_of-data id (broken b ∷ reads) rs = body_of-append_data id b rs

body_of-tail :
    (e : Encoder) (id : ℕ) (tr : Header)
    → body_of (delivered (trailer_frames e id tr ++ (frame_of t_res_end id [] ∷ []))) ≡ []
unfolding body_of
body_of-tail e id [] = refl
body_of-tail e id (a ∷ tr) = refl

relay_body-end :
    (p : Peer) (c : Codec) (rs : List Recv) (f : Frame) (w : World)
    → f.type ≡ t_res_end
    → (relay_body p c (rs ++ (frame f ∷ [])) w).1 ≡ returned
unfolding relay_body body_frame
relay_body-end p c [] f w h = ground arith
relay_body-end p c (frame g ∷ rs) f w h =
    ground (arith, relay_body-end p c rs f (body_frame p c g w).0 h)
relay_body-end p c (Recv.timed_out ∷ rs) f w h = refl
relay_body-end p c (Recv.failed ∷ rs) f w h = refl

-- The status that was sent to the client last.
unfoldable pub status_of : List Event → Option ℤ
status_of [] = none
status_of (head code h ∷ es) = some code
status_of (Event.sent t b ∷ es) = status_of es
status_of (Event.page code text ∷ es) = status_of es
status_of (Event.interim code h ∷ es) = status_of es
status_of (Event.wrote bytes ∷ es) = status_of es
status_of (Event.flushed ∷ es) = status_of es
status_of (Event.closed ∷ es) = status_of es

try_send-status :
    (p : Peer) (t : ℕ) (b : Text) (w : World)
    → status_of (try_send p t b w).trace ≡ status_of w.trace
unfolding try_send status_of
try_send-status p t b w = ground arith

body_frame-status :
    (p : Peer) (c : Codec) (f : Frame) (w : World)
    → status_of (body_frame p c f w).0.trace ≡ status_of w.trace
unfolding body_frame flush status_of
body_frame-status p c f w = ground (arith, try_send-status p t_rst (codes "client write failed") w)

relay_body-status :
    (p : Peer) (c : Codec) (rs : List Recv) (w : World)
    → status_of (relay_body p c rs w).0.trace ≡ status_of w.trace
unfolding relay_body
relay_body-status p c [] w = refl
relay_body-status p c (Recv.timed_out ∷ rs) w =
    try_send-status p t_rst (codes "stream idle timeout") w
relay_body-status p c (Recv.failed ∷ rs) w = refl
relay_body-status p c (frame g ∷ rs) w =
    ground (arith, body_frame-status p c g w, relay_body-status p c rs (body_frame p c g w).0)

-- What a handler has done when it has returned, sent a status, and grown the client's body.
pub record Delivers (w : World) (code : ℕ) (bytes : Text) (x : World × Ending) : Type 0 where
  pub status : status_of x.0.trace ≡ some (pos code)
  pub body : written x.0 ≡ written w ++ bytes
  pub ended : x.1 ≡ returned

interim-written : (s : ResStart) (w : World) → written (write_interim s w) ≡ written w
unfolding write_interim bytes_by
interim-written s w = ground (arith, append-nil (written w))

start-written : (p : Peer) (s : ResStart) (w : World) → written (start_response p s w) ≡ written w
unfolding start_response bytes_by flush
start-written p s w = ground (arith, append-nil (written w))

start-status :
    (p : Peer) (s : ResStart) (w : World) (n : ℕ)
    → s.status ≡ pos n
    → 0 < n
    → status_of (start_response p s w).trace ≡ some (pos n)
unfolding start_response status_of flush
start-status p s w n e h = ground arith

module _ (p : Peer) (c : Codec) (e : Encoder) (id : ℕ)
    (takes : (t : List Event) → p.can_write t ≡ true) where
  tail_frames : Response → List Frame
  tail_frames r = trailer_frames e id r.trailer ++ (frame_of t_res_end id [] ∷ [])

  -- The last frame is the end.
  body-ended :
      (r : Response) (w : World)
      → (relay_body p c (delivered (data_frames id r.reads ++ tail_frames r)) w).1 ≡ returned
  unfolding tail_frames
  body-ended r w =
      let d : List Frame = data_frames id r.reads ++ trailer_frames e id r.trailer in
      let last : Frame = frame_of t_res_end id [] in
      rw
        (
          ← append_assoc (data_frames id r.reads) (trailer_frames e id r.trailer) (last ∷ []),
          delivered-append d (last ∷ []),
        )
        (relay_body-end p c (delivered d) last w refl)

  body-delivered :
      (r : Response) (w : World)
      → written (relay_body p c (delivered (data_frames id r.reads ++ tail_frames r)) w).0
        ≡ written w ++ body_bytes r.reads
  unfolding tail_frames
  body-delivered r w =
      written-relay_body p c (delivered (data_frames id r.reads ++ tail_frames r)) w takes
      ∙ ap (λ x. written w ++ body_of x) (delivered-append (data_frames id r.reads) (tail_frames r))
      ∙ ap (λ x. written w ++ x)
          (body_of-data id r.reads (delivered (tail_frames r))
            ∙ ap (λ x. body_bytes r.reads ++ x) (body_of-tail e id r.trailer)
            ∙ append-nil (body_bytes r.reads))

  final_status : (r : Response) → 200 ≤ r.status → is_interim (response_start r) ≡ false
  final_status r h = ground arith

  response-Delivers :
      (r : Response) (w : World)
      → 200 ≤ r.status
      → c.res_start (e.res_start (response_start r)) ≡ response_start r
      → Delivers w r.status
          (body_bytes r.reads)
          (relay_response p c (delivered (response_frames e id r)) w)
  unfolding relay_response tail_frames
  response-Delivers r w h s =
      let w' : World = start_response p (response_start r) w in
      rw (s, final_status r h)
        (record {
          status =
              relay_body-status p c (delivered (data_frames id r.reads ++ tail_frames r)) w'
              ∙ start-status p (response_start r) w r.status refl (omega arith);
          body = rw (← start-written p (response_start r) w) (body-delivered r w');
          ended = body-ended r w';
        })

  interims-Delivers :
      (is : List (ℕ × Header)) (r : Response) (w : World)
      → 200 ≤ r.status
      → All (λ x. c.res_start (e.res_start (interim_start x.0 x.1)) ≡ interim_start x.0 x.1) is
      → c.res_start (e.res_start (response_start r)) ≡ response_start r
      → Delivers w r.status
          (body_bytes r.reads)
          (relay_response p c (delivered (interim_frames e id is ++ response_frames e id r)) w)
  unfolding relay_response
  interims-Delivers [] r w h si s = response-Delivers r w h s
  interims-Delivers ((code, hd) ∷ is) r w h si s =
      let i : ResStart = interim_start code hd in
      let rest = interims-Delivers is r (write_interim i w) h si.1 s in
      rw si.0 (record {
        status = rest.status;
        body = rest.body ∙ ap (λ x. x ++ body_bytes r.reads) (interim-written i w);
        ended = rest.ended;
      })

  -- What a target answers reaches the client: while the connection takes the agent's frames and the
  -- client takes the gateway's writes, and if the JSON of each start is read back as it was, then the
  -- gateway's handler, fed the frames of the agent's handler, writes the target's status as its last
  -- one, grows the body by the bytes that the agent read from the target, and returns. Interim
  -- responses change neither.
  pub relay_response-handle_http :
      (can : Link)
      → ((fs : List Frame) → can fs ≡ true)
      → (is : List (ℕ × Header)) (r : Response) (w : World) → is_complete r.reads ≡ true
      → 200 ≤ r.status
      → All (λ x. c.res_start (e.res_start (interim_start x.0 x.1)) ≡ interim_start x.0 x.1) is
      → c.res_start (e.res_start (response_start r)) ≡ response_start r
      → Delivers w r.status (body_bytes r.reads) (
          relay_response p c
            (delivered (handle_http can e id true (record { interims = is; response = some r })))
            w)
  relay_response-handle_http can all is r w done h si s =
      rw (handle_http_all can all e id is r done) (interims-Delivers is r w h si s)
