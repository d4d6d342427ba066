-- ===== src/Agent/Streams/Successor.antt =====
-- What becomes of the stream that takes over the number of one that overflowed.
use https_proxy.Base.{
  ℕ, ◌≤◌, ◌≡◌, refl, Bool, true, false, [], ◌∷◌, ◌++◌, none, some, length, get_elem?,
  get_elem?-set_self, get_elem?-lt, get_elem?-length, get_elem?-snoc, get_elem?-set, length-append,
  length-set, set, arith, ap, ◌∙◌, List, Option-cases, inl, inr, ◌<◌,
}
use https_proxy.Base.Text.{codes}
use https_proxy.Base.Assoc.{lookup, insert, delete, nat_eq, lookup-delete, lookup-insert}
use https_proxy.Proto.Frame.{Frame}
use https_proxy.Proto.Types.{t_rst}
use https_proxy.Agent.Streams.{
  Stream, ConnState, receive_queue_frames, fresh_stream, close_at, take_out, forget_stream,
  get_or_create_stream, offer, overflow, deliver_frame, dispatch_frame, end_handler, send,
}
use https_proxy.Agent.Streams.Heap.{get-close_at}

get_existing :
    (c : ConnState) (id r : ℕ) → lookup id c.streams ≡ some r → get_or_create_stream id c ≡ (c, r)
unfolding get_or_create_stream
get_existing c id r l = rw (l, get_or_create_stream) refl

get_missing :
    (c : ConnState) (id : ℕ)
    → lookup id c.streams ≡ none
    → get_or_create_stream id c ≡ (
      record c {
        streams = insert id (length c.heap) c.streams;
        heap = c.heap ++ (fresh_stream id ∷ []);
      },
      length c.heap,
    )
unfolding get_or_create_stream
get_missing c id l = rw (l, get_or_create_stream) refl

deliver_full :
    (taken take_rx : Bool) (f : Frame) (c : ConnState) (r : ℕ) (s : Stream)
    → get_elem? c.heap r ≡ some s
    → s.closed ≡ false
    → receive_queue_frames ≤ length s.rx
    → deliver_frame taken take_rx f r c ≡ (overflow taken s.id c, false)
unfolding deliver_frame offer
deliver_full taken take_rx f c r s h o full = ground (arith, h)

deliver_room :
    (taken take_rx : Bool) (f : Frame) (c : ConnState) (r : ℕ) (s : Stream)
    → get_elem? c.heap r ≡ some s
    → s.closed ≡ false
    → length s.rx < receive_queue_frames
    → deliver_frame taken take_rx f r c
      ≡ (record c { heap = set c.heap r (record s { rx = s.rx ++ (f ∷ []) }) }, true)
unfolding deliver_frame offer
deliver_room taken take_rx f c r s h o room = ground (arith, h)

forget_lem :
    (id q : ℕ) (c : ConnState)
    → lookup id c.streams ≡ some q
    → ((forget_stream id c).heap ≡ close_at q c.heap)
      × ((forget_stream id c).streams ≡ delete id c.streams)
unfolding forget_stream take_out
forget_lem id q c l = ground (arith, l)

overflow_lem :
    (taken : Bool) (id r : ℕ) (c : ConnState)
    → lookup id c.streams ≡ some r
    → ((overflow taken id c).heap ≡ close_at r c.heap)
      × ((overflow taken id c).streams ≡ delete id c.streams)
unfolding overflow send
overflow_lem true id r c l = forget_lem id r (send true t_rst id (codes "stream rx overflow") c) l
overflow_lem false id r c l = forget_lem id r c l

length-close_at : (r : ℕ) (heap : List Stream) → length (close_at r heap) ≡ length heap
unfolding close_at
length-close_at r heap = elim (Option-cases (get_elem? heap r)) [
  | inl h ↦ rw (h, close_at) refl
  | inr (s, h) ↦ rw (h, close_at) (length-set heap r (record s { closed = true }))
]

full_lem :
    (taken take_rx : Bool) (f : Frame) (c : ConnState) (r : ℕ) (s : Stream)
    → s.id ≡ f.stream
    → lookup f.stream c.streams ≡ some r
    → get_elem? c.heap r ≡ some s
    → s.closed ≡ false
    → receive_queue_frames ≤ length s.rx
    → dispatch_frame taken take_rx f c ≡ overflow taken f.stream c
unfolding dispatch_frame
full_lem taken take_rx f c r s i l h o full =
    ap (λ (p : ConnState × ℕ). (deliver_frame taken take_rx f p.1 p.0).0)
      (get_existing c f.stream r l)
    ∙ ap (λ (p : ConnState × Bool). p.0) (deliver_full taken take_rx f c r s h o full)
    ∙ ap (λ n. overflow taken n c) i

abbrev created : Frame → Stream
created f = record (fresh_stream f.stream) { rx = f ∷ [] }

new_lem :
    (taken take_rx : Bool) (f : Frame) (c : ConnState)
    → lookup f.stream c.streams ≡ none
    → dispatch_frame taken take_rx f c ≡ record c {
      streams = insert f.stream (length c.heap) c.streams;
      heap = set (c.heap ++ (fresh_stream f.stream ∷ [])) (length c.heap) (created f);
    }
unfolding dispatch_frame
new_lem taken take_rx f c l =
    ap (λ (p : ConnState × ℕ). (deliver_frame taken take_rx f p.1 p.0).0) (get_missing c f.stream l)
    ∙ ap (λ (p : ConnState × Bool). p.0)
        (deliver_room taken take_rx f _ (length c.heap) (fresh_stream f.stream)
          (get_elem?-length c.heap (fresh_stream f.stream)) refl (omega arith))

module _ (c : ConnState) (taken taken' b b' : Bool) (f g : Frame) (r : ℕ) (s : Stream)
    (i : s.id ≡ f.stream) (same : g.stream ≡ f.stream) (l : lookup f.stream c.streams ≡ some r)
    (h : get_elem? c.heap r ≡ some s) (o : s.closed ≡ false)
    (full : receive_queue_frames ≤ length s.rx) where
  abbrev after_full : ConnState
  after_full = overflow taken f.stream c

  abbrev both : ConnState
  both = dispatch_frame taken' b' g (dispatch_frame taken b f c)

  nothing_left : lookup g.stream after_full.streams ≡ none
  nothing_left =
      ground
        (arith, (overflow_lem taken f.stream r c l).1, lookup-delete f.stream g.stream c.streams)

  both_lem : both ≡ record after_full {
    streams = insert g.stream (length after_full.heap) after_full.streams;
    heap =
        set (after_full.heap ++ (fresh_stream g.stream ∷ [])) (length after_full.heap) (created g);
  }
  both_lem =
      ap (dispatch_frame taken' b' g) (full_lem taken b f c r s i l h o full)
      ∙ new_lem taken' b' g after_full nothing_left

  same_length : length after_full.heap ≡ length c.heap
  same_length = ap length (overflow_lem taken f.stream r c l).0 ∙ length-close_at r c.heap

  successor_there : get_elem? both.heap (length c.heap) ≡ some (created g)
  successor_there =
      rw (both_lem, ← same_length)
        (get_elem?-set_self (after_full.heap ++ (fresh_stream g.stream ∷ []))
          (length after_full.heap) (created g)
          (omega (arith, length-append after_full.heap (fresh_stream g.stream ∷ []))))

  successor_found : lookup s.id both.streams ≡ some (length c.heap)
  successor_found = rw both_lem (
      ground (
        arith,
        same_length,
        lookup-insert g.stream s.id (length after_full.heap) after_full.streams,
      ))

  old_there : get_elem? both.heap r ≡ some (record s { closed = true })
  old_there = rw both_lem (
      ground (
        arith,
        get_elem?-lt c.heap r s h,
        same_length,
        get-close_at r c.heap r,
        (overflow_lem taken f.stream r c l).0,
        get_elem?-length after_full.heap (fresh_stream g.stream),
        get_elem?-snoc after_full.heap (fresh_stream g.stream) r,
        get_elem?-set (after_full.heap ++ (fresh_stream g.stream ∷ [])) (length after_full.heap)
            (fresh_stream g.stream) (created g) r,
      ))

  end_lem :
      ((end_handler r both).heap ≡ close_at (length c.heap) both.heap)
      × ((end_handler r both).streams ≡ delete s.id both.streams)
  unfolding end_handler
  end_lem = rw (old_there, end_handler) (forget_lem s.id (length c.heap) both successor_found)

-- A frame overflows the queue of an open stream, and the next frame that is read has the same number;
-- no other goroutine runs in between. The stream is closed and a new one is created, which holds the
-- second frame and to which the number leads. The end of the first stream's handler then closes that
-- new stream, its frame still queued, and takes its number out of the map.
pub end_handler_successor :
    (c : ConnState) (taken taken' b b' : Bool) (f g : Frame) (r : ℕ) (s : Stream)
    → s.id ≡ f.stream
    → g.stream ≡ f.stream
    → lookup f.stream c.streams ≡ some r
    → get_elem? c.heap r ≡ some s
    → s.closed ≡ false
    → receive_queue_frames ≤ length s.rx
    → let d = dispatch_frame taken' b' g (dispatch_frame taken b f c) in
      let u : Stream = record { id = g.stream; rx = g ∷ []; closed = false } in
      (get_elem? d.heap r ≡ some (record s { closed = true }))
      × (get_elem? d.heap (length c.heap) ≡ some u)
      × (lookup s.id d.streams ≡ some (length c.heap))
      × (get_elem? (end_handler r d).heap (length c.heap) ≡ some (record u { closed = true }))
      × (lookup s.id (end_handler r d).streams ≡ none)
end_handler_successor c taken taken' b b' f g r s i same l h o full =
    let there = successor_there c taken taken' b b' f g r s i same l h o full in
    let found = successor_found c taken taken' b b' f g r s i same l h o full in
    let ends = end_lem c taken taken' b b' f g r s i same l h o full in
    (
      old_there c taken taken' b b' f g r s i same l h o full,
      there,
      found,
      ground (
        arith,
        ends.0,
        get-close_at (length c.heap) (dispatch_frame taken' b' g (dispatch_frame taken b f c)).heap
            (length c.heap),
        there,
      ),
      rw ends.1 (
          ground (
            arith,
            lookup-delete s.id s.id
                (dispatch_frame taken' b' g (dispatch_frame taken b f c)).streams,
          )),
    )
