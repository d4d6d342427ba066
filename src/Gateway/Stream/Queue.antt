-- ===== src/Gateway/Stream/Queue.antt =====
-- The receive queue of one stream: order, capacity, overflow and the end of a stream.
use https_proxy.Base.{
  ℕ, zero, suc, ◌+◌, ◌≤◌, ◌<◌, ◌≡◌, refl, ap, sym, ◌∙◌, true, List, [], ◌∷◌, ◌++◌, Option, none,
  some, length, length-append, get_elem?-set_self, get_elem?-lt, get_elem?, set, arith,
}
use mathlib.Core.List.{append_assoc, append-nil}
use https_proxy.Base.Assoc.{nat_eq}
use https_proxy.Proto.Frame.{Frame}
use https_proxy.Gateway.Stream.Steps.{recv_full}
use https_proxy.Gateway.Stream.{
  Stream, AgentConn, stream_receive_queue_frames, from_rx, ok, err, deliver, offer, recv,
}

-- The read loop delivers the frames of a stream one after the other; a handler receives as many as
-- it asks for.
abbrev pub deliver_each : List Frame → ℕ → AgentConn → AgentConn
deliver_each [] r c = c
deliver_each (f ∷ fs) r c = deliver_each fs r (deliver true f r c)

abbrev pub recv_each : ℕ → ℕ → AgentConn → Option (AgentConn × List Frame)
recv_each zero r c = some (c, [])
recv_each (suc n) r c = elim (recv from_rx 0 r c) [
  | none ↦ none
  | some (c', err e) ↦ none
  | some (c', ok f) ↦ elim (recv_each n r c') [ none ↦ none | some (c'', fs) ↦ some (c'', f ∷ fs) ]
]

set-set {ℓ} : {A : Type ℓ} (xs : List A) (i : ℕ) (a b : A) → set (set xs i a) i b ≡ set xs i b
set-set [] i a b = refl
set-set (x ∷ xs) zero a b = refl
set-set (x ∷ xs) (suc i) a b = ap (◌∷◌ x) (set-set xs i a b)

set_same {ℓ} :
    {A : Type ℓ} (xs : List A) (i : ℕ) (x : A) → get_elem? xs i ≡ some x → set xs i x ≡ xs
set_same [] i x h = refl
set_same (y ∷ xs) zero x h = ground (arith, h)
set_same (y ∷ xs) (suc i) x h = ap (◌∷◌ y) (set_same xs i x h)

abbrev pub with_queue : List Frame → ℕ → Stream → AgentConn → AgentConn
with_queue q r s c = record c { heap = set c.heap r (record s { rx = q }) }

deliver_space :
    (f : Frame) (r : ℕ) (c : AgentConn) (s : Stream)
    → get_elem? c.heap r ≡ some s
    → length s.rx < stream_receive_queue_frames
    → deliver true f r c ≡ with_queue (s.rx ++ (f ∷ [])) r s c
unfolding deliver offer
deliver_space f r c s h room = ground (arith, h)

-- A stream takes frames in the order of their delivery until its queue is full.
pub deliver_each_lem :
    (fs : List Frame) (r : ℕ) (c : AgentConn) (s : Stream)
    → get_elem? c.heap r ≡ some s
    → length s.rx + length fs ≤ stream_receive_queue_frames
    → deliver_each fs r c ≡ with_queue (s.rx ++ fs) r s c
deliver_each_lem [] r c s h room = rw (append-nil, set_same c.heap r s h)
deliver_each_lem (f ∷ fs) r c s h room =
    let q : List Frame = s.rx ++ (f ∷ []) in
    let s' : Stream = record s { rx = q } in
    rw (deliver_space f r c s h (omega arith)) (
      deliver_each_lem fs r (with_queue q r s c) s'
        (get_elem?-set_self c.heap r s' (get_elem?-lt c.heap r s h))
        (omega (arith, length-append s.rx (f ∷ [])))
      ∙ rw (set-set, append_assoc))

recv_each_step :
    (n r : ℕ) (c : AgentConn) {d d' : AgentConn} (f : Frame) {fs : List Frame}
    → recv from_rx 0 r c ≡ some (d, ok f)
    → recv_each n r d ≡ some (d', fs)
    → recv_each (suc n) r c ≡ some (d', f ∷ fs)
recv_each_step n r c f h k = ground (arith, h, k)

-- A handler that receives as many frames as are queued gets exactly those, the oldest first.
pub recv_each_lem :
    (fs q : List Frame) (r : ℕ) (c : AgentConn) (s : Stream)
    → get_elem? c.heap r ≡ some s
    → s.rx ≡ fs ++ q
    → recv_each (length fs) r c ≡ some (with_queue q r s c, fs)
recv_each_lem [] q r c s h e = rw (← e, set_same c.heap r s h)
recv_each_lem (f ∷ fs) q r c s h e =
    let s' : Stream = record s { rx = fs ++ q } in
    let rest =
      recv_each_lem fs q r (with_queue (fs ++ q) r s c) s'
        (get_elem?-set_self c.heap r s' (get_elem?-lt c.heap r s h)) refl in
    recv_each_step (length fs) r c f (recv_full 0 r c s f (fs ++ q) h e) rest ∙ rw set-set

-- What is delivered to a stream is received from it in the same order, behind what was queued, as
-- long as the queue holds it: no frame is lost, doubled or reordered.
pub recv_each-deliver_each :
    (fs : List Frame) (r : ℕ) (c : AgentConn) (s : Stream)
    → get_elem? c.heap r ≡ some s
    → length s.rx + length fs ≤ stream_receive_queue_frames
    → recv_each (length (s.rx ++ fs)) r (deliver_each fs r c)
      ≡ some (with_queue [] r s c, s.rx ++ fs)
recv_each-deliver_each fs r c s h room =
    let q : List Frame = s.rx ++ fs in
    let s' : Stream = record s { rx = q } in
    rw (deliver_each_lem fs r c s h room) (
      recv_each_lem q [] r (with_queue q r s c) s'
        (get_elem?-set_self c.heap r s' (get_elem?-lt c.heap r s h)) (sym (append-nil q))
      ∙ rw set-set)
