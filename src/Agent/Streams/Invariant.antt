-- ===== src/Agent/Streams/Invariant.antt =====
-- Every history of an agent's connection keeps its streams registered.
use https_proxy.Base.{
  ℕ, ◌≡◌, refl, Bool, not, ◌&&◌, List, [], ◌∷◌, Option, none, some, inl, inr, length, length-append,
  get_elem?, set, ltb, arith, Option-cases, if_elim,
}
use https_proxy.Base.Text.{Text}
use https_proxy.Base.Assoc.{lookup, nat_eq}
use https_proxy.Proto.Frame.{Frame}
use https_proxy.Agent.Streams.{
  Stream, ConnState, receive_queue_frames, get_or_create_stream, take_out, send, Offered, offer,
  take_frame,
}
use https_proxy.Agent.Streams.Heap.{
  Registered, touch-Registered, take-Registered, create-Registered,
}

abbrev pub Inv : ConnState → Type 0
Inv c = Registered c.heap c.streams c.closing

pub take_out-Inv : (id : ℕ) (c : ConnState) → Inv c → Inv (take_out id c)
unfolding take_out
take_out-Inv id c t = elim (Option-cases (lookup id c.streams)) [
  | inl h ↦ rw (h, take_out) t
  | inr (r, h) ↦ rw (h, take_out) (take-Registered id r t h)
]

pub get_or_create_stream-Inv : (id : ℕ) (c : ConnState) → Inv c → Inv (get_or_create_stream id c).0
unfolding get_or_create_stream
get_or_create_stream-Inv id c t = elim (Option-cases (lookup id c.streams)) [
  | inr (r, h) ↦ rw (h, get_or_create_stream) t
  | inl h ↦ rw (h, get_or_create_stream) (create-Registered id t h)
]

pub send-Inv :
    (taken : Bool) (ty n : ℕ) (b : Text) (c : ConnState) → Inv c → Inv (send taken ty n b c)
unfolding send
send-Inv taken ty n b c t = if_elim Inv taken (λ _. t) (λ _. t)

abbrev AndInv : ConnState × Offered → Type 0
AndInv (c, b) = Inv c

pub offer-Inv :
    (take_rx : Bool) (f : Frame) (r : ℕ) (c : ConnState) → Inv c → Inv (offer take_rx f r c).0
unfolding offer
offer-Inv take_rx f r c t = elim (Option-cases (get_elem? c.heap r)) [
  | inl h ↦ rw (h, offer) t
  | inr (s, h) ↦
      rw (h, offer)
        (if_elim AndInv (ltb (length s.rx) receive_queue_frames)
          (λ room.
            if_elim AndInv (s.closed && not take_rx) (λ _. t)
              (λ _.
                touch-Registered r s _ t h refl refl (ground (arith, length-append s.rx (f ∷ [])))))
          (λ _. if_elim AndInv s.closed (λ _. t) (λ _. t)))
]

pub take_frame-Inv : (r : ℕ) (c : ConnState) → Inv c → Inv (take_frame r c).0
unfolding take_frame
take_frame-Inv r c t = elim (Option-cases (get_elem? c.heap r)) [
  | inl h ↦ rw (h, take_frame) t
  | inr (s, h) ↦ rw (h, take_frame) (taken_from r c s s.rx t h refl)
]
  where
    taken_from :
        (r : ℕ) (c : ConnState) (s : Stream) (q : List Frame)
        → Inv c
        → get_elem? c.heap r ≡ some s
        → s.rx ≡ q
        → Inv
            (elim q as (λ _. ConnState × Option Frame) [
              | [] ↦ (c, none)
              | f ∷ rest ↦ (record c { heap = set c.heap r (record s { rx = rest }) }, some f)
            ]).0
    taken_from r c s [] t h e = t
    taken_from r c s (f ∷ rest) t h e =
        touch-Registered r s (record s { rx = rest }) t h refl refl
          (ground (arith, t.bounded r s h))
