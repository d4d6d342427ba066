-- ===== src/Gateway/Stream/Invariant.antt =====
-- Every operation of agentconn.go and stream.go but the closing of the connection keeps the table of
-- streams in order.
use https_proxy.Base.{
  ℕ, suc, ◌^◌, ◌<◌, ◌≡◌, refl, Bool, List, [], ◌∷◌, Option, none, some, true, get_elem?-set_self,
  get_elem?-lt, Bool-cases, inl, inr, length, get_elem?, arith, if_elim, ltb, not, ◌&&◌,
  Option-cases,
}
use https_proxy.Base.Text.{Text, codes}
use https_proxy.Base.Assoc.{lookup, delete, nat_eq}
use https_proxy.Proto.Frame.{Frame}
use https_proxy.Gateway.Stream.{
  Stream, AgentConn, Ready, from_rx, from_timer, from_closed, Result, new_stream, shut_channel,
  finish_close, send_reset, forget_stream, offer, run_reset, send, recv, is_full,
  stream_receive_queue_frames,
}
use https_proxy.Gateway.Stream.Shutdown.{shut_drained}
use https_proxy.Gateway.Stream.Map.{
  Table, touch-Table, shut-Table, forget-Table, drained-Table, open-Table,
}
use https_proxy.Gateway.Stream.Steps.{Inv, after_recv}

pub shut_channel-Inv :
    (e reset : Option Text) (r : ℕ) (c : AgentConn) → Inv c → Inv (shut_channel e reset r c)
unfolding shut_channel
shut_channel-Inv e reset r c t = elim (Option-cases (get_elem? c.heap r)) [
  | inl h ↦ rw (h, shut_channel) t
  | inr (s, h) ↦
      rw (h, shut_channel)
        (if_elim Inv s.closed (λ _. t) (λ _. shut-Table r s _ reset t h refl refl))
]

pub finish_close-Inv : (r : ℕ) (c : AgentConn) → Inv c → Inv (finish_close r c)
unfolding finish_close
finish_close-Inv r c t = elim (Option-cases (lookup r c.forgetting)) [
  | inl k ↦ rw (k, finish_close) t
  | inr (p, k) ↦ elim (Option-cases (get_elem? c.heap r)) [
    | inl h ↦ rw (k, h, finish_close) t
    | inr (s, h) ↦ rw (k, h, finish_close) (queued p s (forget-Table r s p t h k))
  ]
]
  where
    queued :
        (p : Option Text) (s : Stream)
        → Table c.next_stream c.heap
            (delete s.id c.streams)
            c.max_streams
            (delete r c.forgetting)
            c.draining
        → Inv (
            send_reset p s.id
              (forget_stream s.id (record c { forgetting = delete r c.forgetting })))
    queued none s u = u
    queued (some reason) s u = u

pub shut_drained-Inv : (r : ℕ) (c : AgentConn) → Inv c → Inv (shut_drained r c)
unfolding shut_drained shut_channel
shut_drained-Inv r c t = elim (Option-cases (get_elem? c.heap r)) [
  | inl h ↦ rw (h, shut_channel) (drained-Table r t (λ s e. absurd (cc (h, e))))
  | inr (s, h) ↦ elim (Bool-cases s.closed) [
    | inl was ↦ rw (h, was, shut_channel) (drained-Table r t (λ u e. cc (h, e, was)))
    | inr o ↦
        let s' : Stream = record s { closed = true; err = some (codes "agent disconnected") } in
        rw (h, o, shut_channel)
          (drained-Table r (shut-Table r s s' none t h refl refl)
            (λ u e. ground (arith, get_elem?-set_self c.heap r s' (get_elem?-lt c.heap r s h))))
  ]
]

pub offer-Inv :
    (take_rx : Bool) (f : Frame) (r : ℕ) (c : AgentConn) → Inv c → Inv (offer take_rx f r c).0
unfolding offer
offer-Inv take_rx f r c t = elim (Option-cases (get_elem? c.heap r)) [
  | inl h ↦ rw (h, offer) t
  | inr (s, h) ↦
      rw (h, offer)
        (if_elim (λ (x : AgentConn × Bool). Inv x.0) (ltb (length s.rx) stream_receive_queue_frames)
          (λ _.
            if_elim (λ (x : AgentConn × Bool). Inv x.0) (s.closed && not take_rx) (λ _. t)
              (λ _. touch-Table r s _ t h refl refl))
          (λ _. t))
]

pub send-Inv :
    (sent : Bool) (t : ℕ) (payload : Text) (r : ℕ) (c : AgentConn)
    → Inv c
    → Inv (send sent t payload r c).0
unfolding send
send-Inv sent t payload r c v = ground arith

recv_rx-Inv :
    (deadline r : ℕ) (c : AgentConn) (s : Stream) (q : List Frame)
    → Inv c
    → get_elem? c.heap r ≡ some s
    → s.rx ≡ q
    → Inv (after_recv c (recv from_rx deadline r c))
unfolding recv
recv_rx-Inv deadline r c s [] t h e = rw (h, recv) (ground arith)
recv_rx-Inv deadline r c s (f ∷ rest) t h e =
    rw (h, recv) (ground (arith, touch-Table r s (record s { rx = rest }) t h refl refl))

pub recv-Inv :
    (ready : Ready) (deadline r : ℕ) (c : AgentConn)
    → Inv c
    → Inv (after_recv c (recv ready deadline r c))
unfolding recv
recv-Inv from_rx deadline r c t = elim (Option-cases (get_elem? c.heap r)) [
  | inl h ↦ rw (h, recv) t
  | inr (s, h) ↦ recv_rx-Inv deadline r c s s.rx t h refl
]
recv-Inv from_timer deadline r c t = ground arith
recv-Inv from_closed deadline r c t = ground arith

pub run_reset-Inv : (sent : Bool) (c : AgentConn) → Inv c → Inv (run_reset sent c)
unfolding run_reset
run_reset-Inv sent c t = ground arith

pub new_stream-Inv : (c : AgentConn) → suc (length c.heap) < 2 ^ 32 → Inv c → Inv (new_stream c).0
unfolding new_stream is_full
new_stream-Inv c room t =
    if_elim (λ (p : AgentConn × Result ℕ). Inv p.0) c.closed (λ _. t)
      (λ _.
        if_elim (λ (p : AgentConn × Result ℕ). Inv p.0) (is_full c) (λ _. t)
          (λ full. open-Table t room (λ p. ground arith)))
