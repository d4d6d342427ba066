-- ===== src/Gateway/Stream/Settling.antt =====
-- A connection that is being closed: no stream is opened, and what is open is still to be drained.
use https_proxy.Base.{
  ℕ, ◌≡◌, ◌⊎◌, refl, ◌∙◌, Bool, true, false, List, [], ◌∷◌, ◌++◌, Option, none, some, inl, inr,
  length, get_elem?, get_elem?-set, set, arith, ltb, not, ◌&&◌, ◌==◌, if_elim, Option-cases,
  Bool-cases,
}
use https_proxy.Base.Indices.{has, without, has-without}
use https_proxy.Base.Text.{Text, codes}
use https_proxy.Base.Assoc.{delete, nat_eq}
use https_proxy.Proto.Frame.{Frame}
use https_proxy.Gateway.Stream.{
  Stream, AgentConn, stream_receive_queue_frames, Ready, from_rx, from_timer, from_closed,
  new_stream, shut_channel, finish_close, offer, send, recv, run_reset,
}
use https_proxy.Gateway.Stream.Shutdown.{shut_drained, begin_close, take_streams}
use https_proxy.Gateway.Stream.Steps.{
  Op, opens, takes, marks, shuts, finishes, drains, offers, sends, receives, resets, begins, step,
  run, after_recv, recv_empty, recv_full,
}

-- Closed, with an empty map, and nothing left open but what is still to be drained.
pub record Settling (c : AgentConn) : Type 0 where
  pub is_closed : c.closed ≡ true
  pub no_streams : c.streams ≡ []
  pub settled :
      (r : ℕ) (s : Stream)
      → get_elem? c.heap r ≡ some s
      → (s.closed ≡ true) ⊎ (has r c.draining ≡ true)

keep-Settling :
    (c d : AgentConn)
    → d.closed ≡ c.closed
    → d.streams ≡ c.streams
    → d.heap ≡ c.heap
    → d.draining ≡ c.draining
    → Settling c
    → Settling d
keep-Settling c d hc hm hh hd t = record {
  is_closed = hc ∙ t.is_closed;
  no_streams = hm ∙ t.no_streams;
  settled = λ r s h. rw hd (t.settled r s (rw hh at h));
}

touch-Settling :
    (c : AgentConn) (r : ℕ) (s s' : Stream)
    → Settling c
    → get_elem? c.heap r ≡ some s
    → (s.closed ≡ true → s'.closed ≡ true)
    → Settling (record c { heap = set c.heap r s' })
touch-Settling c r s s' t e stays = record {
  is_closed = t.is_closed;
  no_streams = t.no_streams;
  settled = λ q u k. elim (Bool-cases (r == q)) [
    | inl hit ↦ elim (t.settled r s e) [
      | inl was ↦ inl (ground (arith, get_elem?-set c.heap r s s' q e, stays was))
      | inr left ↦ inr (ground (arith, left))
    ]
    | inr miss ↦ t.settled q u (ground (arith, get_elem?-set c.heap r s s' q e))
  ];
}

shut_channel-Settling :
    (e reset : Option Text) (r : ℕ) (c : AgentConn)
    → Settling c
    → Settling (shut_channel e reset r c)
unfolding shut_channel
shut_channel-Settling e reset r c t = elim (Option-cases (get_elem? c.heap r)) [
  | inl h ↦ rw (h, shut_channel) t
  | inr (s, h) ↦
      rw (h, shut_channel)
        (if_elim Settling s.closed (λ _. t)
          (λ _.
            let d = touch-Settling c r s (record s { closed = true; err = e }) t h (λ _. refl) in
            record { is_closed = d.is_closed; no_streams = d.no_streams; settled = d.settled }))
]

pub finish_close_keeps :
    (r : ℕ) (c : AgentConn)
    → ((finish_close r c).closed ≡ c.closed)
      × (c.streams ≡ [] → (finish_close r c).streams ≡ [])
      × ((finish_close r c).heap ≡ c.heap)
      × ((finish_close r c).draining ≡ c.draining)
unfolding finish_close delete
finish_close_keeps r c = ground arith

pub finish_close-Settling : (r : ℕ) (c : AgentConn) → Settling c → Settling (finish_close r c)
finish_close-Settling r c t =
    let (hc, hm, hh, hd) = finish_close_keeps r c in
    record {
      is_closed = hc ∙ t.is_closed;
      no_streams = hm t.no_streams;
      settled = λ q s h. rw hd (t.settled q s (rw hh at h));
    }

pub shut_channel_keeps :
    (e reset : Option Text) (r : ℕ) (c : AgentConn)
    → ((shut_channel e reset r c).closed ≡ c.closed)
      × ((shut_channel e reset r c).streams ≡ c.streams)
      × ((shut_channel e reset r c).draining ≡ c.draining)
unfolding shut_channel
shut_channel_keeps e reset r c = ground arith

same_heap :
    (e reset : Option Text) (r : ℕ) (c : AgentConn) (l : List ℕ)
    → (shut_channel e reset r (record c { draining = l })).heap ≡ (shut_channel e reset r c).heap
unfolding shut_channel
same_heap e reset r c l = ground arith

shut_channel_closes :
    (e reset : Option Text) (r : ℕ) (c : AgentConn) (u : Stream)
    → get_elem? (shut_channel e reset r c).heap r ≡ some u
    → u.closed ≡ true
unfolding shut_channel
shut_channel_closes e reset r c u k = elim (Option-cases (get_elem? c.heap r)) [
  | inl h ↦ ground (arith, h)
  | inr (s, h) ↦
      ground (arith, h, get_elem?-set c.heap r s (record s { closed = true; err = e }) r h)
]

pub shut_drained-Settling : (r : ℕ) (c : AgentConn) → Settling c → Settling (shut_drained r c)
unfolding shut_drained
shut_drained-Settling r c t =
    let gone : Option Text = some (codes "agent disconnected") in
    let left : AgentConn = record c { draining = without r c.draining } in
    let (hc, hm, hd) = shut_channel_keeps gone none r left in
    record {
      is_closed = hc ∙ t.is_closed;
      no_streams = hm ∙ t.no_streams;
      settled = λ q u h. elim (Bool-cases (r == q)) [
        | inl hit ↦ inl (shut_channel_closes gone none r left u (ground (arith, h)))
        | inr miss ↦
            rw hd (still q u miss (rw (same_heap gone none r c (without r c.draining)) at h))
      ];
    }
  where
    still :
        (q : ℕ) (u : Stream)
        → (r == q) ≡ false
        → get_elem? (shut_channel (some (codes "agent disconnected")) none r c).heap q ≡ some u
        → (u.closed ≡ true) ⊎ (has q (without r c.draining) ≡ true)
    still q u miss k =
        elim ((shut_channel-Settling (some (codes "agent disconnected")) none r c t).settled q u
          k) [
            | inl was ↦ inl was
            | inr l ↦ inr (
                has-without q r c.draining miss
                ∙ rw (shut_channel_keeps (some (codes "agent disconnected")) none r c).2 at l)
          ]

offer-Settling :
    (take_rx : Bool) (f : Frame) (r : ℕ) (c : AgentConn)
    → Settling c
    → Settling (offer take_rx f r c).0
unfolding offer
offer-Settling take_rx f r c t = elim (Option-cases (get_elem? c.heap r)) [
  | inl h ↦ rw (h, offer) t
  | inr (s, h) ↦
      let P : AgentConn × Bool → Type 0 = λ x. Settling x.0 in
      rw (h, offer)
        (if_elim P (ltb (length s.rx) stream_receive_queue_frames)
          (λ _.
            if_elim P (s.closed && not take_rx) (λ _. t)
              (λ _. touch-Settling c r s (record s { rx = s.rx ++ (f ∷ []) }) t h (λ x. x)))
          (λ _. t))
]

recv_rx-Settling :
    (deadline r : ℕ) (c : AgentConn) (s : Stream) (q : List Frame)
    → Settling c
    → get_elem? c.heap r ≡ some s
    → s.rx ≡ q
    → Settling (after_recv c (recv from_rx deadline r c))
recv_rx-Settling deadline r c s [] t h e = rw (recv_empty deadline r c s h e) t
recv_rx-Settling deadline r c s (f ∷ rest) t h e =
    rw (recv_full deadline r c s f rest h e)
      (touch-Settling c r s (record s { rx = rest }) t h (λ x. x))

recv-Settling :
    (ready : Ready) (deadline r : ℕ) (c : AgentConn)
    → Settling c
    → Settling (after_recv c (recv ready deadline r c))
unfolding recv
recv-Settling from_rx deadline r c t = elim (Option-cases (get_elem? c.heap r)) [
  | inl h ↦ rw (h, recv) t
  | inr (s, h) ↦ recv_rx-Settling deadline r c s s.rx t h refl
]
recv-Settling from_timer deadline r c t = ground arith
recv-Settling from_closed deadline r c t = ground arith

pub run_reset_keeps :
    (sent : Bool) (c : AgentConn)
    → ((run_reset sent c).closed ≡ c.closed)
      × ((run_reset sent c).streams ≡ c.streams)
      × ((run_reset sent c).heap ≡ c.heap)
      × ((run_reset sent c).draining ≡ c.draining)
unfolding run_reset
run_reset_keeps sent c = ground arith

pub send_keeps :
    (sent : Bool) (k : ℕ) (payload : Text) (r : ℕ) (c : AgentConn)
    → ((send sent k payload r c).0.closed ≡ c.closed)
      × ((send sent k payload r c).0.streams ≡ c.streams)
      × ((send sent k payload r c).0.heap ≡ c.heap)
      × ((send sent k payload r c).0.draining ≡ c.draining)
unfolding send
send_keeps sent k payload r c = ground arith

pub new_stream-closed : (c : AgentConn) → c.closed ≡ true → (new_stream c).0 ≡ c
unfolding new_stream
new_stream-closed c h = ground (arith, h)

pub begin_close_again : (e : Option Text) (c : AgentConn) → c.closed ≡ true → begin_close e c ≡ c
unfolding begin_close
begin_close_again e c h = ground (arith, h)

pub take_nothing : (c : AgentConn) → c.streams ≡ [] → (take_streams c).draining ≡ c.draining
take_nothing c h = rw h refl

pub step-Settling : (op : Op) (c : AgentConn) → Settling c → Settling (step op c)
unfolding step
step-Settling opens c t = rw (new_stream-closed c t.is_closed) t
step-Settling takes c t = record {
  is_closed = t.is_closed;
  no_streams = refl;
  settled = λ r s h. rw (take_nothing c t.no_streams) (t.settled r s h);
}
step-Settling (marks now) c t = keep-Settling c _ refl refl refl refl t
step-Settling (shuts e reset r) c t = shut_channel-Settling e reset r c t
step-Settling (finishes r) c t = finish_close-Settling r c t
step-Settling (drains r) c t = shut_drained-Settling r c t
step-Settling (offers take_rx f r) c t = offer-Settling take_rx f r c t
step-Settling (sends sent k payload r) c t =
    let (hc, hm, hh, hd) = send_keeps sent k payload r c in keep-Settling c _ hc hm hh hd t
step-Settling (receives ready deadline r) c t = recv-Settling ready deadline r c t
step-Settling (resets sent) c t =
    let (hc, hm, hh, hd) = run_reset_keeps sent c in keep-Settling c _ hc hm hh hd t
step-Settling (begins e) c t = rw (begin_close_again e c t.is_closed) t

pub run-Settling : (ops : List Op) (c : AgentConn) → Settling c → Settling (run ops c)
unfolding run
run-Settling [] c t = t
run-Settling (op ∷ ops) c t = run-Settling ops (step op c) (step-Settling op c t)
