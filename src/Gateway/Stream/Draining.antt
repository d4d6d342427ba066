-- ===== src/Gateway/Stream/Draining.antt =====
-- The loop of closeWithErr leaves no stream open, and nothing that runs later opens one.
use https_proxy.Base.{
  ℕ, ◌≡◌, refl, ◌∙◌, Bool, true, false, List, [], ◌∷◌, none, some, inl, inr, get_elem?, arith, ◌==◌,
  Bool-cases, sym,
}
use https_proxy.Base.Indices.{has, without, has-without}
use mathlib.Core.Bool.{false≢true}
use https_proxy.Base.Text.{codes}
use https_proxy.Base.Assoc.{nat_eq}
use https_proxy.Proto.Frame.{Frame}
use https_proxy.Gateway.Stream.{
  Stream, AgentConn, Ready, from_rx, from_timer, from_closed, finish_close, offer, recv,
}
use https_proxy.Gateway.Stream.Shutdown.{shut_drained, close_each}
use https_proxy.Gateway.Stream.Steps.{
  Op, opens, takes, marks, shuts, finishes, drains, offers, sends, receives, resets, begins, step,
  run, after_recv,
}
use https_proxy.Gateway.Stream.Settling.{
  finish_close_keeps, finish_close-Settling, shut_channel_keeps, shut_drained-Settling,
  run_reset_keeps, send_keeps, new_stream-closed, begin_close_again, take_nothing, step-Settling,
  Settling,
}

-- Nothing is left to be drained.
abbrev pub NoneLeft : AgentConn → Type 0
NoneLeft c = (r : ℕ) → has r c.draining ≡ false

none_without : (r q : ℕ) (l : List ℕ) → has r l ≡ false → has r (without q l) ≡ false
none_without r q [] h = refl
none_without r q (a ∷ l) h = ground (arith, none_without r q l)

recv_draining :
    (ready : Ready) (deadline r : ℕ) (c : AgentConn)
    → (after_recv c (recv ready deadline r c)).draining ≡ c.draining
unfolding recv
recv_draining from_rx deadline r c = ground arith
recv_draining from_timer deadline r c = ground arith
recv_draining from_closed deadline r c = ground arith

offer_draining :
    (take_rx : Bool) (f : Frame) (r : ℕ) (c : AgentConn)
    → (offer take_rx f r c).0.draining ≡ c.draining
unfolding offer
offer_draining take_rx f r c = ground arith

shut_drained_draining : (r : ℕ) (c : AgentConn) → (shut_drained r c).draining ≡ without r c.draining
unfolding shut_drained
shut_drained_draining r c =
    (shut_channel_keeps (some (codes "agent disconnected")) none r
      (record c { draining = without r c.draining })).2

step-NoneLeft : (op : Op) (c : AgentConn) → Settling c → NoneLeft c → NoneLeft (step op c)
unfolding step
step-NoneLeft opens c t n r = rw (new_stream-closed c t.is_closed) (n r)
step-NoneLeft takes c t n r = rw (take_nothing c t.no_streams) (n r)
step-NoneLeft (marks now) c t n r = n r
step-NoneLeft (shuts e reset q) c t n r = rw (shut_channel_keeps e reset q c).2 (n r)
step-NoneLeft (finishes q) c t n r = rw (finish_close_keeps q c).3 (n r)
step-NoneLeft (drains q) c t n r =
    rw (shut_drained_draining q c) (none_without r q c.draining (n r))
step-NoneLeft (offers take_rx f q) c t n r = rw (offer_draining take_rx f q c) (n r)
step-NoneLeft (sends sent k payload q) c t n r = rw (send_keeps sent k payload q c).3 (n r)
step-NoneLeft (receives ready deadline q) c t n r = rw (recv_draining ready deadline q c) (n r)
step-NoneLeft (resets sent) c t n r = rw (run_reset_keeps sent c).3 (n r)
step-NoneLeft (begins e) c t n r = rw (begin_close_again e c t.is_closed) (n r)

pub run-NoneLeft : (ops : List Op) (c : AgentConn) → Settling c → NoneLeft c → NoneLeft (run ops c)
unfolding run
run-NoneLeft [] c t n = n
run-NoneLeft (op ∷ ops) c t n =
    run-NoneLeft ops (step op c) (step-Settling op c t) (step-NoneLeft op c t n)

pub close_each-Settling : (l : List ℕ) (c : AgentConn) → Settling c → Settling (close_each l c)
unfolding close_each
close_each-Settling [] c t = t
close_each-Settling (q ∷ l) c t =
    close_each-Settling l (finish_close q (shut_drained q c))
      (finish_close-Settling q (shut_drained q c) (shut_drained-Settling q c t))

itself_gone : (q r : ℕ) → (q == r) ≡ true → (d : List ℕ) → has r (without q d) ≡ false
itself_gone q r hit [] = refl
itself_gone q r hit (a ∷ d) = ground (arith, itself_gone q r hit d)

one_less :
    (q r : ℕ) (l d : List ℕ)
    → (has r d ≡ true → has r (q ∷ l) ≡ true)
    → has r (without q d) ≡ true
    → has r l ≡ true
one_less q r l d sub h = elim (Bool-cases (q == r)) [
  | inl hit ↦ absurd (false≢true (sym (itself_gone q r hit d) ∙ h))
  | inr miss ↦ ground (arith, sub, h, has-without r q d miss)
]

pub close_each-NoneLeft :
    (l : List ℕ) (c : AgentConn)
    → ((r : ℕ) → has r c.draining ≡ true → has r l ≡ true)
    → NoneLeft (close_each l c)
unfolding close_each
close_each-NoneLeft [] c sub r = elim (Bool-cases (has r c.draining)) [
  | inl h ↦ absurd (false≢true (sub r h))
  | inr h ↦ h
]
close_each-NoneLeft (q ∷ l) c sub r =
    let c' : AgentConn = finish_close q (shut_drained q c) in
    let d = (finish_close_keeps q (shut_drained q c)).3 ∙ shut_drained_draining q c in
    close_each-NoneLeft l c' (λ j h. one_less q j l c.draining (sub j) (rw d at h)) r

-- Every stream of the connection is closed, and no number leads to one.
pub record Shut (c : AgentConn) : Type 0 where
  pub no_streams : c.streams ≡ []
  pub all_closed : (r : ℕ) (s : Stream) → get_elem? c.heap r ≡ some s → s.closed ≡ true

-- Closed, with nothing left open.
pub record Down (c : AgentConn) : Type 0 where
  pub is_closed : c.closed ≡ true
  pub shut : Shut c

pub settled-Down : (c : AgentConn) → Settling c → NoneLeft c → Down c
settled-Down c t n = record {
  is_closed = t.is_closed;
  shut = record {
    no_streams = t.no_streams;
    all_closed = λ r s h. elim (t.settled r s h) [
      | inl was ↦ was
      | inr left ↦ absurd (false≢true (sym (n r) ∙ left))
    ];
  };
}
