-- ===== src/Gateway/Stream/Teardown.antt =====
-- The end of a connection: what is left of it after agentConn.closeWithErr, whatever runs meanwhile and later.
use https_proxy.Base.{
  ℕ, ◌+◌, ◌^◌, ◌<◌, ◌≡◌, refl, ◌∙◌, true, List, [], ◌∷◌, Option, none, some, inl, inr, length,
  arith, Bool-cases,
}
use https_proxy.Base.Indices.{without}
use https_proxy.Base.Text.{Text, codes}
use https_proxy.Base.Assoc.{nat_eq}
use https_proxy.Gateway.Stream.{AgentConn, Ready, from_rx, from_timer, from_closed, offer, recv}
use https_proxy.Gateway.Stream.Shutdown.{shut_drained, begin_close, take_streams, close_rest}
use https_proxy.Gateway.Stream.Map.{take-Table}
use https_proxy.Gateway.Stream.Steps.{
  Op, opens, takes, marks, shuts, finishes, drains, offers, sends, receives, resets, begins, step,
  run, Inv, after_recv,
}
use https_proxy.Gateway.Stream.Histories.{opened_by, run-Inv, begin_close-Inv, none_found}
use https_proxy.Gateway.Stream.Settling.{
  finish_close_keeps, shut_channel_keeps, run_reset_keeps, send_keeps, new_stream-closed,
  run-Settling, Settling,
}
use https_proxy.Gateway.Stream.Draining.{
  run-NoneLeft, close_each-Settling, close_each-NoneLeft, settled-Down, Down,
}

length-begin_close :
    (e : Option Text) (c : AgentConn) → length (begin_close e c).heap ≡ length c.heap
unfolding begin_close
length-begin_close e c = ground arith

begin_close-closed : (e : Option Text) (c : AgentConn) → (begin_close e c).closed ≡ true
unfolding begin_close
begin_close-closed e c = ground arith

recv-closed :
    (ready : Ready) (deadline r : ℕ) (c : AgentConn)
    → (after_recv c (recv ready deadline r c)).closed ≡ c.closed
unfolding recv
recv-closed from_rx deadline r c = ground arith
recv-closed from_timer deadline r c = ground arith
recv-closed from_closed deadline r c = ground arith

step-closed : (op : Op) (c : AgentConn) → c.closed ≡ true → (step op c).closed ≡ true
unfolding step
step-closed opens c h = rw (new_stream-closed c h) h
step-closed takes c h = h
step-closed (marks now) c h = h
step-closed (shuts e reset r) c h = (shut_channel_keeps e reset r c).0 ∙ h
step-closed (finishes r) c h = (finish_close_keeps r c).0 ∙ h
step-closed (drains r) c h =
    unfold shut_drained in
    ((shut_channel_keeps (some (codes "agent disconnected")) none r
        (record c { draining = without r c.draining })).0
      ∙ h)
step-closed (offers take_rx f r) c h = unfold offer in ground arith
step-closed (sends sent k payload r) c h = (send_keeps sent k payload r c).0 ∙ h
step-closed (receives ready deadline r) c h = recv-closed ready deadline r c ∙ h
step-closed (resets sent) c h = (run_reset_keeps sent c).0 ∙ h
step-closed (begins e) c h = begin_close-closed e c

run-closed : (ops : List Op) (c : AgentConn) → c.closed ≡ true → (run ops c).closed ≡ true
unfolding run
run-closed [] c h = h
run-closed (op ∷ ops) c h = run-closed ops (step op c) (step-closed op c h)

take_streams-Settling : (c : AgentConn) → Inv c → c.closed ≡ true → Settling (take_streams c)
take_streams-Settling c t h = record {
  is_closed = h;
  no_streams = refl;
  settled = λ r s k. elim (Bool-cases s.closed) [
    | inl was ↦ inl was
    | inr o ↦ elim ((take-Table t).found r s k o) [
      | inl l ↦ absurd (none_found _ r l)
      | inr l ↦ inr l
    ]
  ];
}

-- A connection is closed, its streams are taken out of the map, and each is closed, where other goroutines
-- run `between` these steps and `during` the loop, up to the passes that are left. After that nothing that
-- runs later opens a stream, registers one or leaves one open.
pub run-drained-Down :
    (e : Option Text) (between during later : List Op) (c : AgentConn)
    → Inv c
    → length c.heap + opened_by between < 2 ^ 32
    → Down (run later (close_rest (run during (take_streams (run between (begin_close e c))))))
run-drained-Down e between during later c t h =
    let begun = begin_close e c in
    let room : length begun.heap + opened_by between < 2 ^ 32 =
      omega (arith, length-begin_close e c, h) in
    let inv = run-Inv between begun (begin_close-Inv e c t) room in
    let closed = run-closed between begun (begin_close-closed e c) in
    let d = run during (take_streams (run between begun)) in
    let settling =
      run-Settling during (take_streams (run between begun))
        (take_streams-Settling (run between begun) inv closed) in
    let rest = close_each-Settling d.draining d settling in
    let none_left = close_each-NoneLeft d.draining d (λ r k. k) in
    settled-Down (run later (close_rest d)) (run-Settling later (close_rest d) rest)
      (run-NoneLeft later (close_rest d) rest none_left)
