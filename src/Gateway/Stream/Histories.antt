-- ===== src/Gateway/Stream/Histories.antt =====
-- Any history of one connection.
use https_proxy.Base.{
  ℕ, ◌+◌, ◌^◌, ◌≤◌, ◌<◌, ◌≡◌, refl, Bool, List, [], ◌∷◌, Option, none, some, length, length-append,
  length-set, arith, if_elim,
}
use https_proxy.Base.Indices.{without}
use https_proxy.Base.Text.{Text, codes}
use https_proxy.Base.Assoc.{lookup, nat_eq}
use https_proxy.Proto.Frame.{Frame}
use https_proxy.Gateway.Stream.{
  AgentConn, Ready, from_rx, from_timer, from_closed, new_agent_conn, new_stream, shut_channel,
  finish_close, offer, send, recv, run_reset,
}
use https_proxy.Gateway.Stream.Shutdown.{shut_drained, begin_close}
use https_proxy.Gateway.Stream.Steps.{
  Op, opens, takes, marks, shuts, finishes, drains, offers, sends, receives, resets, begins, step,
  run, Inv, after_recv,
}
use https_proxy.Gateway.Stream.Invariant.{
  shut_channel-Inv, finish_close-Inv, shut_drained-Inv, offer-Inv, send-Inv, recv-Inv,
  run_reset-Inv, new_stream-Inv,
}
use https_proxy.Gateway.Stream.Map.{take-Table}

abbrev pub opened : Op → ℕ
opened opens = 1
opened takes = 0
opened _ = 0

abbrev pub opened_by : List Op → ℕ
opened_by [] = 0
opened_by (op ∷ ops) = opened op + opened_by ops

pub begin_close-Inv : (e : Option Text) (c : AgentConn) → Inv c → Inv (begin_close e c)
unfolding begin_close
begin_close-Inv e c t = if_elim Inv c.closed (λ _. t) (λ _. t)

pub step-Inv :
    (op : Op) (c : AgentConn) → Inv c → length c.heap + opened op < 2 ^ 32 → Inv (step op c)
unfolding step
step-Inv opens c t h = new_stream-Inv c (omega arith) t
step-Inv takes c t h = take-Table t
step-Inv (marks now) c t h = t
step-Inv (shuts e reset r) c t h = shut_channel-Inv e reset r c t
step-Inv (finishes r) c t h = finish_close-Inv r c t
step-Inv (drains r) c t h = shut_drained-Inv r c t
step-Inv (offers take_rx f r) c t h = offer-Inv take_rx f r c t
step-Inv (sends sent k payload r) c t h = send-Inv sent k payload r c t
step-Inv (receives ready deadline r) c t h = recv-Inv ready deadline r c t
step-Inv (resets sent) c t h = run_reset-Inv sent c t
step-Inv (begins e) c t h = begin_close-Inv e c t

-- No operation but `opens` adds a stream, and none takes one away.
length-shut_channel :
    (e reset : Option Text) (r : ℕ) (c : AgentConn)
    → length (shut_channel e reset r c).heap ≡ length c.heap
unfolding shut_channel
length-shut_channel e reset r c = grind (arith, length-set)

heap-finish_close : (r : ℕ) (c : AgentConn) → (finish_close r c).heap ≡ c.heap
unfolding finish_close
heap-finish_close r c = ground arith

length-offer :
    (take_rx : Bool) (f : Frame) (r : ℕ) (c : AgentConn)
    → length (offer take_rx f r c).0.heap ≡ length c.heap
unfolding offer
length-offer take_rx f r c = grind (arith, length-set)

length-new_stream : (c : AgentConn) → length (new_stream c).0.heap ≤ length c.heap + 1
unfolding new_stream
length-new_stream c = grind (arith, length-append)

length-recv :
    (ready : Ready) (deadline r : ℕ) (c : AgentConn)
    → length (after_recv c (recv ready deadline r c)).heap ≡ length c.heap
unfolding recv
length-recv from_rx deadline r c = grind (arith, length-set)
length-recv from_timer deadline r c = ground arith
length-recv from_closed deadline r c = ground arith

pub length-step : (op : Op) (c : AgentConn) → length (step op c).heap ≤ length c.heap + opened op
unfolding step
length-step opens c = length-new_stream c
length-step takes c = omega arith
length-step (marks now) c = omega arith
length-step (shuts e reset r) c = omega (arith, length-shut_channel e reset r c)
length-step (finishes r) c = rw heap-finish_close (omega arith)
length-step (drains r) c =
    unfold shut_drained in
    omega (
      arith,
      length-shut_channel (some (codes "agent disconnected")) none r
          (record c { draining = without r c.draining }),
    )
length-step (offers take_rx f r) c = omega (arith, length-offer take_rx f r c)
length-step (sends sent k payload r) c = unfold send in ground arith
length-step (receives ready deadline r) c = omega (arith, length-recv ready deadline r c)
length-step (resets sent) c = unfold run_reset in ground arith
length-step (begins e) c = unfold begin_close in ground arith

pub run-Inv :
    (ops : List Op) (c : AgentConn)
    → Inv c
    → length c.heap + opened_by ops < 2 ^ 32
    → Inv (run ops c)
unfolding run
run-Inv [] c t h = t
run-Inv (op ∷ ops) c t h =
    run-Inv ops (step op c) (step-Inv op c t (omega arith)) (omega (arith, length-step op c))

pub none_found : (id r : ℕ) → lookup id [] ≡ some r → ⊥
unfolding lookup
none_found id r h = cc

nothing_pends : (r : ℕ) (p : Option Text) → lookup r [] ≡ some p → ⊥
unfolding lookup
nothing_pends r p h = cc

pub new_agent_conn-Inv :
    (uuid requested effective reason kind : Text) (cap now : ℕ)
    → Inv (new_agent_conn uuid requested effective reason kind cap now)
unfolding new_agent_conn
new_agent_conn-Inv uuid requested effective reason kind cap now = record {
  counted = refl;
  few = omega arith;
  numbered = λ r s e. cc;
  found = λ r s e o. cc;
  gone = λ r s e o k. cc;
  shut_first = λ r s e o. cc;
  pends = λ r p e. absurd (nothing_pends r p e);
  live = λ id r e. absurd (none_found id r e);
  bounded = λ p. omega arith;
}

-- Whatever the goroutines of the gateway do to a new connection, one lock, select or close of a channel
-- at a time, and in whatever order, as long as fewer than 2 ^ 32 streams are asked for: no two streams
-- share a number, and the map leads only from a number to its stream. An open stream is in the map, or
-- was taken out of it by the close of the connection, which has yet to close the stream; a closed one
-- is not in the map, unless the goroutine that closed it has yet to forget it. The limit on registered
-- streams is kept.
pub run-new_agent_conn-Inv :
    (uuid requested effective reason kind : Text) (cap now : ℕ) (ops : List Op)
    → opened_by ops < 2 ^ 32
    → Inv (run ops (new_agent_conn uuid requested effective reason kind cap now))
unfolding new_agent_conn
run-new_agent_conn-Inv uuid requested effective reason kind cap now ops h =
    run-Inv ops (new_agent_conn uuid requested effective reason kind cap now)
      (new_agent_conn-Inv uuid requested effective reason kind cap now) (omega arith)
