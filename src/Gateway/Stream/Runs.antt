-- ===== src/Gateway/Stream/Runs.antt =====
-- Connections at concrete inputs.
use https_proxy.Base.{ℕ, zero, suc, ◌≡◌, refl, true, false, List, [], ◌∷◌, none, some, arith}
use https_proxy.Base.Text.{codes}
use https_proxy.Base.Assoc.{lookup, nat_eq, insert, delete}
use https_proxy.Proto.Frame.{Frame}
use https_proxy.Gateway.Stream.{
  AgentConn, Stream, fresh_stream, new_agent_conn, new_stream, close_stream, shut_channel,
  finish_close, offer, recv, from_rx, next_id, is_full,
}
use https_proxy.Gateway.Stream.Shutdown.{take_streams, close_rest, begin_close}
use https_proxy.Gateway.Stream.Steps.{
  Op, opens, takes, shuts, finishes, offers, receives, run, step, Inv,
}
use https_proxy.Gateway.Stream.Histories.{run-new_agent_conn-Inv}
use https_proxy.Gateway.Stream.Draining.{Down}
use https_proxy.Gateway.Stream.Teardown.{run-drained-Down}
use https_proxy.Gateway.Stream.Queue.{deliver_each, recv_each, with_queue, recv_each-deliver_each}
use https_proxy.Gateway.Stream.Wrap.{new_stream_orphans}

abbrev conn : AgentConn
conn = new_agent_conn (codes "u1") [] [] [] (codes "http") 2 5

abbrev hello : Frame
hello = record { type = 0x12; stream = 1; payload = codes "hello" }

abbrev bye : Frame
bye = record { type = 0x13; stream = 1; payload = [] }

abbrev history : List Op
history =
    opens
    ∷ opens
    ∷ opens
    ∷ offers true hello 0
    ∷ shuts none none 1
    ∷ receives from_rx 0 0
    ∷ finishes 1
    ∷ opens
    ∷ shuts none none 0
    ∷ takes
    ∷ []

-- The third stream is refused, and the fourth is at index 2. Both that are left are taken out of the map,
-- though the first is closed.
history_draining : (run history conn).draining ≡ 0 ∷ 2 ∷ []
unfolding run step new_stream new_agent_conn next_id insert delete lookup offer shut_channel
    finish_close recv
history_draining = refl

run-new_agent_conn-Inv_example :
    Inv (run history (new_agent_conn (codes "u1") [] [] [] (codes "http") 2 5))
run-new_agent_conn-Inv_example =
    run-new_agent_conn-Inv (codes "u1") [] [] [] (codes "http") 2 5 history (omega arith)

abbrev opened_conn : AgentConn
opened_conn = run (opens ∷ []) conn

opened_conn-Inv : Inv opened_conn
opened_conn-Inv =
    run-new_agent_conn-Inv (codes "u1") [] [] [] (codes "http") 2 5 (opens ∷ []) (omega arith)

-- A second stream is opened before the map is taken, the first is closed by its handler, and the second by
-- the loop, after another one was refused.
run-drained-Down_example : Down (
    run (opens ∷ receives from_rx 0 0 ∷ []) (
      close_rest (
        run
          (opens ∷ shuts none none 0 ∷ [])
          (take_streams (run (opens ∷ []) (begin_close none opened_conn))))))
unfolding run step new_stream new_agent_conn
run-drained-Down_example =
    run-drained-Down none (opens ∷ []) (opens ∷ shuts none none 0 ∷ [])
      (opens ∷ receives from_rx 0 0 ∷ []) opened_conn opened_conn-Inv (omega arith)

-- A connection with one open stream, and one whose queue is full.
abbrev with_stream : Stream → AgentConn
with_stream s = record {
  uuid = codes "u1";
  proxy_mode_requested = [];
  proxy_mode_effective = [];
  proxy_mode_reason = [];
  target_kind = codes "http";
  next_stream = 1;
  streams = (1, 0) ∷ [];
  heap = s ∷ [];
  max_streams = 2;
  closed = false;
  close_reason_val = none;
  born_at = 5;
  last_active = 0;
  written = [];
  resets = [];
  forgetting = [];
  draining = [];
}

recv_each-deliver_each_example :
    recv_each 2 0 (deliver_each (hello ∷ bye ∷ []) 0 (with_stream (fresh_stream 1)))
    ≡ some (with_queue [] 0 (fresh_stream 1) (with_stream (fresh_stream 1)), hello ∷ bye ∷ [])
recv_each-deliver_each_example =
    recv_each-deliver_each (hello ∷ bye ∷ []) 0 (with_stream (fresh_stream 1)) (fresh_stream 1) refl
      (omega arith)

copies : ℕ → List Frame → List Frame
copies zero fs = fs
copies (suc n) fs = copies n (hello ∷ fs)

abbrev full_stream : Stream
full_stream = record (fresh_stream 1) { rx = copies 640 [] }

-- The counter has wrapped all the way round to just below a stream that is still open.
abbrev wrapped : AgentConn
wrapped = record (with_stream (fresh_stream 1)) { next_stream = 4294967295 }

new_stream_orphans_example : lookup 1 (close_stream none 0 (new_stream wrapped).0).streams ≡ none
unfolding next_id is_full
new_stream_orphans_example =
    (new_stream_orphans wrapped 0 (fresh_stream 1) none refl refl refl refl refl).3
