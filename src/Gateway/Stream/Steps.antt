-- ===== src/Gateway/Stream/Steps.antt =====
-- The operations of one connection in any order, as one step function.
use https_proxy.Base.{ℕ, ◌≡◌, Bool, List, [], ◌∷◌, Option, none, some, get_elem?, set, arith}
use https_proxy.Base.Text.{Text}
use https_proxy.Base.Assoc.{nat_eq}
use https_proxy.Proto.Frame.{Frame}
use https_proxy.Gateway.Stream.{
  Stream, AgentConn, Ready, from_rx, ok, mark_active, new_stream, shut_channel, finish_close, offer,
  run_reset, send, recv,
}
use https_proxy.Gateway.Stream.Shutdown.{begin_close, take_streams, shut_drained}
use https_proxy.Gateway.Stream.Map.{Table}

-- What the goroutines of the gateway do to a connection, one lock, select or close of a channel at a
-- time: the read loop offers frames and marks the connection active, handlers open and use streams,
-- whoever closes a stream first shuts its channel and then finishes, reset goroutines run, and closing
-- the connection begins, takes the streams, and shuts each.
pub data Op : Type 0 where
  opens takes : Op
  marks finishes drains : ℕ → Op
  shuts : Option Text → Option Text → ℕ → Op
  offers : Bool → Frame → ℕ → Op
  sends : Bool → ℕ → Text → ℕ → Op
  receives : Ready → ℕ → ℕ → Op
  resets : Bool → Op
  begins : Option Text → Op

abbrev pub after_recv {ℓ} : {R : Type ℓ} → AgentConn → Option (AgentConn × R) → AgentConn
after_recv c none = c
after_recv c (some (c', r)) = c'

unfoldable pub step : Op → AgentConn → AgentConn
step opens c = (new_stream c).0
step takes c = take_streams c
step (marks now) c = mark_active now c
step (shuts e reset r) c = shut_channel e reset r c
step (finishes r) c = finish_close r c
step (drains r) c = shut_drained r c
step (offers take_rx f r) c = (offer take_rx f r c).0
step (sends sent t payload r) c = (send sent t payload r c).0
step (receives ready deadline r) c = after_recv c (recv ready deadline r c)
step (resets sent) c = run_reset sent c
step (begins e) c = begin_close e c

unfoldable pub run : List Op → AgentConn → AgentConn
run [] c = c
run (op ∷ ops) c = run ops (step op c)

abbrev pub Inv : AgentConn → Type 0
Inv c = Table c.next_stream c.heap c.streams c.max_streams c.forgetting c.draining

-- `recv` on an empty queue, and on one that holds a frame.
pub recv_empty :
    (deadline r : ℕ) (c : AgentConn) (s : Stream)
    → get_elem? c.heap r ≡ some s
    → s.rx ≡ []
    → after_recv c (recv from_rx deadline r c) ≡ c
unfolding recv
recv_empty deadline r c s h e = rw (h, recv) (ground (arith, e))

pub recv_full :
    (deadline r : ℕ) (c : AgentConn) (s : Stream) (f : Frame) (rest : List Frame)
    → get_elem? c.heap r ≡ some s
    → s.rx ≡ f ∷ rest
    → recv from_rx deadline r c
      ≡ some (record c { heap = set c.heap r (record s { rx = rest }) }, ok f)
unfolding recv
recv_full deadline r c s f rest h e = rw (h, recv) (ground (arith, e))
