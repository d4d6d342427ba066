-- ===== src/Gateway/Stream/Identity.antt =====
-- What no operation of a connection changes: whose it is, and how it was registered.
use https_proxy.Base.{ℕ, ◌≡◌, refl, Bool, Option, none, some, arith}
use https_proxy.Base.Indices.{without}
use https_proxy.Base.Text.{Text, codes}
use https_proxy.Proto.Frame.{Frame}
use https_proxy.Gateway.Stream.{
  AgentConn, Ready, from_rx, from_timer, from_closed, new_stream, shut_channel, finish_close, offer,
  send, recv, run_reset,
}
use https_proxy.Gateway.Stream.Shutdown.{shut_drained, begin_close}
use https_proxy.Gateway.Stream.Steps.{
  Op, opens, takes, marks, shuts, finishes, drains, offers, sends, receives, resets, begins, step,
  after_recv,
}

pub record SameAgent (c d : AgentConn) : Type 0 where
  pub uuid : d.uuid ≡ c.uuid
  pub effective : d.proxy_mode_effective ≡ c.proxy_mode_effective
  pub kind : d.target_kind ≡ c.target_kind
  pub cap : d.max_streams ≡ c.max_streams

shut_channel-SameAgent :
    (e reset : Option Text) (r : ℕ) (c : AgentConn) → SameAgent c (shut_channel e reset r c)
unfolding shut_channel
shut_channel-SameAgent e reset r c = ground arith

finish_close-SameAgent : (r : ℕ) (c : AgentConn) → SameAgent c (finish_close r c)
unfolding finish_close
finish_close-SameAgent r c = ground arith

shut_drained-SameAgent : (r : ℕ) (c : AgentConn) → SameAgent c (shut_drained r c)
unfolding shut_drained
shut_drained-SameAgent r c =
    let left : AgentConn = record c { draining = without r c.draining } in
    let s = shut_channel-SameAgent (some (codes "agent disconnected")) none r left in
    record { uuid = s.uuid; effective = s.effective; kind = s.kind; cap = s.cap }

begin_close-SameAgent : (e : Option Text) (c : AgentConn) → SameAgent c (begin_close e c)
unfolding begin_close
begin_close-SameAgent e c = ground arith

offer-SameAgent : (b : Bool) (f : Frame) (r : ℕ) (c : AgentConn) → SameAgent c (offer b f r c).0
unfolding offer
offer-SameAgent b f r c = ground arith

recv-SameAgent :
    (ready : Ready) (deadline r : ℕ) (c : AgentConn)
    → SameAgent c (after_recv c (recv ready deadline r c))
unfolding recv
recv-SameAgent from_rx deadline r c = ground arith
recv-SameAgent from_timer deadline r c = ground arith
recv-SameAgent from_closed deadline r c = ground arith

pub step-SameAgent : (op : Op) (c : AgentConn) → SameAgent c (step op c)
unfolding step
step-SameAgent opens c = unfold new_stream in ground arith
step-SameAgent takes c = record { uuid = refl; effective = refl; kind = refl; cap = refl }
step-SameAgent (marks now) c = record { uuid = refl; effective = refl; kind = refl; cap = refl }
step-SameAgent (shuts e reset r) c = shut_channel-SameAgent e reset r c
step-SameAgent (finishes r) c = finish_close-SameAgent r c
step-SameAgent (drains r) c = shut_drained-SameAgent r c
step-SameAgent (offers b f r) c = offer-SameAgent b f r c
step-SameAgent (sends sent t payload r) c = unfold send in ground arith
step-SameAgent (receives ready deadline r) c = recv-SameAgent ready deadline r c
step-SameAgent (resets sent) c = unfold run_reset in ground arith
step-SameAgent (begins e) c = begin_close-SameAgent e c
