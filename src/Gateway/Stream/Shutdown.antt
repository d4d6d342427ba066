-- ===== src/Gateway/Stream/Shutdown.antt =====
-- internal/gateway/agentconn.go: closeWithErr.
use https_proxy.Base.{ℕ, true, List, [], ◌∷◌, Option, none, some, if◌then◌else◌}
use https_proxy.Base.Indices.{without, taken_of}
use https_proxy.Base.Text.{Text, codes}
use https_proxy.Gateway.Stream.{AgentConn, shut_channel, finish_close}

-- `c.closeWithErr` closes the channel, then, under the lock, takes the streams out of the map, and then
-- closes one after the other; other goroutines may run between any two of these steps. A stream can be
-- opened between the first two only by a `newStream` that has already looked at the channel, which is
-- the same as one that ran before.
unfoldable pub begin_close : Option Text → AgentConn → AgentConn
begin_close e c = if c.closed then c else record c {
  closed = true;
  close_reason_val = some (elim e [ none ↦ codes "connection closed" | some s ↦ s ]);
}

abbrev pub take_streams : AgentConn → AgentConn
take_streams c = record c { streams = []; draining = taken_of c.streams c.draining }

-- One pass of the loop, up to the close of the stream's channel.
unfoldable pub shut_drained : ℕ → AgentConn → AgentConn
unfolding shut_channel
shut_drained r c =
    shut_channel (some (codes "agent disconnected")) none r
      (record c { draining = without r c.draining })

-- The loop over the streams that are left, where no other goroutine runs in between.
unfoldable pub close_each : List ℕ → AgentConn → AgentConn
unfolding shut_drained finish_close
close_each [] c = c
close_each (r ∷ l) c = close_each l (finish_close r (shut_drained r c))

abbrev pub close_rest : AgentConn → AgentConn
close_rest c = close_each c.draining c

unfoldable pub close_with_err : Option Text → AgentConn → AgentConn
unfolding begin_close close_each
close_with_err e c = if c.closed then c else close_rest (take_streams (begin_close e c))
