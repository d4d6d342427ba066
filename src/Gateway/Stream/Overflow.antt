-- ===== src/Gateway/Stream/Overflow.antt =====
-- What closing a stream does to a connection.
use https_proxy.Base.{
  ℕ, ◌≡◌, true, false, Option, some, get_elem?, get_elem?-set_self, get_elem?-lt, set, arith,
}
use https_proxy.Base.Text.{Text}
use https_proxy.Base.Assoc.{lookup, delete, nat_eq}
use https_proxy.Gateway.Stream.{Stream, AgentConn, close_stream, shut_channel, finish_close}

-- What closing an open stream writes.
abbrev shut_down : Option Text → ℕ → Stream → AgentConn → AgentConn
shut_down e r s c = record c {
  heap = set c.heap r (record s { closed = true; err = e });
  streams = delete s.id c.streams;
  forgetting = delete r c.forgetting;
}

pub close_open :
    (e : Option Text) (r : ℕ) (c : AgentConn) (s : Stream)
    → get_elem? c.heap r ≡ some s
    → s.closed ≡ false
    → close_stream e r c ≡ shut_down e r s c
unfolding close_stream shut_channel finish_close lookup delete
close_open e r c s h o =
    let s' : Stream = record s { closed = true; err = e } in
    rw (h, o, shut_channel)
      (ground (arith, get_elem?-set_self c.heap r s' (get_elem?-lt c.heap r s h)))
