-- ===== src/Gateway/Http/Exchange.antt =====
-- What an HTTP exchange does, as a trace, and the calls that fill it. The sockets are parameters:
-- what has happened so far decides whether the next call succeeds.
use https_proxy.Base.{ℕ, Bool, true, false, List, ◌∷◌, Option, if◌then◌else◌}
use https_proxy.Base.Int.{ℤ}
use https_proxy.Base.Text.{Text}
use https_proxy.Proto.Frame.{Frame}
use https_proxy.Proto.Types.{Header, ReqStart, ResStart}

-- `sent` is a frame that the agent's connection took, `page` is http.Error, `interim` and `head` are
-- WriteHeader with the header at that time, `wrote` is a body write, and `closed` is the stream's end.
pub data Event : Type 0 where
  sent : ℕ → Text → Event
  page : ℕ → Text → Event
  interim head : ℤ → Header → Event
  wrote : Text → Event
  flushed closed : Event

-- The newest event stands first.
pub record World : Type 0 where
  pub trace : List Event
  pub header : Header

pub record Peer : Type 0 where
  pub can_send : List Event → Bool
  pub can_write : List Event → Bool
  pub flushes : Bool

-- encoding/json on the messages, where a decoder that fails leaves what it leaves, and net/url.
pub record Codec : Type 0 where
  pub req_start : ReqStart → Text
  pub header_json : Header → Text
  pub res_start : Text → ResStart
  pub header_of : Text → Header
  pub parse_query : Text → Option (List (Text × List Text))
  pub encode_query : List (Text × List Text) → Text

-- What `st.recv` returns, and what the body's `Read` returns: bytes, and how it goes on.
pub data Recv : Type 0 where
  frame : Frame → Recv
  timed_out failed : Recv

pub data Read : Type 0 where
  chunk ended too_large : Text → Read

-- `waiting`: the handler still waits for what comes next.
pub data Ending : Type 0 where
  returned waiting : Ending

abbrev pub log : Event → World → World
log e w = record w { trace = e ∷ w.trace }

-- `st.send`, and whether it succeeds.
unfoldable pub send : Peer → ℕ → Text → World → World × Bool
send p t payload w = if p.can_send w.trace then (log (sent t payload) w, true) else (w, false)

-- `_ = st.send(...)`.
unfoldable pub try_send : Peer → ℕ → Text → World → World
try_send p t payload w = if p.can_send w.trace then log (sent t payload) w else w

unfoldable pub flush : Peer → World → World
flush p w = if p.flushes then log flushed w else w
