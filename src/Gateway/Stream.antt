-- ===== src/Gateway/Stream.antt =====
-- internal/gateway/agentconn.go and stream.go: the connection of one agent and the streams that
-- are multiplexed over it. A pointer to a stream is its index in `heap`, which only grows; the map
-- `streams` holds the pointers that frames are delivered to. What the source runs under one lock, in
-- one select or as one close of a channel is one step of a history; the functions that do more are
-- composed of the steps. Times are nanoseconds.
pub mod Shutdown
pub mod Map
pub mod Steps
pub mod Invariant
pub mod Histories
pub mod Settling
pub mod Draining
pub mod Teardown
pub mod Queue
pub mod Overflow
pub mod Wrap
pub mod Identity
mod Runs
use https_proxy.Base.{
  ℕ, suc, ◌+◌, ◌-◌, ◌%◌, ◌^◌, Bool, true, false, ◌&&◌, not, List, [], ◌∷◌, ◌++◌, Option, none, some,
  length, get_elem?, set, ltb, leb, ◌==◌, if◌then◌else◌,
}
use https_proxy.Base.Indices.{has}
use https_proxy.Base.Text.{Text, codes, is_empty}
use https_proxy.Base.Assoc.{lookup, insert, delete, nat_eq}
use https_proxy.Proto.Frame.{Frame, encode_frame}
use https_proxy.Proto.Types.{t_rst}

abbrev pub stream_receive_queue_frames : ℕ
stream_receive_queue_frames = 640

pub record Stream : Type 0 where
  pub id : ℕ
  pub rx : List Frame
  pub closed : Bool
  pub err : Option Text

pub record AgentConn : Type 0 where
  pub uuid : Text
  pub proxy_mode_requested : Text
  pub proxy_mode_effective : Text
  pub proxy_mode_reason : Text
  pub target_kind : Text
  -- A uint32 counter.
  pub next_stream : ℕ
  pub streams : List (ℕ × ℕ)
  pub heap : List Stream
  pub max_streams : ℕ
  pub closed : Bool
  pub close_reason_val : Option Text
  pub born_at : ℕ
  pub last_active : ℕ
  -- The messages handed to the WebSocket, oldest first, and the resets whose goroutine has yet to run.
  pub written : List Text
  pub resets : List (ℕ × Text)
  -- The streams whose `closeOnce` has closed the channel and has yet to forget the stream, each with the
  -- reason of the reset that follows, if any.
  pub forgetting : List (ℕ × Option Text)
  -- The streams that closeWithErr has taken out of the map and has yet to close.
  pub draining : List ℕ

pub data StreamError : Type 0 where
  agent_disconnected too_many_streams stream_closed stream_timeout write_failed : StreamError
  other : Text → StreamError

pub data Result {ℓ} (A : Type ℓ) : Type ℓ where
  ok : A → Result A
  err : StreamError → Result A

abbrev pub mark_active : ℕ → AgentConn → AgentConn
mark_active now c = record c { last_active = now - c.born_at }

unfoldable pub new_agent_conn : Text → Text → Text → Text → Text → ℕ → ℕ → AgentConn
new_agent_conn uuid requested effective reason kind max_streams now = mark_active now (record {
  uuid = uuid;
  proxy_mode_requested = requested;
  proxy_mode_effective = effective;
  proxy_mode_reason = reason;
  target_kind = kind;
  next_stream = 0;
  streams = [];
  heap = [];
  max_streams = max_streams;
  closed = false;
  close_reason_val = none;
  born_at = now;
  last_active = 0;
  written = [];
  resets = [];
  forgetting = [];
  draining = [];
})

-- A clock that went back counts as no idle time: `-` stops at 0.
unfoldable pub idle_for : ℕ → AgentConn → ℕ
idle_for now c = now - c.born_at - c.last_active

unfoldable pub active_stream_count : AgentConn → ℕ
active_stream_count c = length c.streams

unfoldable pub close_reason : AgentConn → Text
close_reason c = elim c.close_reason_val [
  | none ↦ codes "connection closed"
  | some s ↦ if is_empty s then codes "connection closed" else s
]

-- `c.nextStream.Add(1)`.
abbrev pub add_one : ℕ → ℕ
add_one n = (n + 1) % 2 ^ 32

-- Zero is skipped when the counter wraps.
unfoldable pub next_id : ℕ → ℕ
next_id n = if add_one n == 0 then add_one (add_one n) else add_one n

unfoldable pub is_full : AgentConn → Bool
is_full c = ltb 0 c.max_streams && leb c.max_streams (length c.streams)

abbrev pub fresh_stream : ℕ → Stream
fresh_stream id = record { id = id; rx = []; closed = false; err = none }

unfoldable pub new_stream : AgentConn → AgentConn × Result ℕ
unfolding is_full
new_stream c =
    if c.closed
    then (c, err agent_disconnected)
    else if is_full c
    then (c, err too_many_streams)
    else (
      record c {
        next_stream = next_id c.next_stream;
        streams = insert (next_id c.next_stream) (length c.heap) c.streams;
        heap = c.heap ++ (fresh_stream (next_id c.next_stream) ∷ []);
      },
      ok (length c.heap),
    )

abbrev pub forget_stream : ℕ → AgentConn → AgentConn
forget_stream id c = record c { streams = delete id c.streams }

abbrev pub get_stream : ℕ → AgentConn → Option ℕ
get_stream id c = lookup id c.streams

-- The body of `closeOnce` in closeWithErr and resetWithErr, up to the close of the channel: `closed` says
-- that it has run that far. `reset` is the reason of the reset that the rest of the body starts.
unfoldable pub shut_channel : Option Text → Option Text → ℕ → AgentConn → AgentConn
shut_channel e reset r c = elim (get_elem? c.heap r) [
  | none ↦ c
  | some s ↦ if s.closed then c else record c {
    heap = set c.heap r (record s { closed = true; err = e });
    forgetting = (r, reset) ∷ c.forgetting;
  }
]

-- `s.sendReset`: the goroutine that it starts is queued.
abbrev pub send_reset : Option Text → ℕ → AgentConn → AgentConn
send_reset none id c = c
send_reset (some reason) id c = record c { resets = c.resets ++ ((id, reason) ∷ []) }

-- The rest of the body: the stream is forgotten, and the reset is queued.
unfoldable pub finish_close : ℕ → AgentConn → AgentConn
finish_close r c = elim (lookup r c.forgetting) [
  | none ↦ c
  | some reset ↦ elim (get_elem? c.heap r) [
    | none ↦ c
    | some s ↦
        send_reset reset s.id (forget_stream s.id (record c { forgetting = delete r c.forgetting }))
  ]
]

-- The whole body, where no other goroutine runs in between. A second `Do` waits for the first, and
-- does nothing.
unfoldable pub close_stream : Option Text → ℕ → AgentConn → AgentConn
unfolding shut_channel finish_close
close_stream e r c = finish_close r (shut_channel e none r c)

unfoldable pub reset_with_err : Text → ℕ → AgentConn → AgentConn
unfolding shut_channel finish_close
reset_with_err reason r c = finish_close r (shut_channel (some reason) (some reason) r c)

abbrev pub push_rx : Frame → ℕ → Stream → AgentConn → AgentConn
push_rx f r s c = record c { heap = set c.heap r (record s { rx = s.rx ++ (f ∷ []) }) }

-- The select of deliver, and whether its default case is taken. `take_rx` is the choice that `select`
-- makes where both of the others are ready.
unfoldable pub offer : Bool → Frame → ℕ → AgentConn → AgentConn × Bool
offer take_rx f r c = elim (get_elem? c.heap r) [
  | none ↦ (c, false)
  | some s ↦
      if ltb (length s.rx) stream_receive_queue_frames
      then (if s.closed && not take_rx then (c, false) else (push_rx f r s c, false))
      else (c, not s.closed)
]

unfoldable pub deliver : Bool → Frame → ℕ → AgentConn → AgentConn
unfolding offer reset_with_err
deliver take_rx f r c =
    let (c', full) = offer take_rx f r c in
    if full then reset_with_err (codes "stream rx overflow") r c' else c'

-- `sent` says whether the WebSocket took the message.
unfoldable pub write_frame : Bool → ℕ → ℕ → Text → AgentConn → AgentConn × Result (Unit {0})
write_frame sent t stream payload c =
    if sent
    then (record c { written = c.written ++ (encode_frame t stream payload ∷ []) }, ok tt)
    else (c, err write_failed)

-- The oldest queued reset goroutine runs.
unfoldable pub run_reset : Bool → AgentConn → AgentConn
unfolding write_frame
run_reset sent c = elim c.resets [
  | [] ↦ c
  | (id, reason) ∷ rest ↦ (write_frame sent t_rst id reason (record c { resets = rest })).0
]

unfoldable pub send : Bool → ℕ → Text → ℕ → AgentConn → AgentConn × Result (Unit {0})
unfolding write_frame
send sent t payload r c = elim (get_elem? c.heap r) [
  | none ↦ (c, err stream_closed)
  | some s ↦ if s.closed then (c, err stream_closed) else write_frame sent t s.id payload c
]

abbrev pub close_err : Stream → StreamError
close_err s = elim s.err [ none ↦ stream_closed | some e ↦ other e ]

-- The case of `recv` that `select` takes, of those that are ready.
pub data Ready : Type 0 where
  from_rx from_timer from_closed : Ready

-- `none`: that case is not ready, and `recv` waits.
unfoldable pub recv : Ready → ℕ → ℕ → AgentConn → Option (AgentConn × Result Frame)
recv from_rx deadline r c = elim (get_elem? c.heap r) [
  | none ↦ none
  | some s ↦ elim s.rx [
    | [] ↦ none
    | f ∷ rest ↦ some (record c { heap = set c.heap r (record s { rx = rest }) }, ok f)
  ]
]
recv from_timer deadline r c = if ltb 0 deadline then some (c, err stream_timeout) else none
recv from_closed deadline r c = elim (get_elem? c.heap r) [
  | none ↦ none
  | some s ↦ if s.closed then some (c, err (close_err s)) else none
]
