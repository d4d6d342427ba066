-- ===== src/Agent/Streams.antt =====
-- internal/agent/agent.go: connState and its streams, from readLoop to closeAllStreams. A pointer to a
-- stream is its index in `heap`, which only grows; the map `streams` holds the pointers that frames are
-- delivered to. What the source runs under one lock, or in one select, is one step of a history; the
-- functions that do more are composed of the steps.
pub mod Heap
pub mod Invariant
pub mod Teardown
pub mod Successor
mod Runs
use https_proxy.Base.{
  ℕ, Bool, true, false, not, ◌&&◌, List, [], ◌∷◌, ◌++◌, Option, none, some, length, get_elem?, set,
  ltb, ◌==◌, if◌then◌else◌,
}
use https_proxy.Base.Indices.{without, taken_of}
use https_proxy.Base.Text.{Text, codes}
use https_proxy.Base.Assoc.{lookup, insert, delete, nat_eq}
use https_proxy.Proto.Frame.{Frame, encode_frame, decode_frame, ok, err}
use https_proxy.Proto.Types.{t_rst}

-- The capacity of a stream's `rx`.
abbrev pub receive_queue_frames : ℕ
receive_queue_frames = 128

pub record Stream : Type 0 where
  pub id : ℕ
  pub rx : List Frame
  pub closed : Bool

-- `written` are the messages handed to the WebSocket, oldest first; `closing` are the streams that a
-- goroutine has taken out of the map and has yet to close.
pub record ConnState : Type 0 where
  pub streams : List (ℕ × ℕ)
  pub heap : List Stream
  pub written : List Text
  pub closing : List ℕ

abbrev pub new_conn_state : ConnState
new_conn_state = record { streams = []; heap = []; written = []; closing = [] }

abbrev pub fresh_stream : ℕ → Stream
fresh_stream id = record { id = id; rx = []; closed = false }

-- A stream that is created comes with a goroutine that runs handleStream on it.
unfoldable pub get_or_create_stream : ℕ → ConnState → ConnState × ℕ
get_or_create_stream id c = elim (lookup id c.streams) [
  | some r ↦ (c, r)
  | none ↦ (
    record c {
      streams = insert id (length c.heap) c.streams;
      heap = c.heap ++ (fresh_stream id ∷ []);
    },
    length c.heap,
  )
]

-- `st.close()`, which runs once.
unfoldable pub close_at : ℕ → List Stream → List Stream
close_at r heap = elim (get_elem? heap r) [
  | none ↦ heap
  | some s ↦ set heap r (record s { closed = true })
]

abbrev pub close_stream : ℕ → ConnState → ConnState
close_stream r c = record c { heap = close_at r c.heap; closing = without r c.closing }

-- What forgetStream does under the lock. The stream that the number leads to is the one that is taken
-- out.
unfoldable pub take_out : ℕ → ConnState → ConnState
take_out id c = elim (lookup id c.streams) [
  | none ↦ c
  | some r ↦ record c { streams = delete id c.streams; closing = r ∷ c.closing }
]

-- After the lock, the stream that was taken out is closed; other goroutines may run between the two.
unfoldable pub forget_stream : ℕ → ConnState → ConnState
unfolding close_at take_out
forget_stream id c = elim (lookup id c.streams) [
  | none ↦ c
  | some r ↦ close_stream r (take_out id c)
]

-- `taken` says whether the WebSocket took the message.
unfoldable pub send : Bool → ℕ → ℕ → Text → ConnState → ConnState
send taken t stream payload c =
    if taken then record c { written = c.written ++ (encode_frame t stream payload ∷ []) } else c

abbrev pub push_rx : Frame → ℕ → Stream → ConnState → ConnState
push_rx f r s c = record c { heap = set c.heap r (record s { rx = s.rx ++ (f ∷ []) }) }

-- How the select of deliverFrame ends: the frame is queued, the stream is closed, or the queue is full.
pub data Offered : Type 0 where
  queued gone full : Offered

-- `take_rx` is the choice that `select` makes where both cases are ready.
unfoldable pub offer : Bool → Frame → ℕ → ConnState → ConnState × Offered
offer take_rx f r c = elim (get_elem? c.heap r) [
  | none ↦ (c, gone)
  | some s ↦
      if ltb (length s.rx) receive_queue_frames
      then (if s.closed && not take_rx then (c, gone) else (push_rx f r s c, queued))
      else if s.closed
      then (c, gone)
      else (c, full)
]

-- The default case answers with a reset and forgets the stream.
unfoldable pub overflow : Bool → ℕ → ConnState → ConnState
unfolding send forget_stream
overflow taken id c = forget_stream id (send taken t_rst id (codes "stream rx overflow") c)

unfoldable pub deliver_frame : Bool → Bool → Frame → ℕ → ConnState → ConnState × Bool
unfolding offer overflow
deliver_frame taken take_rx f r c =
    let (c', offered) = offer take_rx f r c in
    elim offered [
      | queued ↦ (c', true)
      | gone ↦ (c', false)
      | full ↦ elim (get_elem? c'.heap r) [
        | none ↦ (c', false)
        | some s ↦ (overflow taken s.id c', false)
      ]
    ]

-- A frame that readLoop has decoded.
unfoldable pub dispatch_frame : Bool → Bool → Frame → ConnState → ConnState
unfolding get_or_create_stream deliver_frame
dispatch_frame taken take_rx f c =
    let (c', r) = get_or_create_stream f.stream c in (deliver_frame taken take_rx f r c').0

-- A message that readLoop has read: what is not binary, or no frame, is dropped.
unfoldable pub read_message : Bool → Bool → Bool → Text → ConnState → ConnState
unfolding dispatch_frame
read_message taken take_rx is_binary msg c =
    if not is_binary
    then c
    else elim (decode_frame msg) [ ok f ↦ dispatch_frame taken take_rx f c | err e ↦ c ]

-- A handler takes the next frame of its stream, if there is one.
unfoldable pub take_frame : ℕ → ConnState → ConnState × Option Frame
take_frame r c = elim (get_elem? c.heap r) [
  | none ↦ (c, none)
  | some s ↦ elim s.rx [
    | [] ↦ (c, none)
    | f ∷ rest ↦ (record c { heap = set c.heap r (record s { rx = rest }) }, some f)
  ]
]

-- `defer s.forgetStream(st.id)` of handleStream.
unfoldable pub end_handler : ℕ → ConnState → ConnState
unfolding forget_stream
end_handler r c = elim (get_elem? c.heap r) [ none ↦ c | some s ↦ forget_stream s.id c ]

-- What closeAllStreams does under the lock.
abbrev pub take_all : ConnState → ConnState
take_all c = record c { streams = []; closing = taken_of c.streams c.closing }

unfoldable pub close_each : List (ℕ × ℕ) → ConnState → ConnState
unfolding close_at
close_each [] c = c
close_each ((id, r) ∷ m) c = close_each m (close_stream r c)

unfoldable pub close_all_streams : ConnState → ConnState
unfolding close_each
close_all_streams c = close_each c.streams (take_all c)

-- What the read loop, the handlers and the end of a connection do to its state, one lock, select or
-- close at a time.
pub data Op : Type 0 where
  finds forgets closes takes : ℕ → Op
  offers : Bool → Frame → ℕ → Op
  sends : Bool → ℕ → ℕ → Text → Op
  takes_all : Op

unfoldable pub step : Op → ConnState → ConnState
step (finds id) c = (get_or_create_stream id c).0
step (offers take_rx f r) c = (offer take_rx f r c).0
step (forgets id) c = take_out id c
step (closes r) c = close_stream r c
step (takes r) c = (take_frame r c).0
step (sends taken t stream payload) c = send taken t stream payload c
step takes_all c = take_all c

unfoldable pub run : List Op → ConnState → ConnState
run [] c = c
run (op ∷ ops) c = run ops (step op c)
