-- ===== src/Agent/Streams/Runs.antt =====
-- An agent's connection at concrete inputs.
use https_proxy.Base.{
  ℕ, zero, suc, ◌≡◌, refl, true, false, List, [], ◌∷◌, none, some, get_elem?, length, arith,
}
use https_proxy.Base.Text.{Text}
use https_proxy.Base.Assoc.{lookup, insert, delete, nat_eq}
use https_proxy.Proto.Frame.{Frame, decode_frame}
use https_proxy.Proto.Types.{t_req_start}
use https_proxy.Agent.Streams.{
  Stream, ConnState, new_conn_state, get_or_create_stream, take_out, offer, dispatch_frame,
  read_message, take_frame, end_handler, close_all_streams, Op, finds, offers, forgets, takes, step,
  run,
}
use https_proxy.Agent.Streams.Invariant.{Inv}
use https_proxy.Agent.Streams.Teardown.{Shut, run-new_conn_state-Inv}
use https_proxy.Agent.Streams.Successor.{end_handler_successor}

abbrev repeat {ℓ} : {A : Type ℓ} → ℕ → A → List A
repeat zero a = []
repeat (suc n) a = a ∷ repeat n a

abbrev start_message : Text
start_message = 1 ∷ 0 ∷ 0 ∷ 0 ∷ 7 ∷ 0 ∷ 0 ∷ 0 ∷ 0 ∷ []

abbrev data_frame : Frame
data_frame = record { type = t_req_start; stream = 7; payload = [] }

-- A start, whose handler ends while another frame under the number makes a new stream: the old one is
-- taken out of the map, and closed later.
abbrev two_lives : List Op
two_lives =
    finds 7
    ∷ offers true data_frame 0
    ∷ takes 0
    ∷ forgets 7
    ∷ finds 7
    ∷ offers true data_frame 1
    ∷ []

second_life : (run two_lives new_conn_state).streams ≡ (7, 1) ∷ []
unfolding run lookup insert delete step take_frame get_or_create_stream offer take_out
second_life = refl

first_waits : (run two_lives new_conn_state).closing ≡ 0 ∷ []
unfolding run lookup insert delete step take_frame get_or_create_stream offer take_out
first_waits = refl

run-new_conn_state-Inv_example :
    Inv (run two_lives new_conn_state)
    × Shut (run two_lives new_conn_state).closing (close_all_streams (run two_lives new_conn_state))
run-new_conn_state-Inv_example = run-new_conn_state-Inv two_lives

abbrev read_each : ℕ → ConnState → ConnState
read_each zero c = c
read_each (suc n) c = read_each n (read_message true true true start_message c)

-- The first stream's queue is full.
abbrev filled : ConnState
filled = read_each 128 new_conn_state

abbrev full_stream : Stream
full_stream = record { id = 7; rx = repeat 128 data_frame; closed = false }

full_there : get_elem? filled.heap 0 ≡ some full_stream
unfolding decode_frame lookup insert delete read_message
full_there = refl

full_found : lookup 7 filled.streams ≡ some 0
unfolding decode_frame lookup insert delete read_message
full_found = refl

end_handler_successor_example :
    let d = dispatch_frame true true data_frame (dispatch_frame true true data_frame filled) in
    let u : Stream = record { id = 7; rx = data_frame ∷ []; closed = false } in
    (get_elem? d.heap 0 ≡ some (record full_stream { closed = true }))
    × (get_elem? d.heap (length filled.heap) ≡ some u)
    × (lookup 7 d.streams ≡ some (length filled.heap))
    × (get_elem? (end_handler 0 d).heap (length filled.heap) ≡ some (record u { closed = true }))
    × (lookup 7 (end_handler 0 d).streams ≡ none)
end_handler_successor_example =
    end_handler_successor filled true true true true data_frame data_frame 0 full_stream refl refl
      full_found full_there refl (omega arith)
