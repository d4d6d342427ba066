-- ===== src/Agent/Streams/Teardown.antt =====
-- The end of a connection, and any history of one.
use https_proxy.Base.{
  ℕ, ◌≡◌, true, List, [], ◌∷◌, some, inl, inr, get_elem?, arith, ◌⊎◌, Option-cases, Bool-cases,
}
use https_proxy.Base.Indices.{has}
use https_proxy.Base.Assoc.{lookup, nat_eq}
use https_proxy.Agent.Streams.{
  Stream, ConnState, new_conn_state, take_all, close_all_streams, Op, finds, offers, forgets,
  closes, takes, sends, takes_all, step, run,
}
use https_proxy.Agent.Streams.Heap.{
  close-Registered, take_all-Registered, get-close_each, streams-close_each, lookup-leads_to,
}
use https_proxy.Agent.Streams.Invariant.{
  Inv, get_or_create_stream-Inv, offer-Inv, take_out-Inv, take_frame-Inv, send-Inv,
}

none_found : (id r : ℕ) → lookup id [] ≡ some r → ⊥
unfolding lookup
none_found id r h = cc

pub step-Inv : (op : Op) (c : ConnState) → Inv c → Inv (step op c)
unfolding step
step-Inv (finds id) c t = get_or_create_stream-Inv id c t
step-Inv (offers take_rx f r) c t = offer-Inv take_rx f r c t
step-Inv (forgets id) c t = take_out-Inv id c t
step-Inv (closes r) c t = close-Registered r t
step-Inv (takes r) c t = take_frame-Inv r c t
step-Inv (sends taken ty n b) c t = send-Inv taken ty n b c t
step-Inv takes_all c t = take_all-Registered t

run-Inv : (ops : List Op) (c : ConnState) → Inv c → Inv (run ops c)
unfolding run
run-Inv [] c t = t
run-Inv (op ∷ ops) c t = run-Inv ops (step op c) (step-Inv op c t)

new-Inv : Inv new_conn_state
new-Inv = record {
  keyed = λ id r h. absurd (none_found id r h);
  found = λ r s h o. cc;
  bounded = λ r s h. cc;
}

-- No number leads to a stream, and every stream that was ever created is closed, but for those that
-- are `pending`.
pub record Shut (pending : List ℕ) (c : ConnState) : Type 0 where
  pub no_streams : c.streams ≡ []
  pub all_closed :
      (r : ℕ) (s : Stream)
      → get_elem? c.heap r ≡ some s
      → (s.closed ≡ true) ⊎ (has r pending ≡ true)

close_all_streams-Shut : (c : ConnState) → Inv c → Shut c.closing (close_all_streams c)
unfolding close_all_streams
close_all_streams-Shut c t = record {
  no_streams = streams-close_each c.streams (take_all c);
  all_closed = λ r s h. elim (Option-cases (get_elem? c.heap r)) [
    | inl e ↦ ground (arith, get-close_each c.streams (take_all c) r)
    | inr (v, e) ↦ elim (Bool-cases v.closed) [
      | inl b ↦ inl (ground (arith, get-close_each c.streams (take_all c) r))
      | inr b ↦ elim (t.found r v e b) [
        | inl l ↦ inl (
            ground
              (arith, get-close_each c.streams (take_all c) r, lookup-leads_to c.streams v.id r l))
        | inr l ↦ inr l
      ]
    ]
  ];
}

-- Whatever the read loop and the handlers of an agent's connection do, in whatever order, one lock,
-- select or close at a time: the map leads only to streams under their own number, every stream that is
-- not closed is the one that its number leads to or was taken out of the map by a goroutine that has
-- yet to close it, and no queue is longer than its channel. Tearing the connection down then empties
-- the map and closes every stream that was ever created, but for those that another goroutine had
-- taken out and has yet to close.
pub run-new_conn_state-Inv :
    (ops : List Op)
    → Inv (run ops new_conn_state)
      × Shut (run ops new_conn_state).closing (close_all_streams (run ops new_conn_state))
run-new_conn_state-Inv ops =
    let t : Inv (run ops new_conn_state) = run-Inv ops new_conn_state new-Inv in
    (t, close_all_streams-Shut (run ops new_conn_state) t)
