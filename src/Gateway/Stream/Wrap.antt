-- ===== src/Gateway/Stream/Wrap.antt =====
-- Numbers of new streams, before and after the 32-bit counter wraps.
use https_proxy.Base.{
  ℕ, suc, ◌^◌, ◌≤◌, ◌<◌, ◌≡◌, ◌≢◌, subst, ap, ◌∙◌, true, false, [], ◌∷◌, ◌++◌, Option, none, some,
  inl, inr, length, get_elem?, get_elem?-set, get_elem?-lt, get_elem?-length, get_elem?-append,
  arith, Option-cases,
}
use https_proxy.Base.Text.{Text}
use https_proxy.Base.Assoc.{lookup, insert, nat_eq, lookup-insert, lookup-delete}
use https_proxy.Gateway.Stream.{
  Stream, AgentConn, ok, new_stream, close_stream, fresh_stream, next_id, is_full,
}
use https_proxy.Gateway.Stream.Map.{next_id-suc}
use https_proxy.Gateway.Stream.Steps.{Inv}
use https_proxy.Gateway.Stream.Invariant.{new_stream-Inv}
use https_proxy.Gateway.Stream.Overflow.{close_open}

-- A number is never zero and fits 32 bits, also when the counter wraps.
pub next_id_bounds : (n : ℕ) → (next_id n ≢ 0) × (next_id n < 2 ^ 32)
unfolding next_id
next_id_bounds n = ground arith

opened_conn : AgentConn → AgentConn
opened_conn c = record c {
  next_stream = next_id c.next_stream;
  streams = insert (next_id c.next_stream) (length c.heap) c.streams;
  heap = c.heap ++ (fresh_stream (next_id c.next_stream) ∷ []);
}

new_stream-eq_ok :
    (c d : AgentConn) (r : ℕ) → new_stream c ≡ (d, ok r) → (d ≡ opened_conn c) × (r ≡ length c.heap)
unfolding new_stream opened_conn
new_stream-eq_ok c d r e = ground arith

unused : (c : AgentConn) → Inv c → lookup (suc (length c.heap)) c.streams ≡ none
unused c t = elim (Option-cases (lookup (suc (length c.heap)) c.streams)) [
  | inl h ↦ h
  | inr (q, h) ↦ absurd (omega (arith, t.live (suc (length c.heap)) q h))
]

-- Before the counter wraps a stream that is opened gets a number that nobody uses, the map leads
-- from it to the new, empty stream, every other number leads where it did, and the limit is kept.
pub new_stream_ok :
    (c d : AgentConn) (r : ℕ)
    → Inv c
    → suc (length c.heap) < 2 ^ 32
    → new_stream c ≡ (d, ok r)
    → (get_elem? d.heap r ≡ some (fresh_stream (suc r)))
      × (lookup (suc r) c.streams ≡ none)
      × (lookup (suc r) d.streams ≡ some r)
      × ((id : ℕ) → id ≢ suc r → lookup id d.streams ≡ lookup id c.streams)
      × (0 < d.max_streams → length d.streams ≤ d.max_streams)
new_stream_ok c d r t room e =
    let (hd, hr) = new_stream-eq_ok c d r e in
    let hi : next_id c.next_stream ≡ suc (length c.heap) =
      ap next_id t.counted ∙ next_id-suc (length c.heap) room in
    let bounded = (subst Inv (ap (λ p. p.0) e ∙ hd) (new_stream-Inv c room t)).bounded in
    rw (hd, hr)
      (unfold opened_conn in
        rw hi (
          get_elem?-length c.heap (fresh_stream (suc (length c.heap))),
          unused c t,
          lookup-insert (suc (length c.heap)) (suc (length c.heap)) (length c.heap) c.streams
              ∙ ground arith,
          λ id other.
              lookup-insert (suc (length c.heap)) id (length c.heap) c.streams ∙ ground arith,
          rw hi at bounded,
        ))

new_stream_opens :
    (c : AgentConn) → c.closed ≡ false → is_full c ≡ false → (new_stream c).0 ≡ opened_conn c
unfolding new_stream opened_conn
new_stream_opens c up space = ground arith

-- After the counter has wrapped onto the number of a stream that is still open, opening a stream
-- succeeds and takes that number away: the old stream stays open, but its frames go to the new one,
-- and when the old stream closes, it is the new one that leaves the map.
pub new_stream_orphans :
    (c : AgentConn) (r : ℕ) (s : Stream) (e : Option Text)
    → get_elem? c.heap r ≡ some s
    → s.closed ≡ false
    → s.id ≡ next_id c.next_stream
    → c.closed ≡ false
    → is_full c ≡ false
    → let d = (new_stream c).0 in
      (get_elem? d.heap r ≡ some s)
      × (lookup s.id d.streams ≡ some (length c.heap))
      × (r ≢ length c.heap)
      × (lookup s.id (close_stream e r d).streams ≡ none)
      × (get_elem? (close_stream e r d).heap (length c.heap) ≡ some (fresh_stream s.id))
new_stream_orphans c r s e h o same up space =
    let lt = get_elem?-lt c.heap r s h in
    let new = fresh_stream (next_id c.next_stream) in
    let kept = get_elem?-append c.heap (new ∷ []) r s h in
    let shut : Stream = record s { closed = true; err = e } in
    rw (new_stream_opens c up space) (
      rw (close_open e r (opened_conn c) s (unfold opened_conn in kept) o) (
        unfold opened_conn in
        (
          kept,
          lookup-insert (next_id c.next_stream) s.id (length c.heap) c.streams
              ∙ ground (arith, same),
          omega (arith, lt),
          lookup-delete s.id s.id (insert (next_id c.next_stream) (length c.heap) c.streams)
              ∙ ground arith,
          get_elem?-set (c.heap ++ (new ∷ [])) r s shut (length c.heap) kept
              ∙ ground (arith, lt, same, get_elem?-length c.heap new),
        )))
