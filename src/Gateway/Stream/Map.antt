-- ===== src/Gateway/Stream/Map.antt =====
-- The table of streams behind a connection: what the operations of agentconn.go and stream.go do to
-- the counter, the heap and the map.
use https_proxy.Base.{
  ℕ, suc, ◌^◌, ◌≤◌, ◌<◌, ◌≡◌, refl, ◌⊎◌, inl, inr, true, false, Option, Option-cases, List, [], ◌∷◌,
  ◌++◌, none, some, length, length-append, length-set, get_elem?, get_elem?-set, get_elem?-snoc,
  get_elem?-lt, set, arith,
}
use https_proxy.Base.Indices.{has, without, taken_of, has-without, lookup-taken_of, has-taken_of}
use https_proxy.Base.Assoc.{
  lookup, insert, delete, nat_eq, lookup-insert, lookup-delete, length-insert-le, length-delete-le,
}
use https_proxy.Base.Text.{Text}
use https_proxy.Gateway.Stream.{Stream, next_id, fresh_stream}

-- Before the counter wraps the stream at index `r` has the number `r + 1`. An open stream is what that
-- number leads to, or has been taken out of the map to be closed; a closed one has left the map, or
-- its number is still to be forgotten; and nothing else is in the map.
pub record Table (next : ℕ) (heap : List Stream) (streams : List (ℕ × ℕ)) (cap : ℕ)
    (forgetting : List (ℕ × Option Text)) (draining : List ℕ) : Type 0 where
  pub counted : next ≡ length heap
  pub few : length heap < 2 ^ 32
  pub numbered : (r : ℕ) (s : Stream) → get_elem? heap r ≡ some s → s.id ≡ suc r
  pub found :
      (r : ℕ) (s : Stream)
      → get_elem? heap r ≡ some s
      → s.closed ≡ false
      → (lookup (suc r) streams ≡ some r) ⊎ (has r draining ≡ true)
  pub gone :
      (r : ℕ) (s : Stream)
      → get_elem? heap r ≡ some s
      → s.closed ≡ true
      → lookup r forgetting ≡ none
      → lookup (suc r) streams ≡ none
  pub shut_first :
      (r : ℕ) (s : Stream)
      → get_elem? heap r ≡ some s
      → s.closed ≡ false
      → lookup r forgetting ≡ none
  pub pends : (r : ℕ) (p : Option Text) → lookup r forgetting ≡ some p → r < length heap
  pub live : (id r : ℕ) → lookup id streams ≡ some r → (id ≡ suc r) × (r < length heap)
  pub bounded : 0 < cap → length streams ≤ cap

pub next_id-suc : (n : ℕ) → suc n < 2 ^ 32 → next_id n ≡ suc n
unfolding next_id
next_id-suc n h = ground arith

no_number : (id r : ℕ) → lookup id [] ≡ some r → ⊥
unfolding lookup
no_number id r h = cc

module _ {next : ℕ} {heap : List Stream} {streams : List (ℕ × ℕ)} {cap : ℕ}
    {forgetting : List (ℕ × Option Text)} {draining : List ℕ} where
  -- A stream changes, but neither its number nor whether it is open.
  pub touch-Table :
      (r : ℕ) (s s' : Stream)
      → Table next heap streams cap forgetting draining
      → get_elem? heap r ≡ some s
      → s'.id ≡ s.id
      → s'.closed ≡ s.closed
      → Table next (set heap r s') streams cap forgetting draining
  touch-Table r s s' t h i c = record {
    counted = rw length-set t.counted;
    few = rw length-set t.few;
    numbered =
        λ q u e. ground (arith, get_elem?-set heap r s s' q h, t.numbered r s h, t.numbered q u);
    found = λ q u e o. ground (arith, get_elem?-set heap r s s' q h, t.found r s h, t.found q u);
    gone = λ q u e o k. ground (arith, get_elem?-set heap r s s' q h, t.gone r s h, t.gone q u);
    shut_first = λ q u e o.
        ground (arith, get_elem?-set heap r s s' q h, t.shut_first r s h, t.shut_first q u);
    pends = λ q p e. rw length-set (t.pends q p e);
    live = λ id q e. rw length-set (t.live id q e);
    bounded = t.bounded;
  }

  -- A stream's channel is closed; its number is forgotten later.
  pub shut-Table :
      (r : ℕ) (s s' : Stream) (p : Option Text)
      → Table next heap streams cap forgetting draining
      → get_elem? heap r ≡ some s
      → s'.id ≡ s.id
      → s'.closed ≡ true
      → Table next (set heap r s') streams cap ((r, p) ∷ forgetting) draining
  unfolding lookup
  shut-Table r s s' p t h i c = record {
    counted = rw length-set t.counted;
    few = rw length-set t.few;
    numbered =
        λ q u e. ground (arith, get_elem?-set heap r s s' q h, t.numbered r s h, t.numbered q u);
    found = λ q u e o. ground (arith, get_elem?-set heap r s s' q h, t.found q u);
    gone = λ q u e o k. ground (arith, get_elem?-set heap r s s' q h, t.gone q u);
    shut_first = λ q u e o. ground (arith, get_elem?-set heap r s s' q h, t.shut_first q u);
    pends = λ q x e. rw length-set (ground (arith, get_elem?-lt heap r s h, t.pends q x));
    live = λ id q e. rw length-set (t.live id q e);
    bounded = t.bounded;
  }

  -- The number of a stream whose channel is closed leaves the map.
  pub forget-Table :
      (r : ℕ) (s : Stream) (p : Option Text)
      → Table next heap streams cap forgetting draining
      → get_elem? heap r ≡ some s
      → lookup r forgetting ≡ some p
      → Table next heap (delete s.id streams) cap (delete r forgetting) draining
  forget-Table r s p t h k = record {
    counted = t.counted;
    few = t.few;
    numbered = t.numbered;
    found = λ q u e o. ground (
      arith,
      t.numbered r s h,
      t.found q u e o,
      t.shut_first q u e o,
      lookup-delete s.id (suc q) streams,
    );
    gone = λ q u e o n. ground (
      arith,
      t.numbered r s h,
      t.gone q u e o,
      lookup-delete r q forgetting,
      lookup-delete s.id (suc q) streams,
    );
    shut_first = λ q u e o. ground (arith, t.shut_first q u e o, lookup-delete r q forgetting);
    pends = λ q x e. t.pends q x (ground (arith, lookup-delete r q forgetting));
    live = λ id q e. ground (arith, lookup-delete s.id id streams, t.live id q);
    bounded = λ p. omega (arith, t.bounded p, length-delete-le s.id streams);
  }

  -- The streams are taken out of the map.
  pub take-Table :
      Table next heap streams cap forgetting draining
      → Table next heap [] cap forgetting (taken_of streams draining)
  unfolding lookup
  take-Table t = record {
    counted = t.counted;
    few = t.few;
    numbered = t.numbered;
    found = λ r s h o. inr (elim (t.found r s h o) [
      | inl l ↦ lookup-taken_of streams draining (suc r) r l
      | inr l ↦ has-taken_of streams draining r l
    ]);
    gone = λ r s h o k. refl;
    shut_first = t.shut_first;
    pends = t.pends;
    live = λ id r h. absurd (no_number id r h);
    bounded = λ p. omega arith;
  }

  -- A stream that is closed need not be drained.
  pub drained-Table :
      (r : ℕ)
      → Table next heap streams cap forgetting draining
      → ((s : Stream) → get_elem? heap r ≡ some s → s.closed ≡ true)
      → Table next heap streams cap forgetting (without r draining)
  drained-Table r t c = record {
    counted = t.counted;
    few = t.few;
    numbered = t.numbered;
    found = λ q s h o. ground (arith, t.found q s h o, has-without q r draining, c s);
    gone = t.gone;
    shut_first = t.shut_first;
    pends = t.pends;
    live = t.live;
    bounded = t.bounded;
  }

  -- A new stream goes under the next number.
  pub open-Table :
      Table next heap streams cap forgetting draining
      → suc (length heap) < 2 ^ 32
      → (0 < cap → length streams < cap)
      → Table
          (next_id next)
          (heap ++ (fresh_stream (next_id next) ∷ []))
          (insert (next_id next) (length heap) streams)
          cap
          forgetting
          draining
  open-Table t room space = record {
    counted =
        ground (
          arith,
          next_id-suc next,
          t.counted,
          length-append heap (fresh_stream (next_id next) ∷ []),
        );
    few = ground (arith, length-append heap (fresh_stream (next_id next) ∷ []));
    numbered = λ q u e. ground (
      arith,
      t.counted,
      next_id-suc next,
      get_elem?-snoc heap (fresh_stream (next_id next)) q,
      get_elem?-lt heap q u,
      t.numbered q u,
    );
    found = λ q u e o. ground (
      arith,
      t.counted,
      next_id-suc next,
      get_elem?-snoc heap (fresh_stream (next_id next)) q,
      get_elem?-lt heap q u,
      t.found q u,
      lookup-insert (next_id next) (suc q) (length heap) streams,
    );
    gone = λ q u e o k. ground (
      arith,
      t.counted,
      next_id-suc next,
      get_elem?-snoc heap (fresh_stream (next_id next)) q,
      get_elem?-lt heap q u,
      t.gone q u,
      lookup-insert (next_id next) (suc q) (length heap) streams,
    );
    shut_first = λ q u e o. elim (Option-cases (lookup q forgetting)) [
      | inl n ↦ n
      | inr (p, n) ↦ ground (
        arith,
        get_elem?-snoc heap (fresh_stream (next_id next)) q,
        t.pends q p n,
        t.shut_first q u,
      )
    ];
    pends = λ q p e.
        ground (arith, t.pends q p e, length-append heap (fresh_stream (next_id next) ∷ []));
    live = λ id q e. ground (
      arith,
      t.counted,
      next_id-suc next,
      length-append heap (fresh_stream (next_id next) ∷ []),
      lookup-insert (next_id next) id (length heap) streams,
      t.live id q,
    );
    bounded = λ p. omega (arith, space p, length-insert-le (next_id next) (length heap) streams);
  }
