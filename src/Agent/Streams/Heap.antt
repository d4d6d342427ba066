-- ===== src/Agent/Streams/Heap.antt =====
-- What the operations of a connection do to its heap and its map.
use https_proxy.Base.{
  ℕ, ◌≤◌, ◌≡◌, refl, ap, ◌∙◌, Bool, true, false, ◌||◌, List, [], ◌∷◌, ◌++◌, Option, none, some, inl,
  inr, length, get_elem?, get_elem?-set, get_elem?-snoc, get_elem?-length, get_elem?-append, set,
  ◌==◌, arith, Option-cases, Bool-cases, ◌⊎◌,
}
use https_proxy.Base.Indices.{has, without, taken_of, has-without, has-taken_of, lookup-taken_of}
use https_proxy.Base.Assoc.{lookup, insert, delete, nat_eq, lookup-insert, lookup-delete}
use https_proxy.Agent.Streams.{
  Stream, ConnState, close_stream, close_at, close_each, fresh_stream, receive_queue_frames,
}

-- The map leads only to streams under their own number, every stream that is not closed is the one
-- that its number leads to or was taken out of the map to be closed, and no queue is longer than its
-- channel.
pub record Registered (heap : List Stream) (streams : List (ℕ × ℕ)) (closing : List ℕ)
    : Type 0 where
  pub keyed :
      (id r : ℕ)
      → lookup id streams ≡ some r
      → (s : Stream) × (get_elem? heap r ≡ some s) × (s.id ≡ id)
  pub found :
      (r : ℕ) (s : Stream)
      → get_elem? heap r ≡ some s
      → s.closed ≡ false
      → (lookup s.id streams ≡ some r) ⊎ (has r closing ≡ true)
  pub bounded :
      (r : ℕ) (s : Stream) → get_elem? heap r ≡ some s → length s.rx ≤ receive_queue_frames

abbrev pub shut : Bool → Option Stream → Option Stream
shut b none = none
shut b (some s) = some (record s { closed = b || s.closed })

shut-false : (o : Option Stream) → shut false o ≡ o
shut-false none = refl
shut-false (some s) = refl

shut-shut : (a b : Bool) (o : Option Stream) → shut a (shut b o) ≡ shut (b || a) o
shut-shut a b none = refl
shut-shut true true (some s) = refl
shut-shut true false (some s) = refl
shut-shut false true (some s) = refl
shut-shut false false (some s) = refl

pub get-close_at :
    (r : ℕ) (heap : List Stream) (j : ℕ)
    → get_elem? (close_at r heap) j ≡ shut (r == j) (get_elem? heap j)
unfolding close_at
get-close_at r heap j = elim (Option-cases (get_elem? heap r)) [
  | inl h ↦ rw (h, close_at) (ground (arith, shut-false (get_elem? heap j)))
  | inr (s, h) ↦
      rw (h, close_at)
        (ground (
          arith,
          get_elem?-set heap r s (record s { closed = true }) j h,
          shut-false (get_elem? heap j),
        ))
]

-- A stream that is there after closing was there before.
pub close_at-from :
    (r : ℕ) (heap : List Stream) (j : ℕ) (u : Stream)
    → get_elem? (close_at r heap) j ≡ some u
    → (v : Stream) × (get_elem? heap j ≡ some v) × (u ≡ record v { closed = r == j || v.closed })
close_at-from r heap j u h = elim (Option-cases (get_elem? heap j)) [
  | inl e ↦ ground (arith, get-close_at r heap j)
  | inr (v, e) ↦ (v, e, ground (arith, get-close_at r heap j))
]

abbrev pub leads_to : ℕ → List (ℕ × ℕ) → Bool
leads_to j [] = false
leads_to j ((id, r) ∷ m) = r == j || leads_to j m

pub get-close_each :
    (m : List (ℕ × ℕ)) (c : ConnState) (j : ℕ)
    → get_elem? (close_each m c).heap j ≡ shut (leads_to j m) (get_elem? c.heap j)
unfolding close_each
get-close_each [] c j = ground (arith, shut-false (get_elem? c.heap j))
get-close_each ((id, r) ∷ m) c j =
    get-close_each m (close_stream r c) j
    ∙ ap (shut (leads_to j m)) (get-close_at r c.heap j)
    ∙ shut-shut (leads_to j m) (r == j) (get_elem? c.heap j)

pub streams-close_each : (m : List (ℕ × ℕ)) (c : ConnState) → (close_each m c).streams ≡ c.streams
unfolding close_each
streams-close_each [] c = refl
streams-close_each ((id, r) ∷ m) c = streams-close_each m (close_stream r c)

pub lookup-leads_to : (m : List (ℕ × ℕ)) (id r : ℕ) → lookup id m ≡ some r → leads_to r m ≡ true
unfolding lookup
lookup-leads_to [] id r h = cc
lookup-leads_to ((i, q) ∷ m) id r h = ground (arith, lookup-leads_to m id r)

module _ {heap : List Stream} {streams : List (ℕ × ℕ)} {closing : List ℕ} where
  -- A stream's queue changes, within its capacity.
  pub touch-Registered :
      (r : ℕ) (s s' : Stream)
      → Registered heap streams closing
      → get_elem? heap r ≡ some s
      → s'.id ≡ s.id
      → s'.closed ≡ s.closed
      → length s'.rx ≤ receive_queue_frames
      → Registered (set heap r s') streams closing
  touch-Registered r s s' t h i c l = record {
    keyed = λ id q e.
        let (u, g, k) = t.keyed id q e in
        elim (Bool-cases (r == q)) [
          | inl hit ↦ (s', ground (arith, get_elem?-set heap r s s' q h), ground arith)
          | inr miss ↦ (u, ground (arith, get_elem?-set heap r s s' q h), k)
        ];
    found = λ q u e o. ground (arith, get_elem?-set heap r s s' q h, t.found r s h, t.found q u);
    bounded = λ q u e. ground (arith, get_elem?-set heap r s s' q h, t.bounded q u);
  }

  -- A stream is closed, and stays in the map or has left it.
  pub close-Registered :
      (r : ℕ)
      → Registered heap streams closing
      → Registered (close_at r heap) streams (without r closing)
  close-Registered r t = record {
    keyed = λ id q e.
        let (u, g, k) = t.keyed id q e in
        (record u { closed = r == q || u.closed }, ground (arith, get-close_at r heap q), k);
    found = λ q u e o.
        let (v, g, i) = close_at-from r heap q u e in
        ground (arith, t.found q v g, has-without q r closing);
    bounded =
        λ q u e. let (v, g, i) = close_at-from r heap q u e in ground (arith, t.bounded q v g);
  }

  -- A stream leaves the map, and is closed later.
  pub take-Registered :
      (id r : ℕ)
      → Registered heap streams closing
      → lookup id streams ≡ some r
      → Registered heap (delete id streams) (r ∷ closing)
  take-Registered id r t h = record {
    keyed = λ j q e. t.keyed j q (ground (arith, lookup-delete id j streams));
    found = λ q u e o. ground (arith, t.found q u e o, lookup-delete id u.id streams);
    bounded = t.bounded;
  }

  pub take_all-Registered :
      Registered heap streams closing → Registered heap [] (taken_of streams closing)
  unfolding lookup
  take_all-Registered t = record {
    keyed = λ id r h. cc;
    found = λ r s h o. inr (elim (t.found r s h o) [
      | inl l ↦ lookup-taken_of streams closing s.id r l
      | inr l ↦ has-taken_of streams closing r l
    ]);
    bounded = t.bounded;
  }

  pub create-Registered :
      (id : ℕ)
      → Registered heap streams closing
      → lookup id streams ≡ none
      → Registered (heap ++ (fresh_stream id ∷ [])) (insert id (length heap) streams) closing
  create-Registered id t h = record {
    keyed = λ j q e. elim (Bool-cases (id == j)) [
      | inl hit ↦ (
        fresh_stream id,
        ground (
          arith,
          lookup-insert id j (length heap) streams,
          get_elem?-length heap (fresh_stream id),
        ),
        ground arith,
      )
      | inr miss ↦
          let (u, g, k) = t.keyed j q (ground (arith, lookup-insert id j (length heap) streams)) in
          (u, get_elem?-append heap (fresh_stream id ∷ []) q u g, k)
    ];
    found = λ q u e o. ground (
      arith,
      get_elem?-snoc heap (fresh_stream id) q,
      t.found q u,
      lookup-insert id u.id (length heap) streams,
    );
    bounded = λ q u e. ground (arith, get_elem?-snoc heap (fresh_stream id) q, t.bounded q u);
  }
