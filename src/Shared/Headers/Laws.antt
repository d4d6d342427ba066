-- ===== src/Shared/Headers/Laws.antt =====
-- What internal/shared/httpheaders.go removes from a header and what it copies.
use https_proxy.Base.{
  ◌≡◌, refl, sym, ap, ◌∙◌, Bool, true, false, not, ◌&&◌, ◌||◌, List, [], ◌∷◌, ◌++◌, map, none, inl,
  inr, if◌then◌else◌, arith, Bool-cases,
}
use mathlib.Core.List.{append_assoc, append-nil}
use https_proxy.Base.Text.{Text, codes, text_eq, text_eq_iff, text_mem}
use https_proxy.Base.Assoc.{lookup, text_keys, lookup-insert, lookup-delete}
use https_proxy.Proto.Types.{Header}
use https_proxy.Shared.Headers.{
  canonical_header_key, values_at, values, del, add, tokens, del_each, strip_connection_headers,
  hop_by_hop_header_keys, is_hop_by_hop_header_key, is_ws_strip_header_key, is_ws_skipped, add_each,
  copy_unless, copy_headers_for_web_socket,
}

abbrev pub canonical : List Text → List Text
canonical = map canonical_header_key

lookup-del_each :
    (j : Text) (ks : List Text) (h : Header)
    → lookup j (del_each ks h) ≡ (if text_mem j (canonical ks) then none else lookup j h)
unfolding del_each
lookup-del_each j [] h = refl
lookup-del_each j (k ∷ ks) h = ground (
  arith,
  text_eq_iff j (canonical_header_key k),
  text_eq_iff (canonical_header_key k) j,
  lookup-del_each j ks (del h k),
  lookup-delete (canonical_header_key k) j h,
)

-- The keys that are hop-by-hop: those that the Connection fields name, and the standard ones.
abbrev pub hop_keys : Header → List Text
hop_keys h = canonical (tokens (values h (codes "Connection")))

-- A key that is hop-by-hop by its name, or because a Connection field names it, is gone; every other
-- key has the values that it had.
pub lookup-strip_connection_headers :
    (j : Text) (h : Header)
    → lookup j (strip_connection_headers h) ≡ (
        if text_mem j (hop_keys h) || text_mem j (canonical hop_by_hop_header_keys)
        then none
        else lookup j h)
unfolding strip_connection_headers
lookup-strip_connection_headers j h = ground (
  arith,
  lookup-del_each j hop_by_hop_header_keys (del_each (tokens (values h (codes "Connection"))) h),
  lookup-del_each j (tokens (values h (codes "Connection"))) h,
)

or_true : (b : Bool) → (b || true) ≡ true
or_true true = refl
or_true false = refl

connection_gone : (h : Header) → lookup (codes "Connection") (strip_connection_headers h) ≡ none
unfolding canonical_header_key
connection_gone h =
    lookup-strip_connection_headers (codes "Connection") h
    ∙ rw (or_true (text_mem (codes "Connection") (hop_keys h)))

no_connection : (h : Header) → hop_keys (strip_connection_headers h) ≡ []
unfolding tokens values_at canonical_header_key
no_connection h = rw (connection_gone h, values_at)

-- Stripping again takes nothing more away: the Connection fields are gone.
pub strip_connection_headers_idem :
    (j : Text) (h : Header)
    → lookup j (strip_connection_headers (strip_connection_headers h))
      ≡ lookup j (strip_connection_headers h)
strip_connection_headers_idem j h =
    lookup-strip_connection_headers j (strip_connection_headers h)
    ∙ rw (no_connection h) (ground (arith, lookup-strip_connection_headers j h))

-- The values that a source has for a canonical key, over every spelling that is not skipped.
unfoldable pub gather : (Text → Bool) → Text → Header → List Text
gather skip j [] = []
gather skip j ((k, vs) ∷ src) =
    let rest = gather skip j src in
    if not (skip k) && text_eq (canonical_header_key k) j then vs ++ rest else rest

values_at-add :
    (j k v : Text) (dst : Header)
    → values_at j (add dst k v) ≡ (
        if text_eq (canonical_header_key k) j then values_at j dst ++ (v ∷ []) else values_at j dst)
unfolding values_at
values_at-add j k v dst =
    let ck = canonical_header_key k in
    ground (arith, lookup-insert ck j (values_at ck dst ++ (v ∷ [])) dst, text_eq_iff ck j)

values_at-add_each :
    (j k : Text) (vs : List Text) (dst : Header)
    → values_at j (add_each k vs dst)
      ≡ (if text_eq (canonical_header_key k) j then values_at j dst ++ vs else values_at j dst)
unfolding add_each
values_at-add_each j k [] dst = ground (arith, append-nil (values_at j dst))
values_at-add_each j k (v ∷ vs) dst = ground (
  arith,
  values_at-add_each j k vs (add dst k v),
  values_at-add j k v dst,
  append_assoc (values_at j dst) (v ∷ []) vs,
)

-- Copying appends, for every canonical key, the values that the source has for it under keys that
-- are not skipped, in their order, to those that were there; and changes no other key.
pub values_at-copy_unless :
    (skip : Text → Bool) (j : Text) (dst src : Header)
    → values_at j (copy_unless skip dst src) ≡ values_at j dst ++ gather skip j src
unfolding copy_unless gather
values_at-copy_unless skip j dst [] = sym (append-nil (values_at j dst))
values_at-copy_unless skip j dst ((k, vs) ∷ src) = ground (
  arith,
  values_at-copy_unless skip j (if skip k then dst else add_each k vs dst) src,
  values_at-add_each j k vs dst,
  append_assoc (values_at j dst) vs (gather skip j src),
)

-- The table of hop-by-hop keys holds `TE`, but the canonical form of that key is `Te`: the test
-- never finds it.
pub is_hop_by_hop_header_key-te :
    (k : Text) → canonical_header_key k ≡ codes "Te" → is_hop_by_hop_header_key k ≡ false
unfolding is_hop_by_hop_header_key
is_hop_by_hop_header_key-te k h = rw h

gather-te :
    (skip : Text → Bool) (j : Text) (src : Header)
    → ((k : Text) → canonical_header_key k ≡ j → skip k ≡ false)
    → gather skip j src ≡ gather (λ _. false) j src
unfolding gather
gather-te skip j [] h = refl
gather-te skip j ((k, vs) ∷ src) h = elim (Bool-cases (text_eq (canonical_header_key k) j)) [
  | inl same ↦
      ground (arith, gather-te skip j src h, h k ((text_eq_iff (canonical_header_key k) j).0 same))
  | inr other ↦ ground (arith, gather-te skip j src h, other)
]

te_not_skipped : (k : Text) → canonical_header_key k ≡ codes "Te" → is_ws_skipped k ≡ false
unfolding is_hop_by_hop_header_key is_ws_strip_header_key
te_not_skipped k h = rw h

-- So the copy for an upstream WebSocket forwards every TE field, which is hop-by-hop.
pub copy_headers_for_web_socket-te :
    (dst src : Header)
    → values_at (codes "Te") (copy_headers_for_web_socket dst src)
      ≡ values_at (codes "Te") dst ++ gather (λ _. false) (codes "Te") src
unfolding copy_headers_for_web_socket
copy_headers_for_web_socket-te dst src =
    values_at-copy_unless is_ws_skipped (codes "Te") dst src
    ∙ ap (◌++◌ (values_at (codes "Te") dst))
        (gather-te is_ws_skipped (codes "Te") src te_not_skipped)
