-- ===== src/Remote/Address/Laws.antt =====
-- net.SplitHostPort takes apart what net.JoinHostPort puts together.
use https_proxy.Base.{
  ℕ, ◌≡◌, ◌≢◌, inl, inr, refl, false, ◌||◌, [], ◌∷◌, ◌++◌, none, some, arith, Bool-cases,
}
use https_proxy.Base.Text.{Text, codes, cut, has_prefix}
use https_proxy.Base.Results.{ok}
use https_proxy.Remote.Address.{byte_mem, cut_last, split_host_port, join_host_port}

cut_last-none : (c : ℕ) (s : Text) → byte_mem c s ≡ false → cut_last c s ≡ none
unfolding cut_last
cut_last-none c [] h = refl
cut_last-none c (a ∷ s) h = ground (arith, cut_last-none c s)

cut_last-append :
    (c : ℕ) (w r : Text) → byte_mem c r ≡ false → cut_last c (w ++ (c ∷ r)) ≡ some (w, r)
unfolding cut_last
cut_last-append c [] r h = ground (arith, cut_last-none c r h)
cut_last-append c (a ∷ w) r h = ground (arith, cut_last-append c w r h)

cut-append : (c : ℕ) (w r : Text) → byte_mem c w ≡ false → cut c (w ++ (c ∷ r)) ≡ (w, some r)
unfolding cut
cut-append c [] r h = ground arith
cut-append c (a ∷ w) r h = ground (arith, cut-append c w r)

byte_mem-append : (c : ℕ) (w r : Text) → byte_mem c (w ++ r) ≡ (byte_mem c w || byte_mem c r)
byte_mem-append c [] [] = ground arith
byte_mem-append c [] (b ∷ r) = ground arith
byte_mem-append c (a ∷ w) r = ground (arith, byte_mem-append c w r)

cut_last-bracket :
    (w r : Text)
    → byte_mem b':' r ≡ false
    → cut_last b':' (w ++ (b']' ∷ b':' ∷ r)) ≡ some (w ++ (b']' ∷ []), r)
unfolding cut_last
cut_last-bracket [] r h = ground (arith, cut_last-none b':' r h)
cut_last-bracket (a ∷ w) r h = ground (arith, cut_last-bracket w r h)

no_bracket :
    (host r : Text)
    → byte_mem b'[' host ≡ false
    → has_prefix (host ++ (b':' ∷ r)) (codes "[") ≡ false
no_bracket [] r h = refl
no_bracket (a ∷ w) [] h = ground arith
no_bracket (a ∷ w) (b ∷ r) h = ground arith

colon_head : (c : ℕ) (r : Text) → c ≢ b':' → byte_mem c (b':' ∷ r) ≡ byte_mem c r
colon_head c [] n = ground arith
colon_head c (b ∷ r) n = ground arith

-- A host and a port without brackets, the port without a colon, come back from the address that joins
-- them; a host with a colon stands in brackets there.
pub split_host_port-join_host_port :
    (host port : Text)
    → byte_mem b'[' host ≡ false
    → byte_mem b']' host ≡ false
    → byte_mem b'[' port ≡ false
    → byte_mem b']' port ≡ false
    → byte_mem b':' port ≡ false
    → split_host_port (join_host_port host port) ≡ ok (host, port)
unfolding split_host_port join_host_port
split_host_port-join_host_port host port h1 h2 p1 p2 p3 = elim (Bool-cases (byte_mem b':' host)) [
  | inl c ↦ ground (
    arith,
    cut_last-bracket (b'[' ∷ host) port p3,
    cut-append b']' (b'[' ∷ host) (b':' ∷ port) (ground arith),
    byte_mem-append b'[' host port,
  )
  | inr c ↦ ground (
    arith,
    cut_last-append b':' host port p3,
    no_bracket host port h1,
    byte_mem-append b'[' host (b':' ∷ port),
    byte_mem-append b']' host (b':' ∷ port),
    colon_head b'[' port (omega arith),
    colon_head b']' port (omega arith),
  )
]
