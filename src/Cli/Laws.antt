-- ===== src/Cli/Laws.antt =====
-- The priority of tokens, the loopback default of the listener, and destinations.
use https_proxy.Base.{
  ℕ, ◌≡◌, ◌⊎◌, inl, inr, refl, true, false, [], ◌∷◌, ◌++◌, some, arith, Bool-cases, Option-cases,
}
use https_proxy.Base.Text.{Text, codes, trim_space, is_empty, cut}
use https_proxy.Base.Results.{ok, Result-cases}
use https_proxy.Remote.Register.{is_blank}
use https_proxy.Remote.Address.{split_host_port, join_host_port, byte_mem}
use https_proxy.Cli.{
  System, resolve_bearer_token, read_token_from_file, listen_at, parse_listen_addr, is_digits,
  loopback, parse_destination,
}

read_token-nonempty :
    (sys : System) (path t : Text) → read_token_from_file sys path ≡ ok t → is_empty t ≡ false
unfolding read_token_from_file
read_token-nonempty sys path t h = elim (Option-cases (sys.read_file path)) [
  | inl e ↦ ground arith
  | inr (d, e) ↦ ground arith
]

-- A token is resolved without one only when all four sources are blank, and then the source says so:
-- a file that is named and cannot be read, or is blank, is an error and never falls through to a later
-- source.
pub resolve_bearer_token_none :
    (sys : System) (flag file token source : Text)
    → resolve_bearer_token sys flag file ≡ ok (token, source)
    → (is_empty token ≡ false)
      ⊎ ((source ≡ codes "none")
          × (is_blank flag ≡ true)
          × (is_blank file ≡ true)
          × (is_blank (sys.getenv (codes "CLOCKBRIDGE_HTTPS_PROXY_TOKEN")) ≡ true)
          × (is_blank (sys.getenv (codes "CLOCKBRIDGE_HTTPS_PROXY_TOKEN_PATH")) ≡ true))
unfolding resolve_bearer_token
resolve_bearer_token_none sys flag file token source h = ground (
  arith,
  read_token-nonempty sys (trim_space file) token,
  read_token-nonempty sys (trim_space (sys.getenv (codes "CLOCKBRIDGE_HTTPS_PROXY_TOKEN_PATH")))
      token,
)

cut-some :
    (c : ℕ) (s r : Text)
    → (cut c s).1 ≡ some r
    → (s ≡ (cut c s).0 ++ (c ∷ r)) × (byte_mem c (cut c s).0 ≡ false)
unfolding cut
cut-some c [] r h = cc
cut-some c (a ∷ s) r h = ground (arith, cut-some c s r)

-- A destination that is accepted is a non-blank uuid without an @, an @, and a non-blank host; spaces
-- around both are dropped.
pub parse_destination_ok :
    (raw uuid host : Text)
    → parse_destination raw ≡ ok (uuid, host)
    → (w : Text) × (r : Text) × (trim_space raw ≡ w ++ (b'@' ∷ r))
      × (byte_mem b'@' w ≡ false)
      × (uuid ≡ trim_space w)
      × (host ≡ trim_space r)
      × (is_empty uuid ≡ false)
      × (is_empty host ≡ false)
unfolding parse_destination
parse_destination_ok raw uuid host h = elim (Option-cases (cut b'@' (trim_space raw)).1) [
  | inl e ↦ ground arith
  | inr (r, e) ↦
      let (s, b) = cut-some b'@' (trim_space raw) r e in
      (
        (cut b'@' (trim_space raw)).0,
        r,
        s,
        b,
        ground arith,
        ground arith,
        ground arith,
        ground arith,
      )
]

-- An address to listen on that is accepted has a port of digits, and it binds to the loopback unless the
-- flag names a host.
pub parse_listen_addr_ok :
    (raw addr : Text)
    → parse_listen_addr raw ≡ ok addr
    → (host : Text) × (port : Text) × (is_digits port ≡ true)
      × (addr ≡ join_host_port host port)
      × ((host ≡ loopback)
          ⊎ ((split_host_port (trim_space raw) ≡ ok (host, port)) × (is_empty host ≡ false)))
unfolding parse_listen_addr listen_at join_host_port
parse_listen_addr_ok raw addr h = elim (Bool-cases (is_digits (trim_space raw))) [
  | inl d ↦ (loopback, trim_space raw, d, ground arith, inl refl)
  | inr d ↦ elim (Result-cases (split_host_port (trim_space raw))) [
    | inr (e, S) ↦ ground arith
    | inl ((host, port), S) ↦ elim (Bool-cases (is_empty host)) [
      | inl b ↦ (loopback, port, ground arith, ground arith, inl refl)
      | inr b ↦ (host, port, ground arith, ground arith, inr (S, b))
    ]
  ]
]
