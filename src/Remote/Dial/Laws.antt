-- ===== src/Remote/Dial/Laws.antt =====
-- The address that is dialled in place of the registration's host.
use https_proxy.Base.{
  ◌≡◌, ◌⊎◌, inl, inr, refl, true, false, List, some, arith, Option-cases, Bool-cases,
}
use https_proxy.Base.Text.{Text, codes, trim_space, contains, atoi}
use https_proxy.Base.Results.{ok, Result-cases}
use https_proxy.Remote.Url.{Url}
use https_proxy.Remote.Register.{is_blank}
use https_proxy.Remote.Address.{join_host_port}
use https_proxy.Remote.Dial.{
  Resolver, default_port, split_value, is_port, pick_ip, dial_host, dial_split, dial_value,
  resolve_register_dial_addr_with_lookup,
}

-- Where the host of a dial address comes from.
pub data Source (n : Resolver) (host : Text) : Type 0 where
  literal : (s : Text) → n.parse_addr s ≡ some host → Source n host
  resolved :
      (name ip : Text) (ips : List Text)
      → n.lookup_ip name ≡ some ips
      → pick_ip ips ≡ some ip
      → n.ip_string ip ≡ host
      → Source n host

dial_host-Source :
    (n : Resolver) (name port addr : Text)
    → dial_host n name port ≡ ok addr
    → (host : Text) × (addr ≡ join_host_port host port) × Source n host
unfolding dial_host
dial_host-Source n name port addr h = elim (Option-cases (n.parse_addr name)) [
  | inr (ip, P) ↦ (ip, ground arith, literal name P)
  | inl P ↦ elim (Option-cases (n.lookup_ip name)) [
    | inl L ↦ ground arith
    | inr (ips, L) ↦ elim (Option-cases (pick_ip ips)) [
      | inl Q ↦ ground arith
      | inr (ip, Q) ↦ (n.ip_string ip, ground arith, resolved name ip ips L Q refl)
    ]
  ]
]

dial_split-Source :
    (n : Resolver) (raw name port addr : Text)
    → dial_split n raw name port ≡ ok addr
    → (host : Text) × (addr ≡ join_host_port host (trim_space port))
      × (is_port (atoi (trim_space port)) ≡ true)
      × Source n host
unfolding dial_split
dial_split-Source n raw name port addr h = elim (Bool-cases (is_port (atoi (trim_space port)))) [
  | inr b ↦ ground arith
  | inl b ↦
      let (host, e, s) =
        dial_host-Source n (trim_space name) (trim_space port) addr (ground arith) in
      (host, e, b, s)
]

-- A dial address that is resolved joins a host to a port. The host is an address that was written out
-- or the choice among the addresses that a name resolves to; the port is the default one of the
-- registration's URL, or a number from 1 to 65535.
pub resolve_register_dial_addr_ok :
    (n : Resolver) (raw addr : Text) (u : Url)
    → is_blank raw ≡ false
    → resolve_register_dial_addr_with_lookup n raw u ≡ ok addr
    → (host : Text) × (port : Text) × (addr ≡ join_host_port host port)
      × ((default_port u ≡ ok port) ⊎ (is_port (atoi port) ≡ true))
      × Source n host
unfolding resolve_register_dial_addr_with_lookup dial_value
resolve_register_dial_addr_ok n raw addr u b h =
    elim (Bool-cases (contains (trim_space raw) (codes "://"))) [
      | inl c ↦ ground arith
      | inr c ↦ elim (Result-cases (default_port u)) [
        | inr (e, D) ↦ ground arith
        | inl (def, D) ↦ elim (Option-cases (n.parse_addr (trim_space raw))) [
          | inr (ip, P) ↦ (ip, def, ground arith, inl D, literal (trim_space raw) P)
          | inl P ↦ elim (Result-cases (split_value raw (trim_space raw) def)) [
            | inr (e, S) ↦ ground arith
            | inl ((name, port), S) ↦
                let (host, e, i, s) = dial_split-Source n raw name port addr (ground arith) in
                (host, trim_space port, e, inr i, s)
          ]
        ]
      ]
    ]
