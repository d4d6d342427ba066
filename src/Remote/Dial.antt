-- ===== src/Remote/Dial.antt =====
-- ResolveRegisterDialAddrWithLookup: the address that --register-ip makes the agent dial.
pub mod Laws
use https_proxy.Base.{
  ℕ, Bool, true, false, not, ◌&&◌, List, [], ◌∷◌, Option, none, some, ltb, leb, if◌then◌else◌,
}
use https_proxy.Base.Int.{ℤ, pos, negsuc}
use https_proxy.Base.Text.{Text, codes, text_eq, text_mem, is_empty, trim_space, contains, atoi}
use https_proxy.Base.Results.{Result, ok, err}
use https_proxy.Remote.Url.{Url}
use https_proxy.Remote.Register.{
  ForwardError, scheme_of, is_blank, scheme_not_allowed, no_default_port, invalid_register_ip,
  invalid_register_ip_port, resolve_failed, no_record,
}
use https_proxy.Remote.Address.{
  AddrError, missing_port, split_host_port, join_host_port, to_4, to_16,
}

-- netip.ParseAddr followed by String, net.IP.String, and the lookup: `none` is its error.
pub record Resolver : Type 0 where
  pub parse_addr : Text → Option Text
  pub ip_string : Text → Text
  pub lookup_ip : Text → Option (List Text)

unfoldable pub default_port : Url → Result ForwardError Text
default_port u =
    if not (is_empty u.port)
    then ok u.port
    else if text_mem (scheme_of u) (codes "wss" ∷ codes "https" ∷ [])
    then ok (codes "443")
    else if text_mem (scheme_of u) (codes "ws" ∷ codes "http" ∷ [])
    then ok (codes "80")
    else err (no_default_port u.scheme)

-- The host and the port of a value that is not an address by itself.
unfoldable pub split_value : Text → Text → Text → Result ForwardError (Text × Text)
split_value raw value def = elim (split_host_port value) [
  | ok (host, port) ↦ ok (trim_space host, trim_space port)
  | err missing_port ↦ ok (value, def)
  | err e ↦ err (invalid_register_ip raw)
]

abbrev pub is_port : Option ℤ → Bool
is_port none = false
is_port (some (pos n)) = leb 1 n && leb n 65535
is_port (some (negsuc n)) = false

-- The first element that `f` accepts.
abbrev pub find_first : (Text → Option Text) → List Text → Option Text
find_first f [] = none
find_first f (x ∷ xs) = elim (f x) [ none ↦ find_first f xs | some y ↦ some y ]

unfoldable pub pick_ip : List Text → Option Text
pick_ip ips = elim (find_first to_4 ips) [ some ip ↦ some ip | none ↦ find_first to_16 ips ]

unfoldable pub dial_host : Resolver → Text → Text → Result ForwardError Text
unfolding pick_ip join_host_port
dial_host n host port = elim (n.parse_addr host) [
  | some ip ↦ ok (join_host_port ip port)
  | none ↦ elim (n.lookup_ip host) [
    | none ↦ err (resolve_failed host)
    | some ips ↦ elim (pick_ip ips) [
      | none ↦ err (no_record host)
      | some ip ↦ ok (join_host_port (n.ip_string ip) port)
    ]
  ]
]

unfoldable pub dial_split : Resolver → Text → Text → Text → Result ForwardError Text
unfolding dial_host
dial_split n raw host port =
    if is_blank host
    then err (invalid_register_ip raw)
    else if not (is_port (atoi (trim_space port)))
    then err (invalid_register_ip_port (trim_space port))
    else dial_host n (trim_space host) (trim_space port)

unfoldable pub dial_value : Resolver → Text → Text → Text → Result ForwardError Text
unfolding split_value dial_split join_host_port
dial_value n raw value def = elim (n.parse_addr value) [
  | some ip ↦ ok (join_host_port ip def)
  | none ↦ elim (split_value raw value def) [
    | err e ↦ err e
    | ok (host, port) ↦ dial_split n raw host port
  ]
]

-- An empty answer leaves the dial address to the URL.
unfoldable pub resolve_register_dial_addr_with_lookup :
    Resolver → Text → Url → Result ForwardError Text
unfolding default_port dial_value
resolve_register_dial_addr_with_lookup n raw u =
    if is_blank raw
    then ok []
    else if contains (trim_space raw) (codes "://")
    then err (scheme_not_allowed raw)
    else elim (default_port u) [ err e ↦ err e | ok def ↦ dial_value n raw (trim_space raw) def ]
