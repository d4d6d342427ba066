-- ===== src/Cli/Runs.antt =====
-- The command line at concrete inputs.
use https_proxy.Base.{◌≡◌, ◌⊎◌, refl, [], none, true, false, if◌then◌else◌}
use https_proxy.Base.Text.{Text, codes, text_eq, trim_space, cut, is_empty}
use https_proxy.Base.Results.{ok, err}
use https_proxy.Remote.Address.{split_host_port, join_host_port}
use https_proxy.Cli.{
  System, mutually_exclusive, resolve_mode, resolve_bearer_token, parse_listen_addr,
  parse_destination, token_unread, is_digits, loopback, invalid_listen_port,
}
use https_proxy.Cli.Laws.{parse_listen_addr_ok}

both_flags : resolve_mode (codes "80") (codes "http://h") ≡ err mutually_exclusive
unfolding resolve_mode trim_space
both_flags = refl

abbrev bare_system : System
bare_system = record {
  getenv = λ k. if text_eq k (codes "CLOCKBRIDGE_HTTPS_PROXY_TOKEN") then codes " secret" else [];
  read_file = λ path. none;
}

from_env :
    resolve_bearer_token bare_system [] (codes " ")
    ≡ ok (codes "secret", codes "env:CLOCKBRIDGE_HTTPS_PROXY_TOKEN")
unfolding resolve_bearer_token trim_space
from_env = refl

-- A file that cannot be read does not fall through to the environment.
unread : resolve_bearer_token bare_system [] (codes "f") ≡ err (token_unread (codes "f"))
unfolding resolve_bearer_token trim_space
unread = refl

split_destination : parse_destination (codes " demo@h@x ") ≡ ok (codes "demo", codes "h@x")
unfolding parse_destination trim_space cut
split_destination = refl

port_only : parse_listen_addr (codes ":8080") ≡ ok (codes "127.0.0.1:8080")
unfolding parse_listen_addr trim_space split_host_port join_host_port
port_only = refl

named_port : parse_listen_addr (codes "h:http") ≡ err (invalid_listen_port (codes "http"))
unfolding parse_listen_addr trim_space split_host_port
named_port = refl

parse_listen_addr_ok_example :
    (host : Text) × (port : Text) × (is_digits port ≡ true)
    × (codes "127.0.0.1:8080" ≡ join_host_port host port)
    × ((host ≡ loopback)
        ⊎ ((split_host_port (trim_space (codes ":8080")) ≡ ok (host, port))
            × (is_empty host ≡ false)))
parse_listen_addr_ok_example =
    parse_listen_addr_ok (codes ":8080") (codes "127.0.0.1:8080") port_only
