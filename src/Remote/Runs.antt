-- ===== src/Remote/Runs.antt =====
-- Registrations at concrete inputs.
use https_proxy.Base.{◌≡◌, refl, [], ◌∷◌, Option, none, some, false, if◌then◌else◌}
use https_proxy.Base.Text.{Text, codes, text_eq, trim_space, to_lower, atoi, cut}
use https_proxy.Base.Results.{ok, err}
use https_proxy.Base.Assoc.{insert}
use https_proxy.Shared.Modes.{
  normalize_proxy_mode, normalize_target_kind, proxy_mode_transparent_tunnel, target_kind_tcp,
}
use https_proxy.Remote.Url.{Url}
use https_proxy.Remote.Address.{split_host_port, join_host_port, too_many_colons, missing_port}
use https_proxy.Remote.Register.{
  is_blank, build_register_url, target_kind_from_target_url, validate_proxy_mode_target,
  parse_remote_target_url,
}
use https_proxy.Remote.Dial.{Resolver, resolve_register_dial_addr_with_lookup}
use https_proxy.Remote.Forward.{RemoteForwardConfig, RemoteForward, new_remote_forward}
use https_proxy.Remote.Announces.{Announces}
use https_proxy.Remote.Laws.{Reachable, new_remote_forward_ok}

abbrev pub tcp_url : Url
tcp_url = record {
  scheme = codes "tcp";
  host = codes "h:22";
  port = codes "22";
  path = [];
  query = [];
}

abbrev host_url : Url
host_url = record { scheme = codes "https"; host = codes "gw"; port = []; path = []; query = [] }

abbrev pub demo_parse : Text → Option Url
demo_parse s =
    if text_eq s (codes "tcp://h:22")
    then some tcp_url
    else if text_eq s (codes "https://gw")
    then some host_url
    else none

abbrev pub demo_net : Resolver
demo_net = record {
  parse_addr = λ s. if text_eq s (codes "10.0.0.1") then some s else none;
  ip_string = λ ip. codes "10.0.0.2";
  lookup_ip = λ s. if text_eq s (codes "name") then some ((10 ∷ 0 ∷ 0 ∷ 2 ∷ []) ∷ []) else none;
}

abbrev pub demo_config : RemoteForwardConfig
demo_config = record {
  target_url = codes "tcp://h:22";
  uuid = codes "demo";
  register_host = codes " gw";
  register_ip = codes "name:8443";
  proxy_mode = codes "transparent";
  register_x_token = [];
  register_bearer_token = codes "t ";
}

abbrev pub demo_register_url : Url
demo_register_url = record {
  scheme = codes "wss";
  host = codes "gw";
  port = [];
  path = codes "/register";
  query =
      (codes "uuid", codes "demo" ∷ [])
      ∷ (codes "proxy_mode", proxy_mode_transparent_tunnel ∷ [])
      ∷ (codes "target_kind", target_kind_tcp ∷ [])
      ∷ [];
}

abbrev pub demo_forward : RemoteForward
demo_forward = record {
  register_url = demo_register_url;
  register_dial_addr = codes "10.0.0.2:8443";
  register_x_token = [];
  register_bearer_token = codes "t";
  target = tcp_url;
}

resolved_demo :
    resolve_register_dial_addr_with_lookup demo_net (codes "name:8443") demo_register_url
    ≡ ok (codes "10.0.0.2:8443")
unfolding resolve_register_dial_addr_with_lookup trim_space to_lower split_host_port atoi
    join_host_port
resolved_demo = refl

pub forwarded : new_remote_forward demo_parse demo_net demo_config ≡ ok demo_forward
unfolding new_remote_forward resolve_register_dial_addr_with_lookup trim_space to_lower
    split_host_port atoi join_host_port parse_remote_target_url build_register_url
    validate_proxy_mode_target target_kind_from_target_url normalize_proxy_mode
    normalize_target_kind insert
forwarded = refl

new_remote_forward_ok_example :
    (mode : Text) × (normalize_proxy_mode demo_config.proxy_mode ≡ ok mode)
    × (demo_parse (trim_space demo_config.target_url) ≡ some tcp_url)
    × Reachable mode tcp_url
    × Announces (codes "demo") mode (target_kind_from_target_url tcp_url) demo_register_url
    × (resolve_register_dial_addr_with_lookup demo_net demo_config.register_ip demo_register_url
        ≡ ok demo_forward.register_dial_addr)
new_remote_forward_ok_example =
    new_remote_forward_ok demo_parse demo_net demo_config demo_forward forwarded

name_set : (is_blank (codes "name:8443")) ≡ false
unfolding trim_space
name_set = refl

too_many : split_host_port (codes "::1:80") ≡ err too_many_colons
unfolding split_host_port
too_many = refl

no_port : split_host_port (codes "[::1]") ≡ err missing_port
unfolding split_host_port cut
no_port = refl
