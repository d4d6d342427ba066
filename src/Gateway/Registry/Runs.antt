-- ===== src/Gateway/Registry/Runs.antt =====
-- A gateway with two agents, at concrete inputs.
use https_proxy.Base.{◌≡◌, refl, true, [], ◌∷◌, none, some, arith}
use https_proxy.Base.Text.{codes, trim_space, to_lower}
use https_proxy.Base.Assoc.{lookup, text_keys}
use https_proxy.Gateway.Policy.{
  Config, resolve_proxy_mode, normalize_register_proxy_mode, normalize_register_target_kind,
}
use https_proxy.Gateway.Policy.Runs.{demo_config}
use https_proxy.Shared.Modes.{normalize_proxy_mode, proxy_mode_transparent_tunnel}
use https_proxy.Gateway.Stream.{AgentConn, new_agent_conn}
use https_proxy.Gateway.Stream.Steps.{begins}
use https_proxy.Gateway.Registry.{
  Server, RegisterRequest, handle_register, register_conn, get_agent, watch, registers, watches,
  operates, serve, serve_all, token_refused, registered, forbidden,
}
use https_proxy.Gateway.Registry.Invariant.{RegInv, new_server, serve_all-new_server-RegInv}
use https_proxy.Gateway.Registry.Ownership.{serve-get_agent, handle_register_again}

abbrev ask : RegisterRequest
ask = record {
  token = codes "secret";
  uuid = codes "u1";
  proxy_mode = codes "transparent";
  target_kind = codes "tcp";
  upgraded = true;
}

abbrev agent : AgentConn
agent = register_conn 7 ask demo_config

abbrev gone : AgentConn
gone = record agent { closed = true }

abbrev server : Server
server = record { config = demo_config; agent_by_uuid = (codes "u1", 0) ∷ []; conns = agent ∷ [] }

registered_transparent :
    (handle_register 7 ask (new_server demo_config)).1
    ≡ registered 0 proxy_mode_transparent_tunnel (codes "transparent_allowed")
unfolding handle_register register_conn lookup normalize_register_proxy_mode normalize_proxy_mode
    trim_space to_lower resolve_proxy_mode https_proxy.Gateway.Policy.is_transparent_allowed
    new_agent_conn
registered_transparent = refl

refused_token : (handle_register 7 (record ask { token = [] }) server).1 ≡ forbidden
unfolding handle_register
refused_token = refl

serve_all-new_server-RegInv_example :
    ((serve_all
        (registers 7 ask ∷ operates (begins none) 0 ∷ watches 0 ∷ [])
        (new_server demo_config)).config
      ≡ demo_config)
    × RegInv (
        serve_all
          (registers 7 ask ∷ operates (begins none) 0 ∷ watches 0 ∷ [])
          (new_server demo_config))
serve_all-new_server-RegInv_example =
    serve_all-new_server-RegInv demo_config
      (registers 7 ask ∷ operates (begins none) 0 ∷ watches 0 ∷ [])

serve-get_agent_example : get_agent (codes "u1") (serve (watches 3) server) ≡ some 0
unfolding lookup
serve-get_agent_example = serve-get_agent (watches 3) (codes "u1") 0 server refl (λ e. omega arith)

handle_register_again_example :
    get_agent (codes "u1") (handle_register 9 ask (watch 0 (record server { conns = gone ∷ [] }))).0
    ≡ some 1
unfolding lookup token_refused register_conn new_agent_conn
handle_register_again_example =
    handle_register_again 9 0 ask (record server { conns = gone ∷ [] }) gone refl refl refl refl
      refl (λ e. cc) refl
