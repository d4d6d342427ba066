-- ===== src/Gateway/Route/Runs.antt =====
-- Requests at concrete inputs.
use https_proxy.Base.{◌≡◌, refl, true, false, [], ◌∷◌, some, arith}
use https_proxy.Base.Text.{Text, codes, cut}
use https_proxy.Base.Assoc.{lookup}
use https_proxy.Gateway.Policy.Runs.{demo_config}
use https_proxy.Gateway.Stream.{AgentConn, new_agent_conn}
use https_proxy.Gateway.Registry.{Server, get_agent}
use https_proxy.Gateway.Route.{Request, to_ws_transparent, ws_route, serve_http, status_forbidden}
use https_proxy.Gateway.Route.Laws.{FirstSegment, serve_http_reaches, serve_http_owner}

abbrev agent : AgentConn
agent = new_agent_conn (codes "u1") [] (codes "transparent_tunnel") [] (codes "tcp") 8 0

abbrev server : Server
server = record { config = demo_config; agent_by_uuid = (codes "u1", 0) ∷ []; conns = agent ∷ [] }

abbrev asks : Text → Request
asks path = record { path = path; from_localhost = false; is_upgrade = true }

status_from_afar : serve_http (asks (codes "/status")) server ≡ status_forbidden
unfolding serve_http
status_from_afar = refl

upgrade_root : serve_http (asks (codes "/u1")) server ≡ to_ws_transparent 0 (codes "/")
unfolding serve_http cut lookup new_agent_conn
upgrade_root = refl

serve_http_reaches_example :
    serve_http (asks (codes "/u1/ws/a")) server ≡ ws_route agent 0 (codes "/ws/a")
unfolding lookup
serve_http_reaches_example =
    serve_http_reaches server (codes "u1") (codes "ws/a") 0 agent false true (λ e. cc) (omega arith)
      refl refl refl refl

serve_http_owner_example :
    (uuid : Text) × FirstSegment (codes "/u1/x") uuid × (get_agent uuid server ≡ some 0)
unfolding serve_http cut lookup new_agent_conn
serve_http_owner_example = serve_http_owner (asks (codes "/u1/x")) server 0 refl
