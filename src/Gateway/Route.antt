-- ===== src/Gateway/Route.antt =====
-- internal/gateway/server.go: ServeHTTP and handleClient, from a request's path to its handler.
pub mod Laws
mod Runs
use https_proxy.Base.{
  ℕ, Bool, true, false, not, List, [], ◌∷◌, ◌++◌, Option, none, some, get_elem?, if◌then◌else◌,
}
use https_proxy.Base.Text.{Text, codes, text_eq, has_prefix, trim_prefix_byte, is_empty, cut}
use https_proxy.Shared.Modes.{proxy_mode_transparent_tunnel, target_kind_web_socket}
use https_proxy.Gateway.Registry.{Server, get_agent}
use https_proxy.Gateway.Stream.{AgentConn}

abbrev pub slash : ℕ
slash = b'/'

-- What ServeHTTP and handleClient read of a request: `from_localhost` is isLocalhostRequest's answer,
-- `is_upgrade` that of the WebSocket library.
pub record Request : Type 0 where
  pub path : Text
  pub from_localhost : Bool
  pub is_upgrade : Bool

-- Where a request ends up; handlers get the connection and the path below the uuid.
pub data Route : Type 0 where
  status_page status_forbidden register_page not_found agent_offline : Route
  to_http to_ws_legacy to_ws_transparent to_ws_transparent_raw : ℕ → Text → Route

unfoldable pub split_path : Text → Text × Text
split_path trim = let (uuid, rest) = cut slash trim in (uuid, elim rest [ none ↦ [] | some r ↦ r ])

abbrev pub suffix_path : Text → Text
suffix_path rest = if not (is_empty rest) then slash ∷ rest else slash ∷ []

unfoldable pub ws_route : AgentConn → ℕ → Text → Route
ws_route c r suffix =
    if text_eq c.proxy_mode_effective proxy_mode_transparent_tunnel
    then (if text_eq c.target_kind target_kind_web_socket
        then to_ws_transparent_raw r suffix
        else to_ws_transparent r suffix)
    else to_ws_legacy r suffix

unfoldable pub agent_route : Bool → Text → Text → Server → Route
unfolding ws_route
agent_route is_upgrade uuid rest s = elim (get_agent uuid s) [
  | none ↦ agent_offline
  | some r ↦ elim (get_elem? s.conns r) [
    | none ↦ agent_offline
    | some c ↦ if is_upgrade then ws_route c r (suffix_path rest) else to_http r (suffix_path rest)
  ]
]

unfoldable pub handle_client : Request → Server → Route
unfolding split_path agent_route
handle_client q s =
    let trim = trim_prefix_byte q.path slash in
    if is_empty trim
    then not_found
    else let (uuid, rest) = split_path trim in agent_route q.is_upgrade uuid rest s

unfoldable pub serve_http : Request → Server → Route
unfolding handle_client
serve_http q s =
    if text_eq q.path (codes "/status")
    then (if not q.from_localhost then status_forbidden else status_page)
    else if has_prefix q.path (codes "/register")
    then register_page
    else handle_client q s
