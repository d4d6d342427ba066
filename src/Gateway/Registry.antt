-- ===== src/Gateway/Registry.antt =====
-- internal/gateway/server.go: which connection serves a uuid. A pointer to a connection is its index
-- in `conns`, which only grows; each step under the server's lock is one function.
pub mod Invariant
pub mod Ownership
mod Runs
use https_proxy.Base.{
  ℕ, ◌<◌, Bool, true, false, not, ◌&&◌, ◌||◌, List, [], ◌∷◌, ◌++◌, Option, none, some, length,
  get_elem?, set, ltb, ◌==◌, if◌then◌else◌,
}
use https_proxy.Base.Text.{Text, text_mem, is_empty}
use https_proxy.Base.Assoc.{lookup, insert, delete, text_keys}
use https_proxy.Gateway.Policy.{
  Config, resolve_proxy_mode, normalize_register_proxy_mode, normalize_register_target_kind,
}
use https_proxy.Gateway.Stream.{AgentConn, new_agent_conn, idle_for}
use https_proxy.Gateway.Stream.Shutdown.{close_with_err}
use https_proxy.Gateway.Stream.Steps.{Op, step}

pub record Server : Type 0 where
  pub config : Config
  pub open config use *
  pub agent_by_uuid : List (Text × ℕ)
  pub conns : List AgentConn

-- What handleRegister reads of a request, and whether the WebSocket upgrade succeeds.
pub record RegisterRequest : Type 0 where
  pub token : Text
  pub uuid : Text
  pub proxy_mode : Text
  pub target_kind : Text
  pub upgraded : Bool

-- The last two carry the mode and the reason of the handshake's response headers.
pub data RegisterOutcome : Type 0 where
  forbidden missing_uuid upgrade_failed : RegisterOutcome
  uuid_already_active : Text → Text → RegisterOutcome
  registered : ℕ → Text → Text → RegisterOutcome

unfoldable pub token_refused : Config → Text → Bool
token_refused s token = ltb 0 (length s.agent_token_set) && not (text_mem token s.agent_token_set)

unfoldable pub register_conn : ℕ → RegisterRequest → Config → AgentConn
register_conn now q s =
    let requested = normalize_register_proxy_mode q.proxy_mode in
    let (effective, reason) = resolve_proxy_mode s q.uuid requested in
    new_agent_conn q.uuid requested effective reason (normalize_register_target_kind q.target_kind)
      s.max_streams_per_agent now

-- The part under the lock: an agent that is registered stays.
unfoldable pub register_locked : RegisterRequest → AgentConn → Server → Server × RegisterOutcome
register_locked q c s = elim (lookup q.uuid s.agent_by_uuid) [
  | some old ↦ (s, uuid_already_active c.proxy_mode_effective c.proxy_mode_reason)
  | none ↦ (
    record s {
      agent_by_uuid = insert q.uuid (length s.conns) s.agent_by_uuid;
      conns = s.conns ++ (c ∷ []);
    },
    registered (length s.conns) c.proxy_mode_effective c.proxy_mode_reason,
  )
]

unfoldable pub handle_register : ℕ → RegisterRequest → Server → Server × RegisterOutcome
unfolding token_refused register_locked
handle_register now q s =
    if token_refused s.config q.token
    then (s, forbidden)
    else if is_empty q.uuid
    then (s, missing_uuid)
    else if not q.upgraded
    then (s, upgrade_failed)
    else register_locked q (register_conn now q s.config) s

-- Pointers are compared.
abbrev pub points_to : Option ℕ → ℕ → Bool
points_to none r = false
points_to (some q) r = q == r

unfoldable pub remove_agent_if_match : Text → ℕ → Server → Server
remove_agent_if_match uuid r s =
    if points_to (lookup uuid s.agent_by_uuid) r
    then record s { agent_by_uuid = delete uuid s.agent_by_uuid }
    else s

abbrev pub get_agent : Text → Server → Option ℕ
get_agent uuid s = lookup uuid s.agent_by_uuid

-- The goroutine that waits for the connection's closing; until then it does nothing.
unfoldable pub watch : ℕ → Server → Server
unfolding remove_agent_if_match
watch r s = elim (get_elem? s.conns r) [
  | none ↦ s
  | some c ↦ if c.closed then remove_agent_if_match c.uuid r s else s
]

-- A connection's own operations, seen from the server.
unfoldable pub conn_step : Op → ℕ → Server → Server
conn_step op r s = elim (get_elem? s.conns r) [
  | none ↦ s
  | some c ↦ record s { conns = set s.conns r (step op c) }
]

-- A tick of the heartbeat goroutine of a connection, which its select may take although the connection is closed
-- by now. The answer says whether the goroutine goes on to close the connection, in steps of its own.
unfoldable pub heartbeat_tick : ℕ → ℕ → Server → Server × Bool
unfolding remove_agent_if_match
heartbeat_tick now r s = elim (get_elem? s.conns r) [
  | none ↦ (s, false)
  | some c ↦
      if ltb 0 s.config.heartbeat_timeout && ltb s.config.heartbeat_timeout (idle_for now c)
      then (remove_agent_if_match c.uuid r s, true)
      else (s, false)
]

-- `c.closeWithErr(errors.New(reason))`, where no other goroutine runs in between.
unfoldable pub close_agent : Text → ℕ → Server → Server
close_agent reason r s = elim (get_elem? s.conns r) [
  | none ↦ s
  | some c ↦ record s { conns = set s.conns r (close_with_err (some reason) c) }
]

-- The tick and what follows it, where no other goroutine runs in between; `reason` is the formatted message.
unfoldable pub heartbeat : ℕ → Text → ℕ → Server → Server
unfolding heartbeat_tick close_agent
heartbeat now reason r s =
    let (s', expired) = heartbeat_tick now r s in if expired then close_agent reason r s' else s'

pub data Move : Type 0 where
  registers : ℕ → RegisterRequest → Move
  watches : ℕ → Move
  beats : ℕ → ℕ → Move
  operates : Op → ℕ → Move

unfoldable pub serve : Move → Server → Server
serve (registers now q) s = (handle_register now q s).0
serve (watches r) s = watch r s
serve (beats now r) s = (heartbeat_tick now r s).0
serve (operates op r) s = conn_step op r s

unfoldable pub serve_all : List Move → Server → Server
serve_all [] s = s
serve_all (m ∷ ms) s = serve_all ms (serve m s)
