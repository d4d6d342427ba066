-- ===== src/Gateway/Env.antt =====
-- internal/gateway/server.go: NewServerFromEnv and its parsers. The environment and
-- time.ParseDuration are parameters. A time.Duration is a signed number of nanoseconds in 64 bits.
pub mod Laws
mod Runs
use https_proxy.Base.{
  ℕ, ◌+◌, ◌-◌, ◌*◌, ◌%◌, ◌^◌, Bool, true, false, ◌||◌, not, List, [], ◌∷◌, Option, none, some, ltb,
  leb, if◌then◌else◌,
}
use https_proxy.Base.Int.{ℤ, pos, negsuc, pos_part, ltb_ℤ}
use https_proxy.Base.Text.{Text, codes, text_mem, is_empty, trim_space, to_lower, split, atoi}
use https_proxy.Shared.WsClose.{ws_read_limit_bytes}
use https_proxy.Gateway.Policy.{Config}

pub record Environment : Type 0 where
  pub getenv : Text → Text
  pub parse_duration : Text → Option ℤ

abbrev pub second : ℕ
second = 1000000000

abbrev pub default_agent_ping_interval : ℕ
default_agent_ping_interval = 20 * second

abbrev pub min_heartbeat_grace : ℕ
min_heartbeat_grace = 5 * second

-- The int64 with the low 64 bits of a number.
abbrev pub signed : ℕ → ℤ
signed n = if ltb (n % 2 ^ 64) (2 ^ 63) then pos (n % 2 ^ 64) else negsuc (2 ^ 64 - 1 - n % 2 ^ 64)

abbrev pub value : Environment → Text → Text
value env key = trim_space (env.getenv key)

abbrev pub natural_or : ℕ → Option ℤ → ℕ
natural_or def none = def
natural_or def (some (pos n)) = n
natural_or def (some (negsuc n)) = def

-- envInt64 is the same, since an `int` has 64 bits.
unfoldable pub env_int : Environment → Text → ℕ → ℕ
env_int env key def =
    if is_empty (value env key) then def else natural_or def (atoi (value env key))

-- `time.Duration(n) * time.Second`, which wraps.
abbrev pub seconds_or : ℤ → Option ℤ → ℤ
seconds_or def none = def
seconds_or def (some (pos n)) = signed (n * second)
seconds_or def (some (negsuc n)) = def

abbrev pub duration_or : ℤ → ℤ → ℤ
duration_or def (pos n) = pos n
duration_or def (negsuc n) = def

unfoldable pub env_duration : Environment → Text → ℤ → ℤ
env_duration env key def =
    if is_empty (value env key) then def else elim (env.parse_duration (value env key)) [
      | some d ↦ duration_or def d
      | none ↦ seconds_or def (atoi (value env key))
    ]

unfoldable pub env_bool : Environment → Text → Bool → Bool
env_bool env key def =
    let v = to_lower (value env key) in
    if is_empty v
    then def
    else if text_mem v (codes "1" ∷ codes "true" ∷ codes "yes" ∷ codes "y" ∷ codes "on" ∷ [])
    then true
    else if text_mem v (codes "0" ∷ codes "false" ∷ codes "no" ∷ codes "n" ∷ codes "off" ∷ [])
    then false
    else def

-- The trimmed parts that are not empty.
unfoldable pub trimmed : List Text → List Text
trimmed [] = []
trimmed (p ∷ ps) =
    let rest = trimmed ps in if is_empty (trim_space p) then rest else trim_space p ∷ rest

unfoldable pub env_comma_string_slice : Environment → Text → List Text
unfolding trimmed
env_comma_string_slice env key =
    if is_empty (value env key) then [] else trimmed (split b',' (value env key))

-- The set of the tokens; its source splits the value before it trims it.
unfoldable pub agent_tokens : Environment → List Text
unfolding trimmed
agent_tokens env = trimmed (split b',' (env.getenv (codes "HTTPS_PROXY_AGENT_TOKENS")))

unfoldable pub ping_interval_hint : Environment → ℤ
ping_interval_hint env =
    let hint =
      env_duration env (codes "HTTPS_PROXY_PING_INTERVAL_HINT") (pos default_agent_ping_interval) in
    if ltb_ℤ (pos 0) hint then hint else pos default_agent_ping_interval

unfoldable pub heartbeat_grace : Environment → ℤ
heartbeat_grace env =
    let grace = env_duration env (codes "HTTPS_PROXY_HEARTBEAT_GRACE") (pos min_heartbeat_grace) in
    if ltb_ℤ grace (pos min_heartbeat_grace) then pos min_heartbeat_grace else grace

-- A heartbeat timeout that is on is raised to the interval and the grace, whose sum may wrap.
unfoldable pub adjusted_heartbeat : ℤ → ℤ → ℤ → ℤ
adjusted_heartbeat timeout hint grace =
    let least = signed (pos_part hint + pos_part grace) in
    if ltb_ℤ (pos 0) timeout then (if ltb_ℤ timeout least then least else timeout) else timeout

-- Every use of a duration asks first whether it is positive, so one that is not is 0 here.
unfoldable pub new_server_from_env : Environment → Config
unfolding env_int env_duration env_bool env_comma_string_slice agent_tokens ping_interval_hint
    heartbeat_grace adjusted_heartbeat
new_server_from_env env = record {
  agent_token_set = agent_tokens env;
  transparent_enabled = env_bool env (codes "HTTPS_PROXY_TRANSPARENT_ENABLED") false;
  force_legacy_mode = env_bool env (codes "HTTPS_PROXY_FORCE_LEGACY_MODE") false;
  transparent_allow_uuid_set =
      env_comma_string_slice env (codes "HTTPS_PROXY_TRANSPARENT_ALLOW_UUIDS");
  transparent_allow_prefixes =
      env_comma_string_slice env (codes "HTTPS_PROXY_TRANSPARENT_ALLOW_PREFIXES");
  max_streams_per_agent = env_int env (codes "HTTPS_PROXY_MAX_STREAMS_PER_AGENT") 0;
  max_body_bytes = env_int env (codes "HTTPS_PROXY_MAX_BODY_BYTES") (512 * 2 ^ 20);
  stream_idle_timeout =
      pos_part (env_duration env (codes "HTTPS_PROXY_STREAM_IDLE_TIMEOUT") (pos (300 * second)));
  heartbeat_timeout = pos_part (
      adjusted_heartbeat
        (env_duration env (codes "HTTPS_PROXY_HEARTBEAT_TIMEOUT") (pos (60 * second)))
        (ping_interval_hint env) (heartbeat_grace env));
  first_resp_timeout =
      pos_part (env_duration env (codes "HTTPS_PROXY_FIRST_RESPONSE_TIMEOUT") (pos (30 * second)));
  ws_open_timeout =
      pos_part (env_duration env (codes "HTTPS_PROXY_WS_OPEN_TIMEOUT") (pos (10 * second)));
  client_ws_ping_interval =
      pos_part (env_duration env (codes "HTTPS_PROXY_CLIENT_WS_PING_INTERVAL") (pos 0));
  ws_read_limit_bytes = ws_read_limit_bytes;
}
