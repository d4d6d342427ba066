-- ===== src/Gateway/Policy.antt =====
-- internal/gateway/server.go: the server's configuration, and which proxy mode an agent gets.
pub mod Laws
pub mod Runs
use https_proxy.Base.{ℕ, Bool, true, false, ◌||◌, not, List, [], ◌∷◌, if◌then◌else◌}
use https_proxy.Base.Text.{Text, codes, text_eq, text_mem, has_prefix, is_empty}
use https_proxy.Base.Results.{ok, err}
use https_proxy.Shared.Modes.{
  proxy_mode_legacy_framed, proxy_mode_transparent_tunnel, target_kind_unknown,
  normalize_proxy_mode, normalize_target_kind,
}

-- The fields that are set once, by NewServerFromEnv. Sizes are bytes and times are nanoseconds.
pub record Config : Type 0 where
  pub agent_token_set : List Text
  pub transparent_enabled : Bool
  pub force_legacy_mode : Bool
  pub transparent_allow_uuid_set : List Text
  pub transparent_allow_prefixes : List Text
  pub max_streams_per_agent : ℕ
  pub max_body_bytes : ℕ
  pub stream_idle_timeout : ℕ
  pub heartbeat_timeout : ℕ
  pub first_resp_timeout : ℕ
  pub ws_open_timeout : ℕ
  pub client_ws_ping_interval : ℕ
  pub ws_read_limit_bytes : ℕ

abbrev pub any_prefix : Text → List Text → Bool
any_prefix uuid [] = false
any_prefix uuid (p ∷ ps) = has_prefix uuid p || any_prefix uuid ps

unfoldable pub is_transparent_allowed : Config → Text → Bool
is_transparent_allowed s uuid =
    if is_empty uuid
    then false
    else if text_mem uuid s.transparent_allow_uuid_set
    then true
    else any_prefix uuid s.transparent_allow_prefixes

-- The effective mode, and why.
unfoldable pub resolve_proxy_mode : Config → Text → Text → Text × Text
resolve_proxy_mode s uuid requested =
    if not (text_eq requested proxy_mode_transparent_tunnel)
    then (proxy_mode_legacy_framed, codes "legacy_requested")
    else if s.force_legacy_mode
    then (proxy_mode_legacy_framed, codes "force_legacy_mode")
    else if not s.transparent_enabled
    then (proxy_mode_legacy_framed, codes "transparent_disabled")
    else if not (is_transparent_allowed s uuid)
    then (proxy_mode_legacy_framed, codes "transparent_not_whitelisted")
    else (proxy_mode_transparent_tunnel, codes "transparent_allowed")

-- An invalid value falls back, where the source also logs.
unfoldable pub normalize_register_proxy_mode : Text → Text
normalize_register_proxy_mode raw = elim (normalize_proxy_mode raw) [
  | ok mode ↦ mode
  | err e ↦ proxy_mode_legacy_framed
]

unfoldable pub normalize_register_target_kind : Text → Text
normalize_register_target_kind raw = elim (normalize_target_kind raw) [
  | ok kind ↦ kind
  | err e ↦ target_kind_unknown
]
