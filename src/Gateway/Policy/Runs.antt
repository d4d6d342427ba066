-- ===== src/Gateway/Policy/Runs.antt =====
-- The policy at a concrete configuration.
use https_proxy.Base.{◌≡◌, refl, ◌⊎◌, ◌↔◌, ◌*◌, true, false, [], ◌∷◌}
use https_proxy.Base.Text.{codes}
use https_proxy.Shared.Modes.{proxy_mode_legacy_framed, proxy_mode_transparent_tunnel}
use https_proxy.Gateway.Policy.{Config, resolve_proxy_mode}
use https_proxy.Gateway.Policy.Laws.{IsAllowed, resolve_proxy_mode_iff}

abbrev pub demo_config : Config
demo_config = record {
  agent_token_set = codes "secret" ∷ [];
  transparent_enabled = true;
  force_legacy_mode = false;
  transparent_allow_uuid_set = codes "u1" ∷ [];
  transparent_allow_prefixes = codes "dev-" ∷ [];
  max_streams_per_agent = 8;
  max_body_bytes = 512;
  stream_idle_timeout = 300 * 1_000_000_000;
  heartbeat_timeout = 60 * 1_000_000_000;
  first_resp_timeout = 30 * 1_000_000_000;
  ws_open_timeout = 10 * 1_000_000_000;
  client_ws_ping_interval = 0;
  ws_read_limit_bytes = 41_943_040;
}

not_whitelisted :
    resolve_proxy_mode demo_config (codes "u2") proxy_mode_transparent_tunnel
    ≡ (proxy_mode_legacy_framed, codes "transparent_not_whitelisted")
unfolding resolve_proxy_mode https_proxy.Gateway.Policy.is_transparent_allowed
not_whitelisted = refl

resolve_proxy_mode_iff_example :
    (((resolve_proxy_mode demo_config (codes "dev-7") proxy_mode_transparent_tunnel).0
        ≡ proxy_mode_transparent_tunnel)
      ↔ ((proxy_mode_transparent_tunnel ≡ proxy_mode_transparent_tunnel)
          × (demo_config.transparent_enabled ≡ true)
          × (demo_config.force_legacy_mode ≡ false)
          × IsAllowed demo_config (codes "dev-7")))
    × (((resolve_proxy_mode demo_config (codes "dev-7") proxy_mode_transparent_tunnel).0
          ≡ proxy_mode_transparent_tunnel)
        ⊎ ((resolve_proxy_mode demo_config (codes "dev-7") proxy_mode_transparent_tunnel).0
            ≡ proxy_mode_legacy_framed))
resolve_proxy_mode_iff_example =
    resolve_proxy_mode_iff demo_config (codes "dev-7") proxy_mode_transparent_tunnel
