-- ===== src/Gateway/Env/Runs.antt =====
-- Environments at concrete inputs.
use https_proxy.Base.{◌*◌, ◌≡◌, refl, true, false, [], ◌∷◌, none, some, if◌then◌else◌}
use https_proxy.Base.Int.{pos}
use https_proxy.Base.Text.{codes, text_eq, is_empty, trim_space, to_lower, split, atoi}
use https_proxy.Gateway.Env.{Environment, second, value, agent_tokens, new_server_from_env}

abbrev demo_env : Environment
demo_env = record {
  getenv = λ k.
      if text_eq k (codes "HTTPS_PROXY_AGENT_TOKENS")
      then codes " a,, b"
      else if text_eq k (codes "HTTPS_PROXY_HEARTBEAT_TIMEOUT")
      then codes "3"
      else if text_eq k (codes "HTTPS_PROXY_STREAM_IDLE_TIMEOUT")
      then codes "10000000000"
      else if text_eq k (codes "HTTPS_PROXY_TRANSPARENT_ENABLED")
      then codes "On"
      else [];
  parse_duration = λ s. none;
}

tokens : agent_tokens demo_env ≡ codes "a" ∷ codes "b" ∷ []
unfolding agent_tokens trim_space split
tokens = refl

enabled : (new_server_from_env demo_env).transparent_enabled ≡ true
unfolding new_server_from_env trim_space to_lower
enabled = refl

raised : (new_server_from_env demo_env).heartbeat_timeout ≡ 25 * second
unfolding new_server_from_env trim_space atoi
raised = refl

idle_set : is_empty (value demo_env (codes "HTTPS_PROXY_STREAM_IDLE_TIMEOUT")) ≡ false
unfolding trim_space
idle_set = refl

idle_seconds :
    atoi (value demo_env (codes "HTTPS_PROXY_STREAM_IDLE_TIMEOUT")) ≡ some (pos 10000000000)
unfolding trim_space atoi
idle_seconds = refl
