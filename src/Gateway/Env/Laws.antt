-- ===== src/Gateway/Env/Laws.antt =====
-- What the configuration that is read guarantees the handlers.
use https_proxy.Base.{
  ℕ, ◌*◌, ◌%◌, ◌^◌, ◌≤◌, ◌<◌, ◌≡◌, refl, true, false, List, [], ◌∷◌, none, some, arith, if_elim,
  All, length,
}
use https_proxy.Base.Int.{ℤ, pos, pos_part}
use https_proxy.Base.Text.{Text, codes, text_mem, is_empty, trim_space, split, atoi}
use https_proxy.Gateway.Registry.{token_refused}
use https_proxy.Gateway.Env.{
  Environment, second, value, env_duration, trimmed, env_comma_string_slice, agent_tokens,
  new_server_from_env,
}

trimmed-nonempty : (ps : List Text) → All (λ p. is_empty p ≡ false) (trimmed ps)
unfolding trimmed
trimmed-nonempty [] = tt
trimmed-nonempty (p ∷ ps) =
    if_elim (All (λ t. is_empty t ≡ false)) (is_empty (trim_space p)) (λ e. trimmed-nonempty ps)
      (λ e. (e, trimmed-nonempty ps))

empty_not_in : (ts : List Text) → All (λ p. is_empty p ≡ false) ts → text_mem [] ts ≡ false
empty_not_in [] a = refl
empty_not_in ([] ∷ ts) a = ground arith
empty_not_in ((b ∷ t) ∷ ts) a = ground (arith, empty_not_in ts)

env_comma-nonempty :
    (env : Environment) (key : Text)
    → All (λ p. is_empty p ≡ false) (env_comma_string_slice env key)
unfolding env_comma_string_slice
env_comma-nonempty env key =
    if_elim (All (λ p. is_empty p ≡ false)) (is_empty (value env key)) (λ e. tt)
      (λ e. trimmed-nonempty (split b',' (value env key)))

-- As soon as one agent token is configured, a registration without a token is refused; and no empty
-- prefix, which every uuid would begin with, is ever on the list of transparent prefixes.
pub new_server_from_env_strict :
    (env : Environment)
    → (0 < length (new_server_from_env env).agent_token_set
        → token_refused (new_server_from_env env) [] ≡ true)
      × All (λ p. is_empty p ≡ false) (new_server_from_env env).transparent_allow_prefixes
unfolding new_server_from_env token_refused agent_tokens
new_server_from_env_strict env = (
  λ h. ground (
    arith,
    empty_not_in (agent_tokens env)
        (trimmed-nonempty (split b',' (env.getenv (codes "HTTPS_PROXY_AGENT_TOKENS")))),
  ),
  env_comma-nonempty env (codes "HTTPS_PROXY_TRANSPARENT_ALLOW_PREFIXES"),
)

-- A setting of so many seconds that their nanoseconds have the sign bit of 64 bits switches its timer
-- off, whatever the default.
pub env_duration_wraps :
    (env : Environment) (key : Text) (def : ℤ) (n : ℕ)
    → is_empty (value env key) ≡ false
    → env.parse_duration (value env key) ≡ none
    → atoi (value env key) ≡ some (pos n)
    → 2 ^ 63 ≤ n * second % 2 ^ 64
    → pos_part (env_duration env key def) ≡ 0
unfolding env_duration
env_duration_wraps env key def n e p a h = ground arith
