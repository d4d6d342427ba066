-- ===== src/Cli.antt =====
-- cmd/clockbridge-cli/main.go: the choice of the mode, and the arguments of both modes. The
-- environment, the files and url.Parse are parameters.
pub mod Laws
mod Runs
use https_proxy.Base.{
  ℕ, not, ◌&&◌, ◌||◌, Bool, true, false, List, [], ◌∷◌, ◌++◌, Option, none, some, if◌then◌else◌,
}
use https_proxy.Base.Text.{
  Text, codes, text_eq, text_mem, is_empty, trim_space, to_lower, cut, all_digits,
}
use https_proxy.Base.Results.{Result, ok, err}
use https_proxy.Remote.Address.{split_host_port, join_host_port}
use https_proxy.Remote.Url.{Url}
use https_proxy.Remote.Register.{ForwardError, is_blank, scheme_of}
use https_proxy.Remote.Dial.{Resolver}
use https_proxy.Remote.Forward.{RemoteForward, new_remote_forward}

pub data Mode : Type 0 where
  local_forward remote_forward : Mode

pub data CliError : Type 0 where
  mutually_exclusive no_mode one_destination empty_listen_spec : CliError
  invalid_listen_spec invalid_listen_port invalid_destination : Text → CliError
  empty_url : CliError
  invalid_url not_http missing_host : Text → CliError
  token_unread token_empty : Text → CliError
  forward_error : ForwardError → CliError

unfoldable pub resolve_mode : Text → Text → Result CliError Mode
resolve_mode local_spec remote_target =
    let has_local = not (is_blank local_spec) in
    let has_remote = not (is_blank remote_target) in
    if has_local && has_remote
    then err mutually_exclusive
    else if not has_local && not has_remote
    then err no_mode
    else if has_local
    then ok local_forward
    else ok remote_forward

abbrev pub is_digits : Text → Bool
is_digits input = not (is_empty input) && all_digits input

abbrev pub loopback : Text
loopback = codes "127.0.0.1"

unfoldable pub listen_at : Text → Result CliError Text
listen_at spec =
    if is_empty spec
    then err empty_listen_spec
    else if is_digits spec
    then ok (codes "127.0.0.1:" ++ spec)
    else elim (split_host_port spec) [
      | err e ↦ err (invalid_listen_spec spec)
      | ok (host, port) ↦
          if not (is_digits port)
          then err (invalid_listen_port port)
          else ok (join_host_port (if is_empty host then loopback else host) port)
    ]

unfoldable pub parse_listen_addr : Text → Result CliError Text
unfolding listen_at
parse_listen_addr raw = listen_at (trim_space raw)

abbrev pub destination : Text → Text × Option Text → Result CliError (Text × Text)
destination spec (w, none) = err (invalid_destination spec)
destination spec (w, some r) =
    if is_blank w || is_blank r
    then err (invalid_destination spec)
    else ok (trim_space w, trim_space r)

unfoldable pub parse_destination : Text → Result CliError (Text × Text)
parse_destination raw = destination (trim_space raw) (cut b'@' (trim_space raw))

unfoldable pub parse_http_url : (Text → Option Url) → Text → Result CliError Url
parse_http_url parse raw = if is_blank raw then err empty_url else elim (parse (trim_space raw)) [
  | none ↦ err (invalid_url raw)
  | some u ↦
      if not (text_mem (scheme_of u) (codes "http" ∷ codes "https" ∷ []))
      then err (not_http raw)
      else if is_blank u.host
      then err (missing_host raw)
      else ok u
]

-- os.Getenv and os.ReadFile, whose error is `none`.
pub record System : Type 0 where
  pub getenv : Text → Text
  pub read_file : Text → Option Text

unfoldable pub read_token_from_file : System → Text → Result CliError Text
read_token_from_file sys path = elim (sys.read_file path) [
  | none ↦ err (token_unread path)
  | some bytes ↦ if is_blank bytes then err (token_empty path) else ok (trim_space bytes)
]

abbrev pub with_source : Text → Result CliError Text → Result CliError (Text × Text)
with_source source (ok token) = ok (token, source)
with_source source (err e) = err e

unfoldable pub resolve_bearer_token : System → Text → Text → Result CliError (Text × Text)
unfolding read_token_from_file
resolve_bearer_token sys token_flag identity_file =
    let env_token = sys.getenv (codes "CLOCKBRIDGE_HTTPS_PROXY_TOKEN") in
    let env_path = sys.getenv (codes "CLOCKBRIDGE_HTTPS_PROXY_TOKEN_PATH") in
    if not (is_blank token_flag)
    then ok (trim_space token_flag, codes "flag:--token")
    else if not (is_blank identity_file)
    then with_source (codes "flag:-i") (read_token_from_file sys (trim_space identity_file))
    else if not (is_blank env_token)
    then ok (trim_space env_token, codes "env:CLOCKBRIDGE_HTTPS_PROXY_TOKEN")
    else if not (is_blank env_path)
    then with_source (codes "env:CLOCKBRIDGE_HTTPS_PROXY_TOKEN_PATH")
        (read_token_from_file sys (trim_space env_path))
    else ok ([], codes "none")

-- The checks of runLocalForward: the address to listen on and the upstream, for reverseproxy.New.
unfoldable pub local_forward_args :
    (Text → Option Url) → Text → List Text → Result CliError (Text × Url)
unfolding parse_listen_addr parse_http_url
local_forward_args parse local_spec (arg ∷ []) = elim (parse_listen_addr local_spec) [
  | err e ↦ err e
  | ok addr ↦ elim (parse_http_url parse arg) [ err e ↦ err e | ok u ↦ ok (addr, u) ]
]
local_forward_args parse local_spec [] = err one_destination
local_forward_args parse local_spec (a ∷ b ∷ args) = err one_destination

abbrev pub lift_forward : Result ForwardError RemoteForward → Result CliError RemoteForward
lift_forward (ok f) = ok f
lift_forward (err e) = err (forward_error e)

-- The checks of runRemoteForward, up to the forward that it runs.
unfoldable pub remote_forward_args :
    (Text → Option Url)
    → Resolver
    → Text
    → List Text
    → Text
    → Text
    → Text
    → Text
    → Result CliError RemoteForward
unfolding parse_destination
remote_forward_args parse n target (arg ∷ []) mode ip token x_token = elim (parse_destination arg) [
  | err e ↦ err e
  | ok (uuid, host) ↦ lift_forward (
      new_remote_forward parse n (record {
        target_url = target;
        uuid = uuid;
        register_host = host;
        register_ip = ip;
        proxy_mode = mode;
        register_x_token = trim_space x_token;
        register_bearer_token = token;
      }))
]
remote_forward_args parse n target [] mode ip token x_token = err one_destination
remote_forward_args parse n target (a ∷ b ∷ args) mode ip token x_token = err one_destination
