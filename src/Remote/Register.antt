-- ===== src/Remote/Register.antt =====
-- BuildRegisterURL, TargetKindFromTargetURL, ValidateProxyModeTarget and ParseRemoteTargetURL.
use https_proxy.Base.{Bool, not, ◌&&◌, ◌||◌, List, [], ◌∷◌, ◌++◌, Option, none, some, if◌then◌else◌}
use https_proxy.Base.Text.{Text, codes, text_eq, text_mem, is_empty, trim_space, to_lower, contains}
use https_proxy.Base.Results.{Result, ok, err}
use https_proxy.Shared.Modes.{
  normalize_target_kind, proxy_mode_transparent_tunnel, target_kind_unknown, target_kind_http,
  target_kind_tcp, target_kind_web_socket,
}
use https_proxy.Remote.Url.{Url, set_query}

-- Each with the text that its message quotes.
pub data ForwardError : Type 0 where
  register_host_empty target_empty target_not_tunnelled : ForwardError
  invalid_register_host unsupported_register_scheme missing_register_host : Text → ForwardError
  invalid_target_kind invalid_proxy_mode invalid_target unsupported_target : Text → ForwardError
  missing_target_host missing_target_port target_has_path : Text → ForwardError
  scheme_not_allowed no_default_port invalid_register_ip invalid_register_ip_port :
      Text → ForwardError
  resolve_failed no_record : Text → ForwardError

abbrev pub scheme_of : Url → Text
scheme_of u = to_lower (trim_space u.scheme)

abbrev pub is_blank : Text → Bool
is_blank s = is_empty (trim_space s)

unfoldable pub register_scheme : Text → Result ForwardError Text
register_scheme scheme =
    let low = to_lower (trim_space scheme) in
    if text_eq low (codes "https")
    then ok (codes "wss")
    else if text_eq low (codes "http")
    then ok (codes "ws")
    else if text_mem low (codes "wss" ∷ codes "ws" ∷ [])
    then ok scheme
    else err (unsupported_register_scheme scheme)

abbrev pub register_path : Text → Text
register_path path = if is_empty path || text_eq path (codes "/") then codes "/register" else path

abbrev pub set_proxy_mode : Text → List (Text × List Text) → List (Text × List Text)
set_proxy_mode mode q = if not (is_blank mode) then set_query (codes "proxy_mode") mode q else q

abbrev pub set_target_kind : Text → List (Text × List Text) → List (Text × List Text)
set_target_kind kind q =
    if not (text_eq kind target_kind_unknown) then set_query (codes "target_kind") kind q else q

unfoldable pub fill_register_url : Text → Text → Text → Url → Result ForwardError Url
unfolding register_scheme
fill_register_url uuid proxy_mode target_kind u = elim (register_scheme u.scheme) [
  | err e ↦ err e
  | ok scheme ↦
      if is_blank u.host
      then err (missing_register_host u.host)
      else elim (normalize_target_kind target_kind) [
        | err e ↦ err (invalid_target_kind target_kind)
        | ok kind ↦ ok (record u {
          scheme = scheme;
          path = register_path u.path;
          query =
              set_target_kind kind
                (set_proxy_mode proxy_mode (set_query (codes "uuid") uuid u.query));
        })
      ]
]

abbrev pub with_scheme : Text → Text
with_scheme raw = if contains raw (codes "://") then raw else codes "https://" ++ raw

unfoldable pub build_register_url :
    (Text → Option Url) → Text → Text → Text → Text → Result ForwardError Url
unfolding fill_register_url
build_register_url parse register_host uuid proxy_mode target_kind =
    if is_blank register_host
    then err register_host_empty
    else elim (parse (with_scheme (trim_space register_host))) [
      | none ↦ err (invalid_register_host register_host)
      | some u ↦ fill_register_url uuid proxy_mode target_kind u
    ]

unfoldable pub target_kind_from_target_url : Url → Text
target_kind_from_target_url target =
    let scheme = scheme_of target in
    if text_mem scheme (codes "http" ∷ codes "https" ∷ [])
    then target_kind_http
    else if text_eq scheme (codes "tcp")
    then target_kind_tcp
    else if text_mem scheme (codes "ws" ∷ codes "wss" ∷ [])
    then target_kind_web_socket
    else target_kind_unknown

-- `none`: the pair of mode and target is valid.
unfoldable pub validate_proxy_mode_target : Text → Url → Option ForwardError
validate_proxy_mode_target proxy_mode target =
    if not (text_eq proxy_mode proxy_mode_transparent_tunnel)
    then none
    else if not (text_mem (scheme_of target) (codes "tcp" ∷ codes "ws" ∷ codes "wss" ∷ []))
    then some target_not_tunnelled
    else none

abbrev pub target_schemes : List Text
target_schemes = codes "http" ∷ codes "https" ∷ codes "tcp" ∷ codes "ws" ∷ codes "wss" ∷ []

unfoldable pub check_target : Text → Url → Result ForwardError Url
check_target raw u =
    if not (text_mem (scheme_of u) target_schemes)
    then err (unsupported_target raw)
    else if is_blank u.host
    then err (missing_target_host raw)
    else if text_eq (scheme_of u) (codes "tcp") && is_blank u.port
    then err (missing_target_port raw)
    else if text_eq (scheme_of u) (codes "tcp")
        && (not (is_empty u.path) && not (text_eq u.path (codes "/")))
    then err (target_has_path raw)
    else ok u

unfoldable pub parse_remote_target_url : (Text → Option Url) → Text → Result ForwardError Url
unfolding check_target
parse_remote_target_url parse raw =
    if is_blank raw then err target_empty else elim (parse (trim_space raw)) [
      | none ↦ err (invalid_target raw)
      | some u ↦ check_target raw u
    ]
