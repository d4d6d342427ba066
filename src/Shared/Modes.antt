-- ===== src/Shared/Modes.antt =====
-- internal/shared/proxymode.go: proxy modes and target kinds, and their aliases.
pub mod Laws
use https_proxy.Base.{List, [], ◌∷◌, if◌then◌else◌}
use https_proxy.Base.Text.{Text, codes, text_eq, text_mem, trim_space, to_lower}
use https_proxy.Base.Results.{Result, ok, err}

abbrev pub proxy_mode_legacy_framed : Text
proxy_mode_legacy_framed = codes "legacy_framed"

abbrev pub proxy_mode_transparent_tunnel : Text
proxy_mode_transparent_tunnel = codes "transparent_tunnel"

abbrev pub target_kind_unknown : Text
target_kind_unknown = codes "unknown"

abbrev pub target_kind_http : Text
target_kind_http = codes "http"

abbrev pub target_kind_tcp : Text
target_kind_tcp = codes "tcp"

abbrev pub target_kind_web_socket : Text
target_kind_web_socket = codes "ws"

-- The text is what the message quotes.
pub data ModeError : Type 0 where
  unsupported_proxy_mode unsupported_target_kind : Text → ModeError

-- `switch value` with the aliases of each case.
unfoldable pub proxy_mode_of : Text → Text → Result ModeError Text
proxy_mode_of raw value =
    if text_mem value ([] ∷ codes "legacy" ∷ proxy_mode_legacy_framed ∷ [])
    then ok proxy_mode_legacy_framed
    else if text_mem value (codes "transparent" ∷ proxy_mode_transparent_tunnel ∷ [])
    then ok proxy_mode_transparent_tunnel
    else err (unsupported_proxy_mode raw)

unfoldable pub normalize_proxy_mode : Text → Result ModeError Text
unfolding proxy_mode_of
normalize_proxy_mode raw = proxy_mode_of raw (to_lower (trim_space raw))

unfoldable pub target_kind_of : Text → Text → Result ModeError Text
target_kind_of raw value =
    if text_mem value ([] ∷ target_kind_unknown ∷ [])
    then ok target_kind_unknown
    else if text_mem value (target_kind_http ∷ codes "https" ∷ [])
    then ok target_kind_http
    else if text_eq value target_kind_tcp
    then ok target_kind_tcp
    else if text_mem value (target_kind_web_socket ∷ codes "wss" ∷ [])
    then ok target_kind_web_socket
    else err (unsupported_target_kind raw)

unfoldable pub normalize_target_kind : Text → Result ModeError Text
unfolding target_kind_of
normalize_target_kind raw = target_kind_of raw (to_lower (trim_space raw))
