-- ===== src/Shared/WsClose.antt =====
-- internal/shared/wsclose.go: close codes of WebSocket connections.
pub mod Laws
use https_proxy.Base.{
  ℕ, Bool, not, true, false, ◌||◌, Option, none, some, if◌then◌else◌, ltb, ◌==◌, ◌*◌, ◌^◌,
}
use https_proxy.Base.Int.{ℤ, pos, negsuc, ltb_ℤ}
use https_proxy.Base.Text.{Text, codes}

-- An error is a close error of the WebSocket library, an error that wraps another, or neither.
pub data GoError : Type 0 where
  close_error : ℤ → Text → GoError
  wrapping : Text → GoError → GoError
  plain : Text → GoError

abbrev pub ws_read_limit_bytes : ℕ
ws_read_limit_bytes = 40 * 2 ^ 20

-- errors.As walks the chain of wrapped errors.
unfoldable pub as_close_error : GoError → Option (ℤ × Text)
as_close_error (close_error code text) = some (code, text)
as_close_error (wrapping msg e) = as_close_error e
as_close_error (plain msg) = none

-- `none` is a nil error.
unfoldable pub close_from_err : Option GoError → Option (ℤ × Text)
unfolding as_close_error
close_from_err none = none
close_from_err (some e) = as_close_error e

abbrev pub close_normal_closure : ℕ
close_normal_closure = 1000

abbrev pub close_going_away : ℕ
close_going_away = 1001

abbrev pub close_protocol_error : ℕ
close_protocol_error = 1002

-- The codes that RFC 6455 keeps off the wire: no status received, abnormal closure, TLS handshake.
abbrev pub is_reserved : ℕ → Bool
is_reserved code = code == 1005 || (code == 1006 || code == 1015)

unfoldable pub sanitize_close_code : ℤ → ℕ
sanitize_close_code (negsuc n) = close_normal_closure
sanitize_close_code (pos code) =
    if code == 0
    then close_normal_closure
    else if ltb code 1000 || not (ltb code 5000)
    then close_normal_closure
    else if is_reserved code
    then close_normal_closure
    else code
