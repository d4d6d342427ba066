-- ===== src/Gateway/WebSocket/Modes.antt =====
-- The relay modes that the gateway's handlers accept, and header values that come from an agent.
use https_proxy.Base.{Bool, ◌||◌, ◌&&◌, not, [], ◌∷◌, ltb, ◌==◌, if◌then◌else◌}
use https_proxy.Base.Text.{Text, text_eq, is_empty, trim_space, to_lower}
use https_proxy.Base.Results.{Result, ok, err}
use https_proxy.Proto.Types.{ws_relay_mode_framed, ws_relay_mode_raw}

unfoldable pub is_framed_relay_mode : Text → Bool
is_framed_relay_mode mode =
    is_empty (to_lower (trim_space mode))
    || text_eq (to_lower (trim_space mode)) ws_relay_mode_framed

unfoldable pub is_raw_relay_mode : Text → Bool
is_raw_relay_mode mode = text_eq (to_lower (trim_space mode)) ws_relay_mode_raw

pub data HeaderError : Type 0 where
  newline_or_null control_character : HeaderError

-- The runes below 0x80 are the bytes below 0x80, and no other rune is refused.
unfoldable pub check_value : Text → Result HeaderError (Unit {0})
check_value [] = ok tt
check_value (c ∷ s) =
    let rest = check_value s in
    if c == 13 || (c == 10 || c == 0)
    then err newline_or_null
    else if (ltb c 0x20 && not (c == 9)) || c == 0x7f
    then err control_character
    else rest

unfoldable pub sanitize_web_socket_header_value : Text → Result HeaderError Text
unfolding check_value
sanitize_web_socket_header_value raw =
    if is_empty (trim_space raw)
    then ok []
    else elim (check_value (trim_space raw)) [ err e ↦ err e | ok u ↦ ok (trim_space raw) ]
