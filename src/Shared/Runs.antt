-- ===== src/Shared/Runs.antt =====
-- Modes, kinds and close codes at concrete inputs.
use https_proxy.Base.{◌≡◌, refl, [], ◌∷◌, some}
use https_proxy.Base.Int.{pos}
use https_proxy.Base.Text.{codes, trim_space, to_lower}
use https_proxy.Base.Results.{ok, err}
use https_proxy.Shared.Modes.{
  normalize_proxy_mode, normalize_target_kind, proxy_mode_transparent_tunnel,
  proxy_mode_legacy_framed, target_kind_web_socket, unsupported_proxy_mode,
}
use https_proxy.Shared.WsClose.{close_from_err, close_error, wrapping}

accepted_alias : normalize_proxy_mode (codes "  Transparent ") ≡ ok proxy_mode_transparent_tunnel
unfolding normalize_proxy_mode trim_space to_lower
accepted_alias = refl

empty_mode : normalize_proxy_mode (codes " ") ≡ ok proxy_mode_legacy_framed
unfolding normalize_proxy_mode trim_space to_lower
empty_mode = refl

refused_mode : normalize_proxy_mode (codes "raw") ≡ err (unsupported_proxy_mode (codes "raw"))
unfolding normalize_proxy_mode trim_space to_lower
refused_mode = refl

accepted_kind : normalize_target_kind (codes "WSS") ≡ ok target_kind_web_socket
unfolding normalize_target_kind trim_space to_lower
accepted_kind = refl

-- The Kelvin sign lowers to a k, and a no-break space is trimmed.
unicode_kind :
    to_lower (trim_space (0xc2 ∷ 0xa0 ∷ 0xe2 ∷ 0x84 ∷ 0xaa ∷ b'X' ∷ 0xe2 ∷ 0x80 ∷ 0x83 ∷ []))
    ≡ codes "kx"
unfolding trim_space to_lower
unicode_kind = refl

nested_close :
    close_from_err (some (wrapping (codes "read") (close_error (pos 4009) (codes "busy"))))
    ≡ some (pos 4009, codes "busy")
unfolding close_from_err
nested_close = refl
