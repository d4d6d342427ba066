-- ===== src/Remote/Laws.antt =====
-- What a registration that is built asks of the gateway.
use https_proxy.Base.{
  ◌≡◌, inl, inr, refl, true, false, [], ◌∷◌, Option, none, some, Option-cases, Option-cases, arith,
}
use https_proxy.Base.Text.{Text, codes, text_eq, text_eq_refl, text_mem, trim_space}
use https_proxy.Base.Assoc.{text_keys}
use https_proxy.Base.Results.{ok, Result-cases}
use https_proxy.Shared.Modes.{
  normalize_proxy_mode, normalize_target_kind, proxy_mode_transparent_tunnel, target_kind_unknown,
  target_kind_http, target_kind_tcp, target_kind_web_socket,
}
use https_proxy.Shared.Modes.Laws.{fixed_kind, normalize_proxy_mode_idem}
use https_proxy.Remote.Url.{Url}
use https_proxy.Remote.Register.{
  scheme_of, is_blank, build_register_url, target_kind_from_target_url, validate_proxy_mode_target,
  check_target, parse_remote_target_url, target_schemes,
}
use https_proxy.Remote.Dial.{Resolver, resolve_register_dial_addr_with_lookup}
use https_proxy.Remote.Forward.{
  RemoteForwardConfig, RemoteForward, new_remote_forward, with_target, dialled, parse_proxy_mode,
}
use https_proxy.Remote.Announces.{Announces, build_register_url-Announces}

-- A target that the checks accept.
pub record Reachable (mode : Text) (u : Url) : Type 0 where
  pub scheme_known : text_mem (scheme_of u) target_schemes ≡ true
  pub host_set : is_blank u.host ≡ false
  pub tcp_port : text_eq (scheme_of u) (codes "tcp") ≡ true → is_blank u.port ≡ false
  pub tunnelled :
      mode ≡ proxy_mode_transparent_tunnel
      → text_mem (scheme_of u) (codes "tcp" ∷ codes "ws" ∷ codes "wss" ∷ []) ≡ true

parse_remote_target_url_ok :
    (parse : Text → Option Url) (raw : Text) (u : Url)
    → parse_remote_target_url parse raw ≡ ok u
    → (parse (trim_space raw) ≡ some u) × (check_target raw u ≡ ok u)
unfolding parse_remote_target_url check_target
parse_remote_target_url_ok parse raw u h = elim (Option-cases (parse (trim_space raw))) [
  | inl e ↦ ground arith
  | inr (v, e) ↦ ground arith
]

check_target-Reachable :
    (raw mode : Text) (u : Url)
    → check_target raw u ≡ ok u
    → validate_proxy_mode_target mode u ≡ none
    → Reachable mode u
unfolding check_target validate_proxy_mode_target
check_target-Reachable raw mode u h v = record {
  scheme_known = ground arith;
  host_set = ground arith;
  tcp_port = λ t. ground arith;
  tunnelled = λ t. ground (arith, t, text_eq_refl proxy_mode_transparent_tunnel);
}

target_kind-known :
    (u : Url)
    → text_mem (scheme_of u) target_schemes ≡ true
    → (normalize_target_kind (target_kind_from_target_url u) ≡ ok (target_kind_from_target_url u))
      × (text_eq (target_kind_from_target_url u) target_kind_unknown ≡ false)
unfolding target_kind_from_target_url
target_kind-known u h = ground (
  arith,
  fixed_kind target_kind_http (inr (inl refl)),
  fixed_kind target_kind_tcp (inr (inr (inl refl))),
  fixed_kind target_kind_web_socket (inr (inr (inr refl))),
)

abbrev made_forward : RemoteForwardConfig → Url → Url → Text → RemoteForward
made_forward config target u addr = record {
  register_url = u;
  register_dial_addr = addr;
  register_x_token = trim_space config.register_x_token;
  register_bearer_token = trim_space config.register_bearer_token;
  target = target;
}

-- A remote forward that is created was given a valid proxy mode and a target that can be served in
-- it; its registration announces the uuid, the mode and the kind of the target in the form in which
-- the gateway reads them back; and it dials what the override resolves to.
pub new_remote_forward_ok :
    (parse : Text → Option Url) (n : Resolver) (config : RemoteForwardConfig) (f : RemoteForward)
    → new_remote_forward parse n config ≡ ok f
    → (mode : Text) × (normalize_proxy_mode config.proxy_mode ≡ ok mode)
      × (parse (trim_space config.target_url) ≡ some f.target)
      × Reachable mode f.target
      × Announces config.uuid mode (target_kind_from_target_url f.target) f.register_url
      × (resolve_register_dial_addr_with_lookup n config.register_ip f.register_url
          ≡ ok f.register_dial_addr)
unfolding new_remote_forward parse_proxy_mode with_target dialled
new_remote_forward_ok parse n config f h =
    elim (Result-cases (normalize_proxy_mode config.proxy_mode)) [
      | inr (e, E) ↦ ground arith
      | inl (mode, E) ↦ elim (Result-cases (parse_remote_target_url parse config.target_url)) [
        | inr (e, T) ↦ ground arith
        | inl (target, T) ↦ elim (Option-cases (validate_proxy_mode_target mode target)) [
          | inr (e, V) ↦ ground arith
          | inl V ↦
              elim (Result-cases (
                build_register_url parse config.register_host config.uuid mode
                  (target_kind_from_target_url target))) [
                    | inr (e, B) ↦ ground arith
                    | inl (u, B) ↦
                        elim (Result-cases
                          (resolve_register_dial_addr_with_lookup n config.register_ip u)) [
                            | inr (e, D) ↦ ground arith
                            | inl (addr, D) ↦
                                let (P, C) =
                                  parse_remote_target_url_ok parse config.target_url target T in
                                let reach =
                                  check_target-Reachable config.target_url mode target C V in
                                let (k, u') = target_kind-known target reach.scheme_known in
                                let ann =
                                  build_register_url-Announces parse config.register_host
                                    config.uuid mode (target_kind_from_target_url target) u
                                    (normalize_proxy_mode_idem config.proxy_mode mode E).1 k u' B in
                                let made : f ≡ made_forward config target u addr = ground arith in
                                rw made ((mode, E, P, reach, ann, D))
                          ]
                  ]
        ]
      ]
    ]
