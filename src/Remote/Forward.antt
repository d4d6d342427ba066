-- ===== src/Remote/Forward.antt =====
-- NewRemoteForward: every check of the command line's input, in order.
use https_proxy.Base.{Option, none, some}
use https_proxy.Base.Text.{Text, trim_space}
use https_proxy.Base.Results.{Result, ok, err}
use https_proxy.Shared.Modes.{normalize_proxy_mode}
use https_proxy.Remote.Url.{Url}
use https_proxy.Remote.Register.{
  ForwardError, invalid_proxy_mode, parse_remote_target_url, validate_proxy_mode_target,
  build_register_url, target_kind_from_target_url,
}
use https_proxy.Remote.Dial.{Resolver, resolve_register_dial_addr_with_lookup}

pub record RemoteForwardConfig : Type 0 where
  pub target_url : Text
  pub uuid : Text
  pub register_host : Text
  pub register_ip : Text
  pub proxy_mode : Text
  pub register_x_token : Text
  pub register_bearer_token : Text

pub record RemoteForward : Type 0 where
  pub register_url : Url
  pub register_dial_addr : Text
  pub register_x_token : Text
  pub register_bearer_token : Text
  pub target : Url

unfoldable pub parse_proxy_mode : Text → Result ForwardError Text
parse_proxy_mode raw = elim (normalize_proxy_mode raw) [
  | ok mode ↦ ok mode
  | err e ↦ err (invalid_proxy_mode raw)
]

unfoldable pub dialled :
    Resolver → RemoteForwardConfig → Url → Url → Result ForwardError RemoteForward
dialled n config target register_url =
    elim (resolve_register_dial_addr_with_lookup n config.register_ip register_url) [
      | err e ↦ err e
      | ok addr ↦ ok (record {
        register_url = register_url;
        register_dial_addr = addr;
        register_x_token = trim_space config.register_x_token;
        register_bearer_token = trim_space config.register_bearer_token;
        target = target;
      })
    ]

unfoldable pub with_target :
    (Text → Option Url)
    → Resolver
    → RemoteForwardConfig
    → Text
    → Url
    → Result ForwardError RemoteForward
unfolding dialled
with_target parse n config mode target = elim (validate_proxy_mode_target mode target) [
  | some e ↦ err e
  | none ↦
      elim (build_register_url parse config.register_host config.uuid mode
        (target_kind_from_target_url target)) [ err e ↦ err e | ok u ↦ dialled n config target u ]
]

unfoldable pub new_remote_forward :
    (Text → Option Url) → Resolver → RemoteForwardConfig → Result ForwardError RemoteForward
unfolding parse_proxy_mode with_target
new_remote_forward parse n config = elim (parse_proxy_mode config.proxy_mode) [
  | err e ↦ err e
  | ok mode ↦ elim (parse_remote_target_url parse config.target_url) [
    | err e ↦ err e
    | ok target ↦ with_target parse n config mode target
  ]
]
