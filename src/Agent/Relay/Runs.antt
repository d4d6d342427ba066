-- ===== src/Agent/Relay/Runs.antt =====
-- Relays at concrete schedules.
use https_proxy.Base.{true, List, [], ◌∷◌, none, ◌≡◌, refl, arith}
use https_proxy.Base.Prefix.{Prefix}
use https_proxy.Base.Feed.{items}
use https_proxy.Base.Int.{pos}
use https_proxy.Base.Text.{codes}
use https_proxy.Proto.Types.{t_ws_open_ok, t_req_start, t_ws_a2c, t_ws_c2a, t_ws_close}
use https_proxy.Proto.WsData.{CloseCodec, Takes, wrote, write_failed}
use https_proxy.Gateway.WebSocket.Relay as FromClient
use https_proxy.Gateway.WebSocket.Relay.{upgraded, framed_type, on_frame}
use https_proxy.Gateway.WebSocket.CloseOnce as ClientClose
use https_proxy.Agent.Relay.{opened}
use https_proxy.Agent.Relay.Framed as FromTarget
use https_proxy.Agent.Relay.Tcp as FromTcp
use https_proxy.Agent.Relay.EndToEnd.{
  type_of, target_message, client_message, target_to_client, client_to_target,
}
use https_proxy.Agent.Relay.Complete.{target_to_client_all}
use https_proxy.Gateway.WebSocket.Raw as RawClient
use https_proxy.Gateway.WebSocket.Raw.{hijacked}
use https_proxy.Agent.Relay.Raw as RawTarget
use https_proxy.Agent.Relay.Raw.{dialed}
use https_proxy.Agent.Relay.RawEndToEnd.{
  target_bytes, client_bytes, target_bytes_to_client, client_bytes_to_target,
}

abbrev always : Takes
always ps = true

abbrev plain_codec : CloseCodec
plain_codec = record {
  close_json = λ m. m.reason;
  close_of = λ b. record { code = pos 1001; reason = b };
}

abbrev demo_target : List FromTarget.Event
demo_target =
    FromTarget.upstream_message 1 (codes "hi") ∷ FromTarget.upstream_message 2 (codes "bin") ∷ []

abbrev demo_gateway : List FromClient.Event
demo_gateway =
    FromClient.frame t_ws_a2c (1 ∷ codes "hi") wrote
    ∷ FromClient.client_message 1 (codes "yo")
    ∷ FromClient.check
    ∷ FromClient.frame t_ws_a2c (2 ∷ codes "bin") wrote
    ∷ []

abbrev demo_agent : List FromTarget.Event
demo_agent = FromTarget.frame t_ws_c2a (1 ∷ codes "yo") wrote ∷ []

-- The client goes while the target closes.
abbrev closing : List FromClient.Event
closing =
    FromClient.client_failed none
    ∷ FromClient.watch
    ∷ FromClient.frame t_ws_close (codes "bye") wrote
    ∷ FromClient.leave
    ∷ []

target_to_client_example :
    Prefix
      (FromClient.run always plain_codec
        (type_of true)
        demo_gateway
        (upgraded ((t_req_start, []) ∷ []))).written
      (items target_message demo_target)
unfolding FromTarget.run
target_to_client_example =
    target_to_client true always always plain_codec plain_codec [] [] demo_target demo_gateway
      ([], refl)

client_to_target_example :
    Prefix
      (FromTarget.run always plain_codec demo_agent (opened ((t_ws_open_ok, []) ∷ []))).written
      (items client_message demo_gateway)
unfolding FromClient.run
client_to_target_example =
    client_to_target true always always plain_codec plain_codec [] [] demo_gateway demo_agent
      ([], refl)

target_to_client_all_example :
    (FromClient.run always plain_codec
      (type_of true)
      demo_gateway
      (upgraded ((t_req_start, []) ∷ []))).written
    ≡ items target_message demo_target
unfolding FromTarget.run FromClient.run
target_to_client_all_example =
    target_to_client_all true always always plain_codec plain_codec [] [] demo_target demo_gateway
      refl refl refl

run-ClosesOnce_example :
    ClientClose.ClosesOnce
      (FromClient.run always plain_codec framed_type closing (upgraded ((t_req_start, []) ∷ [])))
run-ClosesOnce_example =
    ClientClose.run-ClosesOnce always plain_codec framed_type closing
      (upgraded ((t_req_start, []) ∷ [])) (omega arith, λ _. refl)

abbrev target_closes : List FromTarget.Event
target_closes =
    FromTarget.upstream_failed none ∷ FromTarget.frame t_ws_c2a (1 ∷ []) (write_failed none) ∷ []

abbrev tcp_closes : List FromTcp.Event
tcp_closes =
    FromTcp.upstream_read (codes "data") FromTcp.eof
    ∷ FromTcp.frame t_ws_c2a (1 ∷ codes "x") (write_failed none)
    ∷ []

abbrev raw_target : List RawTarget.Event
raw_target =
    RawTarget.upstream_read (codes "early") RawTarget.more
    ∷ RawTarget.upstream_read (codes "late") RawTarget.closed
    ∷ RawTarget.frame t_ws_c2a (codes "in") true
    ∷ []

abbrev raw_client : List RawClient.Event
raw_client =
    RawClient.client_read (codes "in") RawClient.more
    ∷ RawClient.frame t_ws_a2c (codes "early") true
    ∷ []

target_bytes_to_client_example :
    Prefix
      (RawClient.run always raw_client (hijacked ((t_req_start, []) ∷ []))).written
      (items target_bytes raw_target)
unfolding RawTarget.run
target_bytes_to_client_example =
    target_bytes_to_client always always [] [] raw_target raw_client (codes "late" ∷ [], refl)

client_bytes_to_target_example :
    Prefix
      (RawTarget.run always raw_target (dialed ((t_ws_open_ok, []) ∷ []))).written
      (items client_bytes raw_client)
unfolding RawClient.run
client_bytes_to_target_example =
    client_bytes_to_target always always [] [] raw_client raw_target ([], refl)

-- A close that the client starts reaches the agent once, and the reset of the watcher does not follow it.
closed_by_client :
    (FromClient.run always plain_codec framed_type closing (upgraded [])).sent
    ≡ (t_ws_close, codes "client closed") ∷ []
unfolding FromClient.run
closed_by_client = refl
