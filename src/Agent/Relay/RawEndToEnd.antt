-- ===== src/Agent/Relay/RawEndToEnd.antt =====
-- The raw relays of the agent and of the gateway, each in any interleaving of its own, with the frames of
-- one stream between them.
use https_proxy.Base.{List, [], ◌∷◌, if◌then◌else◌, ◌==◌, ◌≡◌, subst, refl, arith}
use mathlib.Core.List.{append-nil}
use https_proxy.Base.Prefix.{Prefix, prefix_trans}
use https_proxy.Base.Feed.{items, items-Prefix, items-items}
use https_proxy.Base.Text.{Text, is_empty}
use https_proxy.Proto.Types.{t_ws_open_ok, t_req_start, t_ws_a2c, t_ws_c2a}
use https_proxy.Proto.WsData.{Takes}
use https_proxy.Gateway.WebSocket.Raw as FromClient
use https_proxy.Gateway.WebSocket.Raw.{hijacked}
use https_proxy.Gateway.WebSocket.Raw.Bytes as ClientBytes
use https_proxy.Agent.Relay.Raw as FromTarget
use https_proxy.Agent.Relay.Raw.{dialed}
use https_proxy.Agent.Relay.Raw.Bytes as TargetBytes

abbrev whole : Text → Text
whole b = b

-- The payloads of the data frames that the gateway's loop receives.
abbrev pub from_agent : FromClient.Event → List Text
from_agent (FromClient.client_read b e) = []
from_agent (FromClient.frame t b w) = if t == t_ws_a2c then b ∷ [] else []
from_agent FromClient.recv_failed = []
from_agent FromClient.cancelled = []
from_agent FromClient.stream_lost = []
from_agent FromClient.check = []
from_agent FromClient.leave = []

-- The bytes that are read from the target, and from the client.
abbrev pub target_bytes : FromTarget.Event → Text
target_bytes (FromTarget.upstream_read b e) = b
target_bytes (FromTarget.frame t b w) = []
target_bytes FromTarget.end_of_context = []
target_bytes FromTarget.end_of_stream = []
target_bytes FromTarget.stream_lost = []

abbrev pub client_bytes : FromClient.Event → Text
client_bytes (FromClient.client_read b e) = b
client_bytes (FromClient.frame t b w) = []
client_bytes FromClient.recv_failed = []
client_bytes FromClient.cancelled = []
client_bytes FromClient.stream_lost = []
client_bytes FromClient.check = []
client_bytes FromClient.leave = []

-- The payloads of the data frames that the agent's loop receives.
abbrev pub from_gateway : FromTarget.Event → List Text
from_gateway (FromTarget.upstream_read b e) = []
from_gateway (FromTarget.frame t b w) = if t == t_ws_c2a then b ∷ [] else []
from_gateway FromTarget.end_of_context = []
from_gateway FromTarget.end_of_stream = []
from_gateway FromTarget.stream_lost = []

-- A read without bytes makes no payload.
payload_bytes : (b : Text) → items whole (if is_empty b then [] else b ∷ []) ≡ b
payload_bytes [] = refl
payload_bytes (a ∷ b) = append-nil (a ∷ b)

read-target_bytes : (e : FromTarget.Event) → items whole (TargetBytes.read_event e) ≡ target_bytes e
read-target_bytes (FromTarget.upstream_read b e) = payload_bytes b
read-target_bytes (FromTarget.frame t b w) = refl
read-target_bytes FromTarget.end_of_context = refl
read-target_bytes FromTarget.end_of_stream = refl
read-target_bytes FromTarget.stream_lost = refl

read-client_bytes : (e : FromClient.Event) → items whole (ClientBytes.read_event e) ≡ client_bytes e
read-client_bytes (FromClient.client_read b e) = payload_bytes b
read-client_bytes (FromClient.frame t b w) = refl
read-client_bytes FromClient.recv_failed = refl
read-client_bytes FromClient.cancelled = refl
read-client_bytes FromClient.stream_lost = refl
read-client_bytes FromClient.check = refl
read-client_bytes FromClient.leave = refl

agent-arrives : (e : FromClient.Event) → items whole (from_agent e) ≡ ClientBytes.arrives e
agent-arrives (FromClient.client_read b e) = refl
agent-arrives (FromClient.frame t b w) = ground (arith, append-nil b)
agent-arrives FromClient.recv_failed = refl
agent-arrives FromClient.cancelled = refl
agent-arrives FromClient.stream_lost = refl
agent-arrives FromClient.check = refl
agent-arrives FromClient.leave = refl

gateway-arrives : (e : FromTarget.Event) → items whole (from_gateway e) ≡ TargetBytes.arrives e
gateway-arrives (FromTarget.upstream_read b e) = refl
gateway-arrives (FromTarget.frame t b w) = ground (arith, append-nil b)
gateway-arrives FromTarget.end_of_context = refl
gateway-arrives FromTarget.end_of_stream = refl
gateway-arrives FromTarget.stream_lost = refl

-- However the two raw relays interleave, whatever the connections take and however reads split the bytes:
-- when the data frames that the gateway's loop receives are the first of those that the agent's relay has
-- sent, the client has been given the first of the bytes that are read from the target, in order.
pub target_bytes_to_client :
    (takes takes' : Takes) (opening start : Text) (ts : List FromTarget.Event)
    (gs : List FromClient.Event)
    → Prefix
        (items from_agent gs)
        (TargetBytes.forwarded (FromTarget.run takes ts (dialed ((t_ws_open_ok, opening) ∷ []))))
    → Prefix
        (FromClient.run takes' gs (hijacked ((t_req_start, start) ∷ []))).written
        (items target_bytes ts)
target_bytes_to_client takes takes' opening start ts gs h =
    let fresh = dialed ((t_ws_open_ok, opening) ∷ []) in
    let read = items TargetBytes.read_event ts in
    prefix_trans _ _ _ (ClientBytes.run-written takes' gs (hijacked ((t_req_start, start) ∷ []))) (
      subst (λ l. Prefix l (items target_bytes ts))
        (items-items from_agent whole ClientBytes.arrives agent-arrives gs)
        (subst (λ l. Prefix (items whole (items from_agent gs)) l)
          (items-items TargetBytes.read_event whole target_bytes read-target_bytes ts)
          (items-Prefix whole (items from_agent gs) read (
            prefix_trans (items from_agent gs)
              (TargetBytes.forwarded (FromTarget.run takes ts fresh)) read h
              (TargetBytes.run-forwarded takes ts fresh)))))

-- However the two raw relays interleave, whatever the connections take and however reads split the bytes:
-- when the data frames that the agent's loop receives are the first of those that the gateway's relay has
-- sent, the target has been given the first of the bytes that are read from the client, in order.
pub client_bytes_to_target :
    (takes takes' : Takes) (opening start : Text) (gs : List FromClient.Event)
    (ts : List FromTarget.Event)
    → Prefix
        (items from_gateway ts)
        (ClientBytes.forwarded (FromClient.run takes gs (hijacked ((t_req_start, start) ∷ []))))
    → Prefix
        (FromTarget.run takes' ts (dialed ((t_ws_open_ok, opening) ∷ []))).written
        (items client_bytes gs)
client_bytes_to_target takes takes' opening start gs ts h =
    let fresh = hijacked ((t_req_start, start) ∷ []) in
    let read = items ClientBytes.read_event gs in
    prefix_trans _ _ _ (TargetBytes.run-written takes' ts (dialed ((t_ws_open_ok, opening) ∷ []))) (
      subst (λ l. Prefix l (items client_bytes gs))
        (items-items from_gateway whole TargetBytes.arrives gateway-arrives ts)
        (subst (λ l. Prefix (items whole (items from_gateway ts)) l)
          (items-items ClientBytes.read_event whole client_bytes read-client_bytes gs)
          (items-Prefix whole (items from_gateway ts) read (
            prefix_trans (items from_gateway ts)
              (ClientBytes.forwarded (FromClient.run takes gs fresh)) read h
              (ClientBytes.run-forwarded takes gs fresh)))))
