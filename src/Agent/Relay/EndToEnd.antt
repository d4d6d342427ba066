-- ===== src/Agent/Relay/EndToEnd.antt =====
-- The framed relay of the agent and the one of the gateway, each in any interleaving of its own, with the
-- frames of one stream between them.
use https_proxy.Base.{
  ℕ, Bool, true, false, List, [], ◌∷◌, if◌then◌else◌, ◌==◌, ◌≡◌, subst, refl, arith,
}
use mathlib.Core.List.{append-nil}
use https_proxy.Base.Prefix.{Prefix, prefix_trans}
use https_proxy.Base.Feed.{items, items-Prefix, items-items}
use https_proxy.Base.Text.{Text}
use https_proxy.Proto.Types.{t_ws_open_ok, t_req_start, t_ws_a2c, t_ws_c2a}
use https_proxy.Proto.WsData.{Message, is_data, CloseCodec, Takes}
use https_proxy.Gateway.WebSocket.Relay as FromClient
use https_proxy.Gateway.WebSocket.Relay.{upgraded, framed_type, transparent_type}
use https_proxy.Gateway.WebSocket.Delivery as ClientReads
use https_proxy.Gateway.WebSocket.Arrival as ClientWrites
use https_proxy.Agent.Relay.{opened}
use https_proxy.Agent.Relay.Feeding.{forwarded}
use https_proxy.Agent.Relay.Framed as FromTarget
use https_proxy.Agent.Relay.Framed.Delivery as TargetData

-- The messages that the target sends; control messages do not count.
abbrev pub target_message : FromTarget.Event → List Message
target_message (FromTarget.upstream_message mt b) = if is_data mt then (mt, b) ∷ [] else []
target_message (FromTarget.upstream_failed o) = []
target_message (FromTarget.frame t b w) = []
target_message FromTarget.end_of_context = []
target_message FromTarget.end_of_stream = []
target_message FromTarget.stream_lost = []

-- The payloads of the data frames that the gateway's loop receives.
abbrev pub from_agent : FromClient.Event → List Text
from_agent (FromClient.client_message mt b) = []
from_agent (FromClient.client_failed o) = []
from_agent (FromClient.frame t b w) = if t == t_ws_a2c then b ∷ [] else []
from_agent FromClient.recv_failed = []
from_agent FromClient.cancelled = []
from_agent FromClient.stream_lost = []
from_agent FromClient.watch = []
from_agent FromClient.check = []
from_agent FromClient.leave = []

-- The type that a message is written with by handleClientWebSocketTransparent, or by handleClientWebSocket.
abbrev pub type_of : Bool → ℕ → ℕ
type_of true = transparent_type
type_of false = framed_type

pub read-target_message :
    (transparent : Bool) (e : FromTarget.Event)
    → items (ClientWrites.message_of (type_of transparent)) (TargetData.read_event e)
      ≡ target_message e
read-target_message true (FromTarget.upstream_message mt b) = ground arith
read-target_message false (FromTarget.upstream_message mt b) = ground arith
read-target_message _ (FromTarget.upstream_failed o) = refl
read-target_message _ (FromTarget.frame t b w) = refl
read-target_message _ FromTarget.end_of_context = refl
read-target_message _ FromTarget.end_of_stream = refl
read-target_message _ FromTarget.stream_lost = refl

pub agent-arrives :
    (as_type : ℕ → ℕ) (e : FromClient.Event)
    → items (ClientWrites.message_of as_type) (from_agent e) ≡ ClientWrites.arrives as_type e
agent-arrives as_type (FromClient.client_message mt b) = refl
agent-arrives as_type (FromClient.client_failed o) = refl
agent-arrives as_type (FromClient.frame t b w) =
    ground (arith, append-nil (ClientWrites.message_of as_type b))
agent-arrives as_type FromClient.recv_failed = refl
agent-arrives as_type FromClient.cancelled = refl
agent-arrives as_type FromClient.stream_lost = refl
agent-arrives as_type FromClient.watch = refl
agent-arrives as_type FromClient.check = refl
agent-arrives as_type FromClient.leave = refl

-- However the two relays interleave, and whatever the connections take: when the data frames that the
-- gateway's loop receives are the first of those that the agent's relay has sent, the client has been
-- written the first of the target's messages, in order, each with its type and its bytes.
pub target_to_client :
    (transparent : Bool) (takes takes' : Takes) (c c' : CloseCodec) (opening : Text) (start : Text)
    (ts : List FromTarget.Event) (gs : List FromClient.Event)
    → Prefix
        (items from_agent gs)
        (forwarded (FromTarget.run takes c ts (opened ((t_ws_open_ok, opening) ∷ []))))
    → Prefix
        (FromClient.run takes' c'
          (type_of transparent)
          gs
          (upgraded ((t_req_start, start) ∷ []))).written
        (items target_message ts)
target_to_client transparent takes takes' c c' opening start ts gs h =
    let decode = ClientWrites.message_of (type_of transparent) in
    let agent = forwarded (FromTarget.run takes c ts (opened ((t_ws_open_ok, opening) ∷ []))) in
    let read = items TargetData.read_event ts in
    let sent = TargetData.run-forwarded takes c ts (opened ((t_ws_open_ok, opening) ∷ [])) in
    let decoded =
      items-Prefix decode (items from_agent gs) read
        (prefix_trans (items from_agent gs) agent read h sent) in
    prefix_trans _ _ _
      (ClientWrites.run-written takes' c' (type_of transparent) gs
        (upgraded ((t_req_start, start) ∷ [])))
      (subst (λ l. Prefix l (items target_message ts))
        (items-items from_agent decode (ClientWrites.arrives (type_of transparent))
          (agent-arrives (type_of transparent)) gs)
        (subst (λ l. Prefix (items decode (items from_agent gs)) l)
          (items-items TargetData.read_event decode target_message (read-target_message transparent)
            ts)
          decoded))

-- The messages that the client sends.
abbrev pub client_message : FromClient.Event → List Message
client_message (FromClient.client_message mt b) = if is_data mt then (mt, b) ∷ [] else []
client_message (FromClient.client_failed o) = []
client_message (FromClient.frame t b w) = []
client_message FromClient.recv_failed = []
client_message FromClient.cancelled = []
client_message FromClient.stream_lost = []
client_message FromClient.watch = []
client_message FromClient.check = []
client_message FromClient.leave = []

-- The payloads of the data frames that the agent's loop receives.
abbrev pub from_gateway : FromTarget.Event → List Text
from_gateway (FromTarget.upstream_message mt b) = []
from_gateway (FromTarget.upstream_failed o) = []
from_gateway (FromTarget.frame t b w) = if t == t_ws_c2a then b ∷ [] else []
from_gateway FromTarget.end_of_context = []
from_gateway FromTarget.end_of_stream = []
from_gateway FromTarget.stream_lost = []

pub read-client_message :
    (e : FromClient.Event)
    → items TargetData.message_of (ClientReads.read_event e) ≡ client_message e
read-client_message (FromClient.client_message mt b) = ground arith
read-client_message (FromClient.client_failed o) = refl
read-client_message (FromClient.frame t b w) = refl
read-client_message FromClient.recv_failed = refl
read-client_message FromClient.cancelled = refl
read-client_message FromClient.stream_lost = refl
read-client_message FromClient.watch = refl
read-client_message FromClient.check = refl
read-client_message FromClient.leave = refl

pub gateway-arrives :
    (e : FromTarget.Event) → items TargetData.message_of (from_gateway e) ≡ TargetData.arrives e
gateway-arrives (FromTarget.upstream_message mt b) = refl
gateway-arrives (FromTarget.upstream_failed o) = refl
gateway-arrives (FromTarget.frame t b w) = ground (arith, append-nil (TargetData.message_of b))
gateway-arrives FromTarget.end_of_context = refl
gateway-arrives FromTarget.end_of_stream = refl
gateway-arrives FromTarget.stream_lost = refl

-- However the two relays interleave, and whatever the connections take: when the data frames that the
-- agent's loop receives are the first of those that the gateway's relay has sent, the target has been
-- written the first of the client's messages, in order, each with its type and its bytes.
pub client_to_target :
    (transparent : Bool) (takes takes' : Takes) (c c' : CloseCodec) (opening : Text) (start : Text)
    (gs : List FromClient.Event) (ts : List FromTarget.Event)
    → Prefix (items from_gateway ts) (
        ClientReads.forwarded
          (FromClient.run takes c (type_of transparent) gs (upgraded ((t_req_start, start) ∷ []))))
    → Prefix
        (FromTarget.run takes' c' ts (opened ((t_ws_open_ok, opening) ∷ []))).written
        (items client_message gs)
client_to_target transparent takes takes' c c' opening start gs ts h =
    let decode = TargetData.message_of in
    let fresh = upgraded ((t_req_start, start) ∷ []) in
    let gateway = ClientReads.forwarded (FromClient.run takes c (type_of transparent) gs fresh) in
    let read = items ClientReads.read_event gs in
    let sent = ClientReads.run-forwarded takes c (type_of transparent) gs fresh in
    let decoded =
      items-Prefix decode (items from_gateway ts) read
        (prefix_trans (items from_gateway ts) gateway read h sent) in
    prefix_trans _ _ _ (TargetData.run-written takes' c' ts (opened ((t_ws_open_ok, opening) ∷ [])))
      (subst (λ l. Prefix l (items client_message gs))
        (items-items from_gateway decode TargetData.arrives gateway-arrives ts)
        (subst (λ l. Prefix (items decode (items from_gateway ts)) l)
          (items-items ClientReads.read_event decode client_message read-client_message gs)
          decoded))
