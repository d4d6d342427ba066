-- ===== src/Agent/Relay/Complete.antt =====
-- Framed relays that are both up, with nothing under way between them.
use https_proxy.Base.{Bool, true, List, [], ◌∷◌, ◌≡◌, ◌∙◌, sym, ap}
use https_proxy.Base.Feed.{items, items-items}
use https_proxy.Base.Text.{Text}
use https_proxy.Proto.Types.{t_ws_open_ok, t_req_start}
use https_proxy.Proto.WsData.{CloseCodec, Takes}
use https_proxy.Gateway.WebSocket.Relay as FromClient
use https_proxy.Gateway.WebSocket.Relay.{upgraded}
use https_proxy.Gateway.WebSocket.Delivery as ClientReads
use https_proxy.Gateway.WebSocket.Arrival as ClientWrites
use https_proxy.Agent.Relay.{opened}
use https_proxy.Agent.Relay.Feeding.{forwarded}
use https_proxy.Agent.Relay.Framed as FromTarget
use https_proxy.Agent.Relay.Framed.Delivery as TargetData
use https_proxy.Agent.Relay.EndToEnd.{
  target_message, client_message, from_agent, from_gateway, type_of, read-target_message,
  agent-arrives, read-client_message, gateway-arrives,
}

-- When the agent's reader and the gateway's loop run, and the gateway's loop has received all the data frames
-- that the agent has sent, the client has been written exactly the target's messages.
pub target_to_client_all :
    (transparent : Bool) (takes takes' : Takes) (c c' : CloseCodec) (opening : Text) (start : Text)
    (ts : List FromTarget.Event) (gs : List FromClient.Event)
    → (FromTarget.run takes c ts (opened ((t_ws_open_ok, opening) ∷ []))).reading ≡ true
    → ClientWrites.is_looping
        (FromClient.run takes' c' (type_of transparent) gs (upgraded ((t_req_start, start) ∷ [])))
      ≡ true
    → items from_agent gs
      ≡ forwarded (FromTarget.run takes c ts (opened ((t_ws_open_ok, opening) ∷ [])))
    → (FromClient.run takes' c'
        (type_of transparent)
        gs
        (upgraded ((t_req_start, start) ∷ []))).written
      ≡ items target_message ts
target_to_client_all transparent takes takes' c c' opening start ts gs reads loops h =
    let decode = ClientWrites.message_of (type_of transparent) in
    ClientWrites.run-written_all takes' c' (type_of transparent) gs _ loops
    ∙ sym (
        items-items from_agent decode (ClientWrites.arrives (type_of transparent))
          (agent-arrives (type_of transparent)) gs)
    ∙ ap (items decode) (h ∙ TargetData.run-forwarded_all takes c ts _ reads)
    ∙ items-items TargetData.read_event decode target_message (read-target_message transparent) ts

-- When the gateway's reader and the agent's loop run, and the agent's loop has received all the data frames that
-- the gateway has sent, the target has been written exactly the client's messages.
pub client_to_target_all :
    (transparent : Bool) (takes takes' : Takes) (c c' : CloseCodec) (opening : Text) (start : Text)
    (gs : List FromClient.Event) (ts : List FromTarget.Event)
    → (FromClient.run takes c
        (type_of transparent)
        gs
        (upgraded ((t_req_start, start) ∷ []))).reading
      ≡ true
    → (FromTarget.run takes' c' ts (opened ((t_ws_open_ok, opening) ∷ []))).looping ≡ true
    → items from_gateway ts
      ≡ ClientReads.forwarded
          (FromClient.run takes c (type_of transparent) gs (upgraded ((t_req_start, start) ∷ [])))
    → (FromTarget.run takes' c' ts (opened ((t_ws_open_ok, opening) ∷ []))).written
      ≡ items client_message gs
client_to_target_all transparent takes takes' c c' opening start gs ts reads loops h =
    let decode = TargetData.message_of in
    TargetData.run-written_all takes' c' ts _ loops
    ∙ sym (items-items from_gateway decode TargetData.arrives gateway-arrives ts)
    ∙ ap (items decode) (h ∙ ClientReads.run-forwarded_all takes c (type_of transparent) gs _ reads)
    ∙ items-items ClientReads.read_event decode client_message read-client_message gs
