-- ===== src/Agent/Relay/Feeding.antt =====
-- What the agent's relays send of the target's messages.
use https_proxy.Base.{Bool, true, List, [], ◌∷◌, ◌++◌, ◌≡◌, arith}
use mathlib.Core.List.{append-nil}
use https_proxy.Base.Feed.{Feeds, Keeps}
use https_proxy.Base.Int.{ℤ}
use https_proxy.Base.Text.{Text}
use https_proxy.Proto.Types.{WsClose, t_ws_close, t_ws_a2c}
use https_proxy.Proto.WsData.{Message, CloseCodec, Takes, payloads, payloads-append}
use https_proxy.Agent.Relay.{Relay, send, send_close_to_gateway}

abbrev pub forwarded : Relay → List Text
forwarded s = payloads t_ws_a2c s.sent

abbrev pub is_reading : Relay → Bool
is_reading s = s.reading

abbrev pub Forwards : List Text → Relay → Relay → Type 0
Forwards = Feeds is_reading forwarded

abbrev pub KeepsReader : Relay → Relay → Type 0
KeepsReader = Keeps is_reading forwarded

pub send_close_to_gateway-KeepsReader :
    (takes : Takes) (c : CloseCodec) (code : ℤ) (reason : Text) (s : Relay)
    → KeepsReader s (send_close_to_gateway takes c code reason s)
unfolding send_close_to_gateway send
send_close_to_gateway-KeepsReader takes c code reason s =
    let m : WsClose = record { code = code; reason = reason } in
    ground (
      arith,
      append-nil (forwarded s),
      payloads-append t_ws_a2c s.sent ((t_ws_close, c.close_json m) ∷ []),
    )

pub send-forwarded :
    (takes : Takes) (b : Text) (s : Relay)
    → takes s.sent ≡ true
    → forwarded (send takes t_ws_a2c b s).0 ≡ forwarded s ++ (b ∷ [])
unfolding send
send-forwarded takes b s h = ground (arith, payloads-append t_ws_a2c s.sent ((t_ws_a2c, b) ∷ []))

abbrev pub is_looping : Relay → Bool
is_looping s = s.looping

abbrev pub output : Relay → List Message
output s = s.written

abbrev pub Writes : List Message → Relay → Relay → Type 0
Writes = Feeds is_looping output

abbrev pub KeepsLoop : Relay → Relay → Type 0
KeepsLoop = Keeps is_looping output

pub send_close_to_gateway-KeepsLoop :
    (takes : Takes) (c : CloseCodec) (code : ℤ) (reason : Text) (s : Relay)
    → KeepsLoop s (send_close_to_gateway takes c code reason s)
unfolding send_close_to_gateway send
send_close_to_gateway-KeepsLoop takes c code reason s = ground arith
