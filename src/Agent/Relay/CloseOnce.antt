-- ===== src/Agent/Relay/CloseOnce.antt =====
-- How often the agent's relays announce a close to the gateway.
use https_proxy.Base.{false, [], ◌∷◌, ◌≡◌, ◌≤◌, arith}
use https_proxy.Base.Int.{ℤ}
use https_proxy.Base.Text.{Text}
use https_proxy.Proto.Types.{WsClose, t_ws_close, t_ws_a2c}
use https_proxy.Proto.WsData.{CloseCodec, Takes, frames_of, frames_of-append}
use https_proxy.Agent.Relay.{Relay, send, send_close_to_gateway}

-- At most one close frame is sent, and none before `closeOnce` has run.
abbrev pub ClosesOnce : Relay → Type 0
ClosesOnce s =
    (frames_of t_ws_close s.sent ≤ 1) × (s.closed_once ≡ false → frames_of t_ws_close s.sent ≡ 0)

pub send-ClosesOnce :
    (takes : Takes) (b : Text) (s : Relay) → ClosesOnce s → ClosesOnce (send takes t_ws_a2c b s).0
unfolding send
send-ClosesOnce takes b s h =
    ground (arith, frames_of-append t_ws_close s.sent ((t_ws_a2c, b) ∷ []))

pub send_close_to_gateway-ClosesOnce :
    (takes : Takes) (c : CloseCodec) (code : ℤ) (reason : Text) (s : Relay)
    → ClosesOnce s
    → ClosesOnce (send_close_to_gateway takes c code reason s)
unfolding send send_close_to_gateway
send_close_to_gateway-ClosesOnce takes c code reason s h =
    let m : WsClose = record { code = code; reason = reason } in
    ground (arith, frames_of-append t_ws_close s.sent ((t_ws_close, c.close_json m) ∷ []))
