-- ===== src/Agent/Dial/Agreement.antt =====
-- What the gateway makes of the agent's answer to a WebSocket request.
use https_proxy.Base.{
  ℕ, Bool, true, false, List, [], ◌∷◌, Option, none, some, ◌≡◌, ◌≢◌, refl, sym, subst, ◌⊎◌, if_elim,
}
use https_proxy.Base.Text.{Text, codes, is_empty, trim_space, to_lower}
use https_proxy.Base.Results.{ok, err}
use https_proxy.Proto.Types.{Header, WsOpenOk, t_ws_open_ok, t_rst}
use https_proxy.Proto.WsData.{Packet, Takes, frames_of}
use https_proxy.Gateway.Http.Exchange.{World, Peer, Recv, frame, try_send}
use https_proxy.Gateway.WebSocket.Modes.{is_framed_relay_mode}
use https_proxy.Gateway.WebSocket.Open.{
  Upgrader, Outcome, relaying_raw, refused, hijack_failed, Hijacker, HijackError, hijack_and_write,
  on_answer, accept_raw, accept_framed, upgrade,
}
use https_proxy.Agent.Dial.{OpenCodec, refuse_open, accept_open, framed_open, start_tcp}

abbrev pub NotRefused : World × Outcome → Type 0
NotRefused x = x.1 ≢ refused

-- What the gateway's raw handler, and a framed one, do with the agent's answer.
abbrev pub raw_gateway : Peer → Upgrader → Hijacker → Header → World → Recv → World × Outcome
raw_gateway p u j h w answer = on_answer p u (accept_raw p j h) answer w

abbrev pub framed_gateway : Peer → Upgrader → World → Recv → World × Outcome
framed_gateway p u w answer = on_answer p u (accept_framed p u) answer w

-- Where the agent's relay starts, it has sent one frame, and a gateway that receives it does not refuse the
-- client; where it does not start, it has sent nothing that says it did.
abbrev pub Agrees : (Recv → World × Outcome) → List Packet × Bool → Type 0
Agrees gateway (ps, false) = frames_of t_ws_open_ok ps ≡ 0
Agrees gateway (ps, true) =
    (payload : Text) × (ps ≡ (t_ws_open_ok, payload) ∷ [])
    × ((id : ℕ)
        → NotRefused
            (gateway (frame (record { type = t_ws_open_ok; stream = id; payload = payload }))))

refuse_open-Agrees :
    (gateway : Recv → World × Outcome) (takes : Takes) (c : OpenCodec) (reason : Text)
    → Agrees gateway (refuse_open takes c reason)
refuse_open-Agrees gateway takes c reason =
    if_elim (Agrees gateway) (takes []) (λ _. refl) (λ _. refl)

accept_open-Agrees :
    (takes : Takes) (c : OpenCodec) (p : Peer) (u : Upgrader) (w : World)
    (accept : WsOpenOk → World → World × Outcome) (m : WsOpenOk)
    → NotRefused (accept (u.open_ok (c.open_ok_json m)) w)
    → Agrees (λ answer. on_answer p u accept answer w) (accept_open takes c m)
accept_open-Agrees takes c p u w accept m good =
    if_elim (Agrees (λ answer. on_answer p u accept answer w)) (takes [])
      (λ _. (c.open_ok_json m, refl, λ id. good)) (λ _. refl)

-- The gateway relays with the response that it has written to the client; or taking the client's connection
-- over has failed, and it has sent the agent a reset.
abbrev pub TakesOver : Peer → Hijacker → Header → World → WsOpenOk → World × Outcome → Type 0
TakesOver p j h w m x =
    ((response : Text) × (hijack_and_write j h m ≡ ok response) × (x ≡ (w, relaying_raw response)))
    ⊎ ((e : HijackError) × (hijack_and_write j h m ≡ err e)
        × (x ≡ (try_send p t_rst (codes "client upgrade failed") w, hijack_failed)))

-- The agent's packets and whether its relay starts, and what the gateway does with its answer.
abbrev pub RawAgrees : Peer → Upgrader → Hijacker → Header → World → List Packet × Bool → Type 0
RawAgrees p u j h w (ps, false) = frames_of t_ws_open_ok ps ≡ 0
RawAgrees p u j h w (ps, true) =
    (payload : Text) × (ps ≡ (t_ws_open_ok, payload) ∷ [])
    × ((id : ℕ)
        → TakesOver p j h w (u.open_ok payload) (
            raw_gateway p u j h w
              (frame (record { type = t_ws_open_ok; stream = id; payload = payload }))))

accept_framed-NotRefused :
    (p : Peer) (u : Upgrader) (w : World) → NotRefused (accept_framed p u (framed_open []) w)
unfolding accept_framed is_framed_relay_mode trim_space to_lower upgrade
accept_framed-NotRefused p u w = if_elim NotRefused (u.upgrades []) (λ _. λ q. cc) (λ _. λ q. cc)

-- The same of the agent's TCP handlers and the gateway's framed ones, where the decoder reads the answer back.
pub start_tcp-Agrees :
    (takes : Takes) (c : OpenCodec) (dial_error : Text → Option Text) (host : Text) (p : Peer)
    (u : Upgrader) (w : World)
    → u.open_ok (c.open_ok_json (framed_open [])) ≡ framed_open []
    → Agrees (framed_gateway p u w) (start_tcp takes c dial_error host)
unfolding start_tcp
start_tcp-Agrees takes c dial_error host p u w reads =
    if_elim (Agrees (framed_gateway p u w)) (is_empty (trim_space host))
      (λ _.
        refuse_open-Agrees (framed_gateway p u w) takes c (codes "invalid tcp target: empty host"))
      (λ _. go (dial_error (trim_space host)))
  where
    go :
        (x : Option Text)
        → Agrees (framed_gateway p u w) (elim x [
          | some reason ↦ refuse_open takes c reason
          | none ↦ accept_open takes c (framed_open [])
        ])
    go (some reason) = refuse_open-Agrees (framed_gateway p u w) takes c reason
    go none = accept_open-Agrees takes c p u w (accept_framed p u) (framed_open []) (
        subst (λ m. NotRefused (accept_framed p u m w)) (sym reads)
          (accept_framed-NotRefused p u w))
