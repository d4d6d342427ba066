-- ===== src/Gateway/WebSocket/Open/Answers.antt =====
-- What a client is told when its WebSocket request is refused.
use https_proxy.Base.{
  ℕ, Bool, true, not, List, [], ◌∷◌, ◌+◌, if◌then◌else◌, ◌==◌, ◌≡◌, ◌∙◌, ap, refl, arith, if_elim,
}
use https_proxy.Base.Text.{Text, codes, is_empty}
use https_proxy.Base.Results.{Result, ok, err}
use https_proxy.Proto.Types.{
  Header, WsOpenOk, t_rst, t_ws_close, t_ws_open_ok, t_ws_open_err, t_req_start,
}
use https_proxy.Shared.Headers.{set_value}
use https_proxy.Gateway.Http.Exchange.{
  Event, World, Peer, Codec, Recv, frame, timed_out, failed, sent, page, interim, head, wrote,
  flushed, closed, send, try_send,
}
use https_proxy.Gateway.Http.Request.{Request}
use https_proxy.Gateway.WebSocket.Modes.{
  is_framed_relay_mode, is_raw_relay_mode, HeaderError, sanitize_web_socket_header_value,
}
use https_proxy.Gateway.WebSocket.Open.{
  Upgrader, Outcome, relaying, relaying_raw, refused, upgrade_failed, hijack_failed, Hijacker,
  upgrade, refuse, accept_framed, accept_raw, hijack_and_write, open_with, open_framed, open_raw,
  ws_request_start, HijackError, on_answer,
}

-- The error pages that have been written.
abbrev pub pages : List Event → ℕ
pages [] = 0
pages (page code text ∷ es) = 1 + pages es
pages (sent t b ∷ es) = pages es
pages (interim code h ∷ es) = pages es
pages (head code h ∷ es) = pages es
pages (wrote b ∷ es) = pages es
pages (flushed ∷ es) = pages es
pages (closed ∷ es) = pages es

-- One page where the request is refused, and none where a relay, the upgrader or net/http answers.
abbrev pub pages_due : Outcome → ℕ
pages_due (relaying h) = 0
pages_due (relaying_raw b) = 0
pages_due refused = 1
pages_due upgrade_failed = 0
pages_due hijack_failed = 0

-- What is due after a handler has got a world without pages.
abbrev pub Answered : World × Outcome → Type 0
Answered x = pages x.0.trace ≡ pages_due x.1

try_send-pages :
    (p : Peer) (t : ℕ) (b : Text) (w : World) → pages (try_send p t b w).trace ≡ pages w.trace
unfolding try_send
try_send-pages p t b w = ground arith

send-pages :
    (p : Peer) (t : ℕ) (b : Text) (w : World) → pages (send p t b w).0.trace ≡ pages w.trace
unfolding send
send-pages p t b w = ground arith

refuse-Answered :
    (p : Peer) (reason shown : Text) (w : World)
    → pages w.trace ≡ 0
    → Answered (refuse p reason shown w)
refuse-Answered p reason shown w none_yet = ground (arith, try_send-pages p t_rst reason w)

upgrade-Answered :
    (p : Peer) (u : Upgrader) (h : Header) (w : World)
    → pages w.trace ≡ 0
    → Answered (upgrade p u h w)
unfolding upgrade
upgrade-Answered p u h w none_yet =
    if_elim Answered (u.upgrades h) (λ _. none_yet)
      (λ _. try_send-pages p t_ws_close _ w ∙ none_yet)

accept_framed-Answered :
    (p : Peer) (u : Upgrader) (m : WsOpenOk) (w : World)
    → pages w.trace ≡ 0
    → Answered (accept_framed p u m w)
unfolding accept_framed
accept_framed-Answered p u m w none_yet =
    if_elim Answered (not (is_framed_relay_mode m.relay_mode))
      (λ _. refuse-Answered p _ (codes "agent ws relay mismatch") w none_yet)
      (λ _.
        if_elim Answered (is_empty m.subprotocol) (λ _. upgrade-Answered p u [] w none_yet)
          (λ _. go (sanitize_web_socket_header_value m.subprotocol)))
  where
    go :
        (x : Result HeaderError Text)
        → Answered (elim x [
          | err e ↦ refuse p (codes "agent ws bad subprotocol") (codes "agent ws bad handshake") w
          | ok sp ↦
              upgrade p u
                (if is_empty sp then [] else set_value [] (codes "Sec-WebSocket-Protocol") sp)
                w
        ])
    go (err e) =
        refuse-Answered p (codes "agent ws bad subprotocol") (codes "agent ws bad handshake") w
          none_yet
    go (ok sp) =
        upgrade-Answered p u
          (if is_empty sp then [] else set_value [] (codes "Sec-WebSocket-Protocol") sp) w none_yet

accept_raw-Answered :
    (p : Peer) (j : Hijacker) (h : Header) (m : WsOpenOk) (w : World)
    → pages w.trace ≡ 0
    → Answered (accept_raw p j h m w)
unfolding accept_raw
accept_raw-Answered p j h m w none_yet =
    if_elim Answered (not (is_raw_relay_mode m.relay_mode))
      (λ _. refuse-Answered p _ (codes "agent ws relay mismatch") w none_yet)
      (λ _. go (hijack_and_write j h m))
  where
    go :
        (x : Result HijackError Text)
        → Answered (elim x [
          | err e ↦ (try_send p t_rst (codes "client upgrade failed") w, hijack_failed)
          | ok response ↦ (w, relaying_raw response)
        ])
    go (err e) = try_send-pages p t_rst _ w ∙ none_yet
    go (ok response) = none_yet

on_answer-Answered :
    (p : Peer) (u : Upgrader) (accept : WsOpenOk → World → World × Outcome)
    → ((m : WsOpenOk) (w : World) → pages w.trace ≡ 0 → Answered (accept m w))
    → (answer : Recv) (w : World) → pages w.trace ≡ 0
    → Answered (on_answer p u accept answer w)
on_answer-Answered p u accept good timed_out w none_yet =
    refuse-Answered p _ (codes "agent ws timeout") w none_yet
on_answer-Answered p u accept good failed w none_yet =
    refuse-Answered p _ (codes "agent ws timeout") w none_yet
on_answer-Answered p u accept good (frame f) w none_yet =
    if_elim Answered (f.type == t_ws_open_err) (λ _. ap (λ n. 1 + n) none_yet)
      (λ _.
        if_elim Answered (not (f.type == t_ws_open_ok))
          (λ _. refuse-Answered p _ (codes "agent ws bad handshake") w none_yet)
          (λ _. good (u.open_ok f.payload) w none_yet))

open_with-Answered :
    (opened : Bool) (p : Peer) (c : Codec) (u : Upgrader) (transparent : Bool)
    (accept : WsOpenOk → World → World × Outcome) (r : Request) (suffix_path : Text) (answer : Recv)
    → ((m : WsOpenOk) (w : World) → pages w.trace ≡ 0 → Answered (accept m w))
    → Answered (open_with opened p c u transparent accept r suffix_path answer)
unfolding open_with
open_with-Answered opened p c u transparent accept r suffix_path answer good =
    let fresh : World = record { trace = []; header = [] } in
    let start = c.req_start (ws_request_start c transparent r suffix_path) in
    let w = (send p t_req_start start fresh).0 in
    let none_yet = send-pages p t_req_start start fresh in
    if_elim Answered (not opened) (λ _. refl)
      (λ _.
        if_elim Answered (send p t_req_start start fresh).1
          (λ _. on_answer-Answered p u accept good answer w none_yet)
          (λ _. ap (λ n. 1 + n) none_yet))

-- A WebSocket request that a framed handler refuses gets one error page; one that it relays, or for which
-- the upgrade fails, gets none from it.
pub open_framed-Answered :
    (opened : Bool) (p : Peer) (c : Codec) (u : Upgrader) (transparent : Bool) (r : Request)
    (suffix_path : Text) (answer : Recv)
    → Answered (open_framed opened p c u transparent r suffix_path answer)
unfolding open_framed
open_framed-Answered opened p c u transparent r suffix_path answer =
    open_with-Answered opened p c u transparent (accept_framed p u) r suffix_path answer
      (accept_framed-Answered p u)

-- The raw handler writes one error page where it refuses a request, and none where it relays; but it also
-- writes none where taking over the client's connection fails.
pub open_raw-Answered :
    (opened : Bool) (p : Peer) (c : Codec) (u : Upgrader) (j : Hijacker) (r : Request)
    (suffix_path : Text) (answer : Recv)
    → Answered (open_raw opened p c u j r suffix_path answer)
unfolding open_raw
open_raw-Answered opened p c u j r suffix_path answer =
    open_with-Answered opened p c u true (accept_raw p j r.header) r suffix_path answer
      (accept_raw-Answered p j r.header)
