-- ===== src/Agent/Reconnect/Ending.antt =====
-- When Run returns, and how the count of attempts grows.
use https_proxy.Base.{
  ℕ, ◌+◌, ◌-◌, ◌*◌, leb, ◌||◌, not, Bool, true, false, List, [], ◌∷◌, none, some, All, length, ◌≡◌,
  refl, arith,
}
use https_proxy.Shared.WsClose.{GoError}
use https_proxy.Agent.Reconnect.{
  connecting, connected, Progress, report, Session, Round, cancelled_at_start, dial_failed,
  cancelled, disconnected, hear, hold, back_off, fail_dial, disconnect, second, End, returned,
  running, run,
}

-- A round in which the context is done at one of the places where it is read.
abbrev pub ends : Round → Bool
ends cancelled_at_start = true
ends (dial_failed e draw slept) = not slept
ends (cancelled c) = true
ends (disconnected c draw slept) = not slept

abbrev pub any_ends : List Round → Bool
any_ends [] = false
any_ends (r ∷ rs) = ends r || any_ends rs

abbrev pub end_of : Bool → End
end_of true = returned
end_of false = running

-- Run returns when the context is done at one of the places where Run reads it, and only then: however often
-- connecting fails, and whatever the gateway does.
pub run-any_ends : (rs : List Round) (p : Progress) → (run rs p).1 ≡ end_of (any_ends rs)
unfolding run
run-any_ends [] p = refl
run-any_ends (cancelled_at_start ∷ rs) p = refl
run-any_ends (dial_failed e draw true ∷ rs) p = run-any_ends rs (fail_dial e draw p)
run-any_ends (dial_failed e draw false ∷ rs) p = refl
run-any_ends (cancelled c ∷ rs) p = refl
run-any_ends (disconnected c draw true ∷ rs) p = run-any_ends rs (disconnect c draw (hold c p))
run-any_ends (disconnected c draw false ∷ rs) p = refl

hear-attempt : (ts : List ℕ) (p : Progress) → (hear ts p).attempt ≡ p.attempt
unfolding hear report
hear-attempt [] p = refl
hear-attempt (t ∷ ts) p =
    hear-attempt ts (report connected none 0 (record p { last_heartbeat_at = some t }))

hold-attempt : (c : Session) (p : Progress) → (hold c p).attempt ≡ p.attempt
unfolding hold report
hold-attempt c p = hear-attempt c.pongs (report connected none 0 (report connecting none 0 p))

-- A round that fails: no connection, or one that ends within 30 seconds; and the wait is over.
abbrev pub Fails : Round → Type 0
Fails cancelled_at_start = ⊥
Fails (dial_failed e draw slept) = slept ≡ true
Fails (cancelled c) = ⊥
Fails (disconnected c draw slept) =
    (slept ≡ true) × (leb (30 * second) (c.ended_at - c.connected_at) ≡ false)

fail_dial-attempt :
    (e : GoError) (draw : ℕ) (p : Progress) → (fail_dial e draw p).attempt ≡ p.attempt + 1
unfolding fail_dial report back_off
fail_dial-attempt e draw p = refl

disconnect-attempt :
    (c : Session) (draw : ℕ) (p : Progress)
    → leb (30 * second) (c.ended_at - c.connected_at) ≡ false
    → (disconnect c draw p).attempt ≡ p.attempt + 1
unfolding disconnect report back_off
disconnect-attempt c draw p brief = ground (arith)

-- When every round fails to connect, or loses its connection within 30 seconds, and every wait runs to its end,
-- the count of attempts grows by one in each: a short connection does not set it back.
pub run-attempt :
    (rs : List Round) (p : Progress) → All Fails rs → (run rs p).0.attempt ≡ p.attempt + length rs
unfolding run
run-attempt [] p h = omega arith
run-attempt (cancelled_at_start ∷ rs) p (h, hs) = absurd h
run-attempt (cancelled c ∷ rs) p (h, hs) = absurd h
run-attempt (dial_failed e draw slept ∷ rs) p (h, hs) =
    let p' = fail_dial e draw p in
    ground (arith, h, run-attempt rs p' hs, fail_dial-attempt e draw p)
run-attempt (disconnected c draw slept ∷ rs) p ((h, brief), hs) =
    let p' = disconnect c draw (hold c p) in
    ground
      (arith, h, run-attempt rs p' hs, disconnect-attempt c draw (hold c p) brief, hold-attempt c p)
