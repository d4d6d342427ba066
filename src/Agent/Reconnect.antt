-- ===== src/Agent/Reconnect.antt =====
-- internal/agent/agent.go: Run, which connects to the gateway again and again, with reconnectBackoff. One pass
-- of its loop is a round: what the gateway, the network, the clock and the context do in it. Times are
-- nanoseconds.
pub mod Pacing
pub mod Ending
mod Runs
use https_proxy.Base.{
  ℕ, ◌+◌, ◌-◌, ◌*◌, ◌^◌, ◌/◌, Bool, true, false, ◌&&◌, List, [], ◌∷◌, ◌++◌, Option, none, some, ltb,
  leb, ◌==◌, if◌then◌else◌,
}
use https_proxy.Base.Int.{ℤ, pos, negsuc}
use https_proxy.Base.Text.{Text}
use https_proxy.Shared.WsClose.{GoError, close_from_err}

abbrev pub second : ℕ
second = 10 ^ 9

abbrev pub min_int : ℕ → ℕ → ℕ
min_int a b = if ltb a b then a else b

abbrev pub at_least_one : ℕ → ℕ
at_least_one attempt = if ltb attempt 1 then 1 else attempt

-- The delay before jitter: 1, 2, 4, 8, 16 and then 30 seconds.
unfoldable pub base_delay : ℕ → ℕ
base_delay attempt =
    let d = second * 2 ^ min_int (at_least_one attempt - 1) 5 in
    if ltb (30 * second) d then 30 * second else d

-- `rnd.Float64()` is `draw` of 2 ^ 53 parts. The delay is multiplied by 0.8 and 0.4 times that number, and cut
-- off to a nanosecond; the rounding of the floating point numbers is left out.
unfoldable pub reconnect_backoff : ℕ → ℕ → ℕ
unfolding base_delay
reconnect_backoff draw attempt = base_delay attempt * (8 * 2 ^ 53 + 4 * draw) / (10 * 2 ^ 53)

pub data State : Type 0 where
  connecting connected backoff identity_conflict stopped : State

-- The status that OnStatus is called with; `wait` is the time until NextRetryAt.
pub record ConnectionStatus : Type 0 where
  pub state : State
  pub attempt : ℕ
  pub last_error : Option GoError
  pub wait : Option ℕ

pub record Progress : Type 0 where
  pub attempt : ℕ
  pub last_heartbeat_at : Option ℕ
  pub reports : List ConnectionStatus
  -- The durations of the timers that sleepWithContext has waited for.
  pub sleeps : List ℕ

abbrev pub started : Progress
started = record { attempt = 0; last_heartbeat_at = none; reports = []; sleeps = [] }

unfoldable pub report : State → Option GoError → ℕ → Progress → Progress
report state e wait p = record p {
  reports =
      p.reports
      ++ (record {
        state = state;
        attempt = p.attempt;
        last_error = e;
        wait = if ltb 0 wait then some wait else none;
      }
          ∷ []);
}

-- A connection: when it was made and when it ended, its pongs, and the error of the read loop.
pub record Session : Type 0 where
  pub connected_at : ℕ
  pub pongs : List ℕ
  pub ended_at : ℕ
  pub error : Option GoError

-- `cancelled_at_start` is a context that is done at the top of the loop, `cancelled` one that is done when the
-- connection has ended. `draw` is the random number; `slept` says that the timer, not the context, ended the wait.
pub data Round : Type 0 where
  cancelled_at_start : Round
  dial_failed : (e : GoError) (draw : ℕ) (slept : Bool) → Round
  cancelled : Session → Round
  disconnected : (c : Session) (draw : ℕ) (slept : Bool) → Round

-- onPong, for each pong.
unfoldable pub hear : List ℕ → Progress → Progress
unfolding report
hear [] p = p
hear (t ∷ ts) p = hear ts (report connected none 0 (record p { last_heartbeat_at = some t }))

abbrev pub heard_after : ℕ → Option ℕ → Bool
heard_after t none = false
heard_after t (some u) = ltb t u

-- The connection held for 30 seconds, with a pong in it.
abbrev pub is_stable : Session → Progress → Bool
is_stable c p =
    leb (30 * second) (c.ended_at - c.connected_at)
    && heard_after c.connected_at p.last_heartbeat_at

abbrev pub is_conflict_code : Option (ℤ × Text) → Bool
is_conflict_code none = false
is_conflict_code (some (pos code, text)) = code == 4009
is_conflict_code (some (negsuc n, text)) = false

abbrev pub is_identity_conflict : Option GoError → Bool
is_identity_conflict e = is_conflict_code (close_from_err e)

abbrev pub at_least : ℕ → ℕ → ℕ
at_least least wait = if ltb wait least then least else wait

unfoldable pub hold : Session → Progress → Progress
unfolding report hear
hold c p = hear c.pongs (report connected none 0 (report connecting none 0 p))

abbrev pub sleep_with_context : ℕ → Progress → Progress
sleep_with_context wait p = record p { sleeps = p.sleeps ++ (wait ∷ []) }

-- The wait is reported, and slept.
unfoldable pub back_off : State → Option GoError → ℕ → Progress → Progress
unfolding report
back_off state e wait p = sleep_with_context wait (report state e wait p)

unfoldable pub fail_dial : GoError → ℕ → Progress → Progress
unfolding report reconnect_backoff back_off
fail_dial e draw p =
    let p' = record (report connecting none 0 p) { attempt = p.attempt + 1 } in
    back_off backoff (some e) (reconnect_backoff draw p'.attempt) p'

abbrev pub next_attempt : Session → Progress → ℕ
next_attempt c p = (if is_stable c p then 0 else p.attempt) + 1

unfoldable pub disconnect : Session → ℕ → Progress → Progress
unfolding back_off reconnect_backoff
disconnect c draw p =
    let p' = record p { attempt = next_attempt c p } in
    let wait = reconnect_backoff draw p'.attempt in
    if is_identity_conflict c.error
    then back_off identity_conflict c.error (at_least (5 * second) wait) p'
    else back_off backoff c.error wait p'

pub data End : Type 0 where
  returned running : End

-- The deferred report.
abbrev pub stop : Progress → Progress × End
stop p = (report stopped none 0 p, returned)

unfoldable pub run : List Round → Progress → Progress × End
unfolding report hold fail_dial disconnect
run [] p = (p, running)
run (cancelled_at_start ∷ rs) p = stop p
run (dial_failed e draw slept ∷ rs) p =
    let p' = fail_dial e draw p in let rest = run rs p' in if slept then rest else stop p'
run (cancelled c ∷ rs) p = stop (hold c p)
run (disconnected c draw slept ∷ rs) p =
    let p' = disconnect c draw (hold c p) in let rest = run rs p' in if slept then rest else stop p'
