-- ===== src/Agent/Reconnect/Pacing.antt =====
-- How long Run waits between two connections.
use https_proxy.Base.{
  ℕ, zero, suc, ◌+◌, ◌-◌, ◌*◌, ◌^◌, ◌≤◌, ◌<◌, ◌/◌, ◌≡◌, List, [], ◌∷◌, Option, none, some, All, ltb,
  if◌then◌else◌, arith,
}
use native.Mathlib.Numerals.{unary_clauses}
use native.Mathlib.Nat.{mul-le-mul, le-div_iff_mul-le, div-le_of_le-mul}
use https_proxy.Agent.Reconnect.{
  second, at_least_one, min_int, base_delay, reconnect_backoff, State, connecting, connected,
  backoff, identity_conflict, stopped, ConnectionStatus, Progress, Round, cancelled_at_start,
  dial_failed, cancelled, disconnected,
}

power_positive : (n : ℕ) → 1 ≤ 2 ^ n
power_positive zero = omega arith
power_positive (suc n) = simp unary_clauses (omega (arith, power_positive n))

base_delay-bounds :
    (attempt : ℕ) → (second ≤ base_delay attempt) × (base_delay attempt ≤ 30 * second)
unfolding base_delay
base_delay-bounds attempt = ground (arith, power_positive (min_int (at_least_one attempt - 1) 5))

scaled-lower : (d x : ℕ) → second ≤ d → 800000000 ≤ d * (8 * 2 ^ 53 + 4 * x) / (10 * 2 ^ 53)
scaled-lower d x h =
    let factor : 8 * 2 ^ 53 ≤ 8 * 2 ^ 53 + 4 * x = omega arith in
    (le-div_iff_mul-le (omega arith)).1 (omega (arith, mul-le-mul h factor))

scaled-upper :
    (d x : ℕ)
    → d ≤ 30 * second
    → x < 2 ^ 53
    → d * (8 * 2 ^ 53 + 4 * x) / (10 * 2 ^ 53) ≤ 36000000000
scaled-upper d x h k =
    let factor : 8 * 2 ^ 53 + 4 * x ≤ 12 * 2 ^ 53 = omega arith in
    div-le_of_le-mul (10 * 2 ^ 53) (omega (arith, mul-le-mul h factor))

-- Between two connections there are 0.8 to 36 seconds.
pub reconnect_backoff-bounds :
    (draw attempt : ℕ)
    → draw < 2 ^ 53
    → (800000000 ≤ reconnect_backoff draw attempt) × (reconnect_backoff draw attempt ≤ 36000000000)
unfolding reconnect_backoff
reconnect_backoff-bounds draw attempt h =
    let b = base_delay-bounds attempt in
    (scaled-lower (base_delay attempt) draw b.0, scaled-upper (base_delay attempt) draw b.1 h)

-- A wait before the next connection has 0.8 seconds at least, after a conflict of identities 5 seconds.
abbrev pub paced_wait : State → ℕ
paced_wait connecting = 0
paced_wait connected = 0
paced_wait backoff = 800000000
paced_wait identity_conflict = 5 * second
paced_wait stopped = 0

abbrev pub wait_of : Option ℕ → ℕ
wait_of none = 0
wait_of (some w) = w

abbrev pub IsPaced : ConnectionStatus → Type 0
IsPaced s = (paced_wait s.state ≤ wait_of s.wait) × (wait_of s.wait ≤ 36000000000)

-- The waits that the statuses announce.
abbrev pub announced : List ConnectionStatus → List ℕ
announced [] = []
announced (s ∷ ss) = elim s.wait [ none ↦ announced ss | some w ↦ w ∷ announced ss ]

-- Each status keeps its pace, and what Run has slept are the waits that it announced.
abbrev pub Paced : Progress → Type 0
Paced p = All IsPaced p.reports × (p.sleeps ≡ announced p.reports)

abbrev waiting : ℕ → Option ℕ
waiting wait = if ltb 0 wait then some wait else none

-- `rnd.Float64()` is below 1.
abbrev pub IsDrawn : Round → Type 0
IsDrawn cancelled_at_start = Unit
IsDrawn (dial_failed e draw slept) = draw < 2 ^ 53
IsDrawn (cancelled c) = Unit
IsDrawn (disconnected c draw slept) = draw < 2 ^ 53
