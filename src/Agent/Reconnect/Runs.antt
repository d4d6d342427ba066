-- ===== src/Agent/Reconnect/Runs.antt =====
-- Rounds at concrete inputs.
use https_proxy.Base.{◌+◌, ◌*◌, true, List, [], ◌∷◌, some, length, ◌≡◌, refl}
use https_proxy.Base.Int.{pos}
use https_proxy.Base.Text.{codes}
use https_proxy.Shared.WsClose.{close_error, plain}
use https_proxy.Agent.Reconnect.{
  second, Session, Round, dial_failed, disconnected, cancelled, run, started,
}
use https_proxy.Agent.Reconnect.Ending.{any_ends, end_of, run-any_ends, run-attempt}

-- The gateway closes with 4009 after two seconds.
abbrev rejected_session : Session
rejected_session = record {
  connected_at = 100 * second;
  pongs = (101 * second) ∷ [];
  ended_at = 102 * second;
  error = some (close_error (pos 4009) (codes "uuid already active"));
}

abbrev failures : List Round
failures = dial_failed (plain (codes "refused")) 0 true ∷ disconnected rejected_session 0 true ∷ []

abbrev demo_rounds : List Round
demo_rounds =
    dial_failed (plain (codes "refused")) 0 true
    ∷ disconnected rejected_session 0 true
    ∷ cancelled rejected_session
    ∷ []

run-any_ends_example : (run demo_rounds started).1 ≡ end_of (any_ends demo_rounds)
run-any_ends_example = run-any_ends demo_rounds started

run-attempt_example : (run failures started).0.attempt ≡ started.attempt + length failures
run-attempt_example = run-attempt failures started (refl, ((refl, refl), tt))
