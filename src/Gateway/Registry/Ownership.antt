-- ===== src/Gateway/Registry/Ownership.antt =====
-- An agent keeps its uuid for as long as its connection lives, and gives it back when it ends.
use https_proxy.Base.{
  ℕ, ◌≡◌, ◌≢◌, refl, sym, Bool, ◌&&◌, ap, ◌∙◌, true, false, not, [], ◌∷◌, none, some, inl, inr,
  length, get_elem?, ltb, if_elim, Bool-cases, Option-cases, arith,
}
use mathlib.Core.Bool.{false≢true}
use https_proxy.Base.Text.{Text, is_empty, text_eq, text_eq_iff}
use https_proxy.Base.Assoc.{lookup, delete, text_keys, lookup-insert, lookup-delete}
use https_proxy.Gateway.Stream.{AgentConn, idle_for}
use https_proxy.Gateway.Registry.{
  Server, RegisterRequest, RegisterOutcome, token_refused, register_conn, register_locked,
  handle_register, remove_agent_if_match, get_agent, watch, heartbeat_tick, conn_step, Move,
  registers, watches, beats, operates, serve,
}

-- Registering a uuid that is taken changes nothing, whoever asks and whatever is asked for.
pub handle_register_occupied :
    (now : ℕ) (q : RegisterRequest) (s : Server) (r : ℕ)
    → get_agent q.uuid s ≡ some r
    → (handle_register now q s).0 ≡ s
unfolding handle_register
handle_register_occupied now q s r h = ground (arith, h)

-- The goroutines that may take the connection at `r` out of the map.
abbrev pub Ends : ℕ → Move → Type 0
Ends r (watches q) = q ≡ r
Ends r (beats now q) = q ≡ r
Ends r (registers now q) = ⊥
Ends r (operates op q) = ⊥

remove_other :
    (uuid other : Text) (r q : ℕ) (s : Server)
    → get_agent uuid s ≡ some r
    → q ≢ r
    → get_agent uuid (remove_agent_if_match other q s) ≡ some r
unfolding remove_agent_if_match
remove_other uuid other r q s h ne = elim (Bool-cases (text_eq other uuid)) [
  | inl same ↦ let e : other ≡ uuid = (text_eq_iff other uuid).0 same in rw e (ground (arith, h))
  | inr differ ↦ ground (arith, h, lookup-delete other uuid s.agent_by_uuid, differ)
]

locked_keeps :
    (p : RegisterRequest) (c : AgentConn) (uuid : Text) (r : ℕ) (s : Server)
    → get_agent uuid s ≡ some r
    → get_agent uuid (register_locked p c s).0 ≡ some r
unfolding register_locked
locked_keeps p c uuid r s h = elim (Option-cases (lookup p.uuid s.agent_by_uuid)) [
  | inl free ↦
      rw (free, register_locked)
        (lookup-insert p.uuid uuid (length s.conns) s.agent_by_uuid
          ∙ ground (arith, h, free, text_eq_iff p.uuid uuid))
  | inr (old, taken) ↦ rw (taken, register_locked) h
]

register_keeps :
    (now : ℕ) (p : RegisterRequest) (uuid : Text) (r : ℕ) (s : Server)
    → get_agent uuid s ≡ some r
    → get_agent uuid (handle_register now p s).0 ≡ some r
unfolding handle_register
register_keeps now p uuid r s h =
    let P : Server × RegisterOutcome → Type 0 = λ x. get_agent uuid x.0 ≡ some r in
    if_elim P (token_refused s.config p.token) (λ _. h)
      (λ _.
        if_elim P (is_empty p.uuid) (λ _. h)
          (λ _.
            if_elim P (not p.upgraded) (λ _. h)
              (λ _. locked_keeps p (register_conn now p s.config) uuid r s h)))

beat_keeps :
    (now q : ℕ) (uuid : Text) (r : ℕ) (s : Server)
    → get_agent uuid s ≡ some r
    → q ≢ r
    → get_agent uuid (heartbeat_tick now q s).0 ≡ some r
unfolding heartbeat_tick
beat_keeps now q uuid r s h n = elim (Option-cases (get_elem? s.conns q)) [
  | inl e ↦ rw (e, heartbeat_tick) h
  | inr (c, e) ↦
      rw (e, heartbeat_tick)
        (if_elim (λ (x : Server × Bool). get_agent uuid x.0 ≡ some r)
          (ltb 0 s.config.heartbeat_timeout && ltb s.config.heartbeat_timeout (idle_for now c))
          (λ _. remove_other uuid c.uuid r q s h n) (λ _. h))
]

-- Whatever the gateway does, a registered uuid keeps leading to the same connection, unless it is
-- that connection's own watcher or heartbeat that runs: no other registration, and no goroutine of an
-- older connection, ever takes a uuid away.
pub serve-get_agent :
    (m : Move) (uuid : Text) (r : ℕ) (s : Server)
    → get_agent uuid s ≡ some r
    → ¬ Ends r m
    → get_agent uuid (serve m s) ≡ some r
unfolding serve
serve-get_agent (registers now q) uuid r s h n = register_keeps now q uuid r s h
serve-get_agent (watches q) uuid r s h n = elim (Option-cases (get_elem? s.conns q)) [
  | inl e ↦ unfold watch in rw (e, watch) h
  | inr (c, e) ↦
      unfold watch in
      rw (e, watch)
        (if_elim (λ t. get_agent uuid t ≡ some r) c.closed (λ _. remove_other uuid c.uuid r q s h n)
          (λ _. h))
]
serve-get_agent (beats now q) uuid r s h n = beat_keeps now q uuid r s h n
serve-get_agent (operates op q) uuid r s h n = unfold conn_step in ground (arith, h)

watch_frees :
    (r : ℕ) (uuid : Text) (s : Server) (c : AgentConn)
    → get_agent uuid s ≡ some r
    → get_elem? s.conns r ≡ some c
    → c.uuid ≡ uuid
    → c.closed ≡ true
    → watch r s ≡ record s { agent_by_uuid = delete uuid s.agent_by_uuid }
unfolding watch
watch_frees r uuid s c h k u cl = rw (k, watch) (rw u (ground (arith, h, cl)))

locked_free :
    (q : RegisterRequest) (c : AgentConn) (s : Server)
    → get_agent q.uuid s ≡ none
    → get_agent q.uuid (register_locked q c s).0 ≡ some (length s.conns)
unfolding register_locked
locked_free q c s free =
    rw (free, register_locked)
      (lookup-insert q.uuid q.uuid (length s.conns) s.agent_by_uuid
        ∙ ground (arith, text_eq_iff q.uuid q.uuid))

register_free :
    (now : ℕ) (q : RegisterRequest) (s : Server)
    → token_refused s.config q.token ≡ false
    → is_empty q.uuid ≡ false
    → q.upgraded ≡ true
    → get_agent q.uuid s ≡ none
    → get_agent q.uuid (handle_register now q s).0 ≡ some (length s.conns)
unfolding handle_register
register_free now q s tok ne up free =
    let P : Server × RegisterOutcome → Type 0 = λ x. get_agent q.uuid x.0 ≡ some (length s.conns) in
    if_elim P (token_refused s.config q.token) (λ t. absurd (false≢true (sym tok ∙ t)))
      (λ _.
        if_elim P (is_empty q.uuid) (λ t. absurd (false≢true (sym ne ∙ t)))
          (λ _.
            if_elim P (not q.upgraded) (λ t. absurd (false≢true (sym (ap not up) ∙ t)))
              (λ _. locked_free q (register_conn now q s.config) s free)))

is_empty-ne : (t : Text) → t ≢ [] → is_empty t ≡ false
is_empty-ne [] h = absurd (h refl)
is_empty-ne (a ∷ t) h = refl

-- When a connection has closed and its watcher has run, its uuid is free: an agent that reconnects
-- under it with a good token is registered.
pub handle_register_again :
    (now r : ℕ) (q : RegisterRequest) (s : Server) (c : AgentConn)
    → get_agent q.uuid s ≡ some r
    → get_elem? s.conns r ≡ some c
    → c.uuid ≡ q.uuid
    → c.closed ≡ true
    → token_refused s.config q.token ≡ false
    → q.uuid ≢ []
    → q.upgraded ≡ true
    → get_agent q.uuid (handle_register now q (watch r s)).0 ≡ some (length s.conns)
handle_register_again now r q s c h k u cl tok ne up = rw (watch_frees r q.uuid s c h k u cl) (
    register_free now q (record s { agent_by_uuid = delete q.uuid s.agent_by_uuid }) tok
      (is_empty-ne q.uuid ne) up
      (lookup-delete q.uuid q.uuid s.agent_by_uuid ∙ ground (arith, text_eq_iff q.uuid q.uuid)))
