-- ===== src/Gateway/Registry/Invariant.antt =====
-- What holds of every registered connection, after any history of the gateway.
use https_proxy.Base.{
  ℕ, ◌≡◌, ◌≢◌, refl, sym, ◌∙◌, subst, Bool, ◌&&◌, true, false, not, List, [], ◌∷◌, ◌++◌, some, inl,
  inr, length, get_elem?, get_elem?-set, get_elem?-length, get_elem?-append, set, ltb, ◌==◌,
  if_elim, Bool-cases, Option-cases, arith,
}
use https_proxy.Base.Text.{Text, is_empty, text_eq, text_eq_iff}
use https_proxy.Base.Assoc.{lookup, text_keys, lookup-insert, lookup-delete}
use https_proxy.Shared.Modes.{proxy_mode_transparent_tunnel}
use https_proxy.Gateway.Policy.{Config, normalize_register_proxy_mode}
use https_proxy.Gateway.Policy.Laws.{IsAllowed, resolve_proxy_mode_iff}
use https_proxy.Gateway.Stream.{AgentConn, new_agent_conn, idle_for}
use https_proxy.Gateway.Stream.Steps.{Op, step}
use https_proxy.Gateway.Stream.Identity.{SameAgent, step-SameAgent}
use https_proxy.Gateway.Registry.{
  Server, RegisterRequest, RegisterOutcome, token_refused, register_conn, register_locked,
  handle_register, points_to, remove_agent_if_match, get_agent, watch, heartbeat_tick, conn_step,
  Move, registers, watches, beats, operates, serve, serve_all,
}

-- A uuid leads to a connection that was registered under it, under the server's limit on streams,
-- and in transparent mode only with the operator's leave.
pub record IsVetted (s : Config) (uuid : Text) (c : AgentConn) : Type 0 where
  pub own : c.uuid ≡ uuid
  pub named : uuid ≢ []
  pub cap : c.max_streams ≡ s.max_streams_per_agent
  pub mode :
      c.proxy_mode_effective ≡ proxy_mode_transparent_tunnel
      → (s.transparent_enabled ≡ true) × (s.force_legacy_mode ≡ false) × IsAllowed s uuid

pub record RegInv (s : Server) : Type 0 where
  pub vetted :
      (uuid : Text) (r : ℕ)
      → get_agent uuid s ≡ some r
      → (c : AgentConn) × (get_elem? s.conns r ≡ some c) × IsVetted s.config uuid c

IsVetted-SameAgent :
    {s : Config} {uuid : Text} {c d : AgentConn}
    → SameAgent c d
    → IsVetted s uuid c
    → IsVetted s uuid d
IsVetted-SameAgent same v = record {
  own = same.uuid ∙ v.own;
  named = v.named;
  cap = same.cap ∙ v.cap;
  mode = λ h. v.mode (sym same.effective ∙ h);
}

same_place {ℓ} :
    {A : Type ℓ} (xs : List A) (i j : ℕ) (x y : A)
    → get_elem? xs i ≡ some x
    → get_elem? xs j ≡ some y
    → (i == j) ≡ true
    → x ≡ y
same_place xs i j x y h k e = ground arith

-- A connection is replaced by one of the same agent.
write_conn-RegInv :
    (s : Server) (r : ℕ) (c d : AgentConn)
    → RegInv s
    → get_elem? s.conns r ≡ some c
    → SameAgent c d
    → RegInv (record s { conns = set s.conns r d })
write_conn-RegInv s r c d inv h same = record {
  vetted = λ uuid q e.
      let (x, hx, v) = inv.vetted uuid q e in
      elim (Bool-cases (r == q)) [
        | inl hit ↦ (
          d,
          ground (arith, get_elem?-set s.conns r c d q h),
          IsVetted-SameAgent (subst (λ y. SameAgent y d) (same_place s.conns r q c x h hx hit) same)
              v,
        )
        | inr miss ↦ (x, ground (arith, get_elem?-set s.conns r c d q h, hx), v)
      ];
}

remove-RegInv :
    (uuid : Text) (r : ℕ) (s : Server) → RegInv s → RegInv (remove_agent_if_match uuid r s)
unfolding remove_agent_if_match
remove-RegInv uuid r s inv =
    if_elim RegInv (points_to (lookup uuid s.agent_by_uuid) r)
      (λ _. record {
        vetted = λ other q e.
            inv.vetted other q (ground (arith, lookup-delete uuid other s.agent_by_uuid, e));
      })
      (λ _. inv)

register_conn-IsVetted :
    (now : ℕ) (q : RegisterRequest) (s : Config)
    → q.uuid ≢ []
    → IsVetted s q.uuid (register_conn now q s)
unfolding register_conn new_agent_conn
register_conn-IsVetted now q s ne =
    let resolved = resolve_proxy_mode_iff s q.uuid (normalize_register_proxy_mode q.proxy_mode) in
    record {
      own = refl;
      named = ne;
      cap = refl;
      mode = λ h. let (_, e, f, a) = resolved.0.0 h in (e, f, a);
    }

locked-RegInv :
    (q : RegisterRequest) (c : AgentConn) (s : Server)
    → RegInv s
    → IsVetted s.config q.uuid c
    → RegInv (register_locked q c s).0
unfolding register_locked
locked-RegInv q c s inv v = elim (Option-cases (lookup q.uuid s.agent_by_uuid)) [
  | inr (old, taken) ↦ rw (taken, register_locked) inv
  | inl free ↦
      rw (free, register_locked)
        (record {
          vetted = λ uuid r e. elim (Bool-cases (text_eq q.uuid uuid)) [
            | inl same ↦
                let u : q.uuid ≡ uuid = (text_eq_iff q.uuid uuid).0 same in
                let at_end : length s.conns ≡ r =
                  ground
                    (arith, lookup-insert q.uuid uuid (length s.conns) s.agent_by_uuid, e, same) in
                (
                  c,
                  subst (λ n. get_elem? (s.conns ++ (c ∷ [])) n ≡ some c) at_end
                      (get_elem?-length s.conns c),
                  subst (λ n. IsVetted s.config n c) u v,
                )
            | inr other ↦
                let (x, hx, w) = inv.vetted uuid r (
                  ground (
                    arith,
                    lookup-insert q.uuid uuid (length s.conns) s.agent_by_uuid,
                    e,
                    other,
                  )) in
                (x, get_elem?-append s.conns (c ∷ []) r x hx, w)
          ];
        })
]

ne-is_empty : (t : Text) → is_empty t ≡ false → t ≢ []
ne-is_empty [] h e = cc
ne-is_empty (a ∷ t) h e = cc

register-RegInv :
    (now : ℕ) (q : RegisterRequest) (s : Server) → RegInv s → RegInv (handle_register now q s).0
unfolding handle_register
register-RegInv now q s inv =
    let P : Server × RegisterOutcome → Type 0 = λ x. RegInv x.0 in
    if_elim P (token_refused s.config q.token) (λ _. inv)
      (λ _.
        if_elim P (is_empty q.uuid) (λ _. inv)
          (λ named.
            if_elim P (not q.upgraded) (λ _. inv)
              (λ _.
                locked-RegInv q (register_conn now q s.config) s inv
                  (register_conn-IsVetted now q s.config (ne-is_empty q.uuid named)))))

remove-conns : (uuid : Text) (r : ℕ) (s : Server) → (remove_agent_if_match uuid r s).conns ≡ s.conns
unfolding remove_agent_if_match
remove-conns uuid r s = ground arith

watch-RegInv : (r : ℕ) (s : Server) → RegInv s → RegInv (watch r s)
unfolding watch
watch-RegInv r s inv = elim (Option-cases (get_elem? s.conns r)) [
  | inl e ↦ rw (e, watch) inv
  | inr (c, e) ↦
      rw (e, watch) (if_elim RegInv c.closed (λ _. remove-RegInv c.uuid r s inv) (λ _. inv))
]

beat-RegInv : (now r : ℕ) (s : Server) → RegInv s → RegInv (heartbeat_tick now r s).0
unfolding heartbeat_tick
beat-RegInv now r s inv = elim (Option-cases (get_elem? s.conns r)) [
  | inl e ↦ rw (e, heartbeat_tick) inv
  | inr (c, e) ↦
      rw (e, heartbeat_tick)
        (if_elim (λ (x : Server × Bool). RegInv x.0)
          (ltb 0 s.config.heartbeat_timeout && ltb s.config.heartbeat_timeout (idle_for now c))
          (λ _. remove-RegInv c.uuid r s inv) (λ _. inv))
]

operate-RegInv : (op : Op) (r : ℕ) (s : Server) → RegInv s → RegInv (conn_step op r s)
unfolding conn_step
operate-RegInv op r s inv = elim (Option-cases (get_elem? s.conns r)) [
  | inl e ↦ rw (e, conn_step) inv
  | inr (c, e) ↦ rw (e, conn_step) (write_conn-RegInv s r c (step op c) inv e (step-SameAgent op c))
]

serve-RegInv : (m : Move) (s : Server) → RegInv s → RegInv (serve m s)
unfolding serve
serve-RegInv (registers now q) s inv = register-RegInv now q s inv
serve-RegInv (watches r) s inv = watch-RegInv r s inv
serve-RegInv (beats now r) s inv = beat-RegInv now r s inv
serve-RegInv (operates op r) s inv = operate-RegInv op r s inv

serve_all-RegInv : (ms : List Move) (s : Server) → RegInv s → RegInv (serve_all ms s)
unfolding serve_all
serve_all-RegInv [] s inv = inv
serve_all-RegInv (m ∷ ms) s inv = serve_all-RegInv ms (serve m s) (serve-RegInv m s inv)

serve-config : (m : Move) (s : Server) → (serve m s).config ≡ s.config
unfolding serve
serve-config (registers now q) s = unfold handle_register in ground arith
serve-config (watches r) s = unfold watch in ground arith
serve-config (beats now r) s = unfold heartbeat_tick in ground arith
serve-config (operates op r) s = unfold conn_step in ground arith

serve_all-config : (ms : List Move) (s : Server) → (serve_all ms s).config ≡ s.config
unfolding serve_all
serve_all-config [] s = refl
serve_all-config (m ∷ ms) s = serve_all-config ms (serve m s) ∙ serve-config m s

abbrev pub new_server : Config → Server
new_server s = record { config = s; agent_by_uuid = []; conns = [] }

no_agent : (uuid : Text) (r : ℕ) → lookup uuid [] ≡ some r → ⊥
unfolding lookup
no_agent uuid r h = cc

-- After any history of a new gateway its configuration is what it was, and every registered uuid leads to a connection that registered
-- under it, with the server's limit on streams; and if that connection is in transparent mode, then
-- transparent mode is enabled, not overridden, and the operator has allowed that uuid.
pub serve_all-new_server-RegInv :
    (s : Config) (ms : List Move)
    → ((serve_all ms (new_server s)).config ≡ s) × RegInv (serve_all ms (new_server s))
serve_all-new_server-RegInv s ms = (
  serve_all-config ms (new_server s),
  serve_all-RegInv ms (new_server s) (record { vetted = λ uuid r e. absurd (no_agent uuid r e) }),
)
