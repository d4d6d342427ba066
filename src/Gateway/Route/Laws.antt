-- ===== src/Gateway/Route/Laws.antt =====
-- Which connection a path reaches.
use https_proxy.Base.{
  ℕ, ◌≡◌, ◌≢◌, refl, sym, ap, ◌∙◌, Bool, false, not, [], ◌∷◌, ◌++◌, Option, none, some, ◌⊎◌, inl,
  inr, get_elem?, ◌==◌, if◌then◌else◌, All, arith, if_elim, Option-cases,
}
use mathlib.Core.Bool.{false≢true}
use https_proxy.Base.Text.{Text, codes, text_eq, has_prefix, trim_prefix_byte, is_empty, cut}
use https_proxy.Shared.Modes.{proxy_mode_transparent_tunnel, target_kind_web_socket}
use https_proxy.Gateway.Registry.{Server, get_agent}
use https_proxy.Gateway.Stream.{AgentConn}
use https_proxy.Gateway.Route.{
  Request, Route, status_page, status_forbidden, register_page, not_found, agent_offline, to_http,
  to_ws_legacy, to_ws_transparent, to_ws_transparent_raw, split_path, suffix_path, ws_route,
  agent_route, handle_client, serve_http, slash,
}

-- A uuid that can stand as the first segment of a path.
abbrev pub NoSlash : Text → Type 0
NoSlash = All (λ b. b ≢ slash)

cut-segment : (u rest : Text) → NoSlash u → cut slash (u ++ (slash ∷ rest)) ≡ (u, some rest)
unfolding cut
cut-segment [] rest h = refl
cut-segment (a ∷ u) rest h = ground (arith, cut-segment u rest h.1, h.0)

cut-NoSlash : (t : Text) → NoSlash (cut slash t).0
unfolding cut
cut-NoSlash [] = tt
cut-NoSlash (a ∷ t) =
    if_elim (λ (p : Text × Option Text). NoSlash p.0) (a == slash) (λ _. tt)
      (λ n. (ground (arith, n), cut-NoSlash t))

suffix_path_lem : (rest : Text) → suffix_path rest ≡ slash ∷ rest
suffix_path_lem [] = refl
suffix_path_lem (a ∷ rest) = refl

not_empty : (u rest : Text) → is_empty (u ++ (slash ∷ rest)) ≡ false
not_empty [] rest = refl
not_empty (a ∷ u) rest = refl

split_path-segment : (u rest : Text) → NoSlash u → split_path (u ++ (slash ∷ rest)) ≡ (u, rest)
unfolding split_path
split_path-segment u rest seg = rw (cut-segment u rest seg)

agent_route_reaches :
    (upgrade : Bool) (u rest : Text) (s : Server) (r : ℕ) (c : AgentConn)
    → get_agent u s ≡ some r
    → get_elem? s.conns r ≡ some c
    → agent_route upgrade u rest s
      ≡ (if upgrade then ws_route c r (slash ∷ rest) else to_http r (slash ∷ rest))
unfolding agent_route
agent_route_reaches upgrade u rest s r c h k =
    rw (h, agent_route)
      (rw (k, agent_route) (unfold ws_route in ground (arith, suffix_path_lem rest)))

client_reaches :
    (s : Server) (u rest : Text) (r : ℕ) (c : AgentConn) (local upgrade : Bool)
    → u ≢ []
    → NoSlash u
    → get_agent u s ≡ some r
    → get_elem? s.conns r ≡ some c
    → handle_client
        (record {
          path = slash ∷ (u ++ (slash ∷ rest));
          from_localhost = local;
          is_upgrade = upgrade;
        })
        s
      ≡ (if upgrade then ws_route c r (slash ∷ rest) else to_http r (slash ∷ rest))
unfolding handle_client
client_reaches s u rest r c local upgrade ne seg h k = rw (not_empty u rest) (
    ap (λ (p : Text × Text). agent_route upgrade p.0 p.1 s) (split_path-segment u rest seg)
    ∙ agent_route_reaches upgrade u rest s r c h k)

-- The path `/uuid/rest` reaches the agent that is registered as `uuid`, with the path `/rest`: by
-- HTTP, or for an upgrade by the relay that the agent's mode and target call for. The uuid is no
-- special page's.
pub serve_http_reaches :
    (s : Server) (u rest : Text) (r : ℕ) (c : AgentConn) (local upgrade : Bool)
    → u ≢ []
    → NoSlash u
    → text_eq (slash ∷ (u ++ (slash ∷ rest))) (codes "/status") ≡ false
    → has_prefix (slash ∷ (u ++ (slash ∷ rest))) (codes "/register") ≡ false
    → get_agent u s ≡ some r
    → get_elem? s.conns r ≡ some c
    → serve_http
        (record {
          path = slash ∷ (u ++ (slash ∷ rest));
          from_localhost = local;
          is_upgrade = upgrade;
        })
        s
      ≡ (if upgrade then ws_route c r (slash ∷ rest) else to_http r (slash ∷ rest))
unfolding serve_http
serve_http_reaches s u rest r c local upgrade ne seg st reg h k =
    let P : Route → Type 0 =
      λ x. x ≡ (if upgrade then ws_route c r (slash ∷ rest) else to_http r (slash ∷ rest)) in
    if_elim P (text_eq (slash ∷ (u ++ (slash ∷ rest))) (codes "/status"))
      (λ t. absurd (false≢true (sym st ∙ t)))
      (λ _.
        if_elim P (has_prefix (slash ∷ (u ++ (slash ∷ rest))) (codes "/register"))
          (λ t. absurd (false≢true (sym reg ∙ t)))
          (λ _. client_reaches s u rest r c local upgrade ne seg h k))

-- The connection that a route hands the request to.
abbrev pub conn_of : Route → Option ℕ
conn_of (to_http r suffix) = some r
conn_of (to_ws_legacy r suffix) = some r
conn_of (to_ws_transparent r suffix) = some r
conn_of (to_ws_transparent_raw r suffix) = some r
conn_of status_page = none
conn_of status_forbidden = none
conn_of register_page = none
conn_of not_found = none
conn_of agent_offline = none

conn_of-ws_route : (c : AgentConn) (r : ℕ) (suffix : Text) → conn_of (ws_route c r suffix) ≡ some r
unfolding ws_route
conn_of-ws_route c r suffix =
    let P : Route → Type 0 = λ x. conn_of x ≡ some r in
    if_elim P (text_eq c.proxy_mode_effective proxy_mode_transparent_tunnel)
      (λ _. if_elim P (text_eq c.target_kind target_kind_web_socket) (λ _. refl) (λ _. refl))
      (λ _. refl)

agent_route_owner :
    (up : Bool) (uuid rest : Text) (s : Server) (r : ℕ)
    → conn_of (agent_route up uuid rest s) ≡ some r
    → get_agent uuid s ≡ some r
unfolding agent_route
agent_route_owner up uuid rest s r = elim (Option-cases (get_agent uuid s)) [
  | inl e ↦ rw (e, agent_route) (λ h. cc)
  | inr (q, e) ↦ elim (Option-cases (get_elem? s.conns q)) [
    | inl k ↦ rw (e, k, agent_route) (λ h. cc)
    | inr (c, k) ↦
        rw (e, k, agent_route)
          (if_elim (λ x. conn_of x ≡ some r → some q ≡ some r) up
            (λ _ h. sym (conn_of-ws_route c q (suffix_path rest)) ∙ h) (λ _ h. h))
  ]
]

after_segment : Option Text → Text
after_segment none = []
after_segment (some rest) = slash ∷ rest

-- A path whose first segment is `uuid`: the leading slash may be missing, and what follows the
-- segment is nothing or begins with a slash.
abbrev pub FirstSegment : Text → Text → Type 0
FirstSegment path uuid =
    NoSlash uuid
    × (lead : Text) × (rest : Text) × (path ≡ lead ++ (uuid ++ rest))
    × ((lead ≡ []) ⊎ (lead ≡ slash ∷ []))
    × ((rest ≡ []) ⊎ ((tail : Text) × (rest ≡ slash ∷ tail)))

cut-joins : (t : Text) → t ≡ (cut slash t).0 ++ after_segment (cut slash t).1
unfolding cut after_segment
cut-joins [] = refl
cut-joins (a ∷ t) =
    if_elim (λ (p : Text × Option Text). a ∷ t ≡ p.0 ++ after_segment p.1) (a == slash)
      (λ e. ground (arith, e)) (λ _. ap (λ x. a ∷ x) (cut-joins t))

after_segment_cases :
    (o : Option Text) → (after_segment o ≡ []) ⊎ ((tail : Text) × (after_segment o ≡ slash ∷ tail))
unfolding after_segment
after_segment_cases none = inl refl
after_segment_cases (some rest) = inr (rest, refl)

trimmed_path :
    (path : Text)
    → (lead : Text) × (path ≡ lead ++ trim_prefix_byte path slash)
      × ((lead ≡ []) ⊎ (lead ≡ slash ∷ []))
trimmed_path [] = ([], refl, inl refl)
trimmed_path (a ∷ path) =
    if_elim (λ t. (lead : Text) × (a ∷ path ≡ lead ++ t) × ((lead ≡ []) ⊎ (lead ≡ slash ∷ [])))
      (a == slash) (λ e. (slash ∷ [], ground (arith, e), inr refl)) (λ _. ([], refl, inl refl))

cut-FirstSegment : (path : Text) → FirstSegment path (cut slash (trim_prefix_byte path slash)).0
cut-FirstSegment path =
    let trim = trim_prefix_byte path slash in
    let t = trimmed_path path in
    (
      cut-NoSlash trim,
      t.0,
      after_segment (cut slash trim).1,
      t.1 ∙ ap (λ x. t.0 ++ x) (cut-joins trim),
      t.2,
      after_segment_cases (cut slash trim).1,
    )

handle_client_owner :
    (q : Request) (s : Server) (r : ℕ)
    → conn_of (handle_client q s) ≡ some r
    → (uuid : Text) × FirstSegment q.path uuid × (get_agent uuid s ≡ some r)
unfolding handle_client
handle_client_owner q s r =
    let trim = trim_prefix_byte q.path slash in
    if_elim
      (λ x.
        conn_of x ≡ some r → (uuid : Text) × FirstSegment q.path uuid × (get_agent uuid s ≡ some r))
      (is_empty trim) (λ _ h. cc)
      (λ _ h. (
        (cut slash trim).0,
        cut-FirstSegment q.path,
        agent_route_owner q.is_upgrade (cut slash trim).0 _ s r h,
      ))

-- A connection is only ever reached by a path whose first segment, which has no slash in it, is the
-- uuid that leads to the connection.
pub serve_http_owner :
    (q : Request) (s : Server) (r : ℕ)
    → conn_of (serve_http q s) ≡ some r
    → (uuid : Text) × FirstSegment q.path uuid × (get_agent uuid s ≡ some r)
unfolding serve_http
serve_http_owner q s r =
    let P : Route → Type 0 = λ x.
      conn_of x ≡ some r → (uuid : Text) × FirstSegment q.path uuid × (get_agent uuid s ≡ some r) in
    if_elim P (text_eq q.path (codes "/status"))
      (λ _. if_elim P (not q.from_localhost) (λ _ h. cc) (λ _ h. cc))
      (λ _.
        if_elim P (has_prefix q.path (codes "/register")) (λ _ h. cc)
          (λ _. handle_client_owner q s r))

-- A uuid that begins with `register` is never reached either, though it can be registered: every
-- path to it is taken for a registration.
pub serve_http_shadowed :
    (s : Server) (x rest : Text) (local upgrade : Bool)
    → serve_http
        (record {
          path = slash ∷ ((codes "register" ++ x) ++ (slash ∷ rest));
          from_localhost = local;
          is_upgrade = upgrade;
        })
        s
      ≡ register_page
unfolding serve_http
serve_http_shadowed s x rest local upgrade = ground (arith)
