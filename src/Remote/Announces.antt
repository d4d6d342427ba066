-- ===== src/Remote/Announces.antt =====
-- What a registration URL says to the gateway.
use https_proxy.Base.{
  ◌≡◌, inl, inr, refl, true, false, List, [], ◌∷◌, Option, Option-cases, Option-cases, arith,
  Bool-cases,
}
use https_proxy.Base.Text.{Text, codes, text_eq, text_mem, is_empty, trim_space, to_lower}
use https_proxy.Base.Assoc.{lookup, text_keys, lookup-insert}
use https_proxy.Base.Results.{ok, Result-cases}
use https_proxy.Shared.Modes.{normalize_proxy_mode, normalize_target_kind, target_kind_unknown}
use https_proxy.Shared.Modes.Laws.{IsProxyMode, normalize_proxy_mode_idem}
use https_proxy.Gateway.Policy.{normalize_register_proxy_mode, normalize_register_target_kind}
use https_proxy.Remote.Url.{Url, set_query, get_query, first_value}
use https_proxy.Remote.Register.{
  is_blank, register_scheme, register_path, set_proxy_mode, set_target_kind, fill_register_url,
  with_scheme, build_register_url,
}

register_query : Text → Text → Text → Url → List (Text × List Text)
register_query uuid mode kind u =
    set_target_kind kind (set_proxy_mode mode (set_query (codes "uuid") uuid u.query))

fill_register_url_ok :
    (uuid mode kind : Text) (u r : Url)
    → fill_register_url uuid mode kind u ≡ ok r
    → (k : Text) × (normalize_target_kind kind ≡ ok k)
      × (r.query ≡ register_query uuid mode k u)
      × (r.host ≡ u.host)
      × (r.path ≡ register_path u.path)
      × (is_blank u.host ≡ false)
      × (register_scheme u.scheme ≡ ok r.scheme)
unfolding fill_register_url register_query
fill_register_url_ok uuid mode kind u r h = elim (Result-cases (register_scheme u.scheme)) [
  | inr (e, E) ↦ cc (E, h)
  | inl (s, E) ↦ elim (Bool-cases (is_blank u.host)) [
    | inl b ↦ ground arith
    | inr b ↦ elim (Result-cases (normalize_target_kind kind)) [
      | inr (e, K) ↦ ground arith
      | inl (k, K) ↦ (k, K, ground arith, ground arith, ground arith, ground arith, ground arith)
    ]
  ]
]

abbrev pub IsWsScheme : Text → Type 0
IsWsScheme s = text_mem (to_lower (trim_space s)) (codes "wss" ∷ codes "ws" ∷ []) ≡ true

wss-IsWsScheme : IsWsScheme (codes "wss")
unfolding to_lower trim_space
wss-IsWsScheme = refl

ws-IsWsScheme : IsWsScheme (codes "ws")
unfolding to_lower trim_space
ws-IsWsScheme = refl

register_scheme-IsWsScheme : (s t : Text) → register_scheme s ≡ ok t → IsWsScheme t
unfolding register_scheme
register_scheme-IsWsScheme s t h = ground (arith, wss-IsWsScheme, ws-IsWsScheme)

uuid_query :
    (uuid mode kind : Text) (u : Url)
    → first_value (lookup (codes "uuid") (register_query uuid mode kind u)) ≡ uuid
unfolding register_query
uuid_query uuid mode kind u = ground (
  arith,
  lookup-insert (codes "target_kind") (codes "uuid") (kind ∷ [])
      (set_proxy_mode mode (set_query (codes "uuid") uuid u.query)),
  lookup-insert (codes "proxy_mode") (codes "uuid") (mode ∷ [])
      (set_query (codes "uuid") uuid u.query),
  lookup-insert (codes "uuid") (codes "uuid") (uuid ∷ []) u.query,
)

mode_query :
    (uuid mode kind : Text) (u : Url)
    → is_blank mode ≡ false
    → first_value (lookup (codes "proxy_mode") (register_query uuid mode kind u)) ≡ mode
unfolding register_query
mode_query uuid mode kind u h = ground (
  arith,
  lookup-insert (codes "target_kind") (codes "proxy_mode") (kind ∷ [])
      (set_proxy_mode mode (set_query (codes "uuid") uuid u.query)),
  lookup-insert (codes "proxy_mode") (codes "proxy_mode") (mode ∷ [])
      (set_query (codes "uuid") uuid u.query),
)

kind_query :
    (uuid mode kind : Text) (u : Url)
    → text_eq kind target_kind_unknown ≡ false
    → first_value (lookup (codes "target_kind") (register_query uuid mode kind u)) ≡ kind
unfolding register_query
kind_query uuid mode kind u h = ground (
  arith,
  lookup-insert (codes "target_kind") (codes "target_kind") (kind ∷ [])
      (set_proxy_mode mode (set_query (codes "uuid") uuid u.query)),
)

-- What the gateway will read of the registration is what was asked for.
pub record Announces (uuid mode kind : Text) (u : Url) : Type 0 where
  pub scheme_ws : IsWsScheme u.scheme
  pub path_set : is_empty u.path ≡ false
  pub uuid_sent : get_query (codes "uuid") u ≡ uuid
  pub mode_read : normalize_register_proxy_mode (get_query (codes "proxy_mode") u) ≡ mode
  pub kind_read : normalize_register_target_kind (get_query (codes "target_kind") u) ≡ kind

mode_blank : (m : Text) → IsProxyMode m → is_blank m ≡ false
unfolding trim_space
mode_blank m (inl e) = rw e
mode_blank m (inr e) = rw e

pub build_register_url-Announces :
    (parse : Text → Option Url) (host uuid mode kind : Text) (r : Url)
    → normalize_proxy_mode mode ≡ ok mode
    → normalize_target_kind kind ≡ ok kind
    → text_eq kind target_kind_unknown ≡ false
    → build_register_url parse host uuid mode kind ≡ ok r
    → Announces uuid mode kind r
unfolding build_register_url normalize_register_proxy_mode normalize_register_target_kind
build_register_url-Announces parse host uuid mode kind r m k n h =
    elim (Option-cases (parse (with_scheme (trim_space host)))) [
      | inl e ↦ ground arith
      | inr (u, e) ↦
          let f : fill_register_url uuid mode kind u ≡ ok r = ground arith in
          let (k', K, q, H, p, b, s) = fill_register_url_ok uuid mode kind u r f in
          let same : r.query ≡ register_query uuid mode kind u = ground (arith, q, K, k) in
          record {
            scheme_ws = register_scheme-IsWsScheme u.scheme r.scheme s;
            path_set = ground (arith, p);
            uuid_sent = ground (arith, same, uuid_query uuid mode kind u);
            mode_read = ground (
              arith,
              same,
              m,
              mode_query uuid mode kind u
                  (mode_blank mode (normalize_proxy_mode_idem mode mode m).0),
            );
            kind_read = ground (arith, same, k, kind_query uuid mode kind u n);
          }
    ]
