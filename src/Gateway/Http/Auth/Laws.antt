-- ===== src/Gateway/Http/Auth/Laws.antt =====
-- Credentials of a query do not reach the agent in it.
use https_proxy.Base.{
  ◌≡◌, refl, Bool, true, false, ◌||◌, List, [], ◌∷◌, Option, none, some, arith, if◌then◌else◌,
}
use https_proxy.Base.Text.{Text, codes, text_eq, text_eq_sym, text_mem, is_empty, trim_space}
use https_proxy.Base.Assoc.{lookup, delete, text_keys, lookup-delete, lookup-insert}
use https_proxy.Proto.Types.{Header}
use https_proxy.Shared.Headers.{canonical_header_key}
use https_proxy.Gateway.Http.Exchange.{Codec}
use https_proxy.Gateway.Http.Auth.{query_auth, with_bearer, clean_query, apply_query_bearer_auth}

abbrev pub credential_keys : List Text
credential_keys = codes "authorization" ∷ codes "access_token" ∷ codes "token" ∷ []

abbrev unless {ℓ} : {A : Type ℓ} → Bool → Option A → Option A
unless b o = if b then none else o

delete_one :
    (k j : Text) (q : List (Text × List Text))
    → lookup j (delete k q) ≡ unless (text_eq j k) (lookup j q)
delete_one k j q = ground (arith, lookup-delete k j q, text_eq_sym j k)

three :
    (a b c : Bool) (o : Option (List Text))
    → unless a (unless b (unless c o)) ≡ unless (c || (b || (a || false))) o
three true true true o = refl
three true true false o = refl
three true false true o = refl
three true false false o = refl
three false true true o = refl
three false true false o = refl
three false false true o = refl
three false false false o = refl

lookup-clean_query :
    (k : Text) (q : List (Text × List Text))
    → lookup k (clean_query q) ≡ (if text_mem k credential_keys then none else lookup k q)
unfolding clean_query
lookup-clean_query k q =
    let q1 = delete (codes "authorization") q in
    let q2 = delete (codes "access_token") q1 in
    rw
      (
        delete_one (codes "token") k q2,
        delete_one (codes "access_token") k q1,
        delete_one (codes "authorization") k q,
      )
      (three (text_eq k (codes "token")) (text_eq k (codes "access_token"))
        (text_eq k (codes "authorization")) (lookup k q))

authorization_key : canonical_header_key (codes "Authorization") ≡ codes "Authorization"
unfolding canonical_header_key
authorization_key = refl

-- Where a query parses, what is forwarded of it is without the three credential parameters and
-- otherwise the same, and the Authorization header is the credential that they held, as a bearer
-- token; without one the headers stay as they are.
pub apply_query_bearer_auth_lem :
    (c : Codec) (h : Header) (raw : Text) (q : List (Text × List Text))
    → is_empty (trim_space raw) ≡ false
    → c.parse_query raw ≡ some q
    → ((apply_query_bearer_auth c h raw).1 ≡ c.encode_query (clean_query q))
      × ((k : Text)
          → lookup k (clean_query q) ≡ (if text_mem k credential_keys then none else lookup k q))
      × (is_empty (query_auth q) ≡ true → (apply_query_bearer_auth c h raw).0 ≡ h)
      × (is_empty (query_auth q) ≡ false
          → lookup (codes "Authorization") (apply_query_bearer_auth c h raw).0
            ≡ some (with_bearer (query_auth q) ∷ []))
unfolding apply_query_bearer_auth
apply_query_bearer_auth_lem c h raw q n e = (
  ground arith,
  λ k. lookup-clean_query k q,
  λ z. ground arith,
  λ z. ground (
    arith,
    authorization_key,
    lookup-insert (codes "Authorization") (codes "Authorization") (with_bearer (query_auth q) ∷ [])
        h,
  ),
)
