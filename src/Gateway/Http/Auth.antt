-- ===== src/Gateway/Http/Auth.antt =====
-- applyQueryBearerAuth: credentials in a query move to the Authorization header.
pub mod Laws
use https_proxy.Base.{
  Bool, true, false, ◌||◌, List, [], ◌∷◌, ◌++◌, Option, none, some, if◌then◌else◌,
}
use https_proxy.Base.Text.{Text, codes, is_empty, trim_space, to_lower, has_prefix}
use https_proxy.Base.Assoc.{lookup, delete, text_keys}
use https_proxy.Proto.Types.{Header}
use https_proxy.Shared.Headers.{set_value, values_at, del}
use https_proxy.Gateway.Http.Exchange.{Codec}

abbrev pub first_set : List Text → Text
first_set [] = []
first_set (v ∷ vs) = if is_empty (trim_space v) then first_set vs else v

unfoldable pub first_query_value : Text → List (Text × List Text) → Text
first_query_value key q = first_set (values_at key q)

abbrev pub bearer : Text → Text
bearer token = if is_empty token then [] else codes "Bearer " ++ token

abbrev pub or_else : Text → Text → Text
or_else s t = if is_empty s then t else s

-- The first of the three parameters that is set, the latter two as a token.
unfoldable pub query_auth : List (Text × List Text) → Text
unfolding first_query_value
query_auth q = or_else (trim_space (first_query_value (codes "authorization") q)) (
    or_else (bearer (trim_space (first_query_value (codes "access_token") q)))
      (bearer (trim_space (first_query_value (codes "token") q))))

abbrev pub with_bearer : Text → Text
with_bearer auth =
    if has_prefix (to_lower auth) (codes "bearer ") then auth else codes "Bearer " ++ auth

unfoldable pub clean_query : List (Text × List Text) → List (Text × List Text)
clean_query q =
    delete (codes "token") (delete (codes "access_token") (delete (codes "authorization") q))

unfoldable pub apply_query_bearer_auth : Codec → Header → Text → Header × Text
unfolding query_auth clean_query
apply_query_bearer_auth c h raw =
    if is_empty (trim_space raw) then (h, raw) else elim (c.parse_query raw) [
      | none ↦ (h, raw)
      | some q ↦ (
        if is_empty (query_auth q)
            then h
            else set_value h (codes "Authorization") (with_bearer (query_auth q)),
        c.encode_query (clean_query q),
      )
    ]

abbrev pub strip_forwarding_ip_headers : Header → Header
strip_forwarding_ip_headers h = del (del h (codes "X-Forwarded-For")) (codes "Forwarded")
