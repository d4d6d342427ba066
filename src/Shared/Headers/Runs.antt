-- ===== src/Shared/Headers/Runs.antt =====
-- Headers at concrete inputs.
use https_proxy.Base.{◌≡◌, refl, ◌||◌, [], ◌∷◌, none, if◌then◌else◌}
use https_proxy.Base.Text.{codes, text_mem, trim_space, split}
use https_proxy.Base.Assoc.{lookup, delete, text_keys}
use https_proxy.Proto.Types.{Header}
use https_proxy.Shared.Headers.{
  canonical_header_key, values_at, tokens, token_keys, strip_connection_headers,
  hop_by_hop_header_keys, trailer_keys_from_header,
}
use https_proxy.Shared.Headers.Laws.{hop_keys, canonical, lookup-strip_connection_headers}

canonical_key : canonical_header_key (codes "x-REAL-ip") ≡ codes "X-Real-Ip"
unfolding canonical_header_key
canonical_key = refl

canonical_invalid : canonical_header_key (codes "not a key") ≡ codes "not a key"
unfolding canonical_header_key
canonical_invalid = refl

abbrev request_header : Header
request_header =
    (codes "Te", codes "trailers" ∷ [])
    ∷ (codes "Connection", codes "close, x-session" ∷ [])
    ∷ (codes "X-Session", codes "1" ∷ [])
    ∷ (codes "Accept", codes "a" ∷ codes "b" ∷ [])
    ∷ []

stripped :
    strip_connection_headers request_header ≡ (codes "Accept", codes "a" ∷ codes "b" ∷ []) ∷ []
unfolding strip_connection_headers canonical_header_key tokens token_keys values_at lookup delete
    split trim_space
stripped = refl

trailers :
    trailer_keys_from_header ((codes "Trailer", codes "x-b, ,X-A,x-B" ∷ []) ∷ [])
    ≡ codes "X-A" ∷ codes "X-B" ∷ []
unfolding trailer_keys_from_header canonical_header_key token_keys values_at lookup split trim_space
trailers = refl

lookup-strip_connection_headers_example :
    lookup (codes "X-Session") (strip_connection_headers request_header) ≡ (
      if text_mem (codes "X-Session") (hop_keys request_header)
        || text_mem (codes "X-Session") (canonical hop_by_hop_header_keys)
      then none
      else lookup (codes "X-Session") request_header)
lookup-strip_connection_headers_example =
    lookup-strip_connection_headers (codes "X-Session") request_header
