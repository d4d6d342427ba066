-- ===== src/Shared/Headers.antt =====
-- internal/shared/httpheaders.go, over net/http's Header: a map from keys to the values of a header
-- field. The order of the list stands for the order in which a run ranges over the map.
pub mod Laws
pub mod Sorted
mod Runs
use https_proxy.Base.{
  ℕ, ◌+◌, ◌-◌, Bool, true, false, not, ◌&&◌, ◌||◌, List, [], ◌∷◌, ◌++◌, map, Option, none, some,
  ltb, leb, ◌==◌, if◌then◌else◌,
}
use https_proxy.Base.Text.{Text, codes, text_mem, is_empty, split, trim_space, lower_byte}
use https_proxy.Base.Assoc.{lookup, insert, delete, text_keys}
use https_proxy.Proto.Types.{Header}

-- net/textproto: the bytes of a token, and the canonical form of a key that consists of them.
abbrev pub is_letter : ℕ → Bool
is_letter c = (leb b'a' c && leb c b'z') || (leb b'A' c && leb c b'Z')

abbrev pub is_digit : ℕ → Bool
is_digit c = leb b'0' c && leb c b'9'

abbrev pub byte_mem : ℕ → Text → Bool
byte_mem c [] = false
byte_mem c (b ∷ t) = b == c || byte_mem c t

unfoldable pub is_field_byte : ℕ → Bool
is_field_byte c = is_letter c || (is_digit c || byte_mem c (codes "!#$%&'*+-.^_`|~"))

abbrev pub all_field_bytes : Text → Bool
all_field_bytes [] = true
all_field_bytes (c ∷ s) = is_field_byte c && all_field_bytes s

abbrev pub upper_byte : ℕ → ℕ
upper_byte c = if leb b'a' c && leb c b'z' then c - 32 else c

-- A letter is upper case at the beginning and behind a dash, and lower case elsewhere.
unfoldable pub canonical_from : Bool → Text → Text
canonical_from upper [] = []
canonical_from upper (c ∷ s) =
    (if upper then upper_byte c else lower_byte c) ∷ canonical_from (c == b'-') s

-- http.CanonicalHeaderKey. A key with any other byte stays as it is.
unfoldable pub canonical_header_key : Text → Text
unfolding canonical_from is_field_byte
canonical_header_key s = if all_field_bytes s then canonical_from true s else s

-- The methods of http.Header. A key that is missing has no values.
unfoldable pub values_at : Text → Header → List Text
values_at k h = elim (lookup k h) [ none ↦ [] | some vs ↦ vs ]

abbrev pub values : Header → Text → List Text
values h k = values_at (canonical_header_key k) h

abbrev pub del : Header → Text → Header
del h k = delete (canonical_header_key k) h

abbrev pub add : Header → Text → Text → Header
add h k v = insert (canonical_header_key k) (values_at (canonical_header_key k) h ++ (v ∷ [])) h

abbrev pub set_value : Header → Text → Text → Header
set_value h k v = insert (canonical_header_key k) (v ∷ []) h

abbrev pub first_value : List Text → Text
first_value [] = []
first_value (v ∷ vs) = v

abbrev pub get : Header → Text → Text
get h k = first_value (values h k)

abbrev pub hop_by_hop_header_keys : List Text
hop_by_hop_header_keys =
    codes "Connection"
    ∷ codes "Proxy-Connection"
    ∷ codes "Keep-Alive"
    ∷ codes "Proxy-Authenticate"
    ∷ codes "Proxy-Authorization"
    ∷ codes "TE"
    ∷ codes "Trailer"
    ∷ codes "Transfer-Encoding"
    ∷ codes "Upgrade"
    ∷ []

abbrev pub ws_request_strip_keys : List Text
ws_request_strip_keys =
    codes "Sec-Websocket-Key"
    ∷ codes "Sec-Websocket-Version"
    ∷ codes "Sec-Websocket-Extensions"
    ∷ codes "Sec-Websocket-Accept"
    ∷ []

unfoldable pub is_hop_by_hop_header_key : Text → Bool
is_hop_by_hop_header_key k = text_mem (canonical_header_key k) hop_by_hop_header_keys

unfoldable pub is_ws_strip_header_key : Text → Bool
is_ws_strip_header_key k = text_mem (canonical_header_key k) ws_request_strip_keys

-- The keys that a list of comma-separated values names, empty ones left out.
unfoldable pub token_keys : List Text → List Text
token_keys [] = []
token_keys (w ∷ ws) =
    let k = canonical_header_key (trim_space w) in
    let rest = token_keys ws in if is_empty k then rest else k ∷ rest

unfoldable pub tokens : List Text → List Text
tokens [] = []
tokens (v ∷ vs) = token_keys (split b',' v) ++ tokens vs

unfoldable pub del_each : List Text → Header → Header
del_each [] h = h
del_each (k ∷ ks) h = del_each ks (del h k)

-- The values are read before the first key is deleted.
unfoldable pub strip_connection_headers : Header → Header
unfolding del_each
strip_connection_headers h =
    del_each hop_by_hop_header_keys (del_each (tokens (values h (codes "Connection"))) h)

-- sort.Strings, by bytes.
abbrev pub text_leb : Text → Text → Bool
text_leb [] t = true
text_leb (a ∷ s) [] = false
text_leb (a ∷ s) (b ∷ t) = ltb a b || (a == b && text_leb s t)

unfoldable pub sort_insert : Text → List Text → List Text
sort_insert x [] = x ∷ []
sort_insert x (y ∷ ys) = if text_leb x y then x ∷ y ∷ ys else y ∷ sort_insert x ys

unfoldable pub sort : List Text → List Text
unfolding sort_insert
sort [] = []
sort (x ∷ xs) = sort_insert x (sort xs)

-- The first of each, in order; `seen` holds those before.
unfoldable pub dedup : List Text → List Text → List Text
dedup seen [] = []
dedup seen (k ∷ ks) =
    let fresh = dedup (k ∷ seen) ks in
    let rest = dedup seen ks in if text_mem k seen then rest else k ∷ fresh

unfoldable pub trailer_keys_from_header : Header → List Text
unfolding tokens dedup sort
trailer_keys_from_header h = sort (dedup [] (tokens (values h (codes "Trailer"))))

unfoldable pub canonical_keys : Header → List Text
canonical_keys [] = []
canonical_keys ((k, vs) ∷ h) =
    let ck = canonical_header_key k in
    let rest = canonical_keys h in if is_empty ck then rest else ck ∷ rest

unfoldable pub header_keys : Header → List Text
unfolding canonical_keys dedup sort
header_keys h = sort (dedup [] (canonical_keys h))

unfoldable pub add_each : Text → List Text → Header → Header
add_each k [] dst = dst
add_each k (v ∷ vs) dst = add_each k vs (add dst k v)

-- The copies skip the keys that a test picks out.
unfoldable pub copy_unless : (Text → Bool) → Header → Header → Header
unfolding add_each
copy_unless skip dst [] = dst
copy_unless skip dst ((k, vs) ∷ src) =
    copy_unless skip (if skip k then dst else add_each k vs dst) src

unfoldable pub copy_headers : Header → Header → Header
unfolding copy_unless
copy_headers = copy_unless is_hop_by_hop_header_key

abbrev pub is_ws_skipped : Text → Bool
is_ws_skipped k = is_hop_by_hop_header_key k || is_ws_strip_header_key k

unfoldable pub copy_headers_for_web_socket : Header → Header → Header
unfolding copy_unless
copy_headers_for_web_socket = copy_unless is_ws_skipped
