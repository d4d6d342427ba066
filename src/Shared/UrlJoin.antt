-- ===== src/Shared/UrlJoin.antt =====
-- internal/shared/urljoin.go, over path.Clean and path.Join of the standard library. Only the path and
-- the scheme of a URL change.
pub mod Laws
mod Runs
use https_proxy.Base.{
  ℕ, Bool, true, false, not, ◌&&◌, ◌||◌, List, [], ◌∷◌, ◌++◌, ◌==◌, if◌then◌else◌,
}
use https_proxy.Base.Text.{Text, codes, text_eq, is_empty, has_prefix, split, join, to_lower}

-- strings.HasSuffix and TrimSuffix for one byte.
abbrev pub ends_with : Text → ℕ → Bool
ends_with [] c = false
ends_with (a ∷ []) c = a == c
ends_with (a ∷ b ∷ s) c = ends_with (b ∷ s) c

abbrev pub trim_suffix_byte : Text → ℕ → Text
trim_suffix_byte [] c = []
trim_suffix_byte (a ∷ []) c = if a == c then [] else a ∷ []
trim_suffix_byte (a ∷ b ∷ s) c = a ∷ trim_suffix_byte (b ∷ s) c

-- The elements so far, the last one first, after a `..`.
abbrev pub backtrack : Bool → List Text → List Text
backtrack rooted [] = if rooted then [] else codes ".." ∷ []
backtrack rooted (top ∷ out) = if text_eq top (codes "..") then codes ".." ∷ top ∷ out else out

abbrev pub clean_step : Bool → List Text → Text → List Text
clean_step rooted out seg =
    if is_empty seg || text_eq seg (codes ".")
    then out
    else if text_eq seg (codes "..")
    then backtrack rooted out
    else seg ∷ out

unfoldable pub clean_from : Bool → List Text → List Text → List Text
clean_from rooted out [] = out
clean_from rooted out (seg ∷ segs) = clean_from rooted (clean_step rooted out seg) segs

-- The elements, the last one first, joined by slashes.
abbrev pub join_back : Text → List Text → Text
join_back acc [] = acc
join_back acc (seg ∷ out) = join_back (seg ++ (b'/' ∷ acc)) out

abbrev pub join_elements : List Text → Text
join_elements [] = []
join_elements (seg ∷ out) = join_back seg out

unfoldable pub clean : Text → Text
unfolding clean_from
clean s =
    let rooted = has_prefix s (codes "/") in
    let out = clean_from rooted [] (split b'/' s) in
    if rooted
    then b'/' ∷ join_elements out
    else elim out [ [] ↦ codes "." | seg ∷ segs ↦ join_elements (seg ∷ segs) ]

-- path.Join of two elements, of which the second is not empty.
abbrev pub path_join : Text → Text → Text
path_join a b = if is_empty a then clean b else clean (a ++ (b'/' ∷ b))

abbrev pub or_slash : Text → Text
or_slash s = if is_empty s then codes "/" else s

-- The path of JoinURL's result.
unfoldable pub join_url : Text → Text → Text
unfolding clean
join_url base_path suffix_path =
    let suffix = or_slash suffix_path in
    let path = path_join (trim_suffix_byte (or_slash base_path) b'/') suffix in
    if ends_with suffix b'/' && not (ends_with path b'/') then path ++ codes "/" else path

-- The scheme of ToWebSocketURL's result.
unfoldable pub to_web_socket_url : Text → Text
to_web_socket_url scheme =
    if text_eq (to_lower scheme) (codes "http")
    then codes "ws"
    else if text_eq (to_lower scheme) (codes "https")
    then codes "wss"
    else scheme
