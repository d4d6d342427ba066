-- ===== src/Remote/Address.antt =====
-- net.SplitHostPort and net.JoinHostPort, and the net.IP conversions.
pub mod Laws
use https_proxy.Base.{
  ℕ, Bool, true, false, ◌&&◌, List, [], ◌∷◌, ◌++◌, Option, none, some, length, drop, ◌==◌,
  if◌then◌else◌,
}
use https_proxy.Base.Text.{Text, codes, text_mem, text_eq, contains, cut, has_prefix}
use https_proxy.Base.Results.{Result, ok, err}

pub data AddrError : Type 0 where
  missing_port too_many_colons missing_bracket unexpected_bracket : AddrError

abbrev pub byte_mem : ℕ → Text → Bool
byte_mem c s = contains s (c ∷ [])

-- The text before the last occurrence of a byte and the text after it.
unfoldable pub cut_last : ℕ → Text → Option (Text × Text)
cut_last c [] = none
cut_last c (a ∷ s) = elim (cut_last c s) [
  | none ↦ if a == c then some ([], s) else none
  | some (w, r) ↦ some (a ∷ w, r)
]

-- A host in brackets, as the text before `]` and the text after it.
abbrev pub split_bracketed : Text → Option Text → Result AddrError (Text × Text)
split_bracketed w none = err missing_bracket
split_bracketed w (some []) = err missing_port
split_bracketed w (some (c ∷ port)) =
    if c == b':'
    then (if byte_mem b':' port
        then err too_many_colons
        else if byte_mem b'[' (drop 1 w ++ port)
        then err unexpected_bracket
        else if byte_mem b']' port
        then err unexpected_bracket
        else ok (drop 1 w, port))
    else err missing_port

unfoldable pub split_host_port : Text → Result AddrError (Text × Text)
unfolding cut_last
split_host_port s = elim (cut_last b':' s) [
  | none ↦ err missing_port
  | some (host, port) ↦
      if has_prefix s (codes "[")
      then split_bracketed (cut b']' s).0 (cut b']' s).1
      else if byte_mem b':' host
      then err too_many_colons
      else if byte_mem b'[' s
      then err unexpected_bracket
      else if byte_mem b']' s
      then err unexpected_bracket
      else ok (host, port)
]

unfoldable pub join_host_port : Text → Text → Text
join_host_port host port =
    if byte_mem b':' host
    then codes "[" ++ (host ++ (codes "]:" ++ port))
    else host ++ (codes ":" ++ port)

-- A net.IP is its bytes: 4, or 16 with the IPv4 ones under a prefix.
abbrev pub v4_prefix : Text
v4_prefix = 0 ∷ 0 ∷ 0 ∷ 0 ∷ 0 ∷ 0 ∷ 0 ∷ 0 ∷ 0 ∷ 0 ∷ 255 ∷ 255 ∷ []

abbrev pub to_4 : Text → Option Text
to_4 ip =
    if length ip == 4
    then some ip
    else if (length ip == 16) && has_prefix ip v4_prefix
    then some (drop 12 ip)
    else none

abbrev pub to_16 : Text → Option Text
to_16 ip =
    if length ip == 4 then some (v4_prefix ++ ip) else if length ip == 16 then some ip else none
