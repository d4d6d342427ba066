-- ===== src/Base/Text/Defs.antt =====
-- Package strings over bytes. Where Go decodes UTF-8 the byte sequences are written out.
use Prim.Native.Char.{code}
use Prim.Native.String.{String}
use Prim.Native.Nat.{ℕ, zero, suc, ◌+◌}
use mathlib.Core.Bool.{Bool, true, false, ◌&&◌, ◌||◌}
use mathlib.Core.Option.{Option, none, some}
use mathlib.Core.List.{List, [], ◌∷◌, ◌++◌, reverse}
use https_proxy.Base.Tests.{◌==◌, leb, if◌then◌else◌}

-- A Go string: its bytes.
abbrev pub Text : Type 0
Text = List ℕ

-- The bytes of an ASCII literal.
abbrev pub codes : String → Text
codes String.[] = []
codes (String.◌∷◌ c s) = code c ∷ codes s

-- `a == b` on strings.
abbrev pub text_eq : Text → Text → Bool
text_eq [] [] = true
text_eq [] (b ∷ t) = false
text_eq (a ∷ s) [] = false
text_eq (a ∷ s) (b ∷ t) = a == b && text_eq s t

-- `s == ""`.
abbrev pub is_empty : Text → Bool
is_empty [] = true
is_empty (a ∷ s) = false

-- strings.HasPrefix(s, p).
abbrev pub has_prefix : Text → Text → Bool
has_prefix s [] = true
has_prefix [] (b ∷ p) = false
has_prefix (a ∷ s) (b ∷ p) = a == b && has_prefix s p

-- strings.TrimPrefix(s, p) for a prefix of one byte.
abbrev pub trim_prefix_byte : Text → ℕ → Text
trim_prefix_byte [] c = []
trim_prefix_byte (a ∷ s) c = if a == c then s else a ∷ s

-- unicode.IsSpace on one byte, and on the two- and three-byte encodings.
abbrev pub is_space : ℕ → Bool
is_space c = (leb 9 c && leb c 13) || (c == 32)

abbrev pub is_space₂ : ℕ → ℕ → Bool
is_space₂ a b = a == 0xc2 && (b == 0x85 || b == 0xa0)

abbrev pub is_space₃ : ℕ → ℕ → ℕ → Bool
is_space₃ a b c =
    (a == 0xe1 && (b == 0x9a && c == 0x80))
    || ((a == 0xe2
          && (b == 0x80 && ((leb 0x80 c && leb c 0x8a) || (c == 0xa8 || (c == 0xa9 || c == 0xaf)))))
        || ((a == 0xe2 && (b == 0x81 && c == 0x9f)) || (a == 0xe3 && (b == 0x80 && c == 0x80))))

-- The bytes that the space at the front of a text takes, 0 when there is none; and the same for a
-- text that is read from its end.
unfoldable pub space_len : Text → ℕ
space_len [] = 0
space_len (a ∷ []) = if is_space a then 1 else 0
space_len (a ∷ b ∷ []) = if is_space a then 1 else if is_space₂ a b then 2 else 0
space_len (a ∷ b ∷ c ∷ s) =
    if is_space a then 1 else if is_space₂ a b then 2 else if is_space₃ a b c then 3 else 0

unfoldable pub space_len_back : Text → ℕ
space_len_back [] = 0
space_len_back (a ∷ []) = if is_space a then 1 else 0
space_len_back (b ∷ a ∷ []) = if is_space b then 1 else if is_space₂ a b then 2 else 0
space_len_back (c ∷ b ∷ a ∷ s) =
    if is_space c then 1 else if is_space₂ b c then 2 else if is_space₃ a b c then 3 else 0

-- Drops `k` bytes, and then every space that `len` measures.
unfoldable pub trim_by : (Text → ℕ) → ℕ → Text → Text
trim_by len k [] = []
trim_by len (suc k) (a ∷ s) = trim_by len k s
trim_by len zero (a ∷ s) = elim (len (a ∷ s)) [ zero ↦ a ∷ s | suc k ↦ trim_by len k s ]

-- strings.TrimSpace.
unfoldable pub trim_space : Text → Text
unfolding trim_by space_len space_len_back
trim_space s = reverse (trim_by space_len_back 0 (reverse (trim_by space_len 0 s)))

abbrev pub lower_byte : ℕ → ℕ
lower_byte c = if leb 65 c && leb c 90 then c + 32 else c

-- The two runes beyond ASCII whose lower case is ASCII, U+212A (k) and U+0130 (i), with the bytes
-- left to skip.
unfoldable pub lower_wide : Text → Option (ℕ × ℕ)
lower_wide [] = none
lower_wide (a ∷ []) = none
lower_wide (a ∷ b ∷ []) = if a == 0xc4 && b == 0xb0 then some (b'i', 1) else none
lower_wide (a ∷ b ∷ c ∷ s) =
    if a == 0xc4 && b == 0xb0
    then some (b'i', 1)
    else if a == 0xe2 && (b == 0x84 && c == 0xaa)
    then some (b'k', 2)
    else none

unfoldable pub lower_from : ℕ → Text → Text
lower_from k [] = []
lower_from (suc k) (a ∷ s) = lower_from k s
lower_from zero (a ∷ s) = elim (lower_wide (a ∷ s)) [
  | none ↦ lower_byte a ∷ lower_from 0 s
  | some (c, k) ↦ c ∷ lower_from k s
]

-- strings.ToLower, as far as a comparison with an ASCII text can tell: other runes stay.
unfoldable pub to_lower : Text → Text
unfolding lower_wide lower_from
to_lower s = lower_from 0 s

-- strings.Split(s, sep) for a separator of one byte: never empty.
abbrev pub split_push : ℕ → List Text → List Text
split_push a [] = (a ∷ []) ∷ []
split_push a (w ∷ ws) = (a ∷ w) ∷ ws

unfoldable pub split : ℕ → Text → List Text
split sep [] = [] ∷ []
split sep (a ∷ s) = let rest = split sep s in if a == sep then [] ∷ rest else split_push a rest

-- strings.SplitN(s, sep, 2): the text before the first separator, and the text after it if any.
abbrev pub cut_push : ℕ → Text × Option Text → Text × Option Text
cut_push a (w, r) = (a ∷ w, r)

unfoldable pub cut : ℕ → Text → Text × Option Text
cut sep [] = ([], none)
cut sep (a ∷ s) = let rest = cut sep s in if a == sep then ([], some s) else cut_push a rest

-- strings.Join.
unfoldable pub join : Text → List Text → Text
join sep [] = []
join sep (w ∷ []) = w
join sep (w ∷ v ∷ ws) = w ++ (sep ++ join sep (v ∷ ws))

-- A `map[string]struct{}` as the list of its keys.
abbrev pub text_mem : Text → List Text → Bool
text_mem t [] = false
text_mem t (w ∷ ws) = text_eq t w || text_mem t ws
