-- ===== src/Base/Text/Numbers.antt =====
-- Package strconv on the texts of integers, and strings.Contains.
use Prim.Native.Nat.{ℕ, ◌+◌, ◌-◌, ◌*◌, ◌^◌}
use mathlib.Core.Bool.{Bool, true, ◌&&◌, ◌||◌}
use mathlib.Core.Option.{Option, none, some}
use mathlib.Core.List.{[], ◌∷◌}
use https_proxy.Base.Tests.{◌==◌, leb, ltb, if◌then◌else◌}
use https_proxy.Base.Int.{ℤ, pos, negsuc}
use https_proxy.Base.Text.Defs.{Text, is_empty, has_prefix}

abbrev pub is_digit : ℕ → Bool
is_digit c = leb 48 c && leb c 57

abbrev pub all_digits : Text → Bool
all_digits [] = true
all_digits (c ∷ s) = is_digit c && all_digits s

-- The number that decimal digits write, after the digits of `acc`.
unfoldable pub digits_from : ℕ → Text → ℕ
digits_from acc [] = acc
digits_from acc (c ∷ s) = digits_from (acc * 10 + (c - 48)) s

abbrev pub unsigned : Text → Option ℕ
unsigned s = if is_empty s then none else if all_digits s then some (digits_from 0 s) else none

abbrev pub negated : ℕ → ℤ
negated n = if n == 0 then pos 0 else negsuc (n - 1)

abbrev pub in_range : Option ℕ → Option ℤ
in_range none = none
in_range (some n) = if ltb n (2 ^ 63) then some (pos n) else none

abbrev pub in_range_neg : Option ℕ → Option ℤ
in_range_neg none = none
in_range_neg (some n) = if leb n (2 ^ 63) then some (negated n) else none

-- strconv.Atoi(s), and strconv.ParseInt(s, 10, 64): an optional sign, digits, 64 bits.
unfoldable pub atoi : Text → Option ℤ
unfolding digits_from
atoi [] = none
atoi (c ∷ s) =
    if c == 43
    then in_range (unsigned s)
    else if c == 45
    then in_range_neg (unsigned s)
    else in_range (unsigned (c ∷ s))

-- strings.Contains(s, part).
abbrev pub contains : Text → Text → Bool
contains [] part = is_empty part
contains (a ∷ s) part = has_prefix (a ∷ s) part || contains s part
