-- ===== src/Base/Text/Laws.antt =====
-- Equality, prefixes and cuts of texts.
use mathlib.Core.Path.{◌≡◌, refl}
use mathlib.Core.Logic.{◌↔◌}
use mathlib.Core.Bool.{true}
use mathlib.Core.List.{[], ◌∷◌, ◌++◌}
use native.Mathlib.Omega.{arith}
use https_proxy.Base.Text.Defs.{Text, text_eq, has_prefix}

pub text_eq_refl : (s : Text) → text_eq s s ≡ true
text_eq_refl [] = refl
text_eq_refl (a ∷ s) = ground (arith, text_eq_refl s)

pub text_eq→eq : (s t : Text) → text_eq s t ≡ true → s ≡ t
text_eq→eq [] [] h = refl
text_eq→eq [] (b ∷ t) h = cc
text_eq→eq (a ∷ s) [] h = cc
text_eq→eq (a ∷ s) (b ∷ t) h = ground (arith, text_eq→eq s t)

pub text_eq_iff : (s t : Text) → (text_eq s t ≡ true) ↔ (s ≡ t)
text_eq_iff s t = (text_eq→eq s t, λ e. rw e (text_eq_refl t))

pub has_prefix-append : (p s : Text) → has_prefix (p ++ s) p ≡ true
has_prefix-append [] [] = refl
has_prefix-append [] (a ∷ s) = refl
has_prefix-append (b ∷ p) s = ground (arith, has_prefix-append p s)

pub has_prefix→append : (s p : Text) → has_prefix s p ≡ true → (r : Text) × (s ≡ p ++ r)
has_prefix→append [] [] h = ([], refl)
has_prefix→append (a ∷ s) [] h = (a ∷ s, refl)
has_prefix→append [] (b ∷ p) h = cc
has_prefix→append (a ∷ s) (b ∷ p) h =
    let (r, e) = has_prefix→append s p (ground arith) in (r, ground arith)

pub text_eq_sym : (s t : Text) → text_eq s t ≡ text_eq t s
text_eq_sym [] [] = refl
text_eq_sym [] (b ∷ t) = refl
text_eq_sym (a ∷ s) [] = refl
text_eq_sym (a ∷ s) (b ∷ t) = ground (arith, text_eq_sym s t)
