-- ===== src/Shared/UrlJoin/Laws.antt =====
-- Paths that leave the base of a target.
use https_proxy.Base.{◌≡◌, refl, true, false, [], ◌∷◌, ◌++◌, arith}
use https_proxy.Base.Text.{Text, codes, text_eq, is_empty, split, contains}
use https_proxy.Shared.UrlJoin.{ends_with, trim_suffix_byte, clean, clean_from, join_url}

-- An element of a path that path.Clean keeps.
pub record IsElement (s : Text) : Type 0 where
  pub not_empty : is_empty s ≡ false
  pub no_slash : contains s (codes "/") ≡ false
  pub not_dot : text_eq s (codes ".") ≡ false
  pub not_dots : text_eq s (codes "..") ≡ false

split-append :
    (w r : Text) → contains w (codes "/") ≡ false → split b'/' (w ++ (b'/' ∷ r)) ≡ w ∷ split b'/' r
unfolding split
split-append [] r h = ground arith
split-append (a ∷ w) r h = ground (arith, split-append w r)

split-single : (w : Text) → contains w (codes "/") ≡ false → split b'/' w ≡ w ∷ []
unfolding split
split-single [] h = refl
split-single (a ∷ w) h = ground (arith, split-single w)

ends_with-no : (s : Text) → contains s (codes "/") ≡ false → ends_with s b'/' ≡ false
ends_with-no [] h = refl
ends_with-no (a ∷ []) h = ground arith
ends_with-no (a ∷ b ∷ s) h = ground (arith, ends_with-no (b ∷ s))

trim-no : (s : Text) → contains s (codes "/") ≡ false → trim_suffix_byte s b'/' ≡ s
trim-no [] h = refl
trim-no (a ∷ []) h = ground arith
trim-no (a ∷ b ∷ s) h = ground (arith, trim-no (b ∷ s))

segments :
    (b x : Text)
    → IsElement b
    → IsElement x
    → split b'/' (b'/' ∷ (b ++ (b'/' ∷ (codes "/../" ++ x)))) ≡ [] ∷ b ∷ [] ∷ codes ".." ∷ x ∷ []
unfolding split
segments b x i j = rw (split-append b (codes "/../" ++ x) i.no_slash, split-single x j.no_slash)

steps :
    (b x : Text)
    → IsElement b
    → IsElement x
    → clean_from true [] ([] ∷ b ∷ [] ∷ codes ".." ∷ x ∷ []) ≡ x ∷ []
unfolding clean_from
steps b x i j =
    ground (arith, i.not_empty, i.not_dot, i.not_dots, j.not_empty, j.not_dot, j.not_dots)

escaped :
    (b x : Text)
    → IsElement b
    → IsElement x
    → clean (b'/' ∷ (b ++ (b'/' ∷ (codes "/../" ++ x)))) ≡ b'/' ∷ x
unfolding clean
escaped b x i j = rw (segments b x i j, steps b x i j)

trimmed_base : (b : Text) → IsElement b → trim_suffix_byte (b'/' ∷ b) b'/' ≡ b'/' ∷ b
trimmed_base [] i = ground (arith, i.not_empty)
trimmed_base (a ∷ b) i = ground (arith, trim-no (a ∷ b) i.no_slash)

open_suffix : (x : Text) → IsElement x → ends_with (codes "/../" ++ x) b'/' ≡ false
open_suffix [] i = ground (arith, i.not_empty)
open_suffix (a ∷ x) i = ends_with-no (a ∷ x) i.no_slash

-- A request path that begins with two dots leaves a base path of one element: the joined path
-- has no trace of the base.
pub join_url_escapes :
    (b x : Text) → IsElement b → IsElement x → join_url (b'/' ∷ b) (codes "/../" ++ x) ≡ b'/' ∷ x
unfolding join_url
join_url_escapes b x i j = rw (trimmed_base b i, open_suffix x j, escaped b x i j)
