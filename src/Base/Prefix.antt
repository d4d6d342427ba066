-- ===== src/Base/Prefix.antt =====
-- Lists that begin other lists.
use mathlib.Core.Path.{◌≡◌, refl, sym, ap, ◌∙◌}
use mathlib.Core.List.{List, [], ◌∷◌, ◌++◌, map, append-nil, append_assoc}

module _ {ℓ} {A : Type ℓ} where
  abbrev pub Prefix : List A → List A → Type ℓ
  Prefix xs ys = (zs : List A) × (xs ++ zs ≡ ys)

  pub prefix_refl : (xs : List A) → Prefix xs xs
  prefix_refl xs = ([], append-nil xs)

  pub prefix_append : (xs ys : List A) → Prefix xs (xs ++ ys)
  prefix_append xs ys = (ys, refl)

  pub prefix_longer : (xs ys zs : List A) → Prefix xs ys → Prefix xs (ys ++ zs)
  prefix_longer xs ys zs (ws, p) = (ws ++ zs, sym (append_assoc xs ws zs) ∙ ap (λ l. l ++ zs) p)

  pub prefix_trans : (xs ys zs : List A) → Prefix xs ys → Prefix ys zs → Prefix xs zs
  prefix_trans xs ys zs (us, p) (vs, q) =
      (us ++ vs, sym (append_assoc xs us vs) ∙ ap (λ l. l ++ vs) p ∙ q)

module _ {ℓ κ} {A : Type ℓ} {B : Type κ} where
  pub map_append : (f : A → B) (xs ys : List A) → map f (xs ++ ys) ≡ map f xs ++ map f ys
  map_append f [] ys = refl
  map_append f (x ∷ xs) ys = ap (λ l. f x ∷ l) (map_append f xs ys)

  pub prefix_map : (f : A → B) (xs ys : List A) → Prefix xs ys → Prefix (map f xs) (map f ys)
  prefix_map f xs ys (zs, p) = (map f zs, sym (map_append f xs zs) ∙ ap (map f) p)
