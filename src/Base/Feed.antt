-- ===== src/Base/Feed.antt =====
-- Machines that take events one by one and, while they are live, put out what the events bring.
use mathlib.Core.Path.{◌≡◌, refl, sym, ap, ◌∙◌, subst}
use mathlib.Core.Logic.{◌⊎◌, inl, inr}
use mathlib.Core.Bool.{Bool, true, false, true≢false}
use mathlib.Core.List.{List, [], ◌∷◌, ◌++◌, append-nil, append_assoc}
use https_proxy.Base.Prefix.{Prefix, prefix_append}
use https_proxy.Base.Tests.{Bool-cases}

abbrev pub items {ℓ κ} : {E : Type ℓ} {A : Type κ} → (E → List A) → List E → List A
items item [] = []
items item (e ∷ es) = item e ++ items item es

-- A machine's step puts out all that its event brings, or nothing and the machine is not live.
abbrev pub Feeds {ℓ κ} :
    {S : Type ℓ} {A : Type κ} → (S → Bool) → (S → List A) → List A → S → S → Type κ
Feeds live out m s s' =
    ((live s ≡ true) × (out s' ≡ out s ++ m)) ⊎ ((live s' ≡ false) × (out s' ≡ out s))

-- A step that leaves the output and the life as they are.
abbrev pub Keeps {ℓ κ} : {S : Type ℓ} {A : Type κ} → (S → Bool) → (S → List A) → S → S → Type κ
Keeps live out s s' = (out s' ≡ out s) × (live s' ≡ live s)

module _ {ℓ κ} {S : Type ℓ} {A : Type κ} (live : S → Bool) (out : S → List A) where
  pub Keeps-Feeds : (s s' : S) → Keeps live out s s' → Feeds live out [] s s'
  Keeps-Feeds s s' (same, lives) = elim (Bool-cases (live s)) [
    | inl on ↦ inl (on, same ∙ sym (append-nil (out s)))
    | inr off ↦ inr (lives ∙ off, same)
  ]

  module _ {ι} {E : Type ι} (item : E → List A) (step : E → S → S) (run : List E → S → S)
      (run-nil : (s : S) → run [] s ≡ s)
      (run-cons : (e : E) (es : List E) (s : S) → run (e ∷ es) s ≡ run es (step e s))
      (step-Feeds : (e : E) (s : S) → Feeds live out (item e) s (step e s)) where
    run-dead : (es : List E) (s : S) → live s ≡ false → out (run es s) ≡ out s
    run-dead [] s off = ap out (run-nil s)
    run-dead (e ∷ es) s off = elim (step-Feeds e s) [
      | inl (on, _) ↦ absurd (true≢false (sym on ∙ off))
      | inr (off', same) ↦ ap out (run-cons e es s) ∙ run-dead es (step e s) off' ∙ same
    ]

    -- What has been put out begins what had been, and what the events bring.
    pub run-Prefix : (es : List E) (s : S) → Prefix (out (run es s)) (out s ++ items item es)
    run-Prefix [] s =
        subst (λ l. Prefix l (out s ++ [])) (sym (ap out (run-nil s))) (prefix_append (out s) [])
    run-Prefix (e ∷ es) s = elim (step-Feeds e s) [
      | inl (on, more) ↦
          subst (λ t. Prefix (out t) (out s ++ items item (e ∷ es))) (sym (run-cons e es s))
            (subst (λ l. Prefix (out (run es (step e s))) l)
              (ap (λ l. l ++ items item es) more ∙ append_assoc (out s) (item e) (items item es))
              (run-Prefix es (step e s)))
      | inr (off, same) ↦
          subst (λ l. Prefix l (out s ++ items item (e ∷ es)))
            (sym (ap out (run-cons e es s) ∙ run-dead es (step e s) off ∙ same))
            (prefix_append (out s) (items item (e ∷ es)))
    ]

    dead_stays : (es : List E) (s : S) → live s ≡ false → live (run es s) ≡ false
    dead_stays [] s off = ap live (run-nil s) ∙ off
    dead_stays (e ∷ es) s off = elim (step-Feeds e s) [
      | inl (on, _) ↦ absurd (true≢false (sym on ∙ off))
      | inr (off', same) ↦ ap live (run-cons e es s) ∙ dead_stays es (step e s) off'
    ]

    -- A machine that is live in the end has put out all that the events bring.
    pub run_all :
        (es : List E) (s : S) → live (run es s) ≡ true → out (run es s) ≡ out s ++ items item es
    run_all [] s on = ap out (run-nil s) ∙ sym (append-nil (out s))
    run_all (e ∷ es) s on = elim (step-Feeds e s) [
      | inl (_, more) ↦
          ap out (run-cons e es s)
          ∙ run_all es (step e s) (sym (ap live (run-cons e es s)) ∙ on)
          ∙ ap (λ l. l ++ items item es) more
          ∙ append_assoc (out s) (item e) (items item es)
      | inr (off, _) ↦
          absurd (true≢false (sym on ∙ ap live (run-cons e es s) ∙ dead_stays es (step e s) off))
    ]

module _ {ℓ κ} {E : Type ℓ} {A : Type κ} where
  pub items-append :
      (f : E → List A) (xs ys : List E) → items f (xs ++ ys) ≡ items f xs ++ items f ys
  items-append f [] ys = refl
  items-append f (x ∷ xs) ys =
      ap (λ l. f x ++ l) (items-append f xs ys) ∙ sym (append_assoc (f x) (items f xs) (items f ys))

  pub items-Prefix :
      (f : E → List A) (xs ys : List E) → Prefix xs ys → Prefix (items f xs) (items f ys)
  items-Prefix f xs ys (zs, p) = (items f zs, sym (items-append f xs zs) ∙ ap (items f) p)

module _ {ℓ κ ι} {E : Type ℓ} {A : Type κ} {B : Type ι} where
  -- Items of items, where each event's items are those of what it brings.
  pub items-items :
      (f : E → List A) (g : A → List B) (h : E → List B)
      → ((e : E) → items g (f e) ≡ h e)
      → (es : List E) → items g (items f es) ≡ items h es
  items-items f g h each [] = refl
  items-items f g h each (e ∷ es) =
      items-append g (f e) (items f es)
      ∙ ap (λ l. l ++ items g (items f es)) (each e)
      ∙ ap (λ l. h e ++ l) (items-items f g h each es)
