-- ===== src/Base/Indices.antt =====
-- Lists of indices into a heap, as sets: those that wait for something.
use https_proxy.Base.{
  ℕ, ◌≡◌, refl, Bool, true, false, ◌||◌, ◌==◌, List, [], ◌∷◌, some, if◌then◌else◌, if_elim, arith,
}
use https_proxy.Base.Assoc.{lookup, nat_eq}

abbrev pub has : ℕ → List ℕ → Bool
has r [] = false
has r (q ∷ l) = r == q || has r l

abbrev pub without : ℕ → List ℕ → List ℕ
without r [] = []
without r (q ∷ l) = if r == q then without r l else q ∷ without r l

-- The indices that a map leads to, in front of a list.
abbrev pub taken_of : List (ℕ × ℕ) → List ℕ → List ℕ
taken_of [] l = l
taken_of ((id, r) ∷ m) l = r ∷ taken_of m l

pub has-without : (r q : ℕ) (l : List ℕ) → (q == r) ≡ false → has r (without q l) ≡ has r l
has-without r q [] n = refl
has-without r q (a ∷ l) n =
    if_elim (λ x. has r x ≡ has r (a ∷ l)) (q == a) (λ e. ground (arith, has-without r q l n))
      (λ e. ground (arith, has-without r q l n))

pub lookup-taken_of :
    (m : List (ℕ × ℕ)) (l : List ℕ) (id r : ℕ) → lookup id m ≡ some r → has r (taken_of m l) ≡ true
unfolding lookup
lookup-taken_of [] l id r h = cc
lookup-taken_of ((i, q) ∷ m) l id r h = ground (arith, lookup-taken_of m l id r)

pub has-taken_of :
    (m : List (ℕ × ℕ)) (l : List ℕ) (r : ℕ) → has r l ≡ true → has r (taken_of m l) ≡ true
has-taken_of [] l r h = h
has-taken_of ((id, q) ∷ m) l r h = ground (arith, has-taken_of m l r h)
