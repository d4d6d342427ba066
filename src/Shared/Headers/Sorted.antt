-- ===== src/Shared/Headers/Sorted.antt =====
-- The key lists of internal/shared/httpheaders.go: sorted, with no key twice, and the same in
-- whatever order a run ranges over the map.
use https_proxy.Base.{
  ◌≡◌, ◌≢◌, refl, subst, sym, ◌∙◌, true, false, not, ◌&&◌, ◌||◌, List, [], ◌∷◌, arith, if_elim,
}
use https_proxy.Base.Text.{Text, text_eq, text_eq_iff, text_mem}
use https_proxy.Proto.Types.{Header}
use https_proxy.Shared.Headers.{text_leb, sort_insert, sort, dedup, canonical_keys, header_keys}

text_leb_refl : (s : Text) → text_leb s s ≡ true
text_leb_refl [] = refl
text_leb_refl (a ∷ s) = ground (arith, text_leb_refl s)

text_leb_total : (s t : Text) → text_leb s t ≡ false → text_leb t s ≡ true
text_leb_total [] t h = cc
text_leb_total (a ∷ s) [] h = refl
text_leb_total (a ∷ s) (b ∷ t) h = ground (arith, text_leb_total s t)

text_leb_antisym : (s t : Text) → text_leb s t ≡ true → text_leb t s ≡ true → s ≡ t
text_leb_antisym [] [] h k = refl
text_leb_antisym [] (b ∷ t) h k = cc
text_leb_antisym (a ∷ s) [] h k = cc
text_leb_antisym (a ∷ s) (b ∷ t) h k = ground (arith, text_leb_antisym s t)

text_leb_trans : (s t u : Text) → text_leb s t ≡ true → text_leb t u ≡ true → text_leb s u ≡ true
text_leb_trans [] t u h k = refl
text_leb_trans (a ∷ s) [] u h k = cc
text_leb_trans (a ∷ s) (b ∷ t) [] h k = cc
text_leb_trans (a ∷ s) (b ∷ t) (c ∷ u) h k = ground (arith, text_leb_trans s t u)

-- Below every key of a list, and not among them.
abbrev pub Below : Text → List Text → Type 0
Below x [] = Unit {0}
Below x (y ∷ ys) = (text_leb x y ≡ true) × (x ≢ y) × Below x ys

-- In strictly rising order.
abbrev pub IsRising : List Text → Type 0
IsRising [] = Unit {0}
IsRising (x ∷ xs) = Below x xs × IsRising xs

abbrev pub IsNodup : List Text → Type 0
IsNodup [] = Unit {0}
IsNodup (x ∷ xs) = (text_mem x xs ≡ false) × IsNodup xs

text_mem-sort_insert :
    (k x : Text) (ys : List Text) → text_mem k (sort_insert x ys) ≡ (text_eq k x || text_mem k ys)
unfolding sort_insert
text_mem-sort_insert k x [] = refl
text_mem-sort_insert k x (y ∷ ys) = ground (arith, text_mem-sort_insert k x ys)

text_mem-sort : (k : Text) (xs : List Text) → text_mem k (sort xs) ≡ text_mem k xs
unfolding sort
text_mem-sort k [] = refl
text_mem-sort k (x ∷ xs) = ground (arith, text_mem-sort_insert k x (sort xs), text_mem-sort k xs)

Below-trans : (x y : Text) (ys : List Text) → text_leb x y ≡ true → x ≢ y → Below y ys → Below x ys
Below-trans x y [] h n b = tt
Below-trans x y (z ∷ zs) h n b = (
  text_leb_trans x y z h b.0,
  λ e. n (text_leb_antisym x y h (subst (λ w. text_leb y w ≡ true) (sym e) b.0)),
  Below-trans x y zs h n b.2,
)

Below-sort_insert :
    (z x : Text) (ys : List Text)
    → text_leb z x ≡ true
    → z ≢ x
    → Below z ys
    → Below z (sort_insert x ys)
unfolding sort_insert
Below-sort_insert z x [] h n b = (h, n, tt)
Below-sort_insert z x (y ∷ ys) h n b =
    if_elim (Below z) (text_leb x y) (λ _. (h, n, b))
      (λ _. (b.0, b.1, Below-sort_insert z x ys h n b.2))

mem-ne : (x y : Text) (ys : List Text) → text_mem x (y ∷ ys) ≡ false → x ≢ y
mem-ne x y ys h e = ground (arith, text_eq_iff x y, h, e)

sort_insert-IsRising :
    (x : Text) (ys : List Text) → text_mem x ys ≡ false → IsRising ys → IsRising (sort_insert x ys)
unfolding sort_insert
sort_insert-IsRising x [] n r = (tt, tt)
sort_insert-IsRising x (y ∷ ys) n r =
    let differ = mem-ne x y ys n in
    if_elim IsRising (text_leb x y) (λ le. ((le, differ, Below-trans x y ys le differ r.0), r))
      (λ gt. (
        Below-sort_insert y x ys (text_leb_total x y gt) (λ e. differ (sym e)) r.0,
        sort_insert-IsRising x ys (ground (arith, n)) r.1,
      ))

sort-IsRising : (xs : List Text) → IsNodup xs → IsRising (sort xs)
unfolding sort
sort-IsRising [] n = tt
sort-IsRising (x ∷ xs) n =
    sort_insert-IsRising x (sort xs) (text_mem-sort x xs ∙ n.0) (sort-IsRising xs n.1)

text_mem-dedup :
    (k : Text) (seen ks : List Text)
    → text_mem k (dedup seen ks) ≡ (not (text_mem k seen) && text_mem k ks)
unfolding dedup
text_mem-dedup k seen [] = ground arith
text_mem-dedup k seen (x ∷ ks) =
    ground (arith, text_mem-dedup k seen ks, text_mem-dedup k (x ∷ seen) ks, text_eq_iff k x)

dedup-IsNodup : (seen ks : List Text) → IsNodup (dedup seen ks)
unfolding dedup
dedup-IsNodup seen [] = tt
dedup-IsNodup seen (x ∷ ks) =
    if_elim IsNodup (text_mem x seen) (λ _. dedup-IsNodup seen ks)
      (λ _. (
        text_mem-dedup x (x ∷ seen) ks ∙ ground (arith, text_eq_iff x x),
        dedup-IsNodup (x ∷ seen) ks,
      ))

Below-least :
    (x y : Text) (ys : List Text) → Below y ys → text_mem x (y ∷ ys) ≡ true → text_leb y x ≡ true
Below-least x y [] b h = ground (arith, text_eq_iff x y, text_leb_refl y, h)
Below-least x y (z ∷ zs) b h =
    ground (arith, text_eq_iff x y, text_eq_iff x z, text_leb_refl y, b, h, Below-least x y zs b.2)

Below-not_mem : (x : Text) (ys : List Text) → Below x ys → text_mem x ys ≡ false
Below-not_mem x [] b = refl
Below-not_mem x (y ∷ ys) b = ground (arith, text_eq_iff x y, b.1, Below-not_mem x ys b.2)

mem_self : (x : Text) (xs : List Text) → text_mem x (x ∷ xs) ≡ true
mem_self x xs = ground (arith, text_eq_iff x x)

IsRising-unique :
    (xs ys : List Text)
    → IsRising xs
    → IsRising ys
    → ((k : Text) → text_mem k xs ≡ text_mem k ys)
    → xs ≡ ys
IsRising-unique [] [] r q h = refl
IsRising-unique [] (y ∷ ys) r q h = cc (h y, mem_self y ys)
IsRising-unique (x ∷ xs) [] r q h = cc (h x, mem_self x xs)
IsRising-unique (x ∷ xs) (y ∷ ys) r q h =
    let e : x ≡ y =
      text_leb_antisym x y (Below-least y x xs r.0 (h y ∙ mem_self y ys))
        (Below-least x y ys q.0 (sym (h x) ∙ mem_self x xs)) in
    let tails = IsRising-unique xs ys r.1 q.1 λ k. ground (
      arith,
      h k,
      e,
      text_eq_iff k x,
      text_eq_iff k y,
      Below-not_mem x xs r.0,
      Below-not_mem y ys q.0,
    ) in
    cc (e, tails)

header_keys-mem :
    (h : Header) (k : Text) → text_mem k (header_keys h) ≡ text_mem k (canonical_keys h)
unfolding header_keys
header_keys-mem h k =
    text_mem-sort k (dedup [] (canonical_keys h)) ∙ text_mem-dedup k [] (canonical_keys h)

header_keys-IsRising : (h : Header) → IsRising (header_keys h)
unfolding header_keys
header_keys-IsRising h =
    sort-IsRising (dedup [] (canonical_keys h)) (dedup-IsNodup [] (canonical_keys h))

-- The keys of a header come in strictly rising order, so none stands twice, and they are exactly the
-- canonical keys that are not empty. Two headers with the same canonical keys, such as one map that
-- is ranged over in two orders, give the same list.
pub header_keys_lem :
    (h : Header)
    → IsRising (header_keys h)
      × ((k : Text) → text_mem k (header_keys h) ≡ text_mem k (canonical_keys h))
      × ((h' : Header)
          → ((k : Text) → text_mem k (canonical_keys h) ≡ text_mem k (canonical_keys h'))
          → header_keys h ≡ header_keys h')
header_keys_lem h = (
  header_keys-IsRising h,
  header_keys-mem h,
  λ h' same.
      IsRising-unique (header_keys h) (header_keys h') (header_keys-IsRising h)
        (header_keys-IsRising h') (λ k. header_keys-mem h k ∙ same k ∙ sym (header_keys-mem h' k)),
)
