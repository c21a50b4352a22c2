-- ===== src/Base/Sort.antt =====
-- `sort()` of an array of texts: by code units, as insertion sort.
use bitgate.Base.Set.{has}
use bitgate.Base.Tests.{◌==◌, if◌then◌else◌}
use bitgate.Base.Text.{Text, text_ltb, text_eq}
use mathlib.Core.Path.{◌≡◌, refl, ◌∙◌}
use mathlib.Core.Bool.{true, false, ◌||◌}
use mathlib.Core.List.{List, [], ◌∷◌, Permᴰ}
use native.Mathlib.Omega.{arith}

pub insert : Text → List Text → List Text
insert a [] = a ∷ []
insert a (x ∷ xs) = if text_ltb x a then x ∷ insert a xs else a ∷ x ∷ xs

unfoldable pub sort : List Text → List Text
unfolding insert
sort [] = []
sort (x ∷ xs) = insert x (sort xs)

pub ltb_asymm : (s t : Text) → text_ltb s t ≡ true → text_ltb t s ≡ false
unfolding text_ltb
ltb_asymm [] [] h = refl
ltb_asymm [] (d ∷ t) h = refl
ltb_asymm (c ∷ s) [] h = cc
ltb_asymm (c ∷ s) (d ∷ t) h = ground (arith, ltb_asymm s t)

pub ltb_trans : (s t u : Text) → text_ltb s t ≡ true → text_ltb t u ≡ true → text_ltb s u ≡ true
unfolding text_ltb
ltb_trans [] [] u h k = cc
ltb_trans [] (d ∷ t) [] h k = cc
ltb_trans [] (d ∷ t) (b ∷ u) h k = refl
ltb_trans (c ∷ s) [] u h k = cc
ltb_trans (c ∷ s) (d ∷ t) [] h k = cc
ltb_trans (c ∷ s) (d ∷ t) (b ∷ u) h k = ground (arith, ltb_trans s t u)

pub ltb_total : (s t : Text) → text_ltb s t ≡ false → text_ltb t s ≡ false → s ≡ t
unfolding text_ltb
ltb_total [] [] h k = refl
ltb_total [] (d ∷ t) h k = cc
ltb_total (c ∷ s) [] h k = cc
ltb_total (c ∷ s) (d ∷ t) h k = ground (arith, ltb_total s t)

insert_comm : (a b : Text) (xs : List Text) → insert a (insert b xs) ≡ insert b (insert a xs)
unfolding insert
insert_comm a b [] = ground (arith, ltb_asymm a b, ltb_total a b)
insert_comm a b (x ∷ xs) = ground (
  arith,
  insert_comm a b xs,
  ltb_asymm a b,
  ltb_total a b,
  ltb_trans x a b,
  ltb_trans x b a,
  ltb_asymm x a,
  ltb_asymm x b,
  ltb_total x a,
  ltb_total x b,
  ltb_trans a b x,
  ltb_trans b a x,
)

-- The order in which the texts come does not matter.
pub sort_perm : {xs ys : List Text} → Permᴰ xs ys → sort xs ≡ sort ys
unfolding sort
sort_perm Permᴰ.nil = refl
sort_perm (Permᴰ.cons e p) = cc (e, sort_perm p)
sort_perm (Permᴰ.swap {a} {b} {a' = c} {b' = d} {l} e f) = rw (e, f) (insert_comm d c (sort l))
sort_perm (Permᴰ.trans p q) = sort_perm p ∙ sort_perm q

-- An order in which no text stands before a smaller one.
abbrev Sorted : List Text → Type 0
Sorted [] = Unit
Sorted (x ∷ []) = Unit
Sorted (x ∷ y ∷ xs) = (text_ltb y x ≡ false) × Sorted (y ∷ xs)

Sorted-insert : (a : Text) (xs : List Text) → Sorted xs → Sorted (insert a xs)
unfolding insert
Sorted-insert a [] h = tt
Sorted-insert a (x ∷ []) h = ground (arith, ltb_asymm x a)
Sorted-insert a (x ∷ y ∷ xs) h =
    ground (arith, ltb_asymm x a, ltb_asymm y a, Sorted-insert a (y ∷ xs) h.1)

Sorted-sort : (xs : List Text) → Sorted (sort xs)
unfolding sort
Sorted-sort [] = tt
Sorted-sort (x ∷ xs) = Sorted-insert x (sort xs) (Sorted-sort xs)

insert-Sorted : (x : Text) (xs : List Text) → Sorted (x ∷ xs) → insert x xs ≡ x ∷ xs
unfolding insert
insert-Sorted x [] h = refl
insert-Sorted x (y ∷ xs) h = rw h.0

sort_of_Sorted : (xs : List Text) → Sorted xs → sort xs ≡ xs
unfolding sort
sort_of_Sorted [] h = refl
sort_of_Sorted (x ∷ []) h = refl
sort_of_Sorted (x ∷ y ∷ xs) h = rw (sort_of_Sorted (y ∷ xs) h.1) (insert-Sorted x (y ∷ xs) h)

pub sort_idem : (xs : List Text) → sort (sort xs) ≡ sort xs
sort_idem xs = sort_of_Sorted (sort xs) (Sorted-sort xs)

has-insert : (a b : Text) (xs : List Text) → has (insert a xs) b ≡ (a == b || has xs b)
unfolding insert has
has-insert a b [] = refl
has-insert a b (x ∷ xs) = ground (arith, has-insert a b xs)

-- Sorting keeps the elements.
pub has-sort : (xs : List Text) (b : Text) → has (sort xs) b ≡ has xs b
unfolding sort has
has-sort [] b = refl
has-sort (x ∷ xs) b = ground (arith, has-insert x b (sort xs), has-sort xs b)
