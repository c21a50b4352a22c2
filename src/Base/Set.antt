-- ===== src/Base/Set.antt =====
-- JavaScript's `Set` as the list of its elements in insertion order.
use bitgate.Base.Tests.{Eq, ◌==◌, if◌then◌else◌, ==-symm, Bool-cases}
use mathlib.Core.Path.{◌≡◌, refl}
use mathlib.Core.Logic.{inl, inr}
use mathlib.Core.Bool.{Bool, false, not, ◌&&◌, ◌||◌}
use mathlib.Core.List.{List, [], ◌∷◌, ◌++◌}
use native.Mathlib.Omega.{arith}

module _ {ℓ} {A : Type ℓ} ⦃e : Eq A⦄ where
  -- `set.has(a)`, and `array.includes(a)`
  unfoldable pub has : List A → A → Bool
  has [] a = false
  has (x ∷ xs) a = x == a || has xs a

  -- `set.add(a)`
  unfoldable pub add : List A → A → List A
  add xs a = if has xs a then xs else xs ++ a ∷ []

  -- `set.delete(a)`
  unfoldable pub delete : List A → A → List A
  delete [] a = []
  delete (x ∷ xs) a = let rest = delete xs a in if x == a then rest else x ∷ rest

  -- `for (const a of added) set.add(a)`
  unfoldable pub add_all : List A → List A → List A
  add_all xs [] = xs
  add_all xs (a ∷ added) = add_all (add xs a) added

  -- `new Set(list)`
  unfoldable pub of_list : List A → List A
  of_list xs = add_all [] xs

  pub has-append : (xs ys : List A) (a : A) → has (xs ++ ys) a ≡ (has xs a || has ys a)
  unfolding has
  has-append [] ys a = refl
  has-append (x ∷ xs) ys a = ground (arith, has-append xs ys a)

  pub has_eq : (xs : List A) (a b : A) → a ≡ b → has xs a ≡ has xs b
  has_eq xs a b p = rw p

  has-one : (a b : A) → has (a ∷ []) b ≡ (a == b)
  unfolding has
  has-one a b = ground arith

  pub has-add : (xs : List A) (a b : A) → has (add xs a) b ≡ (has xs b || a == b)
  unfolding add
  has-add xs a b =
      ground (arith, has-append xs (a ∷ []) b, has-one a b, e.beq_iff a b, has_eq xs a b)

  pub has-delete : (xs : List A) (a b : A) → has (delete xs a) b ≡ (has xs b && not (a == b))
  unfolding has delete
  has-delete [] a b = refl
  has-delete (x ∷ xs) a b =
      ground (arith, has-delete xs a b, e.beq_iff x a, e.beq_iff x b, e.beq_iff a b)

  pub has-add_all : (xs ys : List A) (b : A) → has (add_all xs ys) b ≡ (has xs b || has ys b)
  unfolding add_all has
  has-add_all xs [] b = ground arith
  has-add_all xs (y ∷ ys) b = ground (arith, has-add_all (add xs y) ys b, has-add xs y b)

  pub has-of_list : (xs : List A) (b : A) → has (of_list xs) b ≡ has xs b
  unfolding of_list
  has-of_list xs b = ground (arith, has-add_all [] xs b, has_nil b)
    where
      has_nil : (b : A) → has [] b ≡ false
      has_nil b = unfold has in refl

  -- No element twice.
  abbrev pub IsUnique : List A → Type 0
  IsUnique [] = Unit
  IsUnique (x ∷ xs) = (has xs x ≡ false) × IsUnique xs

  IsUnique-snoc : (xs : List A) (a : A) → IsUnique xs → has xs a ≡ false → IsUnique (xs ++ a ∷ [])
  unfolding has
  IsUnique-snoc [] a u h = (refl, tt)
  IsUnique-snoc (x ∷ xs) a (n, u) h = (
    ground (arith, has-append xs (a ∷ []) x, has-one a x, ==-symm a x),
    IsUnique-snoc xs a u (ground arith),
  )

  pub IsUnique-add : (xs : List A) (a : A) → IsUnique xs → IsUnique (add xs a)
  unfolding add
  IsUnique-add xs a u = elim (Bool-cases (has xs a)) [
    | inl p ↦ rw p u
    | inr p ↦ rw p (IsUnique-snoc xs a u p)
  ]

  pub IsUnique-add_all : (xs ys : List A) → IsUnique xs → IsUnique (add_all xs ys)
  unfolding add_all
  IsUnique-add_all xs [] u = u
  IsUnique-add_all xs (y ∷ ys) u = IsUnique-add_all (add xs y) ys (IsUnique-add xs y u)

  pub IsUnique-of_list : (xs : List A) → IsUnique (of_list xs)
  unfolding of_list
  IsUnique-of_list xs = IsUnique-add_all [] xs tt

  pub IsUnique-delete : (xs : List A) (a : A) → IsUnique xs → IsUnique (delete xs a)
  unfolding delete
  IsUnique-delete [] a u = tt
  IsUnique-delete (x ∷ xs) a (n, u) = elim (Bool-cases (x == a)) [
    | inl p ↦ rw p (IsUnique-delete xs a u)
    | inr p ↦ rw p (ground (arith, has-delete xs a x), IsUnique-delete xs a u)
  ]
