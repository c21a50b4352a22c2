-- ===== src/Base/Map.antt =====
-- JavaScript's `Map`, and objects used as dictionaries, as association lists in insertion order.
-- An object lists its integer-like keys first; that exception to the order is not modelled.
use bitgate.Base.Tests.{Eq, ◌==◌, if◌then◌else◌, is_some, Option-cases}
use bitgate.Base.Set.{has, add, IsUnique, IsUnique-add}
use Prim.Native.Nat.{suc}
use mathlib.Core.Path.{◌≡◌, refl, ap}
use mathlib.Core.Logic.{inl, inr}
use mathlib.Core.Bool.{Bool, true}
use mathlib.Core.Option.{Option, none, some}
use mathlib.Core.List.{List, [], ◌∷◌, ◌++◌}
use native.Mathlib.Omega.{arith}
use bitgate.Base.Lists.{length}

abbrev pub Map {ℓ κ} : Type ℓ → Type κ → Type (ℓ ⊔ κ)
Map K V = List (K × V)

module _ {ℓ κ} {K : Type ℓ} {V : Type κ} ⦃e : Eq K⦄ where
  -- `map.get(k)`, and `object[k]` for an own property
  unfoldable pub get : Map K V → K → Option V
  get [] k = none
  get ((j, v) ∷ m) k = if j == k then some v else get m k

  -- `map.set(k, v)`: the place of a key that is there already stays.
  unfoldable pub put : Map K V → K → V → Map K V
  put [] k v = (k, v) ∷ []
  put ((j, w) ∷ m) k v = if j == k then (j, v) ∷ m else (j, w) ∷ put m k v

  -- `map.delete(k)`
  unfoldable pub remove : Map K V → K → Map K V
  remove [] k = []
  remove ((j, v) ∷ m) k = let rest = remove m k in if j == k then rest else (j, v) ∷ rest

  unfoldable pub keys : Map K V → List K
  keys [] = []
  keys ((j, v) ∷ m) = j ∷ keys m

  -- `map.has(k)`
  abbrev pub has_key : Map K V → K → Bool
  has_key m k = is_some (get m k)

  pub get-put :
      (m : Map K V) (k j : K) (v : V) → get (put m k v) j ≡ (if k == j then some v else get m j)
  unfolding get put
  get-put [] k j v = refl
  get-put ((i, w) ∷ m) k j v =
      ground (arith, get-put m k j v, e.beq_iff i k, e.beq_iff i j, e.beq_iff k j)

  pub get-put_self : (m : Map K V) (k : K) (v : V) → get (put m k v) k ≡ some v
  get-put_self m k v = ground (arith, get-put m k k v, e.beq_iff k k)

  pub get-remove : (m : Map K V) (k j : K) → get (remove m k) j ≡ (if k == j then none else get m j)
  unfolding get remove
  get-remove [] k j = ground arith
  get-remove ((i, w) ∷ m) k j =
      ground (arith, get-remove m k j, e.beq_iff i k, e.beq_iff i j, e.beq_iff k j)

  pub length-put :
      (m : Map K V) (k : K) (v : V)
      → length (put m k v) ≡ (if has_key m k then length m else suc (length m))
  unfolding get put
  length-put [] k v = refl
  length-put ((j, w) ∷ m) k v = ground (arith, length-put m k v)

  unfoldable pub values : Map K V → List V
  values [] = []
  values ((j, v) ∷ m) = v ∷ values m

  -- A new key goes to the end.
  pub put_new : (m : Map K V) (k : K) (v : V) → get m k ≡ none → put m k v ≡ m ++ (k, v) ∷ []
  unfolding get put
  put_new [] k v h = refl
  put_new ((j, w) ∷ m) k v h = ground (arith, put_new m k v)

  pub has-keys : (m : Map K V) (k : K) → has (keys m) k ≡ has_key m k
  unfolding get keys has
  has-keys [] k = refl
  has-keys ((j, w) ∷ m) k = ground (arith, has-keys m k)

  pub keys-append : (m : Map K V) (k : K) (v : V) → keys (m ++ (k, v) ∷ []) ≡ keys m ++ k ∷ []
  unfolding keys
  keys-append [] k v = refl
  keys-append ((j, w) ∷ m) k v = ap (λ t. j ∷ t) (keys-append m k v)

  keys-put_old : (m : Map K V) (k : K) (v : V) → has_key m k ≡ true → keys (put m k v) ≡ keys m
  unfolding get put keys
  keys-put_old [] k v h = cc
  keys-put_old ((j, w) ∷ m) k v h = ground (arith, keys-put_old m k v)

  -- The keys are a set in insertion order.
  pub keys-put : (m : Map K V) (k : K) (v : V) → keys (put m k v) ≡ add (keys m) k
  keys-put m k v = elim (Option-cases (get m k)) [
    | inl absent ↦ unfold add in ground (arith, has-keys m k, put_new m k v, keys-append m k v)
    | inr (w, present) ↦ unfold add in ground (arith, has-keys m k, keys-put_old m k v)
  ]

  pub IsUnique-put : (m : Map K V) (k : K) (v : V) → IsUnique (keys m) → IsUnique (keys (put m k v))
  IsUnique-put m k v u = rw (keys-put m k v) (IsUnique-add (keys m) k u)

  pub values-append : (m : Map K V) (k : K) (v : V) → values (m ++ (k, v) ∷ []) ≡ values m ++ v ∷ []
  unfolding values
  values-append [] k v = refl
  values-append ((j, w) ∷ m) k v = ap (λ t. w ∷ t) (values-append m k v)
