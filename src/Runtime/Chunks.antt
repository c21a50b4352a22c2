-- ===== src/Runtime/Chunks.antt =====
-- packages/runtime/src/runtime.js: `chunk`, which bounds the filters of subscriptions and queries.
use bitgate.Base.{
  ℕ, zero, suc, ◌-◌, ◌<◌, ◌≤◌, ◌≡◌, refl, sym, ap, ◌∙◌, inl, inr, true, false, List, [], ◌∷◌, ◌++◌,
  All, arith, length, is_empty, leb, if◌then◌else◌, Bool-cases,
}

module _ {ℓ} {A : Type ℓ} where
  -- The two parts of a list: `slice(0, n)` and `slice(n)`.
  unfoldable pub take : ℕ → List A → List A
  take n [] = []
  take zero (x ∷ xs) = []
  take (suc n) (x ∷ xs) = x ∷ take n xs

  unfoldable pub drop : ℕ → List A → List A
  drop n [] = []
  drop zero (x ∷ xs) = x ∷ xs
  drop (suc n) (x ∷ xs) = drop n xs

  -- The loop, with fuel for its rounds; the items are those from the index on.
  unfoldable pub chunk_from : ℕ → ℕ → List A → List (List A)
  chunk_from zero size items = []
  chunk_from (suc fuel) size items =
      let rest = chunk_from fuel size (drop size items) in
      if is_empty items then [] else take size items ∷ rest

  -- There are at most as many rounds as items.
  unfoldable pub chunk : List A → ℕ → List (List A)
  unfolding chunk_from take drop
  chunk items size = if leb size 0 then items ∷ [] else chunk_from (length items) size items

  abbrev pub concat : List (List A) → List A
  concat [] = []
  concat (xs ∷ xss) = xs ++ concat xss

  take-drop : (n : ℕ) (xs : List A) → take n xs ++ drop n xs ≡ xs
  unfolding take drop
  take-drop n [] = refl
  take-drop zero (x ∷ xs) = refl
  take-drop (suc n) (x ∷ xs) = ap (λ t. x ∷ t) (take-drop n xs)

  length-take : (n : ℕ) (xs : List A) → length (take n xs) ≤ n
  unfolding take
  length-take n [] = omega arith
  length-take zero (x ∷ xs) = omega arith
  length-take (suc n) (x ∷ xs) = omega (arith, length-take n xs)

  length-drop : (n : ℕ) (xs : List A) → length (drop n xs) ≤ length xs - n
  unfolding drop
  length-drop n [] = omega arith
  length-drop zero (x ∷ xs) = omega arith
  length-drop (suc n) (x ∷ xs) = omega (arith, length-drop n xs)

  not_empty-take :
      (n : ℕ) (xs : List A) → 0 < n → is_empty xs ≡ false → is_empty (take n xs) ≡ false
  unfolding take
  not_empty-take n [] p h = cc
  not_empty-take zero (x ∷ xs) p h = absurd (omega (arith, p))
  not_empty-take (suc n) (x ∷ xs) p h = refl

  -- A chunk that is neither empty nor too long.
  abbrev pub IsChunk : ℕ → List A → Type 0
  IsChunk size xs = (is_empty xs ≡ false) × (length xs ≤ size)

  length_of_empty : (xs : List A) → is_empty xs ≡ true → xs ≡ []
  length_of_empty [] h = refl
  length_of_empty (x ∷ xs) h = cc

  not_empty-length : (xs : List A) → is_empty xs ≡ false → 0 < length xs
  not_empty-length [] h = cc
  not_empty-length (x ∷ xs) h = omega arith

  chunk_from_lem :
      (fuel size : ℕ) (items : List A)
      → 0 < size
      → length items ≤ fuel
      → (concat (chunk_from fuel size items) ≡ items)
        × All (IsChunk size) (chunk_from fuel size items)
  unfolding chunk_from
  chunk_from_lem zero size [] p h = (refl, tt)
  chunk_from_lem zero size (x ∷ items) p h = absurd (omega (arith, h))
  chunk_from_lem (suc fuel) size items p h = elim (Bool-cases (is_empty items)) [
    | inl e ↦ rw e (sym (length_of_empty items e), tt)
    | inr e ↦
        let shorter : length (drop size items) ≤ fuel =
          omega (arith, length-drop size items, not_empty-length items e, h, p) in
        let (joined, rest) = chunk_from_lem fuel size (drop size items) p shorter in
        rw e (
          ap (λ t. take size items ++ t) joined ∙ take-drop size items,
          ((not_empty-take size items p e, length-take size items), rest),
        )
  ]

  -- With a positive size the loop ends with every item in a chunk: the chunks in their order are
  -- the items, and each holds at least one item and at most as many as the size.
  pub chunk_lem :
      (items : List A) (size : ℕ)
      → 0 < size
      → (concat (chunk items size) ≡ items) × All (IsChunk size) (chunk items size)
  unfolding chunk
  chunk_lem items size p =
      let positive : leb size 0 ≡ false = ground (arith, p) in
      rw positive (chunk_from_lem (length items) size items p (omega arith))
