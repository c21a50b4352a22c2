-- ===== src/Core/Policy/Effects/Order.antt =====
-- policy.js: the ladders as orders, and `maxEffect`.
use bitgate.Base.{
  ℕ, ◌≡◌, sym, ◌∙◌, Eq, true, Option, none, some, List, [], ◌∷◌, arith, ltb, if◌then◌else◌,
  Option-cases, inl, inr, is_some,
}
use bitgate.Core.Policy.Effects.{
  Dimension, Effect, effect_eq, ladder, index_of, effect_severity, max_effect,
}

-- A position holds one element.
index_of-injective {ℓ} :
    {A : Type ℓ} ⦃e : Eq A⦄ (xs : List A) (a b : A) (i : ℕ)
    → index_of xs a ≡ some i
    → index_of xs b ≡ some i
    → a ≡ b
unfolding index_of
index_of-injective [] a b i p q = cc
index_of-injective ⦃e⦄ (x ∷ xs) a b i p q =
    grind (arith, e.beq_iff x a, e.beq_iff x b, index_of-injective xs a b)

module _ (d : Dimension) where
  -- The word is on the ladder.
  abbrev pub IsEffect : Effect → Type 0
  IsEffect a = is_some (effect_severity d a) ≡ true

  -- Effects of one severity are one effect.
  pub effect_severity-injective :
      (a b : Effect) → IsEffect a → effect_severity d a ≡ effect_severity d b → a ≡ b
  effect_severity-injective a b ha e = elim (Option-cases (effect_severity d a)) [
    | inl p ↦ cc
    | inr (i, p) ↦ unfold effect_severity in index_of-injective (ladder d) a b i p (sym e ∙ p)
  ]

  abbrev higher : Option ℕ → Option ℕ → Option ℕ
  higher none b = b
  higher (some a) none = some a
  higher (some a) (some b) = if ltb a b then some b else some a

  pub severity-max_effect :
      (a b : Effect)
      → effect_severity d (max_effect d a b) ≡ higher (effect_severity d a) (effect_severity d b)
  unfolding max_effect
  severity-max_effect a b = ground arith

  -- For two effects on the ladder, the more severe one does not depend on their order.
  pub max_effect_comm :
      (a b : Effect) → IsEffect a → IsEffect b → max_effect d a b ≡ max_effect d b a
  unfolding max_effect
  max_effect_comm a b ha hb = ground (arith, effect_severity-injective a b)

  -- The more severe of three effects does not depend on the grouping, for effects that are on the
  -- ladder or not.
  pub max_effect_assoc :
      (a b c : Effect) → max_effect d (max_effect d a b) c ≡ max_effect d a (max_effect d b c)
  unfolding max_effect
  max_effect_assoc a b c = ground arith

  pub max_effect_idem : (a : Effect) → max_effect d a a ≡ a
  unfolding max_effect
  max_effect_idem a = ground arith

  pub max_effect-IsEffect : (a b : Effect) → IsEffect a → IsEffect b → IsEffect (max_effect d a b)
  unfolding max_effect
  max_effect-IsEffect a b ha hb = ground arith

  -- The bottom of a ladder gives way to every effect on it.
  pub max_effect_bottom :
      (bottom e : Effect)
      → effect_severity d bottom ≡ some 0
      → IsEffect e
      → max_effect d bottom e ≡ e
  unfolding max_effect
  max_effect_bottom bottom e h he = ground (arith, effect_severity-injective bottom e)
