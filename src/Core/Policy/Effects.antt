-- ===== src/Core/Policy/Effects.antt =====
-- policy.js: the four severity ladders and the more severe of two effects.
-- The words of all ladders are one type; `other` is any text that is on no ladder.
pub mod Order
use native.Mathlib.Decide.{ℕ_discrete}
use bitgate.Base.{
  ℕ, suc, ◌≡◌, ◌↔◌, ◌==◌, Eq, decide_beq, decide_beq_iff, Bool, true, Option, none, some, List, [],
  ◌∷◌, leb, if◌then◌else◌,
}
use bitgate.Base.Text.{Text}

pub data Dimension : Type 0 where
  ranking visibility interaction transaction : Dimension

pub data Effect : Type 0 where
  normal downrank : Effect
  allow warn restrict hide deny : Effect
  require_explicit_action require_review : Effect
  other : Text → Effect

unfoldable pub Effect-discrete : Discrete Effect
Effect-discrete = hlevel ℕ_discrete

pub effect_beq_iff : (a b : Effect) → (decide_beq Effect-discrete a b ≡ true) ↔ (a ≡ b)
effect_beq_iff = decide_beq_iff Effect-discrete

instance abbrev pub effect_eq : Eq Effect
effect_eq = record { beq = decide_beq Effect-discrete; beq_iff = effect_beq_iff }

-- RANKING_LADDER, VISIBILITY_LADDER, INTERACTION_LADDER, TRANSACTION_LADDER
abbrev pub ladder : Dimension → List Effect
ladder ranking = normal ∷ downrank ∷ []
ladder visibility = allow ∷ warn ∷ restrict ∷ hide ∷ deny ∷ []
ladder interaction = allow ∷ require_explicit_action ∷ deny ∷ []
ladder transaction = allow ∷ require_review ∷ deny ∷ []

-- `indexOf`, with `none` for -1
unfoldable pub index_of {ℓ} : {A : Type ℓ} ⦃e : Eq A⦄ → List A → A → Option ℕ
index_of [] a = none
index_of (x ∷ xs) a =
    if x == a then some 0 else elim (index_of xs a) [ none ↦ none | some i ↦ some (suc i) ]

-- A dimension is one of the four by its type, so the code's `throw` is out of reach.
unfoldable pub effect_severity : Dimension → Effect → Option ℕ
effect_severity dimension effect = index_of (ladder dimension) effect

unfoldable pub max_effect : Dimension → Effect → Effect → Effect
max_effect dimension a b = elim (effect_severity dimension a) [
  | none ↦ b
  | some severity_a ↦ elim (effect_severity dimension b) [
    | none ↦ a
    | some severity_b ↦ if leb severity_b severity_a then a else b
  ]
]
