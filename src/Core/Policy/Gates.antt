-- ===== src/Core/Policy/Gates.antt =====
-- policy.js: `applyThresholds`, which maps a count to effects through the nine gates.
-- A finite threshold is an entry of the map. Thresholds are natural numbers, as
-- `normalizeCategoryThresholds` leaves them.
pub mod Fired
pub mod Monotone
use bitgate.Base.{
  ℕ, ◌≡◌, ◌↔◌, ◌==◌, Eq, decide_beq, decide_beq_iff, Bool, true, false, Option, none, some, List,
  [], ◌∷◌, ◌++◌, leb, ltb, if◌then◌else◌,
}
use bitgate.Base.Text.{Text}
use bitgate.Base.Map.{Map, get}
use bitgate.Core.Policy.Effects.{
  Dimension, ranking, visibility, interaction, transaction, Effect, max_effect,
}

pub data Gate : Type 0 where
  downrank warn restrict hide deny : Gate
  require_explicit_action interaction_deny transaction_review transaction_deny : Gate

unfoldable pub Gate-discrete : Discrete Gate
Gate-discrete = hlevel

pub gate_beq_iff : (a b : Gate) → (decide_beq Gate-discrete a b ≡ true) ↔ (a ≡ b)
gate_beq_iff = decide_beq_iff Gate-discrete

instance abbrev pub gate_eq : Eq Gate
gate_eq = record { beq = decide_beq Gate-discrete; beq_iff = gate_beq_iff }

abbrev pub CategoryThresholds : Type 0
CategoryThresholds = Map Gate ℕ

pub record DimensionEffects : Type 0 where
  pub ranking : Option Effect
  pub visibility : Option Effect
  pub interaction : Option Effect
  pub transaction : Option Effect

abbrev pub no_effects : DimensionEffects
no_effects = record { ranking = none; visibility = none; interaction = none; transaction = none }

-- `effects[dimension]`
abbrev pub effect_of : DimensionEffects → Dimension → Option Effect
effect_of effects ranking = effects.ranking
effect_of effects visibility = effects.visibility
effect_of effects interaction = effects.interaction
effect_of effects transaction = effects.transaction

-- `effects[dimension] = effect`
abbrev pub set_effect : DimensionEffects → Dimension → Effect → DimensionEffects
set_effect effects ranking effect = record effects { ranking = some effect }
set_effect effects visibility effect = record effects { visibility = some effect }
set_effect effects interaction effect = record effects { interaction = some effect }
set_effect effects transaction effect = record effects { transaction = some effect }

pub record GateRow : Type 0 where
  pub gate : Gate
  pub dimension : Dimension
  pub effect : Effect

abbrev row : Gate → Dimension → Effect → GateRow
row gate dimension effect = record { gate = gate; dimension = dimension; effect = effect }

abbrev pub gates : List GateRow
gates =
    row Gate.downrank ranking Effect.downrank
    ∷ row Gate.warn visibility Effect.warn
    ∷ row Gate.restrict visibility Effect.restrict
    ∷ row Gate.hide visibility Effect.hide
    ∷ row Gate.deny visibility Effect.deny
    ∷ row Gate.require_explicit_action interaction Effect.require_explicit_action
    ∷ row Gate.interaction_deny interaction Effect.deny
    ∷ row Gate.transaction_review transaction Effect.require_review
    ∷ row Gate.transaction_deny transaction Effect.deny
    ∷ []

-- The two `continue` tests: a missing or zero threshold, and a count below it.
unfoldable pub fires : ℕ → CategoryThresholds → Gate → Bool
fires count thresholds gate = elim (get thresholds gate) [
  | none ↦ false
  | some threshold ↦ if leb threshold 0 then false else if ltb count threshold then false else true
]

-- `current ? maxEffect(dimension, current, effect) : effect`
abbrev pub raise_effect : Dimension → Option Effect → Effect → Effect
raise_effect dimension none effect = effect
raise_effect dimension (some current) effect = max_effect dimension current effect

-- One round of the loop, on the effects and the fired gates so far.
unfoldable pub fire_row :
    ℕ → CategoryThresholds → DimensionEffects × List Gate → GateRow → DimensionEffects × List Gate
fire_row count thresholds (effects, fired) r =
    if fires count thresholds r.gate
    then (
      set_effect effects r.dimension
          (raise_effect r.dimension (effect_of effects r.dimension) r.effect),
      fired ++ r.gate ∷ [],
    )
    else (effects, fired)

unfoldable pub fire_rows :
    ℕ
    → CategoryThresholds
    → DimensionEffects × List Gate
    → List GateRow
    → DimensionEffects × List Gate
fire_rows count thresholds state [] = state
fire_rows count thresholds state (r ∷ rows) =
    fire_rows count thresholds (fire_row count thresholds state r) rows

unfoldable pub apply_thresholds : ℕ → CategoryThresholds → DimensionEffects × List Gate
unfolding fire_rows fire_row fires
apply_thresholds count thresholds =
    if leb count 0 then (no_effects, []) else fire_rows count thresholds (no_effects, []) gates
