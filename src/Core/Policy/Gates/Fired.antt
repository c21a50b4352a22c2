-- ===== src/Core/Policy/Gates/Fired.antt =====
-- policy.js: the gates that `applyThresholds` reports, and the effect of each dimension.
use mathlib.Core.Path.{subst}
use bitgate.Base.{
  ℕ, ◌<◌, ◌≡◌, refl, sym, ap, ◌∙◌, inl, inr, Bool, true, false, Option, none, some, List, [], ◌∷◌,
  ◌++◌, arith, leb, ltb, ◌&&◌, if◌then◌else◌, Bool-cases, filter, append_assoc, append-nil, map,
}
use bitgate.Base.Map.{get}
use bitgate.Core.Policy.Effects.{
  Dimension, ranking, visibility, interaction, transaction, Effect, Effect-discrete, index_of,
  effect_severity, max_effect,
}
use bitgate.Core.Policy.Gates.{
  Gate, gate_eq, GateRow, CategoryThresholds, DimensionEffects, no_effects, effect_of, set_effect,
  gates, fires, raise_effect, fire_row, fire_rows, apply_thresholds,
}

-- The threshold is positive and the count has reached it.
abbrev pub reached : ℕ → CategoryThresholds → Gate → Bool
reached count thresholds g = elim (get thresholds g) [
  | none ↦ false
  | some t ↦ ltb 0 t && leb t count
]

fires_lem :
    (count : ℕ) (thresholds : CategoryThresholds)
    → fires count thresholds ≡ reached count thresholds
unfolding fires
fires_lem count thresholds = λ i g. one (get thresholds g) i
  where
    one :
        (o : Option ℕ)
        → (elim o [
          | none ↦ false
          | some t ↦ if leb t 0 then false else if ltb count t then false else true
        ])
          ≡ (elim o [ none ↦ false | some t ↦ ltb 0 t && leb t count ])
    one none = refl
    one (some t) = ground arith

-- The gates of the table that fire, in the order of the table.
abbrev pub fired_gates : (Gate → Bool) → List GateRow → List Gate
fired_gates hit rows = map (λ r. r.gate) (filter (λ r. hit r.gate) rows)

-- The most severe effect among the gates of a dimension that fire.
abbrev pub effect_by : (Gate → Bool) → Dimension → Option Effect
effect_by hit ranking = if hit Gate.downrank then some Effect.downrank else none
effect_by hit visibility =
    if hit Gate.deny
    then some Effect.deny
    else if hit Gate.hide
    then some Effect.hide
    else if hit Gate.restrict
    then some Effect.restrict
    else if hit Gate.warn
    then some Effect.warn
    else none
effect_by hit interaction =
    if hit Gate.interaction_deny
    then some Effect.deny
    else if hit Gate.require_explicit_action
    then some Effect.require_explicit_action
    else none
effect_by hit transaction =
    if hit Gate.transaction_deny
    then some Effect.deny
    else if hit Gate.transaction_review
    then some Effect.require_review
    else none

module _ (count : ℕ) (thresholds : CategoryThresholds) where
  fired-fire_row :
      (state : DimensionEffects × List Gate) (r : GateRow) (rows : List GateRow)
      → (fire_row count thresholds state r).1 ++ fired_gates (fires count thresholds) rows
        ≡ state.1 ++ fired_gates (fires count thresholds) (r ∷ rows)
  unfolding fire_row
  fired-fire_row (effects, fired) r rows = elim (Bool-cases (fires count thresholds r.gate)) [
    | inl hit ↦ rw hit (append_assoc fired (r.gate ∷ []) _)
    | inr miss ↦ rw miss
  ]

  fired-fire_rows :
      (state : DimensionEffects × List Gate) (rows : List GateRow)
      → (fire_rows count thresholds state rows).1
        ≡ state.1 ++ fired_gates (fires count thresholds) rows
  unfolding fire_rows
  fired-fire_rows state [] = sym (append-nil state.1)
  fired-fire_rows state (r ∷ rows) =
      fired-fire_rows (fire_row count thresholds state r) rows ∙ fired-fire_row state r rows

  abbrev same : Dimension → Dimension → Bool
  same ranking ranking = true
  same visibility visibility = true
  same interaction interaction = true
  same transaction transaction = true
  same _ _ = false

  -- What the rows of one dimension make of its effect.
  abbrev raised : Dimension → Option Effect → List GateRow → Option Effect
  raised d current [] = current
  raised d current (r ∷ rows) =
      raised d
        (if same r.dimension d
          then (if fires count thresholds r.gate
              then some (raise_effect r.dimension current r.effect)
              else current)
          else current)
        rows

  effect_of-set :
      (d d' : Dimension) (effects : DimensionEffects) (x : Option Effect → Effect)
      → effect_of (set_effect effects d (x (effect_of effects d))) d'
        ≡ (if same d d' then some (x (effect_of effects d')) else effect_of effects d')
  effect_of-set ranking ranking effects x = refl
  effect_of-set ranking visibility effects x = refl
  effect_of-set ranking interaction effects x = refl
  effect_of-set ranking transaction effects x = refl
  effect_of-set visibility ranking effects x = refl
  effect_of-set visibility visibility effects x = refl
  effect_of-set visibility interaction effects x = refl
  effect_of-set visibility transaction effects x = refl
  effect_of-set interaction ranking effects x = refl
  effect_of-set interaction visibility effects x = refl
  effect_of-set interaction interaction effects x = refl
  effect_of-set interaction transaction effects x = refl
  effect_of-set transaction ranking effects x = refl
  effect_of-set transaction visibility effects x = refl
  effect_of-set transaction interaction effects x = refl
  effect_of-set transaction transaction effects x = refl

  effect_of-fire_row :
      (d : Dimension) (state : DimensionEffects × List Gate) (r : GateRow)
      → effect_of (fire_row count thresholds state r).0 d ≡ raised d (effect_of state.0 d) (r ∷ [])
  unfolding fire_row
  effect_of-fire_row d (effects, fired) r = elim (Bool-cases (fires count thresholds r.gate)) [
    | inl hit ↦
        rw hit (effect_of-set r.dimension d effects (λ c. raise_effect r.dimension c r.effect))
    | inr miss ↦ rw miss (ground arith)
  ]

  effect_of-fire_rows :
      (d : Dimension) (state : DimensionEffects × List Gate) (rows : List GateRow)
      → effect_of (fire_rows count thresholds state rows).0 d ≡ raised d (effect_of state.0 d) rows
  unfolding fire_rows
  effect_of-fire_rows d state [] = refl
  effect_of-fire_rows d state (r ∷ rows) =
      effect_of-fire_rows d (fire_row count thresholds state r) rows
      ∙ ap (λ c. raised d c rows) (effect_of-fire_row d state r)

  abbrev hits : Gate → Bool
  hits = fires count thresholds

  raised-gates : (d : Dimension) → raised d none gates ≡ effect_by hits d
  unfolding max_effect effect_severity index_of Effect-discrete
  raised-gates ranking = refl
  raised-gates visibility = ground arith
  raised-gates interaction = ground arith
  raised-gates transaction = ground arith

  fire_gates :
      (d : Dimension)
      → 0 < count
      → (effect_of (apply_thresholds count thresholds).0 d ≡ effect_by hits d)
        × ((apply_thresholds count thresholds).1 ≡ fired_gates hits gates)
  fire_gates d h =
      let positive : leb count 0 ≡ false = ground arith in
      unfold apply_thresholds in
      rw positive (
        effect_of-fire_rows d (no_effects, []) gates ∙ none_of d ∙ raised-gates d,
        fired-fire_rows (no_effects, []) gates,
      )
    where
      none_of : (d : Dimension) → raised d (effect_of no_effects d) gates ≡ raised d none gates
      none_of ranking = refl
      none_of visibility = refl
      none_of interaction = refl
      none_of transaction = refl

  -- For a positive count, the gates reported are those of the table whose threshold is positive
  -- and reached, in order; and each dimension has the most severe effect among its gates with such
  -- a threshold, or none if it has no such gate.
  pub apply_thresholds_lem :
      (d : Dimension)
      → 0 < count
      → (effect_of (apply_thresholds count thresholds).0 d ≡ effect_by (reached count thresholds) d)
        × ((apply_thresholds count thresholds).1 ≡ fired_gates (reached count thresholds) gates)
  apply_thresholds_lem d h =
      subst
        (λ hit.
          (effect_of (apply_thresholds count thresholds).0 d ≡ effect_by hit d)
          × ((apply_thresholds count thresholds).1 ≡ fired_gates hit gates))
        (fires_lem count thresholds) (fire_gates d h)
