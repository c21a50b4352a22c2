-- ===== src/Core/Policy/Gates/Monotone.antt =====
-- policy.js: `applyThresholds` at two counts.
use bitgate.Base.{
  ℕ, ◌≤◌, ◌≡◌, refl, true, Option, none, some, arith, leb, get_or, Bool-cases, inl, inr,
}
use bitgate.Core.Policy.Effects.{
  Dimension, ranking, visibility, interaction, transaction, Effect, Effect-discrete, index_of,
  effect_severity,
}
use bitgate.Core.Policy.Gates.{Gate, CategoryThresholds, no_effects, effect_of, apply_thresholds}
use bitgate.Core.Policy.Gates.Fired.{effect_by, reached, apply_thresholds_lem}

-- The place on the ladder, 0 where the dimension has no effect.
abbrev pub height : Dimension → Option Effect → ℕ
height d none = 0
height d (some e) = get_or (effect_severity d e) 0

reached_mono :
    (c c' : ℕ) (t : CategoryThresholds) (g : Gate)
    → c ≤ c'
    → reached c t g ≡ true
    → reached c' t g ≡ true
reached_mono c c' t g le h = ground arith

effect_by_mono :
    (c c' : ℕ) (t : CategoryThresholds) (d : Dimension)
    → c ≤ c'
    → height d (effect_by (reached c t) d) ≤ height d (effect_by (reached c' t) d)
unfolding effect_severity index_of Effect-discrete
effect_by_mono c c' t ranking le = ground (arith, reached_mono c c' t Gate.downrank le)
effect_by_mono c c' t visibility le = ground (
  arith,
  reached_mono c c' t Gate.deny le,
  reached_mono c c' t Gate.hide le,
  reached_mono c c' t Gate.restrict le,
  reached_mono c c' t Gate.warn le,
)
effect_by_mono c c' t interaction le = ground (
  arith,
  reached_mono c c' t Gate.interaction_deny le,
  reached_mono c c' t Gate.require_explicit_action le,
)
effect_by_mono c c' t transaction le = ground (
  arith,
  reached_mono c c' t Gate.transaction_deny le,
  reached_mono c c' t Gate.transaction_review le,
)

none_height : (d : Dimension) → height d (effect_of no_effects d) ≡ 0
none_height ranking = refl
none_height visibility = refl
none_height interaction = refl
none_height transaction = refl

-- In every dimension, a larger count under the same thresholds gives an effect that stands at
-- least as high on the dimension's ladder, where no effect counts as the bottom.
pub apply_thresholds_mono :
    (c c' : ℕ) (t : CategoryThresholds) (d : Dimension)
    → c ≤ c'
    → height d (effect_of (apply_thresholds c t).0 d)
      ≤ height d (effect_of (apply_thresholds c' t).0 d)
apply_thresholds_mono c c' t d le = elim (Bool-cases (leb c 0)) [
  | inl zero_count ↦ unfold apply_thresholds in rw (zero_count, none_height d) (omega arith)
  | inr positive ↦
      rw
        (
          (apply_thresholds_lem c t d (ground arith)).0,
          (apply_thresholds_lem c' t d (ground arith)).0,
        )
        (effect_by_mono c c' t d le)
]
