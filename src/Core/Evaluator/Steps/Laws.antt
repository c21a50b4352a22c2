-- ===== src/Core/Evaluator/Steps/Laws.antt =====
-- evaluator.js: the steps of `evaluateTarget` against the four ladders.
use bitgate.Base.{
  ℕ, ◌≤◌, ◌≡◌, refl, ◌∙◌, Bool, true, false, not, ◌&&◌, ◌||◌, Option, none, some, List, [], ◌∷◌,
  arith, is_empty, get_or, Bool-cases, inl, inr, leb, any, find,
}
use bitgate.Base.Text.{Text, text_eq}
use bitgate.Base.Map.{Map, get}
use bitgate.Base.Set.{has}
use bitgate.Core.Identifiers.{GovernanceTarget, user_key}
use bitgate.Core.Reasons.{ReasonId, Reason, trusted_mute_threshold, trusted_report_threshold}
use bitgate.Core.AdminState.{is_denied}
use bitgate.Core.Policy.Effects.{
  Dimension, ranking, visibility, interaction, transaction, Effect, allow, Effect-discrete,
  effect_severity, index_of, max_effect,
}
use bitgate.Core.Policy.Effects.Order.{severity-max_effect}
use bitgate.Core.Policy.Gates.{CategoryThresholds, DimensionEffects, effect_of, apply_thresholds}
use bitgate.Core.Policy.Decision.{GovernanceDecision, apply_effects, raised_by, transaction_by}
use bitgate.Core.Policy.Profile.{PolicyProfile, resolve_thresholds}
use bitgate.Core.Evaluator.Snapshot.{ViewerState, GovernanceSnapshot}
use bitgate.Core.Evaluator.Signals.{Aggregate}
use bitgate.Core.Evaluator.Steps.{
  Progress, add_reason, author_denied, block_step, mute_step, admin_step, denial_step,
  protected_step, allowlist_step,
}
use bitgate.Core.Evaluator.Steps.Trust.{
  category_step, mute_category, mute_categories, trusted_mute_step, report_categories,
  trusted_report_step,
}

-- The place of an effect on its ladder; the bottom for a word that is not on it.
abbrev pub place : Dimension → Effect → ℕ
place d e = get_or (effect_severity d e) 0

-- The place of a decision in a dimension; the bottom for an absent transaction.
abbrev pub height : Dimension → GovernanceDecision → ℕ
height ranking decision = place ranking decision.ranking
height visibility decision = place visibility decision.visibility
height interaction decision = place interaction decision.interaction
height transaction decision = place transaction (get_or decision.transaction allow)

-- No dimension is lowered, and the decision may be overridden exactly if it could before.
abbrev pub Raises : GovernanceDecision → GovernanceDecision → Type 0
Raises before after =
    ((d : Dimension) → height d before ≤ height d after) × (after.overridable ≡ before.overridable)

pub Raises-refl : (decision : GovernanceDecision) → Raises decision decision
Raises-refl decision = (λ d. ground arith, refl)

pub Raises-trans : (a b c : GovernanceDecision) → Raises a b → Raises b c → Raises a c
Raises-trans a b c (r, s) (t, u) = (λ d. ground (arith, r d, t d), u ∙ s)

place-max_effect :
    (d : Dimension) (a b : Effect)
    → (place d a ≤ place d (max_effect d a b)) × (place d b ≤ place d (max_effect d a b))
place-max_effect d a b = ground (arith, severity-max_effect d a b)

place-allow : (d : Dimension) → place d allow ≡ 0
unfolding effect_severity index_of Effect-discrete
place-allow ranking = refl
place-allow visibility = refl
place-allow interaction = refl
place-allow transaction = refl

place-raised_by :
    (d : Dimension) (current : Effect) (effect : Option Effect)
    → (place d current ≤ place d (raised_by d current effect))
      × (place d (get_or effect allow) ≤ place d (raised_by d current effect))
place-raised_by d current none = ground (arith, place-allow d)
place-raised_by d current (some effect) = place-max_effect d current effect

place-transaction :
    (current effect : Option Effect)
    → (place transaction (get_or current allow)
        ≤ place transaction (get_or (transaction_by current effect) allow))
      × (place transaction (get_or effect allow)
          ≤ place transaction (get_or (transaction_by current effect) allow))
place-transaction current none = ground (arith, place-allow transaction)
place-transaction none (some effect) = place-max_effect transaction allow effect
place-transaction (some current) (some effect) = place-max_effect transaction current effect

-- Applied effects are reached in every dimension, and nothing is lowered.
pub apply_effects-height :
    (d : Dimension) (decision : GovernanceDecision) (effects : DimensionEffects)
    (reasons : List Reason)
    → (height d decision ≤ height d (apply_effects decision effects reasons))
      × (place d (get_or (effect_of effects d) allow)
          ≤ height d (apply_effects decision effects reasons))
unfolding apply_effects
apply_effects-height ranking decision effects reasons =
    place-raised_by ranking decision.ranking effects.ranking
apply_effects-height visibility decision effects reasons =
    place-raised_by visibility decision.visibility effects.visibility
apply_effects-height interaction decision effects reasons =
    place-raised_by interaction decision.interaction effects.interaction
apply_effects-height transaction decision effects reasons =
    place-transaction decision.transaction effects.transaction

pub apply_effects-Raises :
    (decision : GovernanceDecision) (effects : DimensionEffects) (reasons : List Reason)
    → Raises decision (apply_effects decision effects reasons)
apply_effects-Raises decision effects reasons =
    (λ d. (apply_effects-height d decision effects reasons).0, unfold apply_effects in refl)

add_reason-Raises :
    (decision : GovernanceDecision) (r : Reason) → Raises decision (add_reason decision r)
add_reason-Raises decision r = (
  λ d. elim d [
    | ranking ↦ ground arith
    | visibility ↦ ground arith
    | interaction ↦ ground arith
    | transaction ↦ ground arith
  ],
  refl,
)

pub block_step-Raises :
    (profile : PolicyProfile) (viewer : ViewerState) (authors : List Text) (p : Progress)
    → Raises p.decision (block_step profile viewer authors p).decision
unfolding block_step
block_step-Raises profile viewer authors p =
    elim (Bool-cases (is_empty (get_or (find (λ pubkey. has viewer.blocks pubkey) authors) []))) [
      | inl e ↦ rw e (Raises-refl p.decision)
      | inr e ↦ rw e (apply_effects-Raises p.decision _ _)
    ]

pub mute_step-Raises :
    (viewer : ViewerState) (authors : List Text) (p : Progress)
    → Raises p.decision (mute_step viewer authors p).decision
unfolding mute_step
mute_step-Raises viewer authors p =
    elim (Bool-cases (any (λ pubkey. has viewer.mutes pubkey) authors)) [
      | inl e ↦ rw e (add_reason-Raises p.decision _)
      | inr e ↦ rw e (Raises-refl p.decision)
    ]

pub admin_step-Raises :
    (is_protected : Bool) (target : GovernanceTarget) (key : Text) (snapshot : GovernanceSnapshot)
    (profile : PolicyProfile) (authors : List Text) (p : Progress)
    → Raises p.decision (admin_step is_protected target key snapshot profile authors p).decision
unfolding admin_step denial_step protected_step
admin_step-Raises true target key snapshot profile authors p =
    elim (Bool-cases (is_denied target snapshot.admin)) [
      | inl e ↦ rw e (add_reason-Raises p.decision _)
      | inr e ↦ rw e (Raises-refl p.decision)
    ]
admin_step-Raises false target key snapshot profile authors p =
    elim (Bool-cases (is_denied target snapshot.admin || author_denied target snapshot authors)) [
      | inl e ↦ rw e (apply_effects-Raises p.decision _ _)
      | inr e ↦ rw e (Raises-refl p.decision)
    ]

pub allowlist_step-Raises :
    (is_protected : Bool) (snapshot : GovernanceSnapshot) (profile : PolicyProfile)
    (authors : List Text) (p : Progress)
    → Raises p.decision (allowlist_step is_protected snapshot profile authors p).decision
unfolding allowlist_step
allowlist_step-Raises is_protected snapshot profile authors p =
    elim (Bool-cases (
      profile.require_allowlist
      && (not is_protected
          && not (any (λ pubkey. has snapshot.admin.user_allow (user_key pubkey)) authors)))) [
            | inl e ↦ rw e (apply_effects-Raises p.decision _ _)
            | inr e ↦ rw e (Raises-refl p.decision)
          ]

category_step-Raises :
    (id : ReasonId) (category : Text) (count : ℕ) (thresholds : CategoryThresholds)
    (decision : GovernanceDecision)
    → Raises decision (category_step id category count thresholds decision)
unfolding category_step
category_step-Raises id category count thresholds decision =
    elim (Bool-cases (is_empty (apply_thresholds count thresholds).1)) [
      | inl e ↦ rw e (Raises-refl decision)
      | inr e ↦ rw e (apply_effects-Raises decision _ _)
    ]

mute_category-Raises :
    (profile : PolicyProfile) (category : Text) (count : ℕ) (decision : GovernanceDecision)
    → Raises decision (mute_category profile category count decision)
unfolding mute_category
mute_category-Raises profile category count decision = go (get profile.mutes category)
  where
    go :
        (found : Option CategoryThresholds)
        → Raises decision (elim found [
          | none ↦ decision
          | some thresholds ↦
              category_step trusted_mute_threshold category count thresholds decision
        ])
    go none = Raises-refl decision
    go (some thresholds) =
        category_step-Raises trusted_mute_threshold category count thresholds decision

mute_categories-Raises :
    (profile : PolicyProfile) (counts : Map Text ℕ) (decision : GovernanceDecision)
    → Raises decision (mute_categories profile counts decision)
unfolding mute_categories
mute_categories-Raises profile [] decision = Raises-refl decision
mute_categories-Raises profile ((category, count) ∷ rest) decision =
    let next = mute_category profile category count decision in
    Raises-trans decision next (mute_categories profile rest next)
      (mute_category-Raises profile category count decision)
      (mute_categories-Raises profile rest next)

report_categories-Raises :
    (profile : PolicyProfile) (counts : Map Text ℕ) (decision : GovernanceDecision)
    → Raises decision (report_categories profile counts decision)
unfolding report_categories
report_categories-Raises profile [] decision = Raises-refl decision
report_categories-Raises profile ((category, count) ∷ rest) decision =
    let thresholds = resolve_thresholds profile.reports (some category) in
    let next = category_step trusted_report_threshold category count thresholds decision in
    Raises-trans decision next (report_categories profile rest next)
      (category_step-Raises trusted_report_threshold category count thresholds decision)
      (report_categories-Raises profile rest next)

pub trusted_mute_step-Raises :
    (profile : PolicyProfile) (mutes : Aggregate) (p : Progress)
    → Raises p.decision (trusted_mute_step profile mutes p).decision
unfolding trusted_mute_step
trusted_mute_step-Raises profile mutes p = elim (Bool-cases (leb mutes.total 0)) [
  | inl e ↦ rw e (Raises-refl p.decision)
  | inr e ↦ rw e (
      Raises-trans p.decision _ _ (apply_effects-Raises p.decision _ _)
        (mute_categories-Raises profile mutes.by_category _))
]

pub trusted_report_step-Raises :
    (profile : PolicyProfile) (reports : Aggregate) (p : Progress)
    → Raises p.decision (trusted_report_step profile reports p).decision
unfolding trusted_report_step
trusted_report_step-Raises profile reports p = elim (Bool-cases (leb reports.total 0)) [
  | inl e ↦ rw e (Raises-refl p.decision)
  | inr e ↦ rw e (
      Raises-trans p.decision _ _ (add_reason-Raises p.decision _)
        (report_categories-Raises profile reports.by_category _))
]
