-- ===== src/Core/Policy/Decision.antt =====
-- policy.js: decisions, their neutral value, `applyEffects` and `composeDecisions`.
pub mod Compose
use bitgate.Base.{
  ℕ, ◌+◌, ◌==◌, Bool, true, false, ◌&&◌, Option, none, some, List, [], ◌∷◌, ◌++◌, is_empty,
  if◌then◌else◌,
}
use bitgate.Base.Text.{Text}
use bitgate.Core.Identifiers.{GovernanceTarget}
use bitgate.Core.Reasons.{Reason, dedupe_reasons}
use bitgate.Core.Evidence.{Evidence, merge_evidence}
use bitgate.Core.Policy.Effects.{
  Dimension, ranking, visibility, interaction, transaction, Effect, effect_eq, normal, allow,
  downrank, max_effect,
}
use bitgate.Core.Policy.Gates.{DimensionEffects}

-- `ranking.effect`, `ranking.weight`, `visibility.effect`, `visibility.overridable` and
-- `interaction.effect` are fields of their own; `transaction` is absent or its effect.
pub record GovernanceDecision : Type 0 where
  pub key : Text
  pub target : Option GovernanceTarget
  pub ranking : Effect
  pub weight : ℕ
  pub visibility : Effect
  pub overridable : Bool
  pub interaction : Effect
  pub transaction : Option Effect
  pub reasons : List Reason
  pub evidence : Option Evidence
  pub policy_profile : Text
  pub policy_version : Text
  pub snapshot_fingerprint : Text
  pub evaluated_at : ℕ

abbrev pub create_neutral_decision : Text → Option GovernanceTarget → Bool → GovernanceDecision
create_neutral_decision key target include_transaction = record {
  key = key;
  target = target;
  ranking = normal;
  weight = 0;
  visibility = allow;
  overridable = true;
  interaction = allow;
  transaction = if include_transaction then some allow else none;
  reasons = [];
  evidence = none;
  policy_profile = [];
  policy_version = [];
  snapshot_fingerprint = [];
  evaluated_at = 0;
}

-- The effect of a dimension after one is applied, if one is.
abbrev pub raised_by : Dimension → Effect → Option Effect → Effect
raised_by dimension current none = current
raised_by dimension current (some effect) = max_effect dimension current effect

abbrev weight_by : Option Effect → ℕ
weight_by none = 0
weight_by (some effect) = if effect == downrank then 1 else 0

abbrev pub transaction_by : Option Effect → Option Effect → Option Effect
transaction_by current none = current
transaction_by none (some effect) = some (max_effect transaction allow effect)
transaction_by (some current) (some effect) = some (max_effect transaction current effect)

unfoldable pub apply_effects :
    GovernanceDecision → DimensionEffects → List Reason → GovernanceDecision
apply_effects decision effects reasons = record decision {
  ranking = raised_by ranking decision.ranking effects.ranking;
  weight = decision.weight + weight_by effects.ranking;
  visibility = raised_by visibility decision.visibility effects.visibility;
  interaction = raised_by interaction decision.interaction effects.interaction;
  transaction = transaction_by decision.transaction effects.transaction;
  reasons =
      if is_empty reasons then decision.reasons else dedupe_reasons (decision.reasons ++ reasons);
}

abbrev pub joined_transaction : Option Effect → Option Effect → Option Effect
joined_transaction composed none = composed
joined_transaction none (some effect) = some effect
joined_transaction (some current) (some effect) = some (max_effect transaction current effect)

-- One round of the loop of `composeDecisions`.
unfoldable pub compose_step : GovernanceDecision → GovernanceDecision → GovernanceDecision
compose_step composed decision = record composed {
  ranking = max_effect ranking composed.ranking decision.ranking;
  weight = composed.weight + decision.weight;
  visibility = max_effect visibility composed.visibility decision.visibility;
  overridable = composed.overridable && decision.overridable;
  interaction = max_effect interaction composed.interaction decision.interaction;
  transaction = joined_transaction composed.transaction decision.transaction;
  reasons = composed.reasons ++ decision.reasons;
}

unfoldable pub compose_from : GovernanceDecision → List GovernanceDecision → GovernanceDecision
compose_from composed [] = composed
compose_from composed (decision ∷ rest) = compose_from (compose_step composed decision) rest

-- `decisions.map((decision) => decision.evidence).filter(Boolean)`
abbrev pub present_evidence : List GovernanceDecision → List Evidence
present_evidence [] = []
present_evidence (d ∷ ds) = elim d.evidence [
  | none ↦ present_evidence ds
  | some e ↦ e ∷ present_evidence ds
]

unfoldable pub compose_decisions : List GovernanceDecision → GovernanceDecision
unfolding compose_from compose_step
compose_decisions [] = create_neutral_decision [] none false
compose_decisions (first ∷ rest) =
    let composed = compose_from first rest in
    let evidence = present_evidence (first ∷ rest) in
    record composed {
      reasons = dedupe_reasons composed.reasons;
      evidence = if is_empty evidence then composed.evidence else some (merge_evidence evidence);
    }
