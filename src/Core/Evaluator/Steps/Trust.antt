-- ===== src/Core/Evaluator/Steps/Trust.antt =====
-- evaluator.js: the steps of `evaluateTarget` over trusted mutes and reports.
use bitgate.Base.{ℕ, Option, none, some, List, [], ◌∷◌, is_empty, ltb, leb, if◌then◌else◌}
use bitgate.Base.Text.{Text, text_eq}
use bitgate.Base.Map.{Map, get}
use bitgate.Core.Reasons.{
  ReasonId, Reason, create_reason, trusted_report, trusted_report_threshold, trusted_mute,
  trusted_mute_threshold,
}
use bitgate.Core.Policy.Gates.{Gate, gate_eq, CategoryThresholds, apply_thresholds}
use bitgate.Core.Policy.Decision.{GovernanceDecision, apply_effects}
use bitgate.Core.Policy.Profile.{PolicyProfile, resolve_thresholds}
use bitgate.Core.Evaluator.Signals.{Aggregate}
use bitgate.Core.Evaluator.Steps.{Progress, add_reason}

-- The smallest threshold among the gates that fired.
unfoldable pub lowest_from : CategoryThresholds → Option ℕ → List Gate → Option ℕ
lowest_from thresholds lowest [] = lowest
lowest_from thresholds lowest (gate ∷ gates) =
    lowest_from thresholds
      (elim (get thresholds gate) [
        | none ↦ lowest
        | some value ↦ elim lowest [
          | none ↦ some value
          | some least ↦ if ltb value least then some value else some least
        ]
      ])
      gates

abbrev pub lowest_fired_threshold : CategoryThresholds → List Gate → Option ℕ
lowest_fired_threshold thresholds fired = lowest_from thresholds none fired

-- `{ effects, firedGates }` of a count, applied with the reason given, if a gate fired.
unfoldable pub category_step :
    ReasonId → Text → ℕ → CategoryThresholds → GovernanceDecision → GovernanceDecision
unfolding lowest_from
category_step id category count thresholds decision =
    let result = apply_thresholds count thresholds in
    if is_empty result.1
    then decision
    else apply_effects decision result.0 (
        create_reason id (some category) (some count) (lowest_fired_threshold thresholds result.1)
          none
        ∷ [])

-- One round of the loop over the mute categories: only a category with thresholds of its own
-- counts.
unfoldable pub mute_category : PolicyProfile → Text → ℕ → GovernanceDecision → GovernanceDecision
unfolding category_step
mute_category profile category count decision = elim (get profile.mutes category) [
  | none ↦ decision
  | some thresholds ↦ category_step trusted_mute_threshold category count thresholds decision
]

unfoldable pub mute_categories :
    PolicyProfile → Map Text ℕ → GovernanceDecision → GovernanceDecision
mute_categories profile [] decision = decision
mute_categories profile ((category, count) ∷ rest) decision =
    mute_categories profile rest (mute_category profile category count decision)

-- The reasons for the total of the mutes.
abbrev mute_reasons : ℕ → CategoryThresholds → List Gate → List Reason
mute_reasons total thresholds [] = create_reason trusted_mute none (some total) none none ∷ []
mute_reasons total thresholds (gate ∷ fired) =
    create_reason trusted_mute none (some total) none none
    ∷ create_reason trusted_mute_threshold none (some total)
        (lowest_fired_threshold thresholds (gate ∷ fired)) none
    ∷ []

unfoldable pub trusted_mute_step : PolicyProfile → Aggregate → Progress → Progress
unfolding mute_categories mute_category
trusted_mute_step profile mutes p =
    let evidence = record p.evidence {
      trusted_mute_total = mutes.total;
      trusted_mutes_by_category = mutes.by_category;
      trusted_muter_pubkeys = mutes.pubkeys;
    } in
    let thresholds = resolve_thresholds profile.mutes none in
    let result = apply_thresholds mutes.total thresholds in
    if leb mutes.total 0 then record { decision = p.decision; evidence = evidence } else record {
      decision =
          mute_categories profile mutes.by_category
            (apply_effects p.decision result.0 (mute_reasons mutes.total thresholds result.1));
      evidence = evidence;
    }

unfoldable pub report_categories :
    PolicyProfile → Map Text ℕ → GovernanceDecision → GovernanceDecision
unfolding category_step
report_categories profile [] decision = decision
report_categories profile ((category, count) ∷ rest) decision = report_categories profile rest (
    category_step trusted_report_threshold category count
      (resolve_thresholds profile.reports (some category)) decision)

unfoldable pub trusted_report_step : PolicyProfile → Aggregate → Progress → Progress
unfolding report_categories
trusted_report_step profile reports p =
    let evidence = record p.evidence {
      trusted_report_total = reports.total;
      trusted_reports_by_category = reports.by_category;
      trusted_reporter_pubkeys = reports.pubkeys;
    } in
    if leb reports.total 0 then record { decision = p.decision; evidence = evidence } else record {
      decision = report_categories profile reports.by_category (
          add_reason p.decision (create_reason trusted_report none (some reports.total) none none));
      evidence = evidence;
    }
