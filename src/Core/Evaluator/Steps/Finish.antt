-- ===== src/Core/Evaluator/Steps/Finish.antt =====
-- evaluator.js: the last steps of `evaluateTarget`: thresholds, override, bypass and evidence.
use bitgate.Base.{
  ℕ, Bool, true, false, ◌&&◌, Option, none, some, [], ltb, leb, if◌then◌else◌, get_or,
}
use bitgate.Base.Text.{text_eq, codes}
use bitgate.Base.Map.{get}
use bitgate.Core.Reasons.{plain_reason, dedupe_reasons, viewer_override, surface_policy_bypass}
use bitgate.Core.Evidence.{EvidenceThresholds, Evidence, freeze_evidence, redact_evidence}
use bitgate.Core.Policy.Effects.{
  visibility, Effect, effect_severity, restrict, require_explicit_action,
}
use bitgate.Core.Policy.Gates.{Gate, gate_eq}
use bitgate.Core.Policy.Decision.{GovernanceDecision}
use bitgate.Core.Policy.Profile.{PolicyProfile}
use bitgate.Core.Evaluator.Snapshot.{Override}
use bitgate.Core.Evaluator.Steps.{add_reason}

unfoldable pub summarize_thresholds : PolicyProfile → EvidenceThresholds
summarize_thresholds profile =
    let defaults = get_or (get profile.reports (codes "default")) [] in
    record {
      warn = get defaults Gate.warn;
      restrict = get defaults Gate.restrict;
      hide = get defaults Gate.hide;
      deny = get defaults Gate.deny;
    }

-- Step 8: the viewer's override. `isSoftening` is a comparison of ladder places.
abbrev pub is_softening : Option ℕ → Option ℕ → Bool
is_softening none current = false
is_softening (some requested) none = false
is_softening (some requested) (some current) = ltb requested current

abbrev pub override_allowed : PolicyProfile → Option Bool → Bool
override_allowed profile allow_overrides =
    get_or allow_overrides true && profile.allow_viewer_override

unfoldable pub override_step :
    PolicyProfile → Option Bool → Option Override → GovernanceDecision → GovernanceDecision
override_step profile allow_overrides none decision = decision
override_step profile allow_overrides (some override) decision =
    if override_allowed profile allow_overrides
      && (decision.overridable
          && is_softening (effect_severity visibility override.visibility)
              (effect_severity visibility decision.visibility))
    then add_reason
        (record decision {
          visibility = override.visibility;
          interaction = require_explicit_action;
        })
        (plain_reason viewer_override)
    else decision

-- Step 13: the surface's ceiling over `hide`.
abbrev pub reaches_hide : Effect → Bool
reaches_hide effect = elim (effect_severity visibility effect) [
  | none ↦ false
  | some place ↦ leb 3 place
]

unfoldable pub bypass_step : PolicyProfile → GovernanceDecision → GovernanceDecision
bypass_step profile decision =
    if profile.bypass_hide && reaches_hide decision.visibility
    then add_reason (record decision { visibility = get_or profile.bypass_hide_ceiling restrict })
        (plain_reason surface_policy_bypass)
    else decision

unfoldable pub final_step : PolicyProfile → Evidence → GovernanceDecision → GovernanceDecision
final_step profile evidence decision = record decision {
  evidence =
      some (if profile.expose_evidence then freeze_evidence evidence else redact_evidence evidence);
  reasons = dedupe_reasons decision.reasons;
}
