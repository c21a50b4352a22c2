-- ===== src/Core/Evaluator/Target.antt =====
-- evaluator.js: `evaluateTarget` and `evaluateMany`. The fingerprint of a snapshot under a policy
-- and a profile is an argument, `fingerprint`: the evaluation only copies its value.
pub mod Denial
pub mod Overrides
pub mod Many
use bitgate.Base.{
  ℕ, ◌≡◌, ◌||◌, ◌&&◌, Bool, true, false, not, Option, none, some, List, [], ◌∷◌, any, is_some,
  if◌then◌else◌, get_or, Result, ok, err, ◌>>=◌, ◌>>◌, guard, invalid_target,
}
use bitgate.Base.Text.{Text, codes, text_eq}
use bitgate.Base.Map.{Map, get, put, has_key}
use bitgate.Core.Identifiers.{GovernanceTarget, get_target_key}
use bitgate.Core.Targets.{is_valid_target}
use bitgate.Core.Reasons.{plain_reason, policy_disabled}
use bitgate.Core.Evidence.{Evidence, create_empty_evidence}
use bitgate.Core.Authority.{is_protected_actor}
use bitgate.Core.Policy.Effects.{Effect, hide, deny}
use bitgate.Core.Policy.Gates.{Gate, gate_eq, CategoryThresholds, DimensionEffects, no_effects}
use bitgate.Core.Policy.Decision.{GovernanceDecision, create_neutral_decision}
use bitgate.Core.Policy.Profile.{PolicyProfile, PolicyDefinition, resolve_profile}
use bitgate.Core.Evaluator.Snapshot.{
  ViewerState, GovernanceSnapshot, PolicyContext, resolve_trust_set,
}
use bitgate.Core.Evaluator.Signals.{aggregate_mutes, aggregate_reports}
use bitgate.Core.Evaluator.Steps.{
  Progress, hide_and_deny, author_chain, block_step, mute_step, admin_step, allowlist_step,
}
use bitgate.Core.Evaluator.Steps.Trust.{trusted_mute_step, trusted_report_step}
use bitgate.Core.Evaluator.Steps.Finish.{
  summarize_thresholds, override_step, bypass_step, final_step,
}

-- NEUTRAL_POLICY, in normal form.
abbrev pub neutral_profile : PolicyProfile
neutral_profile = record {
  name = codes "default";
  administrative_deny = some (record hide_and_deny { transaction = some deny });
  viewer_block = some hide_and_deny;
  allowlist_miss = some hide_and_deny;
  require_allowlist = false;
  allow_viewer_override = true;
  expose_evidence = false;
  bypass_hide = false;
  bypass_hide_ceiling = none;
  disabled = false;
  reports = [];
  mutes = [];
  mute_window_seconds = none;
}

abbrev pub neutral_policy : PolicyDefinition
neutral_policy = record {
  id = codes "neutral";
  name = codes "Neutral";
  description =
      codes "Enforces administrative denials only. Applications should supply their own policy.";
  version = codes "1.0.0";
  profiles = (codes "default", neutral_profile) ∷ [];
  default_profile = some (codes "default");
}

abbrev gates_transaction : CategoryThresholds → Bool
gates_transaction thresholds =
    is_some (get thresholds Gate.transaction_deny)
    || is_some (get thresholds Gate.transaction_review)

unfoldable pub has_transaction_gate : PolicyProfile → Bool
has_transaction_gate profile =
    any (λ entry. gates_transaction entry.1) profile.reports
    || any (λ entry. gates_transaction entry.1) profile.mutes

-- `profile.administrativeDeny?.transaction !== undefined || hasTransactionGate(profile)`
unfoldable pub includes_transaction : PolicyProfile → Bool
unfolding has_transaction_gate
includes_transaction profile =
    is_some (get_or profile.administrative_deny no_effects).transaction
    || has_transaction_gate profile

-- The fingerprint of the parts of a snapshot that a policy's profile is evaluated on.
abbrev pub Fingerprint : Type 0
Fingerprint = GovernanceSnapshot → PolicyDefinition → PolicyProfile → Text

abbrev pub fingerprint_for :
    Fingerprint → GovernanceSnapshot → PolicyContext → PolicyDefinition → PolicyProfile → Text
fingerprint_for fingerprint snapshot context policy profile =
    get_or context.snapshot_fingerprint (fingerprint snapshot policy profile)

-- The decision before the first step.
abbrev pub start :
    GovernanceTarget → PolicyDefinition → PolicyProfile → Text → ℕ → GovernanceDecision
start target policy profile print now =
    record (create_neutral_decision (get_target_key target) (some target)
      (includes_transaction profile)) {
        policy_profile = profile.name;
        policy_version = policy.version;
        snapshot_fingerprint = print;
        evaluated_at = now;
      }

-- Steps 2 to 11.
unfoldable pub gather :
    GovernanceTarget
    → GovernanceSnapshot
    → PolicyProfile
    → ViewerState
    → ℕ
    → GovernanceDecision
    → Progress
unfolding author_chain block_step mute_step admin_step allowlist_step trusted_mute_step
    trusted_report_step
gather target snapshot profile viewer now decision =
    let key = get_target_key target in
    let authors = author_chain target in
    let is_protected = any (λ pubkey. is_protected_actor pubkey snapshot.authority) authors in
    let trust_set = resolve_trust_set snapshot.trust in
    trusted_report_step profile (aggregate_reports key snapshot viewer trust_set) (
      trusted_mute_step profile
        (aggregate_mutes key snapshot viewer trust_set now profile.mute_window_seconds)
        (allowlist_step is_protected snapshot profile authors (
          admin_step is_protected target key snapshot profile authors (
            mute_step viewer authors (
              block_step profile viewer authors (record {
                decision = decision;
                evidence = record create_empty_evidence { protected_target = is_protected };
              }))))))

-- Steps 8 and 13, and the evidence.
unfoldable pub finish :
    PolicyProfile → Option Bool → ViewerState → Text → Progress → GovernanceDecision
unfolding override_step bypass_step final_step summarize_thresholds
finish profile allow_overrides viewer key p =
    final_step profile (record p.evidence { thresholds = summarize_thresholds profile })
      (bypass_step profile
        (override_step profile allow_overrides (get viewer.overrides key) p.decision))

-- The evaluation under a profile, after validation.
unfoldable pub evaluate_with :
    GovernanceTarget
    → GovernanceSnapshot
    → PolicyContext
    → PolicyProfile
    → ViewerState
    → GovernanceDecision
    → GovernanceDecision
unfolding gather finish
evaluate_with target snapshot context profile viewer decision =
    if profile.disabled
    then record decision {
      reasons = plain_reason policy_disabled ∷ [];
      evidence = some create_empty_evidence;
    }
    else finish profile context.allow_overrides viewer (get_target_key target)
        (gather target snapshot profile viewer (get_or context.now 0) decision)

module _ (fingerprint : Fingerprint) where
  unfoldable pub evaluate_target :
      GovernanceTarget
      → GovernanceSnapshot
      → PolicyContext
      → ViewerState
      → Result GovernanceDecision
  unfolding evaluate_with
  evaluate_target target snapshot context viewer = do
    guard (is_valid_target target) invalid_target
    let policy = get_or context.policy neutral_policy
    profile ← resolve_profile policy context.policy_profile
    ok (
        evaluate_with target snapshot context profile viewer (
          start target policy profile (fingerprint_for fingerprint snapshot context policy profile)
            (get_or context.now 0)))

  -- The loop of `evaluateMany`; an invalid target and a key that is there already are passed over.
  unfoldable pub evaluate_each :
      GovernanceSnapshot
      → PolicyContext
      → ViewerState
      → Map Text GovernanceDecision
      → List GovernanceTarget
      → Result (Map Text GovernanceDecision)
  evaluate_each snapshot context viewer results [] = ok results
  evaluate_each snapshot context viewer results (target ∷ targets) =
      elim (not (is_valid_target target) || has_key results (get_target_key target)) [
        | true ↦ evaluate_each snapshot context viewer results targets
        | false ↦ elim (evaluate_target target snapshot context viewer) [
          | err e ↦ err e
          | ok decision ↦
              evaluate_each snapshot context viewer (put results (get_target_key target) decision)
                targets
        ]
      ]

  unfoldable pub evaluate_many :
      List GovernanceTarget
      → GovernanceSnapshot
      → PolicyContext
      → ViewerState
      → Result (Map Text GovernanceDecision)
  unfolding evaluate_each evaluate_target
  evaluate_many targets snapshot context viewer = do
    let policy = get_or context.policy neutral_policy
    profile ← resolve_profile policy context.policy_profile
    evaluate_each snapshot
        (record context {
          snapshot_fingerprint = some (fingerprint_for fingerprint snapshot context policy profile);
        })
        viewer [] targets
