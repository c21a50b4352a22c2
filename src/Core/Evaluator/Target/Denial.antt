-- ===== src/Core/Evaluator/Target/Denial.antt =====
-- evaluator.js: an administrative denial through all the steps of `evaluateTarget`.
use bitgate.Base.{
  ℕ, ◌≤◌, ◌≡◌, refl, Bool, true, false, ◌||◌, Option, none, List, arith, get_or, any, ok,
}
use bitgate.Base.Text.{Text, text_eq}
use bitgate.Base.Map.{get}
use bitgate.Core.Identifiers.{GovernanceTarget, get_target_key}
use bitgate.Core.Targets.{is_valid_target}
use bitgate.Core.Authority.{is_protected_actor}
use bitgate.Core.AdminState.{is_denied}
use bitgate.Core.Evidence.{create_empty_evidence}
use bitgate.Core.Policy.Effects.{Dimension, ranking, visibility, interaction, transaction, allow}
use bitgate.Core.Policy.Gates.{effect_of}
use bitgate.Core.Policy.Decision.{GovernanceDecision}
use bitgate.Core.Policy.Profile.{PolicyProfile, resolve_profile}
use bitgate.Core.Evaluator.Snapshot.{
  ViewerState, GovernanceSnapshot, PolicyContext, resolve_trust_set,
}
use bitgate.Core.Evaluator.Signals.{aggregate_mutes, aggregate_reports}
use bitgate.Core.Evaluator.Steps.{
  Progress, hide_and_deny, author_chain, author_denied, block_step, mute_step, admin_step,
  denial_step, allowlist_step,
}
use bitgate.Core.Evaluator.Steps.Trust.{trusted_mute_step, trusted_report_step}
use bitgate.Core.Evaluator.Steps.Finish.{override_step, bypass_step, final_step}
use bitgate.Core.Evaluator.Steps.Laws.{
  place, height, Raises, Raises-trans, apply_effects-height, block_step-Raises, mute_step-Raises,
  admin_step-Raises, allowlist_step-Raises, trusted_mute_step-Raises, trusted_report_step-Raises,
}
use bitgate.Core.Evaluator.Target.{
  neutral_policy, Fingerprint, fingerprint_for, start, gather, finish, evaluate_with,
  evaluate_target,
}

abbrev pub is_protected_target : GovernanceTarget → GovernanceSnapshot → Bool
is_protected_target target snapshot =
    any (λ pubkey. is_protected_actor pubkey snapshot.authority) (author_chain target)

-- The target itself or, for an event or an address, its author is denied.
abbrev pub is_denied_target : GovernanceTarget → GovernanceSnapshot → Bool
is_denied_target target snapshot =
    is_denied target snapshot.admin || author_denied target snapshot (author_chain target)

-- The place that the profile's denial reaches in a dimension.
abbrev pub denial_height : PolicyProfile → Dimension → ℕ
denial_height profile d =
    place d (get_or (effect_of (get_or profile.administrative_deny hide_and_deny) d) allow)

admin_step-denied :
    (is_protected : Bool) (target : GovernanceTarget) (key : Text) (snapshot : GovernanceSnapshot)
    (profile : PolicyProfile) (authors : List Text) (p : Progress) (d : Dimension)
    → is_protected ≡ false
    → (is_denied target snapshot.admin || author_denied target snapshot authors) ≡ true
    → denial_height profile d
      ≤ height d (admin_step is_protected target key snapshot profile authors p).decision
unfolding admin_step denial_step
admin_step-denied is_protected target key snapshot profile authors p d exposed denied =
    rw (exposed, denied) (apply_effects-height d p.decision _ _).1

module _ (target : GovernanceTarget) (snapshot : GovernanceSnapshot) (profile : PolicyProfile)
    (viewer : ViewerState) (now : ℕ) where
  abbrev after_mute : GovernanceDecision → Progress
  after_mute decision = mute_step viewer (author_chain target) (
      block_step profile viewer (author_chain target) (record {
        decision = decision;
        evidence = record create_empty_evidence {
          protected_target = is_protected_target target snapshot;
        };
      }))

  abbrev after_admin : GovernanceDecision → Progress
  after_admin decision =
      admin_step (is_protected_target target snapshot) target (get_target_key target) snapshot
        profile (author_chain target) (after_mute decision)

  before_admin-Raises :
      (decision : GovernanceDecision) → Raises decision (after_admin decision).decision
  before_admin-Raises decision =
      Raises-trans decision (after_mute decision).decision (after_admin decision).decision
        (Raises-trans decision _ (after_mute decision).decision
          (block_step-Raises profile viewer (author_chain target) _)
          (mute_step-Raises viewer (author_chain target) _))
        (admin_step-Raises (is_protected_target target snapshot) target (get_target_key target)
          snapshot profile (author_chain target) (after_mute decision))

  after_admin-Raises :
      (decision : GovernanceDecision)
      → Raises
          (after_admin decision).decision
          (gather target snapshot profile viewer now decision).decision
  unfolding gather
  after_admin-Raises decision =
      let key = get_target_key target in
      let trust_set = resolve_trust_set snapshot.trust in
      let mutes = aggregate_mutes key snapshot viewer trust_set now profile.mute_window_seconds in
      let reports = aggregate_reports key snapshot viewer trust_set in
      let allowed =
        allowlist_step (is_protected_target target snapshot) snapshot profile (author_chain target)
          (after_admin decision) in
      let muted = trusted_mute_step profile mutes allowed in
      let reported = trusted_report_step profile reports muted in
      Raises-trans (after_admin decision).decision allowed.decision reported.decision
        (allowlist_step-Raises (is_protected_target target snapshot) snapshot profile
          (author_chain target) (after_admin decision))
        (Raises-trans allowed.decision muted.decision reported.decision
          (trusted_mute_step-Raises profile mutes allowed)
          (trusted_report_step-Raises profile reports muted))

  -- The steps before the viewer's override lower no dimension, and leave the decision overridable
  -- as it was.
  pub gather-Raises :
      (decision : GovernanceDecision)
      → Raises decision (gather target snapshot profile viewer now decision).decision
  gather-Raises decision =
      Raises-trans decision (after_admin decision).decision
        (gather target snapshot profile viewer now decision).decision (before_admin-Raises decision)
        (after_admin-Raises decision)

  pub gather-denied :
      (decision : GovernanceDecision) (d : Dimension)
      → is_protected_target target snapshot ≡ false
      → is_denied_target target snapshot ≡ true
      → denial_height profile d
        ≤ height d (gather target snapshot profile viewer now decision).decision
  gather-denied decision d exposed denied =
      ground (arith, at_admin, (after_admin-Raises decision).0 d)
    where
      at_admin : denial_height profile d ≤ height d (after_admin decision).decision
      at_admin =
          admin_step-denied (is_protected_target target snapshot) target (get_target_key target)
            snapshot profile (author_chain target) (after_mute decision) d exposed denied

  finish-plain :
      (allow_overrides : Option Bool) (key : Text) (p : Progress) (d : Dimension)
      → get viewer.overrides key ≡ none
      → profile.bypass_hide ≡ false
      → height d (finish profile allow_overrides viewer key p) ≡ height d p.decision
  unfolding finish override_step bypass_step final_step
  finish-plain allow_overrides key p ranking no_override no_bypass =
      rw (no_override, no_bypass) refl
  finish-plain allow_overrides key p visibility no_override no_bypass =
      rw (no_override, no_bypass) refl
  finish-plain allow_overrides key p interaction no_override no_bypass =
      rw (no_override, no_bypass) refl
  finish-plain allow_overrides key p transaction no_override no_bypass =
      rw (no_override, no_bypass) refl

-- A valid target that is denied, itself or by its author, and whose author chain is not protected,
-- is decided under a profile that is not disabled and does not bypass hiding, without an
-- override of the viewer, with at least the profile's denial effect in every dimension, whatever
-- the reports, the mutes and the allowlist say.
pub evaluate_target-denied :
    (fingerprint : Fingerprint) (target : GovernanceTarget) (snapshot : GovernanceSnapshot)
    (context : PolicyContext) (viewer : ViewerState) (profile : PolicyProfile)
    → is_valid_target target ≡ true
    → resolve_profile (get_or context.policy neutral_policy) context.policy_profile ≡ ok profile
    → profile.disabled ≡ false
    → profile.bypass_hide ≡ false
    → get viewer.overrides (get_target_key target) ≡ none
    → is_protected_target target snapshot ≡ false
    → is_denied_target target snapshot ≡ true
    → (decision : GovernanceDecision) × (evaluate_target fingerprint target snapshot context viewer
        ≡ ok decision)
      × ((d : Dimension) → denial_height profile d ≤ height d decision)
unfolding evaluate_target evaluate_with
evaluate_target-denied fingerprint target snapshot context viewer profile valid found enabled
      no_bypass no_override exposed denied =
    let policy = get_or context.policy neutral_policy in
    let now = get_or context.now 0 in
    let first =
      start target policy profile (fingerprint_for fingerprint snapshot context policy profile)
        now in
    let p = gather target snapshot profile viewer now first in
    (
      finish profile context.allow_overrides viewer (get_target_key target) p,
      rw (valid, found, enabled) refl,
      λ d. ground (
        arith,
        finish-plain target snapshot profile viewer now context.allow_overrides
            (get_target_key target) p d no_override no_bypass,
        gather-denied target snapshot profile viewer now first d exposed denied,
      ),
    )
