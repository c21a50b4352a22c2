-- ===== src/Core/Evaluator/Steps.antt =====
-- evaluator.js: the steps of `evaluateTarget`, each on the decision and the evidence so far: the
-- viewer's block and mute, the denials and the allowlist.
pub mod Trust
pub mod Finish
pub mod Laws
pub mod Quiet
use bitgate.Base.{
  ℕ, ◌≡◌, ◌==◌, Bool, true, false, not, ◌&&◌, ◌||◌, Option, none, some, List, [], ◌∷◌, ◌++◌,
  is_empty, is_some, length, any, find, ltb, leb, if◌then◌else◌, get_or,
}
use bitgate.Base.Text.{Text, text_eq, codes}
use bitgate.Base.Set.{has}
use bitgate.Base.Map.{Map, get, has_key}
use bitgate.Core.Identifiers.{GovernanceTarget, user, event, address, user_key}
use bitgate.Core.Reasons.{
  ReasonId, Reason, create_reason, plain_reason, dedupe_reasons, viewer_block, viewer_mute,
  viewer_override, admin_user_deny, admin_event_deny, admin_address_deny, community_user_deny,
  trusted_report, trusted_report_threshold, trusted_mute, trusted_mute_threshold, allowlist_miss,
  protected_target, surface_policy_bypass,
}
use bitgate.Core.Evidence.{
  EvidenceThresholds, no_thresholds, Evidence, freeze_evidence, redact_evidence,
}
use bitgate.Core.Authority.{is_protected_actor}
use bitgate.Core.AdminState.{is_denied}
use bitgate.Core.Policy.Effects.{
  visibility, Effect, effect_severity, hide, restrict, deny, require_explicit_action,
}
use bitgate.Core.Policy.Gates.{
  Gate, gate_eq, CategoryThresholds, DimensionEffects, no_effects, apply_thresholds,
}
use bitgate.Core.Policy.Decision.{GovernanceDecision, apply_effects}
use bitgate.Core.Policy.Profile.{PolicyProfile, resolve_thresholds}
use bitgate.Core.Evaluator.Snapshot.{ViewerState, GovernanceSnapshot, Override}
use bitgate.Core.Evaluator.Signals.{Aggregate}

unfoldable pub author_chain : GovernanceTarget → List Text
author_chain (user pubkey) = pubkey ∷ []
author_chain (address kind pubkey identifier) = pubkey ∷ []
author_chain (event id none kind) = []
author_chain (event id (some author) kind) = if is_empty author then [] else author ∷ []

pub record Progress : Type 0 where
  pub decision : GovernanceDecision
  pub evidence : Evidence

-- `decision.reasons = dedupeReasons([...decision.reasons, reason])`
abbrev pub add_reason : GovernanceDecision → Reason → GovernanceDecision
add_reason decision reason = record decision {
  reasons = dedupe_reasons (decision.reasons ++ reason ∷ []);
}

abbrev pub hide_and_deny : DimensionEffects
hide_and_deny = record {
  ranking = none;
  visibility = some hide;
  interaction = some deny;
  transaction = none;
}

-- Step 3: the viewer's own block, then the viewer's own mute.
unfoldable pub block_step : PolicyProfile → ViewerState → List Text → Progress → Progress
block_step profile viewer authors p =
    if is_empty (get_or (find (λ pubkey. has viewer.blocks pubkey) authors) []) then p else record {
      decision =
          apply_effects p.decision (get_or profile.viewer_block hide_and_deny)
            (plain_reason viewer_block ∷ []);
      evidence = record p.evidence { personal_block = true };
    }

unfoldable pub mute_step : ViewerState → List Text → Progress → Progress
mute_step viewer authors p =
    if any (λ pubkey. has viewer.mutes pubkey) authors
    then record {
      decision = add_reason p.decision (plain_reason viewer_mute);
      evidence = record p.evidence { personal_mute = true };
    }
    else p

abbrev is_user : GovernanceTarget → Bool
is_user (user _) = true
is_user _ = false

abbrev is_event : GovernanceTarget → Bool
is_event (event _ _ _) = true
is_event _ = false

abbrev is_address : GovernanceTarget → Bool
is_address (address _ _ _) = true
is_address _ = false

unfoldable pub author_denied : GovernanceTarget → GovernanceSnapshot → List Text → Bool
author_denied target snapshot authors =
    not (is_user target) && any (λ pubkey. has snapshot.admin.user_deny (user_key pubkey)) authors

-- The reason for a denial of the target itself or of its author.
abbrev denial_reason : GovernanceTarget → Bool → ReasonId
denial_reason target target_denied =
    if is_event target && target_denied
    then admin_event_deny
    else if is_address target && target_denied
    then admin_address_deny
    else admin_user_deny

abbrev community_reason : List Text → List Reason
community_reason [] = []
community_reason (source ∷ sources) =
    create_reason community_user_deny none none none (some source) ∷ []

-- Steps 4 to 6 for a target that is not protected.
unfoldable pub denial_step :
    GovernanceTarget → Text → GovernanceSnapshot → PolicyProfile → List Text → Progress → Progress
unfolding author_denied
denial_step target key snapshot profile authors p =
    let target_denied = is_denied target snapshot.admin in
    let by_author = author_denied target snapshot authors in
    let evidence = record p.evidence {
      user_denied = by_author || ((is_user target && target_denied) || p.evidence.user_denied);
      event_denied = (is_event target && target_denied) || p.evidence.event_denied;
      address_denied = (is_address target && target_denied) || p.evidence.address_denied;
    } in
    if target_denied || by_author
    then record {
      decision = apply_effects p.decision (get_or profile.administrative_deny hide_and_deny) (
          plain_reason (denial_reason target target_denied)
          ∷ community_reason (get_or (get snapshot.admin.community_sources key) []));
      evidence = evidence;
    }
    else record { decision = p.decision; evidence = evidence }

-- For a protected target a denial is only noted.
unfoldable pub protected_step : GovernanceTarget → GovernanceSnapshot → Progress → Progress
protected_step target snapshot p =
    if is_denied target snapshot.admin
    then record {
      decision = add_reason p.decision (plain_reason protected_target);
      evidence = p.evidence;
    }
    else p

unfoldable pub admin_step :
    Bool
    → GovernanceTarget
    → Text
    → GovernanceSnapshot
    → PolicyProfile
    → List Text
    → Progress
    → Progress
unfolding denial_step protected_step
admin_step is_protected target key snapshot profile authors p =
    if is_protected
    then protected_step target snapshot p
    else denial_step target key snapshot profile authors p

-- Step 7: the allowlist, where the profile asks for it.
unfoldable pub allowlist_step :
    Bool → GovernanceSnapshot → PolicyProfile → List Text → Progress → Progress
allowlist_step is_protected snapshot profile authors p =
    let allowed = any (λ pubkey. has snapshot.admin.user_allow (user_key pubkey)) authors in
    let evidence = record p.evidence { user_allowed = allowed } in
    if profile.require_allowlist && (not is_protected && not allowed)
    then record {
      decision =
          apply_effects p.decision (get_or profile.allowlist_miss hide_and_deny)
            (plain_reason allowlist_miss ∷ []);
      evidence = evidence;
    }
    else record { decision = p.decision; evidence = evidence }
