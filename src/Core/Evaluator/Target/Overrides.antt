-- ===== src/Core/Evaluator/Target/Overrides.antt =====
-- evaluator.js: what a viewer's override can and cannot change.
use bitgate.Base.{
  ◌<◌, ◌≡◌, ◌⊎◌, refl, ◌∙◌, Bool, true, ◌&&◌, Option, none, some, arith, get_or, Bool-cases, inl,
  inr, ok,
}
use bitgate.Base.Text.{Text, text_eq}
use bitgate.Base.Map.{get}
use bitgate.Core.Identifiers.{GovernanceTarget, get_target_key}
use bitgate.Core.Targets.{is_valid_target}
use bitgate.Core.Policy.Effects.{visibility, effect_severity, require_explicit_action}
use bitgate.Core.Policy.Decision.{GovernanceDecision}
use bitgate.Core.Policy.Profile.{PolicyProfile, resolve_profile}
use bitgate.Core.Evaluator.Snapshot.{ViewerState, GovernanceSnapshot, PolicyContext, Override}
use bitgate.Core.Evaluator.Steps.{Progress}
use bitgate.Core.Evaluator.Steps.Finish.{
  override_allowed, is_softening, reaches_hide, override_step, bypass_step, final_step,
}
use bitgate.Core.Evaluator.Steps.Laws.{place}
use bitgate.Core.Evaluator.Target.{
  neutral_policy, Fingerprint, fingerprint_for, start, gather, finish, evaluate_with,
  evaluate_target,
}
use bitgate.Core.Evaluator.Target.Denial.{gather-Raises}

-- An override that is taken: strictly softer, asking for an explicit action, and otherwise the
-- decision as it was.
abbrev pub Softens : GovernanceDecision → GovernanceDecision → Type 0
Softens before after =
    (place visibility after.visibility < place visibility before.visibility)
    × (after.interaction ≡ require_explicit_action)
    × (after.ranking ≡ before.ranking)
    × (after.weight ≡ before.weight)
    × (after.transaction ≡ before.transaction)
    × (after.overridable ≡ before.overridable)

abbrev pub MayOverride : PolicyProfile → Option Bool → GovernanceDecision → Type 0
MayOverride profile allow_overrides decision =
    (get_or allow_overrides true ≡ true)
    × (profile.allow_viewer_override ≡ true)
    × (decision.overridable ≡ true)

abbrev may_soften : PolicyProfile → Option Bool → Override → GovernanceDecision → Bool
may_soften profile allow_overrides override decision =
    override_allowed profile allow_overrides
    && (decision.overridable
        && is_softening (effect_severity visibility override.visibility)
            (effect_severity visibility decision.visibility))

may_soften_lem :
    (profile : PolicyProfile) (allow_overrides : Option Bool) (override : Override)
    (decision : GovernanceDecision)
    → may_soften profile allow_overrides override decision ≡ true
    → MayOverride profile allow_overrides decision
      × (place visibility override.visibility < place visibility decision.visibility)
may_soften_lem profile allow_overrides override decision h = ground arith

-- A viewer's override either leaves the decision as it is, or overrides are allowed by the
-- context, the profile and the decision, and the visibility becomes strictly softer while ranking,
-- weight and transaction stay.
pub override_step-Softens :
    (profile : PolicyProfile) (allow_overrides : Option Bool) (override : Option Override)
    (decision : GovernanceDecision)
    → (override_step profile allow_overrides override decision ≡ decision)
      ⊎ (MayOverride profile allow_overrides decision
          × Softens decision (override_step profile allow_overrides override decision))
unfolding override_step
override_step-Softens profile allow_overrides none decision = inl refl
override_step-Softens profile allow_overrides (some override) decision =
    elim (Bool-cases (may_soften profile allow_overrides override decision)) [
      | inr e ↦ inl (rw e refl)
      | inl e ↦
          let allowed = may_soften_lem profile allow_overrides override decision e in
          inr (allowed.0, rw e (allowed.1, refl, refl, refl, refl, refl))
    ]

abbrev Untouched : GovernanceDecision → GovernanceDecision → Type 0
Untouched before after =
    (after.ranking ≡ before.ranking)
    × (after.weight ≡ before.weight)
    × (after.transaction ≡ before.transaction)
    × (after.overridable ≡ before.overridable)

override_step-Untouched :
    (profile : PolicyProfile) (allow_overrides : Option Bool) (override : Option Override)
    (decision : GovernanceDecision)
    → Untouched decision (override_step profile allow_overrides override decision)
override_step-Untouched profile allow_overrides override decision =
    elim (override_step-Softens profile allow_overrides override decision) [
      | inl e ↦ rw e (refl, refl, refl, refl)
      | inr (_, (_, _, a, b, c, d)) ↦ (a, b, c, d)
    ]

bypass_step-Untouched :
    (profile : PolicyProfile) (decision : GovernanceDecision)
    → Untouched decision (bypass_step profile decision)
unfolding bypass_step
bypass_step-Untouched profile decision =
    elim (Bool-cases (profile.bypass_hide && reaches_hide decision.visibility)) [
      | inl e ↦ rw e (refl, refl, refl, refl)
      | inr e ↦ rw e (refl, refl, refl, refl)
    ]

-- After the steps that gather the evidence, whatever the viewer's overrides and the surface's
-- bypass are, the ranking, its weight, the transaction and the overridable flag of the decision
-- stay as they are.
pub finish-Untouched :
    (profile : PolicyProfile) (allow_overrides : Option Bool) (viewer : ViewerState) (key : Text)
    (p : Progress)
    → Untouched p.decision (finish profile allow_overrides viewer key p)
unfolding finish final_step
finish-Untouched profile allow_overrides viewer key p =
    let override = get viewer.overrides key in
    let overridden = override_step profile allow_overrides override p.decision in
    let (a, b, c, d) = override_step-Untouched profile allow_overrides override p.decision in
    let (e, f, g, h) = bypass_step-Untouched profile overridden in (e ∙ a, f ∙ b, g ∙ c, h ∙ d)

-- A valid target whose profile resolves is always decided, and the decision is overridable: no
-- step of the evaluator makes a decision that an override cannot reach.
pub evaluate_target-overridable :
    (fingerprint : Fingerprint) (target : GovernanceTarget) (snapshot : GovernanceSnapshot)
    (context : PolicyContext) (viewer : ViewerState) (profile : PolicyProfile)
    → is_valid_target target ≡ true
    → resolve_profile (get_or context.policy neutral_policy) context.policy_profile ≡ ok profile
    → (decision : GovernanceDecision) × (evaluate_target fingerprint target snapshot context viewer
        ≡ ok decision)
      × (decision.overridable ≡ true)
unfolding evaluate_target
evaluate_target-overridable fingerprint target snapshot context viewer profile valid found =
    let policy = get_or context.policy neutral_policy in
    let now = get_or context.now 0 in
    let first =
      start target policy profile (fingerprint_for fingerprint snapshot context policy profile)
        now in
    (
      evaluate_with target snapshot context profile viewer first,
      rw (valid, found) refl,
      evaluate_with-overridable target snapshot context profile viewer first refl,
    )
  where
    evaluate_with-overridable :
        (target : GovernanceTarget) (snapshot : GovernanceSnapshot) (context : PolicyContext)
        (profile : PolicyProfile) (viewer : ViewerState) (first : GovernanceDecision)
        → first.overridable ≡ true
        → (evaluate_with target snapshot context profile viewer first).overridable ≡ true
    evaluate_with-overridable target snapshot context profile viewer first h =
        let p = gather target snapshot profile viewer (get_or context.now 0) first in
        let (a, b, c, d) =
          finish-Untouched profile context.allow_overrides viewer (get_target_key target) p in
        elim (Bool-cases profile.disabled) [
          | inl e ↦ unfold evaluate_with in rw e h
          | inr e ↦
              unfold evaluate_with in
              rw e (
                d
                ∙ (gather-Raises target snapshot profile viewer (get_or context.now 0) first).1
                ∙ h)
        ]
