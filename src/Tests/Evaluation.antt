-- ===== src/Tests/Evaluation.antt =====
-- Evaluations at concrete inputs.
use bitgate.Base.{
  ℕ, ◌≤◌, ◌≡◌, ◌⊎◌, refl, ◌==◌, Bool, true, false, not, ◌&&◌, ◌||◌, Option, none, some, List, [],
  ◌∷◌, ◌++◌, arith, ok, err, Result, get_or, length, filter,
}
use bitgate.Base.Text.{Text, text_eq, codes}
use bitgate.Base.Set.{has, of_list}
use bitgate.Base.Map.{Map, get}
use bitgate.Core.Identifiers.{GovernanceTarget, user, event, user_key, get_target_key}
use bitgate.Core.Targets.{is_valid_target}
use bitgate.Core.Policy.Effects.{Dimension, warn, hide}
use bitgate.Core.Policy.Decision.{GovernanceDecision, create_neutral_decision}
use bitgate.Core.Policy.Profile.{resolve_profile}
use bitgate.Core.Evaluator.Snapshot.{Override}
use bitgate.Core.Evaluator.Signals.{aggregate_reports, aggregate_mutes}
use bitgate.Core.Evaluator.Signals.Counts.{aggregate_reports-count}
use bitgate.Core.Evaluator.Steps.Finish.{override_step}
use bitgate.Core.Evaluator.Steps.Laws.{height, Raises}
use bitgate.Core.Evaluator.Target.{
  neutral_profile, Fingerprint, evaluate_target, evaluate_many, gather,
}
use bitgate.Core.Evaluator.Target.Denial.{denial_height, gather-Raises, evaluate_target-denied}
use bitgate.Core.Evaluator.Target.Overrides.{MayOverride, Softens, override_step-Softens}
use bitgate.Core.Evaluator.Target.Many.{decision_on, first_with_key, evaluate_many_lem}
use bitgate.Tests.Data.{bob, moderator_key, post, snapshot, context, viewer}

-- A fingerprint for the tests: the policy's identifier and the profile's name.
abbrev print : Fingerprint
print = λ snapshot policy profile. policy.id ++ profile.name

-- Two reporters count, one of them once for two reports.
aggregate_reports-count_example :
    get_or
      (get
        (aggregate_reports
          (get_target_key post)
          snapshot
          viewer
          (bob ∷ moderator_key ∷ [])).by_category
        (codes "spam"))
      0
    ≡ 2
unfolding of_list get get_target_key bitgate.Base.Set.add_all bitgate.Base.Text.text_beq
    bitgate.Core.Evaluator.Signals.is_countable_signal has bitgate.Base.Text.to_lower_case
    bitgate.Base.Text.trim bitgate.Base.Set.add
aggregate_reports-count_example =
    aggregate_reports-count (get_target_key post) snapshot viewer (bob ∷ moderator_key ∷ [])
      (codes "spam") λ e. cc

abbrev softer : Override
softer = record { visibility = warn; reason = none }

abbrev hidden : GovernanceDecision
hidden = record (create_neutral_decision (codes "a") none false) { visibility = hide }

override_step-Softens_example :
    (override_step neutral_profile none (some softer) hidden ≡ hidden)
    ⊎ (MayOverride neutral_profile none hidden
        × Softens hidden (override_step neutral_profile none (some softer) hidden))
override_step-Softens_example = override_step-Softens neutral_profile none (some softer) hidden

gather-Raises_example :
    Raises hidden (gather post snapshot neutral_profile viewer 1000 hidden).decision
gather-Raises_example = gather-Raises post snapshot neutral_profile viewer 1000 hidden

-- The author of the post is denied.
evaluate_target-denied_example :
    (decision : GovernanceDecision) × (evaluate_target print post snapshot context viewer
      ≡ ok decision)
    × ((d : Dimension) → denial_height neutral_profile d ≤ height d decision)
unfolding is_valid_target resolve_profile get bitgate.Base.Text.is_hex64 bitgate.Base.Text.trim
    bitgate.Base.Text.text_beq bitgate.Core.Evaluator.Steps.author_chain
    bitgate.Core.Authority.is_protected_actor bitgate.Core.Identifiers.normalize_pubkey
    bitgate.Base.Text.to_lower_case has bitgate.Core.AdminState.is_denied
    bitgate.Core.Evaluator.Steps.author_denied
evaluate_target-denied_example =
    evaluate_target-denied print post snapshot context viewer neutral_profile refl refl refl refl
      refl refl refl

-- The last target is not valid.
evaluate_many_lem_example :
    (m : Map Text GovernanceDecision) × (evaluate_many print
        (post ∷ user bob ∷ user bob ∷ user [] ∷ [])
        snapshot
        context
        viewer
      ≡ ok m)
    × ((key : Text)
        → get m key
          ≡ decision_on print snapshot context viewer
              (first_with_key (post ∷ user bob ∷ user bob ∷ user [] ∷ []) key))
unfolding resolve_profile get bitgate.Base.Text.trim bitgate.Base.Text.text_beq
evaluate_many_lem_example =
    evaluate_many_lem print snapshot context viewer neutral_profile refl
      (post ∷ user bob ∷ user bob ∷ user [] ∷ [])
