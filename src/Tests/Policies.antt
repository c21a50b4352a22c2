-- ===== src/Tests/Policies.antt =====
-- Policies, gates and decisions at concrete inputs.
use mathlib.Core.List.{Permᴰ}
use bitgate.Base.{
  ℕ, ◌≤◌, ◌<◌, ◌≡◌, refl, ◌==◌, Bool, true, false, not, ◌&&◌, ◌||◌, Option, none, some, List, [],
  ◌∷◌, map, arith, ok, err, Result, OkAll,
}
use bitgate.Base.Text.{text_eq, codes}
use bitgate.Base.Set.{has, IsUnique}
use bitgate.Core.Reasons.{
  Reason, reason_key, reason_key_eq, create_reason, plain_reason, trusted_report, viewer_mute,
  dedupe_reasons,
}
use bitgate.Core.Reasons.Dedupe.{top_count, dedupe_reasons_lem}
use bitgate.Core.Evidence.{Evidence, create_empty_evidence, merge_evidence}
use bitgate.Core.Evidence.Laws.{IsUnion, merge_evidence-IsUnion}
use bitgate.Core.Policy.Effects.{
  Dimension, ranking, visibility, interaction, transaction, Effect, warn, hide, deny, restrict,
  max_effect, effect_severity,
}
use bitgate.Core.Policy.Gates.{
  Gate, gate_eq, CategoryThresholds, gates, effect_of, apply_thresholds, DimensionEffects,
}
use bitgate.Core.Policy.Gates.Fired.{apply_thresholds_lem}
use bitgate.Core.Policy.Decision.{GovernanceDecision, create_neutral_decision, compose_decisions}
use bitgate.Core.Policy.Decision.Compose.{dimensions_of, compose_decisions-perm}
use bitgate.Core.Policy.Profile.{
  RawProfile, RawPolicy, floor_to, not_finite, normalize_policy_definition,
}
use bitgate.Core.Policy.Profile.Accepted.{is_ok}
use bitgate.Core.Policy.Profile.Definition.{
  is_acceptable, IsPolicy, normalize_policy_definition_lem,
}

-- Warn from 2 on, hide from 5 on.
abbrev thresholds : CategoryThresholds
thresholds = (Gate.hide, 5) ∷ (Gate.warn, 2) ∷ []

apply_thresholds_lem_example :
    (effect_of (apply_thresholds 6 thresholds).0 visibility ≡ some hide)
    × ((apply_thresholds 6 thresholds).1 ≡ Gate.warn ∷ Gate.hide ∷ [])
unfolding bitgate.Core.Policy.Gates.fires bitgate.Base.Map.get
    bitgate.Core.Policy.Gates.Gate-discrete
apply_thresholds_lem_example = apply_thresholds_lem 6 thresholds visibility (omega arith)

abbrev neutral : GovernanceDecision
neutral = create_neutral_decision (codes "a") none false

abbrev hidden : GovernanceDecision
hidden = record (create_neutral_decision (codes "b") none false) { visibility = hide; weight = 1 }

compose_decisions-perm_example :
    dimensions_of (compose_decisions (neutral ∷ hidden ∷ []))
    ≡ dimensions_of (compose_decisions (hidden ∷ neutral ∷ []))
unfolding effect_severity bitgate.Core.Policy.Effects.index_of
    bitgate.Core.Policy.Effects.Effect-discrete
compose_decisions-perm_example =
    compose_decisions-perm (neutral ∷ hidden ∷ []) (hidden ∷ neutral ∷ []) (Permᴰ.swap refl refl) (
      record { ranking = refl; visibility = refl; interaction = refl; transaction = tt },
      (record { ranking = refl; visibility = refl; interaction = refl; transaction = tt }, tt),
    )

abbrev reports : List Reason
reports =
    create_reason trusted_report none (some 2) none none
    ∷ plain_reason viewer_mute
    ∷ create_reason trusted_report none (some 5) none none
    ∷ []

dedupe_reasons_lem_example :
    IsUnique (map reason_key (dedupe_reasons reports))
    × (has (map reason_key (dedupe_reasons reports)) (reason_key (plain_reason viewer_mute))
        ≡ has (map reason_key reports) (reason_key (plain_reason viewer_mute)))
    × (top_count (reason_key (plain_reason viewer_mute)) (dedupe_reasons reports)
        ≡ top_count (reason_key (plain_reason viewer_mute)) reports)
dedupe_reasons_lem_example = dedupe_reasons_lem reports (reason_key (plain_reason viewer_mute))

abbrev records : List Evidence
records =
    record create_empty_evidence {
      trusted_report_total = 2;
      trusted_reports_by_category = (codes "spam", 2) ∷ [];
    }
    ∷ record create_empty_evidence { trusted_report_total = 1; personal_mute = true }
    ∷ []

merge_evidence-IsUnion_example : IsUnion records (merge_evidence records)
merge_evidence-IsUnion_example = merge_evidence-IsUnion records

abbrev raw_profile : RawProfile
raw_profile = record {
  name = some (codes "feed");
  administrative_deny = none;
  viewer_block = none;
  allowlist_miss = none;
  require_allowlist = none;
  allow_viewer_override = none;
  expose_evidence = none;
  bypass_hide = some true;
  bypass_hide_ceiling = some warn;
  disabled = none;
  reports = (codes "Spam", some ((Gate.warn, floor_to 2) ∷ [])) ∷ [];
  mutes = [];
  mute_window_seconds = not_finite;
}

abbrev raw_policy : RawPolicy
raw_policy = record {
  id = some (codes "p");
  name = none;
  description = none;
  version = some (codes "1");
  profiles = (codes "feed", raw_profile) ∷ [];
  default_profile = none;
}

normalize_policy_definition_lem_example :
    (is_ok (normalize_policy_definition raw_policy) ≡ is_acceptable raw_policy)
    × OkAll (IsPolicy raw_policy) (normalize_policy_definition raw_policy)
normalize_policy_definition_lem_example = normalize_policy_definition_lem raw_policy
