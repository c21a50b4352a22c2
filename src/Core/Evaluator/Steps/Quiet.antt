-- ===== src/Core/Evaluator/Steps/Quiet.antt =====
-- evaluator.js: reports and mutes under a profile without thresholds.
use bitgate.Base.{ℕ, ◌≡◌, refl, ap, ◌∙◌, Option, some, [], ◌∷◌, arith, leb, Bool-cases, inl, inr}
use bitgate.Base.Text.{Text, text_eq}
use bitgate.Base.Map.{Map, get}
use bitgate.Core.Reasons.{trusted_report_threshold}
use bitgate.Core.Policy.Gates.{gate_eq, no_effects, apply_thresholds}
use bitgate.Core.Policy.Decision.{GovernanceDecision}
use bitgate.Core.Policy.Decision.Compose.{dimensions_of}
use bitgate.Core.Policy.Profile.{PolicyProfile, resolve_thresholds}
use bitgate.Core.Evaluator.Signals.{Aggregate}
use bitgate.Core.Evaluator.Steps.{Progress}
use bitgate.Core.Evaluator.Steps.Trust.{category_step, report_categories, trusted_report_step}

nothing_fires : (count : ℕ) → apply_thresholds count [] ≡ (no_effects, [])
unfolding apply_thresholds get
nothing_fires count = elim (Bool-cases (leb count 0)) [ inl e ↦ rw e refl | inr e ↦ rw e refl ]

no_thresholds_left : (category : Option Text) → resolve_thresholds [] category ≡ []
unfolding resolve_thresholds get
no_thresholds_left category = ground arith

report_categories-quiet :
    (profile : PolicyProfile) (counts : Map Text ℕ) (decision : GovernanceDecision)
    → profile.reports ≡ []
    → report_categories profile counts decision ≡ decision
unfolding report_categories
report_categories-quiet profile [] decision h = refl
report_categories-quiet profile ((category, count) ∷ rest) decision h =
    ap (report_categories profile rest) step ∙ report_categories-quiet profile rest decision h
  where
    step :
        category_step trusted_report_threshold category count
          (resolve_thresholds profile.reports (some category))
          decision
        ≡ decision
    step =
        unfold category_step in rw (h, no_thresholds_left (some category), nothing_fires count) refl

-- Where a profile has no thresholds for reports, reports change no dimension of a decision, however
-- many there are.
pub trusted_report_step_quiet :
    (profile : PolicyProfile) (reports : Aggregate) (p : Progress)
    → profile.reports ≡ []
    → dimensions_of (trusted_report_step profile reports p).decision ≡ dimensions_of p.decision
unfolding trusted_report_step
trusted_report_step_quiet profile reports p h = elim (Bool-cases (leb reports.total 0)) [
  | inl e ↦ rw e refl
  | inr e ↦ rw e (ap dimensions_of (report_categories-quiet profile reports.by_category _ h))
]
