-- ===== src/Core/Evaluator/Target/Many.antt =====
-- evaluator.js: `evaluateMany` against `evaluateTarget`.
use bitgate.Base.{
  ◌≡◌, refl, ap, ◌∙◌, ◌==◌, true, false, not, ◌&&◌, ◌||◌, Option, none, some, List, [], ◌∷◌, arith,
  find, if◌then◌else◌, get_or, Bool-cases, inl, inr, Result, ok, err,
}
use bitgate.Base.Text.{Text, text_eq, text_beq_iff}
use bitgate.Base.Map.{Map, get, put, has_key, get-put}
use bitgate.Core.Identifiers.{GovernanceTarget, get_target_key}
use bitgate.Core.Targets.{is_valid_target}
use bitgate.Core.Policy.Decision.{GovernanceDecision}
use bitgate.Core.Policy.Profile.{PolicyProfile, resolve_profile}
use bitgate.Core.Evaluator.Snapshot.{ViewerState, GovernanceSnapshot, PolicyContext}
use bitgate.Core.Evaluator.Target.{
  neutral_policy, Fingerprint, fingerprint_for, start, evaluate_with, evaluate_target,
  evaluate_each, evaluate_many,
}

abbrev pub to_option {ℓ} : {A : Type ℓ} → Result A → Option A
to_option (ok a) = some a
to_option (err e) = none

-- The first valid target of a list with a key.
abbrev pub first_with_key : List GovernanceTarget → Text → Option GovernanceTarget
first_with_key targets key = find (λ t. is_valid_target t && get_target_key t == key) targets

module _ (fingerprint : Fingerprint) (snapshot : GovernanceSnapshot) (context : PolicyContext)
    (viewer : ViewerState) where
  abbrev pub decision_on : Option GovernanceTarget → Option GovernanceDecision
  decision_on none = none
  decision_on (some target) = to_option (evaluate_target fingerprint target snapshot context viewer)

  -- Every valid target is decided.
  abbrev Decides : Type 0
  Decides =
      (t : GovernanceTarget)
      → is_valid_target t ≡ true
      → (d : GovernanceDecision) × (evaluate_target fingerprint t snapshot context viewer ≡ ok d)

  abbrev Continues : Map Text GovernanceDecision → List GovernanceTarget → Type 0
  Continues results targets =
      (m : Map Text GovernanceDecision) × (evaluate_each fingerprint snapshot context viewer results
          targets
        ≡ ok m)
      × ((key : Text)
          → get m key ≡ (
              if has_key results key
              then get results key
              else decision_on (first_with_key targets key)))

  pub evaluate_each_lem :
      Decides
      → (results : Map Text GovernanceDecision) (targets : List GovernanceTarget)
      → Continues results targets
  unfolding evaluate_each
  evaluate_each_lem decides results [] = (results, refl, λ key. ground arith)
  evaluate_each_lem decides results (t ∷ targets) =
      elim (Bool-cases (not (is_valid_target t) || has_key results (get_target_key t))) [
        | inl skip ↦
            let (m, e, h) = evaluate_each_lem decides results targets in
            (
              m,
              rw (skip, evaluate_each) e,
              λ key. ground (
                arith,
                h key,
                text_beq_iff (get_target_key t) key,
                ap (has_key results) {x = get_target_key t} {y = key},
              ),
            )
        | inr new ↦
            let (d, decided) = decides t (valid new) in
            let (m, e, h) = evaluate_each_lem decides (put results (get_target_key t) d) targets in
            (
              m,
              rw (new, decided, evaluate_each) e,
              λ key. ground (
                arith,
                h key,
                valid new,
                decided,
                text_beq_iff (get_target_key t) key,
                get-put results (get_target_key t) key d,
                ap (has_key results) {x = get_target_key t} {y = key},
              ),
            )
      ]
    where
      valid :
          (not (is_valid_target t) || has_key results (get_target_key t)) ≡ false
          → is_valid_target t ≡ true
      valid new = ground arith

-- The context of `evaluateMany`: with the fingerprint computed once.
abbrev shared : Fingerprint → GovernanceSnapshot → PolicyContext → PolicyProfile → PolicyContext
shared fingerprint snapshot context profile = record context {
  snapshot_fingerprint =
      some (
        fingerprint_for fingerprint snapshot context (get_or context.policy neutral_policy)
          profile);
}

module _ (fingerprint : Fingerprint) (snapshot : GovernanceSnapshot) (context : PolicyContext)
    (viewer : ViewerState) (profile : PolicyProfile)
    (found : resolve_profile (get_or context.policy neutral_policy) context.policy_profile
      ≡ ok profile) where
  shared_same :
      (t : GovernanceTarget)
      → evaluate_target fingerprint t snapshot (shared fingerprint snapshot context profile) viewer
        ≡ evaluate_target fingerprint t snapshot context viewer
  unfolding evaluate_target evaluate_with
  shared_same t = rw found refl

  shared_decides : Decides fingerprint snapshot (shared fingerprint snapshot context profile) viewer
  unfolding evaluate_target
  shared_decides t valid =
      let policy = get_or context.policy neutral_policy in
      let same = shared fingerprint snapshot context profile in
      let first =
        start t policy profile (fingerprint_for fingerprint snapshot same policy profile)
          (get_or context.now 0) in
      (evaluate_with t snapshot same profile viewer first, rw (valid, found) refl)

  -- Where the profile resolves, evaluating many targets gives a map that holds, for each key,
  -- the decision that evaluating the first valid target with this key on its own gives, and
  -- nothing for a key that no valid target has.
  pub evaluate_many_lem :
      (targets : List GovernanceTarget)
      → (m : Map Text GovernanceDecision) × (evaluate_many fingerprint targets snapshot context
            viewer
          ≡ ok m)
        × ((key : Text)
            → get m key
              ≡ decision_on fingerprint snapshot context viewer (first_with_key targets key))
  unfolding evaluate_many
  evaluate_many_lem targets =
      let (m, e, h) =
        evaluate_each_lem fingerprint snapshot (shared fingerprint snapshot context profile) viewer
          shared_decides [] targets in
      (m, rw found e, λ key. h key ∙ at_start key ∙ alone (first_with_key targets key))
    where
      alone :
          (t : Option GovernanceTarget)
          → decision_on fingerprint snapshot (shared fingerprint snapshot context profile) viewer t
            ≡ decision_on fingerprint snapshot context viewer t
      alone none = refl
      alone (some t) = ap to_option (shared_same t)

      at_start :
          (key : Text)
          → (if has_key {V = GovernanceDecision} [] key
              then get [] key
              else decision_on fingerprint snapshot
                  (shared fingerprint snapshot context profile)
                  viewer
                  (first_with_key targets key))
            ≡ decision_on fingerprint snapshot
                (shared fingerprint snapshot context profile)
                viewer
                (first_with_key targets key)
      at_start key = unfold get in refl
