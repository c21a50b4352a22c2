-- ===== src/Runtime/Decisions/Viewer.antt =====
-- packages/runtime/src/runtime.js: `setViewer`.
use bitgate.Base.{◌≡◌, ◌==◌, ◌∙◌, refl, ap, false, Option, none, some, List, [], ◌∷◌}
use bitgate.Base.Text.{Text, text_eq}
use bitgate.Core.Identifiers.{normalize_pubkey}
use bitgate.Runtime.Stores.Trust.{clear_viewer_state, emit_if_changed}
use bitgate.Runtime.Stores.Overrides.{OverrideStore, clear_overrides}
use bitgate.Runtime.Decisions.{
  Runtime, invalidate_decisions, kept_decisions, drop_targets, named_target, on_any_change,
  on_override_changes, set_viewer,
}

-- No decision, and the stores and the viewer of another runtime.
abbrev IsCleared : Runtime → Runtime → Type 0
IsCleared after before =
    (after.decision_cache ≡ [])
    × (after.viewer_pubkey ≡ before.viewer_pubkey)
    × (after.trust ≡ before.trust)
    × (after.overrides ≡ before.overrides)
    × (after.reports ≡ before.reports)

on_any_change-kept {ℓ} :
    {D : Type ℓ} (runtime : Runtime) (changes : List D)
    → runtime.decision_cache ≡ []
    → IsCleared (on_any_change runtime changes) runtime
unfolding on_any_change invalidate_decisions kept_decisions
on_any_change-kept runtime [] h = (h, refl, refl, refl, refl)
on_any_change-kept runtime (change ∷ changes) h =
    on_any_change-kept (invalidate_decisions runtime none) changes refl

invalidate-nil :
    (runtime : Runtime) (target_keys : Option (List Text))
    → runtime.decision_cache ≡ []
    → (invalidate_decisions runtime target_keys).decision_cache ≡ []
unfolding invalidate_decisions kept_decisions drop_targets
invalidate-nil runtime none h = refl
invalidate-nil runtime (some target_keys) h = rw h refl

on_override_changes-kept :
    (runtime : Runtime) (changes : List (Option Text))
    → runtime.decision_cache ≡ []
    → IsCleared (on_override_changes runtime changes) runtime
unfolding on_override_changes invalidate_decisions
on_override_changes-kept runtime [] h = (h, refl, refl, refl, refl)
on_override_changes-kept runtime (none ∷ changes) h =
    on_override_changes-kept (invalidate_decisions runtime none) changes
      (invalidate-nil runtime none h)
on_override_changes-kept runtime (some key ∷ changes) h =
    on_override_changes-kept (invalidate_decisions runtime (named_target key)) changes
      (invalidate-nil runtime (named_target key) h)

clear_overrides-nil : (store : OverrideStore) → (clear_overrides store).store ≡ []
unfolding clear_overrides
clear_overrides-nil [] = refl
clear_overrides-nil (override ∷ store) = refl

-- No cached decision and nothing of the viewer before; the seeds and the reports of a runtime.
abbrev pub StartsAnew : Runtime → Runtime → Type 0
StartsAnew after before =
    (after.decision_cache ≡ [])
    × (after.trust.contacts ≡ [])
    × (after.trust.blocks ≡ [])
    × (after.trust.mutes ≡ [])
    × (after.overrides ≡ [])
    × (after.trust.seeds ≡ before.trust.seeds)
    × (after.reports ≡ before.reports)

-- A viewer other than the one before starts without cached decisions, contacts, blocks, mutes and
-- overrides; the seeds and the reports stay.
pub set_viewer_lem :
    (runtime : Runtime) (pubkey : Text)
    → (normalize_pubkey pubkey == runtime.viewer_pubkey) ≡ false
    → ((set_viewer runtime pubkey).viewer_pubkey ≡ normalize_pubkey pubkey)
      × StartsAnew (set_viewer runtime pubkey) runtime
unfolding set_viewer clear_viewer_state emit_if_changed
set_viewer_lem runtime pubkey h =
    let trust = clear_viewer_state runtime.trust in
    let overrides = clear_overrides runtime.overrides in
    let cleared : Runtime = record runtime {
      viewer_pubkey = normalize_pubkey pubkey;
      decision_cache = [];
      trust = trust.store;
    } in
    let trusting = on_any_change cleared trust.changes in
    let (c, v, t, o, r) = on_any_change-kept cleared trust.changes refl in
    let (c', v', t', o', r') =
      on_override_changes-kept (record trusting { overrides = overrides.store }) overrides.changes
        c in
    rw h (
      v' ∙ v,
      (
        c',
        ap (λ s. s.contacts) (t' ∙ t),
        ap (λ s. s.blocks) (t' ∙ t),
        ap (λ s. s.mutes) (t' ∙ t),
        o' ∙ clear_overrides-nil runtime.overrides,
        ap (λ s. s.seeds) (t' ∙ t),
        r' ∙ r,
      ),
    )
