-- ===== src/Nostr/Labels/Mapped.antt =====
-- packages/nostr/src/labels.js: a label that is read under a mapping.
use bitgate.Base.{
  ℕ, ◌≡◌, refl, sym, ap, ◌∙◌, Bool, true, false, some, List, [], ◌∷◌, All, map, append-nil, not,
  Bool-cases, inl, inr,
}
use bitgate.Base.Text.{Text, codes, text_eq, text_beq, text_beq_iff, to_lower_case, lower_unit}
use bitgate.Base.Set.{has, add, add_all, of_list}
use bitgate.Core.Identifiers.{GovernanceTarget, user, event, address}
use bitgate.Core.AdminState.{
  ContributionKind, user_allow, user_deny, event_deny, address_deny, trust_seed, unknown, inherited,
  Contribution,
}
use bitgate.Nostr.Canonical.Contributions.{IsTargetOf}
use bitgate.Nostr.Labels.{
  label_contribution_kind, label_contributions, map_labels, labels_to_contributions,
}
use bitgate.Nostr.Labels.Forms.{IsPublished, verb, published_mapping, single, label_of}

pub same_text : (s : Text) → text_beq s s ≡ true
same_text s = (text_beq_iff s s).1 refl

abbrev allows : ContributionKind → Bool
allows user_allow = true
allows _ = false

-- The kind whose verb a label has is the kind that each of its targets gets.
kind_published :
    (kind : ContributionKind) (target : GovernanceTarget)
    → IsPublished kind
    → IsTargetOf kind target
    → label_contribution_kind (allows kind) target ≡ some kind
kind_published user_allow (user pubkey) p h = refl
kind_published user_allow (event id author k) p h = absurd h
kind_published user_allow (address k q i) p h = absurd h
kind_published user_deny (user pubkey) p h = refl
kind_published user_deny (event id author k) p h = absurd h
kind_published user_deny (address k q i) p h = absurd h
kind_published event_deny (user pubkey) p h = absurd h
kind_published event_deny (event id author k) p h = refl
kind_published event_deny (address k q i) p h = absurd h
kind_published address_deny (user pubkey) p h = absurd h
kind_published address_deny (event id author k) p h = absurd h
kind_published address_deny (address k q i) p h = refl
kind_published trust_seed target p h = absurd p
kind_published (unknown name) target p h = absurd p
kind_published (inherited member) target p h = absurd p

label_contributions_published :
    (c : Contribution) (namespace content : Text) (created_at : ℕ) (targets : List GovernanceTarget)
    → IsPublished c.kind
    → All (IsTargetOf c.kind) targets
    → label_contributions namespace
        (label_of c namespace content created_at)
        (allows c.kind)
        targets
      ≡ map (single c namespace created_at) targets
unfolding label_contributions
label_contributions_published c namespace content created_at [] p h = refl
label_contributions_published c namespace content created_at (target ∷ targets) p (k, h) =
    rw
      (
        kind_published c.kind target p k,
        label_contributions_published c namespace content created_at targets p h,
      )
      refl

-- The verb of a kind is one of the values of the mapping.
verb-allows :
    (kind : ContributionKind)
    → (text_beq (to_lower_case (codes "allow")) (to_lower_case (verb kind)) ≡ allows kind)
      × (text_beq (to_lower_case (codes "deny")) (to_lower_case (verb kind)) ≡ not (allows kind))
unfolding text_beq to_lower_case lower_unit
verb-allows user_allow = (refl, refl)
verb-allows user_deny = (refl, refl)
verb-allows event_deny = (refl, refl)
verb-allows address_deny = (refl, refl)
verb-allows trust_seed = (refl, refl)
verb-allows (unknown name) = (refl, refl)
verb-allows (inherited member) = (refl, refl)

pub to_contributions_published :
    (c : Contribution) (namespace content : Text) (created_at : ℕ)
    → IsPublished c.kind
    → All (IsTargetOf c.kind) c.targets
    → labels_to_contributions
        (label_of c namespace content created_at ∷ [])
        (published_mapping namespace)
      ≡ map (single c namespace created_at) c.targets
unfolding labels_to_contributions map_labels of_list add_all add has
to_contributions_published c namespace content created_at p h =
    let (a, d) = verb-allows c.kind in
    let label = label_of c namespace content created_at in
    let at_flag : (b : Bool)
        → allows c.kind ≡ b
        → label_contributions namespace label b c.targets
          ≡ label_contributions namespace label (allows c.kind) c.targets =
      λ b e. ap (λ x. label_contributions namespace label x c.targets) (sym e) in
    let made = label_contributions_published c namespace content created_at c.targets p h in
    elim (Bool-cases (allows c.kind)) [
      | inl e ↦ rw (same_text namespace, a, d, e) (append-nil _ ∙ (at_flag true e ∙ made))
      | inr e ↦ rw (same_text namespace, a, d, e) (append-nil _ ∙ (at_flag false e ∙ made))
    ]
