-- ===== src/Nostr/Labels/Targets.antt =====
-- packages/nostr/src/labels.js: the targets that the tags of a label name.
use bitgate.Base.{◌≡◌, ◌==◌, refl, false, List, [], ◌∷◌, ◌++◌, All, filter, map, append-nil}
use bitgate.Base.Text.{Text, codes, text_eq, text_beq}
use bitgate.Core.Identifiers.{GovernanceTarget, user, event, address}
use bitgate.Core.AdminState.{
  ContributionKind, user_allow, user_deny, event_deny, address_deny, trust_seed, unknown, inherited,
}
use bitgate.Nostr.Replaceable.{has_label}
use bitgate.Nostr.Canonical.{user_targets, event_targets, address_targets, target_tag}
use bitgate.Nostr.Canonical.Contributions.{
  IsUser, IsEvent, IsAddress, IsTargetOf, user_targets-encode, event_targets-encode,
  address_targets-encode,
}
use bitgate.Nostr.Labels.Forms.{IsPublished}

-- No target has a tag of this label.
abbrev pub IsOther : Text → Type 0
IsOther label =
    ((codes "p" == label) ≡ false) × ((codes "e" == label) ≡ false) × ((codes "a" == label) ≡ false)

pub no_tags :
    (label : Text) (targets : List GovernanceTarget)
    → IsOther label
    → filter (has_label label) (map target_tag targets) ≡ []
no_tags label [] h = refl
no_tags label (user pubkey ∷ targets) (p, e, a) = rw p (no_tags label targets (p, e, a))
no_tags label (event id author k ∷ targets) (p, e, a) = rw e (no_tags label targets (p, e, a))
no_tags label (address k q i ∷ targets) (p, e, a) = rw a (no_tags label targets (p, e, a))

-- The target tags of one label, read by the three loops.
abbrev pub read_targets : List GovernanceTarget → List GovernanceTarget
read_targets targets =
    user_targets (filter (has_label (codes "p")) (map target_tag targets))
    ++ (event_targets (filter (has_label (codes "e")) (map target_tag targets))
        ++ address_targets (filter (has_label (codes "a")) (map target_tag targets)))

users_alone :
    (targets : List GovernanceTarget)
    → All IsUser targets
    → (filter (has_label (codes "e")) (map target_tag targets) ≡ [])
      × (filter (has_label (codes "a")) (map target_tag targets) ≡ [])
unfolding text_beq
users_alone [] h = (refl, refl)
users_alone (user pubkey ∷ targets) (k, h) = users_alone targets h
users_alone (event id author k ∷ targets) (f, h) = absurd f
users_alone (address k p i ∷ targets) (f, h) = absurd f

events_alone :
    (targets : List GovernanceTarget)
    → All IsEvent targets
    → (filter (has_label (codes "p")) (map target_tag targets) ≡ [])
      × (filter (has_label (codes "a")) (map target_tag targets) ≡ [])
unfolding text_beq
events_alone [] h = (refl, refl)
events_alone (user pubkey ∷ targets) (f, h) = absurd f
events_alone (event id author k ∷ targets) (e, h) = events_alone targets h
events_alone (address k p i ∷ targets) (f, h) = absurd f

addresses_alone :
    (targets : List GovernanceTarget)
    → All IsAddress targets
    → (filter (has_label (codes "p")) (map target_tag targets) ≡ [])
      × (filter (has_label (codes "e")) (map target_tag targets) ≡ [])
unfolding text_beq
addresses_alone [] h = (refl, refl)
addresses_alone (user pubkey ∷ targets) (f, h) = absurd f
addresses_alone (event id author k ∷ targets) (f, h) = absurd f
addresses_alone (address k p i ∷ targets) (a, h) = addresses_alone targets h

read_users : (targets : List GovernanceTarget) → All IsUser targets → read_targets targets ≡ targets
unfolding user_targets event_targets address_targets
read_users targets h =
    let (e, a) = users_alone targets h in
    rw (user_targets-encode targets h, e, a) (append-nil targets)

pub read_published :
    (kind : ContributionKind) (targets : List GovernanceTarget)
    → IsPublished kind
    → All (IsTargetOf kind) targets
    → read_targets targets ≡ targets
unfolding user_targets event_targets address_targets
read_published user_allow targets p h = read_users targets h
read_published user_deny targets p h = read_users targets h
read_published event_deny targets p h =
    let (u, a) = events_alone targets h in
    rw (u, event_targets-encode targets h, a) (append-nil targets)
read_published address_deny targets p h =
    let (u, e) = addresses_alone targets h in rw (u, e, address_targets-encode targets h) refl
read_published trust_seed targets p h = absurd p
read_published (unknown name) targets p h = absurd p
read_published (inherited member) targets p h = absurd p
