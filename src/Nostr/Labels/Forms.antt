-- ===== src/Nostr/Labels/Forms.antt =====
-- packages/nostr/src/labels.js: the contributions that labels stand for.
use bitgate.Base.{ℕ, some, [], ◌∷◌}
use bitgate.Base.Text.{Text, codes, text_eq}
use bitgate.Core.Identifiers.{GovernanceTarget}
use bitgate.Core.AdminState.{ContributionKind, trust_seed, unknown, inherited, Contribution}
use bitgate.Nostr.Labels.{Label, LabelMapping, label_source, label_value}

-- The kinds that a label can stand for.
abbrev pub IsPublished : ContributionKind → Type 0
IsPublished trust_seed = ⊥
IsPublished (unknown name) = ⊥
IsPublished (inherited member) = ⊥
IsPublished _ = Unit

abbrev pub verb : ContributionKind → Text
verb kind = label_value kind (codes "deny") (codes "allow")

-- The default values of a publisher, in a namespace.
abbrev pub published_mapping : Text → LabelMapping
published_mapping namespace = record {
  namespace = some namespace;
  deny_values = some (codes "deny" ∷ []);
  allow_values = some (codes "allow" ∷ []);
}

-- A contribution that says of one target what the given one says of all of its targets.
abbrev pub single : Contribution → Text → ℕ → GovernanceTarget → Contribution
single c namespace created_at target = record {
  actor = c.actor;
  kind = c.kind;
  targets = target ∷ [];
  created_at = some created_at;
  source = some (label_source namespace c.actor);
}

abbrev pub label_of : Contribution → Text → Text → ℕ → Label
label_of c namespace content created_at = record {
  namespace = namespace;
  value = verb c.kind;
  targets = c.targets;
  labeller = c.actor;
  content = content;
  created_at = created_at;
}
