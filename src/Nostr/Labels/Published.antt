-- ===== src/Nostr/Labels/Published.antt =====
-- packages/nostr/src/labels.js: a contribution that is published as a label.
use bitgate.Base.{
  ℕ, ◌≡◌, ◌==◌, refl, ap, ◌∙◌, false, List, [], ◌∷◌, ◌++◌, All, filter, map, is_empty, ok,
}
use bitgate.Base.Text.{Text, codes, text_eq, text_beq, trim, trim_start, trim_end, is_space}
use bitgate.Base.Set.{has, add, add_all, of_list}
use bitgate.Base.Map.{get}
use bitgate.Core.Identifiers.{GovernanceTarget, user, event, address}
use bitgate.Core.Identifiers.Normal.{IsHexKey, is_hex64-not_empty}
use bitgate.Core.AdminState.{
  ContributionKind, user_allow, user_deny, event_deny, address_deny, trust_seed, unknown, inherited,
  Contribution,
}
use bitgate.Nostr.Nip19.Forms.{normalize_pubkey_input-IsHexKey}
use bitgate.Nostr.Replaceable.{get_tags, has_label}
use bitgate.Nostr.Tags.{Template, signed}
use bitgate.Nostr.Canonical.{target_tag}
use bitgate.Nostr.Canonical.Contributions.{IsTargetOf}
use bitgate.Nostr.Labels.{
  label_kind, label_targets, read_labels, decode_labels, labels_to_contributions, label_target_tag,
  label_header, encode_label, contribution_to_label,
}
use bitgate.Nostr.Labels.Forms.{IsPublished, verb, published_mapping, single, label_of}
use bitgate.Nostr.Labels.Targets.{no_tags, read_published}
use bitgate.Nostr.Labels.Mapped.{same_text, to_contributions_published}

abbrev label_template : Contribution → Text → Text → Template
label_template c namespace content = record {
  kind = label_kind;
  content = content;
  tags = label_header (verb c.kind) namespace ++ map target_tag c.targets;
}

no_hints :
    (targets : List GovernanceTarget) → map (label_target_tag []) targets ≡ map target_tag targets
unfolding get
no_hints [] = refl
no_hints (user pubkey ∷ targets) = rw (no_hints targets) refl
no_hints (event id author kind ∷ targets) = rw (no_hints targets) refl
no_hints (address k p i ∷ targets) = rw (no_hints targets) refl

verb-IsTrimmed :
    (kind : ContributionKind) → (trim (verb kind) ≡ verb kind) × (is_empty (verb kind) ≡ false)
unfolding trim trim_start trim_end is_space
verb-IsTrimmed user_allow = (refl, refl)
verb-IsTrimmed user_deny = (refl, refl)
verb-IsTrimmed event_deny = (refl, refl)
verb-IsTrimmed address_deny = (refl, refl)
verb-IsTrimmed trust_seed = (refl, refl)
verb-IsTrimmed (unknown name) = (refl, refl)
verb-IsTrimmed (inherited member) = (refl, refl)

encode_published :
    (c : Contribution) (namespace content : Text)
    → trim namespace ≡ namespace
    → contribution_to_label c namespace (codes "deny") (codes "allow") content
      ≡ ok (label_template c namespace content)
unfolding contribution_to_label encode_label
encode_published c namespace content t =
    let (v, n) = verb-IsTrimmed c.kind in rw (v, t, n, no_hints c.targets) refl

header_tags-other :
    (c : Contribution) (namespace content pubkey id label : Text) (created_at : ℕ)
    → (codes "L" == label) ≡ false
    → (codes "l" == label) ≡ false
    → is_empty namespace ≡ false
    → get_tags (signed (label_template c namespace content) pubkey created_at id) label
      ≡ filter (has_label label) (map target_tag c.targets)
unfolding get_tags
header_tags-other c namespace content pubkey id label created_at u l n = rw (n, u, l) refl

namespace_tags :
    (c : Contribution) (namespace content pubkey id : Text) (created_at : ℕ)
    → is_empty namespace ≡ false
    → get_tags (signed (label_template c namespace content) pubkey created_at id) (codes "L")
      ≡ (codes "L" ∷ namespace ∷ []) ∷ []
unfolding get_tags text_beq
namespace_tags c namespace content pubkey id created_at n =
    rw (n, no_tags (codes "L") c.targets (refl, refl, refl)) refl

value_tags :
    (c : Contribution) (namespace content pubkey id : Text) (created_at : ℕ)
    → is_empty namespace ≡ false
    → get_tags (signed (label_template c namespace content) pubkey created_at id) (codes "l")
      ≡ (codes "l" ∷ verb c.kind ∷ namespace ∷ []) ∷ []
unfolding get_tags text_beq
value_tags c namespace content pubkey id created_at n =
    rw (n, no_tags (codes "l") c.targets (refl, refl, refl)) refl

label_targets_published :
    (c : Contribution) (namespace content pubkey id : Text) (created_at : ℕ)
    → is_empty namespace ≡ false
    → IsPublished c.kind
    → All (IsTargetOf c.kind) c.targets
    → label_targets (signed (label_template c namespace content) pubkey created_at id) ≡ c.targets
unfolding label_targets text_beq
label_targets_published c namespace content pubkey id created_at n p h =
    rw
      (
        header_tags-other c namespace content pubkey id (codes "p") created_at refl refl n,
        header_tags-other c namespace content pubkey id (codes "e") created_at refl refl n,
        header_tags-other c namespace content pubkey id (codes "a") created_at refl refl n,
      )
      (read_published c.kind c.targets p h)

decode_published :
    (c : Contribution) (namespace content id : Text) (created_at : ℕ)
    → is_empty namespace ≡ false
    → trim namespace ≡ namespace
    → IsHexKey c.actor
    → IsPublished c.kind
    → All (IsTargetOf c.kind) c.targets
    → decode_labels (signed (label_template c namespace content) c.actor created_at id)
      ≡ label_of c namespace content created_at ∷ []
unfolding decode_labels read_labels of_list add_all add has
decode_published c namespace content id created_at n t a p h =
    rw
      (
        normalize_pubkey_input-IsHexKey c.actor a,
        is_hex64-not_empty c.actor a.0,
        namespace_tags c namespace content c.actor id created_at n,
        value_tags c namespace content c.actor id created_at n,
        label_targets_published c namespace content c.actor id created_at n p h,
        (verb-IsTrimmed c.kind).0,
        (verb-IsTrimmed c.kind).1,
        t,
        n,
        same_text namespace,
      )
      refl

-- A contribution that allows or denies, published by its actor as a label with the default values
-- in a namespace that is trimmed and not empty, is read under the same mapping as one contribution
-- for each of its targets, with the same actor and kind, the time of the event and the label as the
-- source, if its actor and its targets are canonical and the targets are of its kind.
pub labels_to_contributions-published :
    (c : Contribution) (namespace content id : Text) (created_at : ℕ)
    → is_empty namespace ≡ false
    → trim namespace ≡ namespace
    → IsHexKey c.actor
    → IsPublished c.kind
    → All (IsTargetOf c.kind) c.targets
    → (template : Template) × (contribution_to_label c namespace
          (codes "deny")
          (codes "allow")
          content
        ≡ ok template)
      × (labels_to_contributions
            (decode_labels (signed template c.actor created_at id))
            (published_mapping namespace)
          ≡ map (single c namespace created_at) c.targets)
labels_to_contributions-published c namespace content id created_at n t a p h = (
  label_template c namespace content,
  encode_published c namespace content t,
  ap (λ labels. labels_to_contributions labels (published_mapping namespace))
        (decode_published c namespace content id created_at n t a p h)
      ∙ to_contributions_published c namespace content created_at p h,
)
