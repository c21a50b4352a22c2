-- ===== src/Nostr/Canonical/Contributions.antt =====
-- packages/nostr/src/canonical.js: `encodeContribution` and `decodeContribution`.
use bitgate.Base.{
  ℕ, ◌≡◌, ◌==◌, refl, sym, ap, ◌∙◌, inl, inr, true, false, Option, none, some, List, [], ◌∷◌, All,
  filter, map, get_or, is_empty, if◌then◌else◌, Bool-cases,
}
use bitgate.Base.Text.{Text, codes, text_eq, text_beq, trim}
use bitgate.Base.Map.{get}
use bitgate.Core.Identifiers.{GovernanceTarget, user, event, address}
use bitgate.Core.Identifiers.Normal.{IsHexKey, is_hex64-not_empty}
use bitgate.Core.AdminState.{
  ContributionKind, user_allow, user_deny, event_deny, address_deny, trust_seed, unknown, inherited,
  Contribution,
}
use bitgate.Nostr.Nip19.Forms.{normalize_pubkey_input-IsHexKey, normalize_event_id_input-IsHexKey}
use bitgate.Nostr.Replaceable.{first_value, get_tag_value, get_tags, has_label}
use bitgate.Nostr.Tags.{signed}
use bitgate.Nostr.Canonical.{
  canonical_identifier, canonical_version, are_digits, document_of, is_canonical_governance_event,
  scope_to_kind, kind_name, scope_value, event_targets, address_targets, user_targets,
  contribution_targets, decode_contribution, target_tag, encode_contribution,
}
use bitgate.Nostr.Canonical.Identifier.{
  IsPart, parse_identifier-canonical, decode_address_coordinate-encode,
}

abbrev pub IsUser : GovernanceTarget → Type 0
IsUser (user pubkey) = IsHexKey pubkey
IsUser _ = ⊥

-- An event with its identifier alone, which is all that a tag of a denial says.
abbrev pub IsEvent : GovernanceTarget → Type 0
IsEvent (event id none none) = IsHexKey id
IsEvent _ = ⊥

abbrev pub IsAddress : GovernanceTarget → Type 0
IsAddress (address kind pubkey identifier) =
    (are_digits kind ≡ true)
    × IsHexKey pubkey
    × (is_empty identifier ≡ false)
    × (trim identifier ≡ identifier)
IsAddress _ = ⊥

-- The targets that a kind of contribution lists, in canonical form.
abbrev pub IsTargetOf : ContributionKind → GovernanceTarget → Type 0
IsTargetOf user_allow t = IsUser t
IsTargetOf user_deny t = IsUser t
IsTargetOf event_deny t = IsEvent t
IsTargetOf address_deny t = IsAddress t
IsTargetOf trust_seed t = IsUser t
IsTargetOf (unknown name) t = IsUser t
IsTargetOf (inherited member) t = IsUser t

pub user_targets-encode :
    (targets : List GovernanceTarget)
    → All IsUser targets
    → user_targets (filter (has_label (codes "p")) (map target_tag targets)) ≡ targets
unfolding user_targets text_beq
user_targets-encode [] h = refl
user_targets-encode (user pubkey ∷ targets) (k, h) =
    rw
      (
        normalize_pubkey_input-IsHexKey pubkey k,
        is_hex64-not_empty pubkey k.0,
        user_targets-encode targets h,
      )
      refl
user_targets-encode (event id author k ∷ targets) (f, h) = absurd f
user_targets-encode (address k p i ∷ targets) (f, h) = absurd f

pub event_targets-encode :
    (targets : List GovernanceTarget)
    → All IsEvent targets
    → event_targets (filter (has_label (codes "e")) (map target_tag targets)) ≡ targets
unfolding event_targets text_beq
event_targets-encode [] h = refl
event_targets-encode (user pubkey ∷ targets) (f, h) = absurd f
event_targets-encode (event id none none ∷ targets) (k, h) =
    rw
      (
        normalize_event_id_input-IsHexKey id k,
        is_hex64-not_empty id k.0,
        event_targets-encode targets h,
      )
      refl
event_targets-encode (event id (some author) k ∷ targets) (f, h) = absurd f
event_targets-encode (event id none (some k) ∷ targets) (f, h) = absurd f
event_targets-encode (address k p i ∷ targets) (f, h) = absurd f

pub address_targets-encode :
    (targets : List GovernanceTarget)
    → All IsAddress targets
    → address_targets (filter (has_label (codes "a")) (map target_tag targets)) ≡ targets
unfolding address_targets text_beq
address_targets-encode [] h = refl
address_targets-encode (user pubkey ∷ targets) (f, h) = absurd f
address_targets-encode (event id author k ∷ targets) (f, h) = absurd f
address_targets-encode (address kind pubkey identifier ∷ targets) ((d, k, i, t), h) =
    rw
      (
        decode_address_coordinate-encode kind pubkey identifier d k i t,
        address_targets-encode targets h,
      )
      refl

no_source :
    (targets : List GovernanceTarget) → first_value (map target_tag targets) (codes "source") ≡ []
unfolding first_value text_beq
no_source [] = refl
no_source (user pubkey ∷ targets) = no_source targets
no_source (event id author k ∷ targets) = no_source targets
no_source (address k p i ∷ targets) = no_source targets

-- A source that is not blank, or none.
abbrev pub IsSource : Option Text → Type 0
IsSource none = Unit
IsSource (some source) = is_empty source ≡ false

-- A label that none of the tags before the targets has.
abbrev IsFree : Text → Type 0
IsFree label =
    ((codes "d" == label) ≡ false)
    × ((codes "v" == label) ≡ false)
    × ((codes "client" == label) ≡ false)
    × ((codes "scope" == label) ≡ false)
    × ((codes "source" == label) ≡ false)

get_tags-encode :
    (c : Contribution) (namespace pubkey id label : Text) (created_at : ℕ)
    → IsFree label
    → get_tags (signed (encode_contribution c namespace) pubkey created_at id) label
      ≡ filter (has_label label) (map target_tag c.targets)
unfolding get_tags encode_contribution
get_tags-encode c namespace pubkey id label created_at (d, v, l, s, o) =
    elim (Bool-cases (is_empty (get_or c.source []))) [
      | inl e ↦ rw (e, d, v, l, s) refl
      | inr e ↦ rw (e, d, v, l, s) (rw o refl)
    ]

contribution_targets-encode :
    (c : Contribution) (namespace pubkey id : Text) (created_at : ℕ) (kind : ContributionKind)
    → All (IsTargetOf kind) c.targets
    → contribution_targets kind (signed (encode_contribution c namespace) pubkey created_at id)
      ≡ c.targets
unfolding contribution_targets text_beq
contribution_targets-encode c ns p i t user_allow h =
    ap user_targets (get_tags-encode c ns p i (codes "p") t (refl, refl, refl, refl, refl))
    ∙ user_targets-encode c.targets h
contribution_targets-encode c ns p i t user_deny h =
    ap user_targets (get_tags-encode c ns p i (codes "p") t (refl, refl, refl, refl, refl))
    ∙ user_targets-encode c.targets h
contribution_targets-encode c ns p i t event_deny h =
    ap event_targets (get_tags-encode c ns p i (codes "e") t (refl, refl, refl, refl, refl))
    ∙ event_targets-encode c.targets h
contribution_targets-encode c ns p i t address_deny h =
    ap address_targets (get_tags-encode c ns p i (codes "a") t (refl, refl, refl, refl, refl))
    ∙ address_targets-encode c.targets h
contribution_targets-encode c ns p i t trust_seed h =
    ap user_targets (get_tags-encode c ns p i (codes "p") t (refl, refl, refl, refl, refl))
    ∙ user_targets-encode c.targets h
contribution_targets-encode c ns p i t (inherited member) h =
    ap user_targets (get_tags-encode c ns p i (codes "p") t (refl, refl, refl, refl, refl))
    ∙ user_targets-encode c.targets h
contribution_targets-encode c ns p i t (unknown name) h =
    ap user_targets (get_tags-encode c ns p i (codes "p") t (refl, refl, refl, refl, refl))
    ∙ user_targets-encode c.targets h

document_of-encode :
    (c : Contribution) (namespace pubkey id : Text) (created_at : ℕ)
    → IsPart namespace
    → IsPart (kind_name c.kind)
    → trim (canonical_identifier namespace (kind_name c.kind))
      ≡ canonical_identifier namespace (kind_name c.kind)
    → document_of (signed (encode_contribution c namespace) pubkey created_at id)
      ≡ some
          (record { namespace = namespace; scope = kind_name c.kind; version = canonical_version })
unfolding document_of is_canonical_governance_event encode_contribution get_tag_value first_value
    text_beq
document_of-encode c namespace pubkey id created_at n k t =
    rw (parse_identifier-canonical namespace (kind_name c.kind) n k t) refl

source-encode :
    (c : Contribution) (namespace pubkey id : Text) (created_at : ℕ)
    → get_tag_value (signed (encode_contribution c namespace) pubkey created_at id) (codes "source")
      ≡ get_or c.source []
unfolding get_tag_value encode_contribution first_value text_beq
source-encode c namespace pubkey id created_at = elim (Bool-cases (is_empty (get_or c.source []))) [
  | inl e ↦ rw e (no_source c.targets ∙ sym (empty-nil (get_or c.source []) e))
  | inr e ↦ rw e refl
]
  where
    empty-nil : (s : Text) → is_empty s ≡ true → s ≡ []
    empty-nil [] h = refl
    empty-nil (x ∷ s) h = cc

-- The five kinds that a scope names.
abbrev pub IsScope : ContributionKind → Type 0
IsScope (unknown name) = ⊥
IsScope (inherited member) = ⊥
IsScope _ = Unit

scope-encode :
    (c : Contribution) (namespace pubkey id : Text) (created_at : ℕ)
    → get_tag_value (signed (encode_contribution c namespace) pubkey created_at id) (codes "scope")
      ≡ scope_value c.kind
unfolding get_tag_value encode_contribution first_value text_beq
scope-encode c namespace pubkey id created_at = refl

-- Each of the five kinds has a name that is a part of an identifier, and that is read back.
scope_to_kind-name :
    (kind : ContributionKind)
    → IsScope kind
    → (scope_value kind ≡ kind_name kind)
      × IsPart (kind_name kind)
      × (scope_to_kind (kind_name kind) ≡ some kind)
unfolding scope_to_kind get text_beq
scope_to_kind-name user_allow h = (refl, (refl, refl), refl)
scope_to_kind-name user_deny h = (refl, (refl, refl), refl)
scope_to_kind-name event_deny h = (refl, (refl, refl), refl)
scope_to_kind-name address_deny h = (refl, (refl, refl), refl)
scope_to_kind-name trust_seed h = (refl, (refl, refl), refl)
scope_to_kind-name (unknown name) h = absurd h
scope_to_kind-name (inherited member) h = absurd h

kept_source :
    (o : Option Text)
    → IsSource o
    → (if is_empty (get_or o []) then none else some (get_or o [])) ≡ o
kept_source none h = refl
kept_source (some source) h = rw h refl

-- A contribution of one of the five kinds that was encoded and signed by its actor is decoded to
-- itself, with the time of the event, if its actor and targets are canonical and of that kind, its
-- source is missing or not empty, the namespace is not empty and has no colon, and the identifier
-- of the document neither starts nor ends with a space.
pub decode_contribution-encode :
    (c : Contribution) (namespace id : Text) (created_at : ℕ)
    → IsScope c.kind
    → IsHexKey c.actor
    → All (IsTargetOf c.kind) c.targets
    → IsSource c.source
    → IsPart namespace
    → trim (canonical_identifier namespace (kind_name c.kind))
      ≡ canonical_identifier namespace (kind_name c.kind)
    → decode_contribution (signed (encode_contribution c namespace) c.actor created_at id)
      ≡ some (record c { created_at = some created_at })
unfolding decode_contribution
decode_contribution-encode c namespace id created_at scope actor targets source n t =
    let (value, name, kind) = scope_to_kind-name c.kind scope in
    rw
      (
        document_of-encode c namespace c.actor id created_at n name t,
        scope-encode c namespace c.actor id created_at,
        value,
        name.0,
        kind,
        normalize_pubkey_input-IsHexKey c.actor actor,
        is_hex64-not_empty c.actor actor.0,
        contribution_targets-encode c namespace c.actor id created_at c.kind targets,
        source-encode c namespace c.actor id created_at,
        kept_source c.source source,
      )
      refl
