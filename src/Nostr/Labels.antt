-- ===== src/Nostr/Labels.antt =====
-- packages/nostr/src/labels.js: NIP-32 labels.
pub mod Forms
pub mod Targets
pub mod Mapped
pub mod Published
use bitgate.Base.{
  ℕ, ◌==◌, Bool, true, false, not, ◌&&◌, ◌||◌, Option, none, some, List, [], ◌∷◌, ◌++◌, map, get_or,
  is_empty, nat_beq, if◌then◌else◌, Result, ok, err, ◌>>=◌, ◌>>◌, guard, value_required,
}
use bitgate.Base.Text.{Text, codes, text_eq, trim, to_lower_case}
use bitgate.Base.Set.{has, of_list}
use bitgate.Base.Map.{Map, get}
use bitgate.Core.Identifiers.{GovernanceTarget, user, event, address}
use bitgate.Core.AdminState.{
  ContributionKind, user_allow, user_deny, event_deny, address_deny, Contribution,
}
use bitgate.Nostr.Nip19.{normalize_pubkey_input}
use bitgate.Nostr.Replaceable.{NostrEvent, get_tags}
use bitgate.Nostr.Tags.{at, Template, pair_tag}
use bitgate.Nostr.Canonical.{
  event_targets, address_targets, user_targets, encode_address_coordinate,
}

abbrev pub label_kind : ℕ
label_kind = 1985

pub record Label : Type 0 where
  pub namespace : Text
  pub value : Text
  pub targets : List GovernanceTarget
  pub labeller : Text
  pub content : Text
  pub created_at : ℕ

unfoldable pub label_targets : NostrEvent → List GovernanceTarget
label_targets e =
    user_targets (get_tags e (codes "p"))
    ++ (event_targets (get_tags e (codes "e")) ++ address_targets (get_tags e (codes "a")))

-- The loop over the `l` tags. A mark counts if it is a namespace that the event declares.
unfoldable pub read_labels :
    NostrEvent → Text → List Text → List GovernanceTarget → List (List Text) → List Label
unfolding has
read_labels e labeller namespaces targets [] = []
read_labels e labeller namespaces targets (tag ∷ tags) =
    let value = trim (at tag 1) in
    let mark = trim (at tag 2) in
    let rest = read_labels e labeller namespaces targets tags in
    if is_empty value
    then rest
    else record {
      namespace = if not (is_empty mark) && has namespaces mark then mark else [];
      value = value;
      targets = targets;
      labeller = labeller;
      content = e.content;
      created_at = e.created_at;
    }
      ∷ rest

unfoldable pub decode_labels : NostrEvent → List Label
unfolding label_targets read_labels of_list
decode_labels e =
    let labeller = normalize_pubkey_input e.pubkey in
    if not (nat_beq e.kind label_kind) || is_empty labeller
    then []
    else read_labels e labeller (of_list (map (λ tag. at tag 1) (get_tags e (codes "L"))))
        (label_targets e) (get_tags e (codes "l"))

pub record LabelMapping : Type 0 where
  pub namespace : Option Text
  pub deny_values : Option (List Text)
  pub allow_values : Option (List Text)

-- The kind that an allowed or a denied target has, if any.
abbrev pub label_contribution_kind : Bool → GovernanceTarget → Option ContributionKind
label_contribution_kind true (user pubkey) = some user_allow
label_contribution_kind true _ = none
label_contribution_kind false (user pubkey) = some user_deny
label_contribution_kind false (event id author kind) = some event_deny
label_contribution_kind false (address kind pubkey identifier) = some address_deny

abbrev pub label_source : Text → Text → Text
label_source namespace labeller =
    codes "label:"
    ++ ((if is_empty namespace then codes "-" else namespace) ++ (codes ":" ++ labeller))

abbrev pub push_contribution :
    Text
    → Label
    → GovernanceTarget
    → Option ContributionKind
    → List Contribution
    → List Contribution
push_contribution namespace label target none rest = rest
push_contribution namespace label target (some kind) rest =
    record {
      actor = label.labeller;
      kind = kind;
      targets = target ∷ [];
      created_at = some label.created_at;
      source = some (label_source namespace label.labeller);
    }
    ∷ rest

-- The loop over the targets of a label.
unfoldable pub label_contributions : Text → Label → Bool → List GovernanceTarget → List Contribution
label_contributions namespace label is_allow [] = []
label_contributions namespace label is_allow (target ∷ targets) =
    push_contribution namespace label target (label_contribution_kind is_allow target)
      (label_contributions namespace label is_allow targets)

-- The loop over the labels, with the values in lower case.
unfoldable pub map_labels : Text → List Text → List Text → List Label → List Contribution
unfolding has label_contributions
map_labels namespace deny_values allow_values [] = []
map_labels namespace deny_values allow_values (label ∷ labels) =
    let value = to_lower_case label.value in
    let is_allow = has allow_values value in
    let rest = map_labels namespace deny_values allow_values labels in
    if not (label.namespace == namespace) || not (has deny_values value || is_allow)
    then rest
    else label_contributions namespace label is_allow label.targets ++ rest

unfoldable pub labels_to_contributions : List Label → LabelMapping → List Contribution
unfolding map_labels of_list
labels_to_contributions labels mapping =
    map_labels (get_or mapping.namespace [])
      (of_list (map to_lower_case (get_or mapping.deny_values (codes "deny" ∷ []))))
      (of_list (map to_lower_case (get_or mapping.allow_values []))) labels

-- `hint ? [label, value, hint] : [label, value]`
abbrev pub hinted_tag : Text → Text → Text → List Text
hinted_tag label value hint =
    if is_empty hint then pair_tag label value else label ∷ value ∷ hint ∷ []

abbrev pub label_target_tag : Map Text Text → GovernanceTarget → List Text
label_target_tag hints (user pubkey) =
    hinted_tag (codes "p") pubkey (get_or (get hints (codes "user:" ++ pubkey)) [])
label_target_tag hints (event id author kind) =
    hinted_tag (codes "e") id (get_or (get hints (codes "event:" ++ id)) [])
label_target_tag hints (address kind pubkey identifier) =
    pair_tag (codes "a") (encode_address_coordinate kind pubkey identifier)

abbrev pub label_header : Text → Text → List (List Text)
label_header value namespace =
    if is_empty namespace
    then pair_tag (codes "l") value ∷ []
    else pair_tag (codes "L") namespace ∷ (codes "l" ∷ value ∷ namespace ∷ []) ∷ []

unfoldable pub encode_label :
    Text → Text → List GovernanceTarget → Text → Map Text Text → Result Template
unfolding get
encode_label value namespace targets content hints = do
  guard (not (is_empty (trim value))) value_required
  ok (record {
    kind = label_kind;
    content = content;
    tags = label_header (trim value) (trim namespace) ++ map (label_target_tag hints) targets;
  })

abbrev pub label_value : ContributionKind → Text → Text → Text
label_value user_allow deny_value allow_value = allow_value
label_value _ deny_value allow_value = deny_value

unfoldable pub contribution_to_label : Contribution → Text → Text → Text → Text → Result Template
unfolding encode_label
contribution_to_label c namespace deny_value allow_value content =
    encode_label (label_value c.kind deny_value allow_value) namespace c.targets content []
