-- ===== src/Nostr/Canonical.antt =====
-- packages/nostr/src/canonical.js: governance documents.
pub mod Identifier
pub mod Contributions
pub mod Roles
use bitgate.Base.{
  ℕ, ◌+◌, ◌*◌, ◌==◌, Bool, true, false, not, ◌&&◌, ◌||◌, Option, none, some, List, [], ◌∷◌, ◌++◌,
  map, all, any, get_or, is_empty, length, leb, ltb, nat_beq, if◌then◌else◌,
}
use bitgate.Base.Options.{◌>>=◌}
use bitgate.Base.Text.{Text, codes, text_eq, trim}
use bitgate.Base.Set.{has, add}
use bitgate.Base.Map.{Map, get, put}
use bitgate.Core.Identifiers.{GovernanceTarget, user, event, address, normalize_address}
use bitgate.Core.AdminState.{
  ContributionKind, user_allow, user_deny, event_deny, address_deny, trust_seed, unknown, inherited,
  Contribution,
}
use bitgate.Nostr.Nip19.{normalize_pubkey_input, normalize_event_id_input}
use bitgate.Nostr.Replaceable.{NostrEvent, get_tag_value, get_tags}
use bitgate.Nostr.Tags.{at, Template, pair_tag}

abbrev pub canonical_kind : ℕ
canonical_kind = 30078

abbrev pub canonical_version : Text
canonical_version = codes "1"

unfoldable pub canonical_identifier : Text → Text → Text
canonical_identifier namespace scope =
    namespace ++ (codes ":governance:" ++ (scope ++ (codes ":v" ++ canonical_version)))

abbrev pub prepend : ℕ → Option (Text × Text) → Option (Text × Text)
prepend c none = none
prepend c (some (before, after)) = some (c ∷ before, after)

-- The text before the first colon, and the text after it.
unfoldable pub split_colon : Text → Option (Text × Text)
split_colon [] = none
split_colon (c ∷ s) =
    let rest = split_colon s in if nat_beq c 58 then some ([], s) else prepend c rest

abbrev pub is_digit : ℕ → Bool
is_digit c = leb 48 c && leb c 57

-- `\d+`
abbrev pub are_digits : Text → Bool
are_digits s = not (is_empty s) && all is_digit s

abbrev pub has_colon : Text → Bool
has_colon s = any (λ c. nat_beq c 58) s

pub record ParsedIdentifier : Type 0 where
  pub namespace : Text
  pub scope : Text
  pub version : Text

-- `v(\d+)`
unfoldable pub read_version : Text → Option Text
read_version [] = none
read_version (c ∷ version) = if nat_beq c 118 && are_digits version then some version else none

-- The match of the regular expression: four parts between colons.
unfoldable pub match_identifier : Text → Option ParsedIdentifier
unfolding split_colon read_version
match_identifier s = do
  (namespace, rest) ← split_colon s
  (word, rest) ← split_colon rest
  (scope, last) ← split_colon rest
  version ← read_version last
  if not (is_empty namespace) && ((word == codes "governance") && not (is_empty scope))
      then some (record { namespace = namespace; scope = scope; version = version })
      else none

unfoldable pub parse_identifier : Text → Option ParsedIdentifier
unfolding match_identifier
parse_identifier identifier = match_identifier (trim identifier)

abbrev matches : Text → ParsedIdentifier → Bool
matches namespace parsed = if is_empty namespace then true else parsed.namespace == namespace

-- A missing namespace is empty.
unfoldable pub is_canonical_governance_event : NostrEvent → Text → Bool
unfolding parse_identifier
is_canonical_governance_event e namespace =
    if nat_beq e.kind canonical_kind
    then elim (parse_identifier (get_tag_value e (codes "d"))) [
      | none ↦ false
      | some parsed ↦ matches namespace parsed
    ]
    else false

-- The document that an event is: its parsed identifier, where it is one at all.
unfoldable pub document_of : NostrEvent → Option ParsedIdentifier
unfolding is_canonical_governance_event parse_identifier
document_of e =
    if is_canonical_governance_event e []
    then parse_identifier (get_tag_value e (codes "d"))
    else none

unfoldable pub decode_address_coordinate : Text → Option GovernanceTarget
unfolding split_colon
decode_address_coordinate coordinate = do
  (kind, rest) ← split_colon coordinate
  (pubkey, identifier) ← split_colon rest
  if are_digits kind && not (is_empty identifier)
      then normalize_address kind (normalize_pubkey_input pubkey) identifier
      else none

abbrev pub encode_address_coordinate : Text → Text → Text → Text
encode_address_coordinate kind pubkey identifier =
    kind ++ (codes ":" ++ (pubkey ++ (codes ":" ++ identifier)))

-- What `SCOPE_TO_KIND` inherits as a plain object.
abbrev pub object_members : List Text
object_members =
    codes "constructor"
    ∷ codes "hasOwnProperty"
    ∷ codes "isPrototypeOf"
    ∷ codes "propertyIsEnumerable"
    ∷ codes "toLocaleString"
    ∷ codes "toString"
    ∷ codes "valueOf"
    ∷ codes "__proto__"
    ∷ codes "__defineGetter__"
    ∷ codes "__defineSetter__"
    ∷ codes "__lookupGetter__"
    ∷ codes "__lookupSetter__"
    ∷ []

abbrev pub scope_kinds : Map Text ContributionKind
scope_kinds =
    (codes "user-allow", user_allow)
    ∷ (codes "user-deny", user_deny)
    ∷ (codes "event-deny", event_deny)
    ∷ (codes "address-deny", address_deny)
    ∷ (codes "trust-seed", trust_seed)
    ∷ []

-- `SCOPE_TO_KIND[scope]`; an inherited member is a function or an object, and no text.
unfoldable pub scope_to_kind : Text → Option ContributionKind
scope_to_kind scope = elim (get scope_kinds scope) [
  | some kind ↦ some kind
  | none ↦ if has object_members scope then some (inherited scope) else none
]

unfoldable pub event_targets : List (List Text) → List GovernanceTarget
event_targets [] = []
event_targets (tag ∷ tags) =
    let id = normalize_event_id_input (at tag 1) in
    let rest = event_targets tags in if is_empty id then rest else event id none none ∷ rest

-- `if (target) { targets.push(target); }`
abbrev push_found : Option GovernanceTarget → List GovernanceTarget → List GovernanceTarget
push_found none targets = targets
push_found (some target) targets = target ∷ targets

unfoldable pub address_targets : List (List Text) → List GovernanceTarget
unfolding decode_address_coordinate
address_targets [] = []
address_targets (tag ∷ tags) =
    push_found (decode_address_coordinate (at tag 1)) (address_targets tags)

unfoldable pub user_targets : List (List Text) → List GovernanceTarget
user_targets [] = []
user_targets (tag ∷ tags) =
    let pubkey = normalize_pubkey_input (at tag 1) in
    let rest = user_targets tags in if is_empty pubkey then rest else user pubkey ∷ rest

unfoldable pub contribution_targets : ContributionKind → NostrEvent → List GovernanceTarget
unfolding event_targets address_targets user_targets
contribution_targets event_deny e = event_targets (get_tags e (codes "e"))
contribution_targets address_deny e = address_targets (get_tags e (codes "a"))
contribution_targets _ e = user_targets (get_tags e (codes "p"))

-- `getTagValue(event, "scope") || parsed.scope`
abbrev pub scope_of : NostrEvent → ParsedIdentifier → Text
scope_of e parsed =
    let given = get_tag_value e (codes "scope") in if is_empty given then parsed.scope else given

unfoldable pub decode_contribution : NostrEvent → Option Contribution
unfolding document_of scope_to_kind contribution_targets
decode_contribution e = do
  parsed ← document_of e
  kind ← scope_to_kind (scope_of e parsed)
  let actor = normalize_pubkey_input e.pubkey
  let source = get_tag_value e (codes "source")
  if is_empty actor
      then none
      else some (record {
        actor = actor;
        kind = kind;
        targets = contribution_targets kind e;
        source = if is_empty source then none else some source;
        created_at = some e.created_at;
      })

-- The text of an inherited member: a native function's, or that of `Object.prototype` itself.
abbrev member_text : Text → Text
member_text member =
    if member == codes "__proto__"
    then codes "[object Object]"
    else codes "function "
      ++ ((if member == codes "constructor" then codes "Object" else member)
          ++ codes "() { [native code] }")

-- The kind as a text, as a template string writes it.
abbrev pub kind_name : ContributionKind → Text
kind_name user_allow = codes "user-allow"
kind_name user_deny = codes "user-deny"
kind_name event_deny = codes "event-deny"
kind_name address_deny = codes "address-deny"
kind_name trust_seed = codes "trust-seed"
kind_name (unknown name) = name
kind_name (inherited member) = member_text member

-- The kind as the element of a tag. What is no text counts there as an empty one.
abbrev pub scope_value : ContributionKind → Text
scope_value (inherited member) = []
scope_value kind = kind_name kind

abbrev pub target_tag : GovernanceTarget → List Text
target_tag (user pubkey) = pair_tag (codes "p") pubkey
target_tag (event id author kind) = pair_tag (codes "e") id
target_tag (address kind pubkey identifier) =
    pair_tag (codes "a") (encode_address_coordinate kind pubkey identifier)

-- The scope in the identifier, and in the tag of its own.
abbrev pub header_tags : Text → Text → Text → List (List Text)
header_tags namespace name scope =
    pair_tag (codes "d") (canonical_identifier namespace name)
    ∷ pair_tag (codes "v") canonical_version
    ∷ pair_tag (codes "client") (codes "bitgate")
    ∷ pair_tag (codes "scope") scope
    ∷ []

abbrev source_tags : Text → List (List Text)
source_tags source = if is_empty source then [] else pair_tag (codes "source") source ∷ []

unfoldable pub encode_contribution : Contribution → Text → Template
unfolding canonical_identifier
encode_contribution c namespace = record {
  kind = canonical_kind;
  content = [];
  tags =
      header_tags namespace (kind_name c.kind) (scope_value c.kind)
      ++ (source_tags (get_or c.source []) ++ map target_tag c.targets);
}
