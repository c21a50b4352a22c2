-- ===== src/Core/Authority.antt =====
-- packages/core/src/authority.js: roles, capabilities and protected actors.
pub mod Capabilities
pub mod Roster
pub mod Roles
use bitgate.Base.{
  ℕ, ◌≡◌, ◌↔◌, ◌==◌, Eq, decide_beq, decide_beq_iff, Bool, true, false, not, Option, none, some,
  List, [], ◌∷◌, ◌++◌, map, is_empty, if◌then◌else◌, get_or, filter, all, Result, ok, err, ◌>>=◌,
  ◌>>◌, guard, role_name_required, role_capabilities_required, unknown_capability,
}
use bitgate.Base.Text.{Text, codes, text_eq, trim}
use bitgate.Base.Set.{has, add, add_all, of_list}
use bitgate.Base.Map.{Map, get, put}
use bitgate.Base.Sort.{sort}
use bitgate.Core.Identifiers.{normalize_pubkey}

-- A capability, or any other value that a roster may hold in the place of one.
pub data Capability : Type 0 where
  manage_roles manage_policy manage_community_sources : Capability
  contribute_user_allow contribute_user_deny contribute_event_deny : Capability
  contribute_address_deny contribute_trust_seed review_evidence : Capability
  unknown : Capability

unfoldable pub Capability-discrete : Discrete Capability
Capability-discrete = hlevel

pub capability_beq_iff : (a b : Capability) → (decide_beq Capability-discrete a b ≡ true) ↔ (a ≡ b)
capability_beq_iff = decide_beq_iff Capability-discrete

instance abbrev pub capability_eq : Eq Capability
capability_eq = record { beq = decide_beq Capability-discrete; beq_iff = capability_beq_iff }

abbrev pub governance_capabilities : List Capability
governance_capabilities =
    manage_roles ∷ manage_policy ∷ manage_community_sources ∷ contribute_user_allow
    ∷ contribute_user_deny ∷ contribute_event_deny ∷ contribute_address_deny ∷ contribute_trust_seed
    ∷ review_evidence ∷ []

abbrev pub default_role_capabilities : Map Text (List Capability)
default_role_capabilities =
    (codes "super_admin", governance_capabilities)
    ∷ (
      codes "moderator",
      contribute_user_deny ∷ contribute_event_deny ∷ contribute_address_deny ∷ contribute_trust_seed
          ∷ review_evidence ∷ [],
    )
    ∷ (codes "curator", contribute_user_deny ∷ [])
    ∷ (codes "reviewer", review_evidence ∷ [])
    ∷ []

pub record AuthorityState : Type 0 where
  pub roles : Map Text (List Capability)
  pub actors : Map Text (List Text)
  pub protected_actors : List Text
  pub root : Option Text

unfoldable pub is_governance_capability : Capability → Bool
is_governance_capability value = has governance_capabilities value

unfoldable pub read_roles :
    Map Text (List Capability) → Map Text (List Capability) → Map Text (List Capability)
unfolding is_governance_capability
read_roles roles [] = roles
read_roles roles ((name, capabilities) ∷ rest) =
    read_roles
      (if is_empty (trim name)
        then roles
        else put roles (trim name) (filter is_governance_capability capabilities))
      rest

-- The role names that are not blank, trimmed, each once.
unfoldable pub role_names : List Text → List Text
role_names names = of_list (map trim (filter (λ name. not (is_empty (trim name))) names))

unfoldable pub read_actors : Map Text (List Text) → Map Text (List Text) → Map Text (List Text)
unfolding role_names
read_actors actors [] = actors
read_actors actors ((pubkey, names) ∷ rest) =
    read_actors
      (if is_empty (normalize_pubkey pubkey)
        then actors
        else if is_empty (role_names names)
        then actors
        else put actors (normalize_pubkey pubkey) (role_names names))
      rest

-- `options.root ? normalizePubkey(options.root) : ""`, where "" counts as no root.
abbrev pub read_root : Option Text → Text
read_root root = normalize_pubkey (get_or root [])

unfoldable pub read_protected : List Text → Text → List Text
read_protected pubkeys root =
    let listed = of_list (filter (λ p. not (is_empty p)) (map normalize_pubkey pubkeys)) in
    if is_empty root then listed else add listed root

-- Missing roles are the default ones; missing actors and protected actors are empty lists.
unfoldable pub create_authority_state :
    Option (Map Text (List Capability))
    → Map Text (List Text)
    → List Text
    → Option Text
    → AuthorityState
unfolding read_roles read_actors read_protected
create_authority_state roles actors protected_actors root = record {
  roles = read_roles [] (get_or roles default_role_capabilities);
  actors = read_actors [] actors;
  protected_actors = sort (read_protected protected_actors (read_root root));
  root = if is_empty (read_root root) then none else some (read_root root);
}

-- `authority.actors[pubkey] ?? []`
abbrev roles_of : AuthorityState → Text → List Text
roles_of authority pubkey = get_or (get authority.actors pubkey) []

unfoldable pub get_actor_roles : Text → AuthorityState → List Text
get_actor_roles pubkey authority =
    if is_empty (normalize_pubkey pubkey) then [] else roles_of authority (normalize_pubkey pubkey)

-- `Object.hasOwn(authority.roles, roleName) ? authority.roles[roleName] : []`
abbrev granted_by : AuthorityState → Text → List Capability
granted_by authority role = get_or (get authority.roles role) []

unfoldable pub collect_capabilities : AuthorityState → List Capability → List Text → List Capability
collect_capabilities authority capabilities [] = capabilities
collect_capabilities authority capabilities (role ∷ roles) =
    collect_capabilities authority (add_all capabilities (granted_by authority role)) roles

-- `authority.root && normalized === authority.root`
abbrev is_root : AuthorityState → Text → Bool
is_root authority pubkey = elim authority.root [
  | none ↦ false
  | some root ↦ if is_empty root then false else pubkey == root
]

unfoldable pub get_actor_capabilities : Text → AuthorityState → List Capability
unfolding collect_capabilities
get_actor_capabilities pubkey authority =
    let normalized = normalize_pubkey pubkey in
    if is_empty normalized
    then []
    else if is_root authority normalized
    then governance_capabilities
    else collect_capabilities authority [] (roles_of authority normalized)

unfoldable pub has_capability : Text → Capability → AuthorityState → Bool
unfolding get_actor_capabilities is_governance_capability
has_capability pubkey capability authority =
    if is_governance_capability capability
    then has (get_actor_capabilities pubkey authority) capability
    else false

unfoldable pub has_role : Text → Text → AuthorityState → Bool
unfolding get_actor_roles
has_role pubkey role_name authority = has (get_actor_roles pubkey authority) role_name

unfoldable pub is_protected_actor : Text → AuthorityState → Bool
is_protected_actor pubkey authority =
    let normalized = normalize_pubkey pubkey in
    if is_empty normalized then false else has authority.protected_actors normalized

pub record RoleDefinition : Type 0 where
  pub name : Text
  pub capabilities : List Capability

abbrev name_text : Option Text → Text
name_text name = trim (get_or name [])

-- A name that is no string, and capabilities that are no array, are `none`.
unfoldable pub create_role_definition :
    Option Text → Option (List Capability) → Result RoleDefinition
unfolding is_governance_capability
create_role_definition name none = do
  guard (not (is_empty (name_text name))) role_name_required
  err role_capabilities_required
create_role_definition name (some capabilities) = do
  guard (not (is_empty (name_text name))) role_name_required
  guard (all is_governance_capability capabilities) unknown_capability
  ok (record { name = name_text name; capabilities = of_list capabilities })
