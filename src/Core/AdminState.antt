-- ===== src/Core/AdminState.antt =====
-- packages/core/src/adminState.js: contributions reduced to effective administrative state.
pub mod Members
pub mod Merge
pub mod Authority
use bitgate.Base.{
  ℕ, ◌≡◌, ◌==◌, Bool, true, false, not, ◌&&◌, Option, none, some, List, [], ◌∷◌, is_empty,
  if◌then◌else◌, get_or,
}
use bitgate.Base.Text.{Text, text_eq, trim}
use bitgate.Base.Set.{has, add, add_all, delete}
use bitgate.Base.Map.{Map, get, put, remove}
use bitgate.Base.Sort.{sort}
use bitgate.Core.Identifiers.{GovernanceTarget, user, event, address, user_key, get_target_key}
use bitgate.Core.Targets.{is_valid_target}
use bitgate.Core.Authority.{
  Capability, contribute_user_allow, contribute_user_deny, contribute_event_deny,
  contribute_address_deny, contribute_trust_seed, AuthorityState, has_capability,
}

-- `unknown` is any other text; a missing kind is `unknown []`. `inherited` is a member that a lookup
-- found on `Object.prototype`, a function or an object, and not the text of its name.
pub data ContributionKind : Type 0 where
  user_allow user_deny event_deny address_deny trust_seed : ContributionKind
  unknown : Text → ContributionKind
  inherited : Text → ContributionKind

pub record Contribution : Type 0 where
  pub actor : Text
  pub kind : ContributionKind
  pub targets : List GovernanceTarget
  pub source : Option Text
  pub created_at : Option ℕ

pub record AdminState : Type 0 where
  pub user_allow : List Text
  pub user_deny : List Text
  pub event_deny : List Text
  pub address_deny : List Text
  pub trust_seeds : List Text
  pub contributors : Map Text (List Text)
  pub community_sources : Map Text (List Text)

abbrev pub create_empty_admin_state : AdminState
create_empty_admin_state = record {
  user_allow = [];
  user_deny = [];
  event_deny = [];
  address_deny = [];
  trust_seeds = [];
  contributors = [];
  community_sources = [];
}

-- KIND_CAPABILITY
abbrev pub kind_capability : ContributionKind → Option Capability
kind_capability user_allow = some contribute_user_allow
kind_capability user_deny = some contribute_user_deny
kind_capability event_deny = some contribute_event_deny
kind_capability address_deny = some contribute_address_deny
kind_capability trust_seed = some contribute_trust_seed
kind_capability (unknown name) = none
kind_capability (inherited member) = none

-- `target.type === KIND_TARGET_TYPE[kind]`
abbrev pub has_expected_type : ContributionKind → GovernanceTarget → Bool
has_expected_type user_allow (user _) = true
has_expected_type user_deny (user _) = true
has_expected_type event_deny (event _ _ _) = true
has_expected_type address_deny (address _ _ _) = true
has_expected_type trust_seed (user _) = true
has_expected_type _ _ = false

abbrev pubkey_of : GovernanceTarget → Text
pubkey_of (user pubkey) = pubkey
pubkey_of (event _ _ _) = []
pubkey_of (address _ pubkey _) = pubkey

-- The `switch` over the kind.
unfoldable pub record_key : ContributionKind → GovernanceTarget → AdminState → AdminState
record_key user_allow t state = record state {
  user_allow = add state.user_allow (get_target_key t);
}
record_key user_deny t state = record state { user_deny = add state.user_deny (get_target_key t) }
record_key event_deny t state = record state {
  event_deny = add state.event_deny (get_target_key t);
}
record_key address_deny t state = record state {
  address_deny = add state.address_deny (get_target_key t);
}
record_key trust_seed t state = record state { trust_seeds = add state.trust_seeds (pubkey_of t) }
record_key (unknown name) t state = state
record_key (inherited member) t state = state

-- One more entry in the list of a key, unless it is there.
abbrev pub note_entry : Map Text (List Text) → Text → Text → Map Text (List Text)
note_entry lists key entry = put lists key (add (get_or (get lists key) []) entry)

-- `typeof source === "string" && source.trim()`
abbrev note_source : Map Text (List Text) → Text → Option Text → Map Text (List Text)
note_source lists key none = lists
note_source lists key (some source) =
    if is_empty (trim source) then lists else note_entry lists key source

unfoldable pub record_origin :
    ContributionKind → Text → Option Text → Text → AdminState → AdminState
record_origin trust_seed actor source key state = state
record_origin _ actor source key state = record state {
  contributors = note_entry state.contributors key actor;
  community_sources = note_source state.community_sources key source;
}

-- The test that skips a target: a wrong type, or a malformed identifier.
abbrev pub is_accepted : ContributionKind → GovernanceTarget → Bool
is_accepted kind t = has_expected_type kind t && is_valid_target t

unfoldable pub add_target : Contribution → AdminState → GovernanceTarget → AdminState
unfolding record_key record_origin
add_target c state t =
    if is_accepted c.kind t
    then record_origin c.kind c.actor c.source (get_target_key t) (record_key c.kind t state)
    else state

unfoldable pub add_targets : Contribution → AdminState → List GovernanceTarget → AdminState
add_targets c state [] = state
add_targets c state (t ∷ ts) = add_targets c (add_target c state t) ts

-- The two tests that skip a contribution: an unknown kind, or an actor without the capability.
unfoldable pub is_authorized : AuthorityState → Contribution → Bool
is_authorized authority c = elim (kind_capability c.kind) [
  | none ↦ false
  | some capability ↦ has_capability c.actor capability authority
]

unfoldable pub add_contribution : AuthorityState → AdminState → Contribution → AdminState
unfolding add_targets add_target is_authorized
add_contribution authority state c =
    if is_authorized authority c then add_targets c state c.targets else state

unfoldable pub add_contributions : AuthorityState → AdminState → List Contribution → AdminState
add_contributions authority state [] = state
add_contributions authority state (c ∷ cs) =
    add_contributions authority (add_contribution authority state c) cs

unfoldable pub strip_actor : AdminState → Text → AdminState
strip_actor state pubkey = record state {
  user_deny = delete state.user_deny (user_key pubkey);
  contributors = remove state.contributors (user_key pubkey);
  community_sources = remove state.community_sources (user_key pubkey);
}

unfoldable pub strip_actors : AdminState → List Text → AdminState
unfolding strip_actor
strip_actors state [] = state
strip_actors state (pubkey ∷ pubkeys) = strip_actors (strip_actor state pubkey) pubkeys

unfoldable pub protect_actors : AdminState → AuthorityState → AdminState
unfolding strip_actors
protect_actors state authority = strip_actors state authority.protected_actors

unfoldable pub reduce_admin_state : List Contribution → AuthorityState → AdminState
unfolding add_contributions add_contribution protect_actors
reduce_admin_state contributions authority =
    protect_actors (add_contributions authority create_empty_admin_state contributions) authority

-- `if (sources.length) state.communitySources.set(key, sources)`
abbrev set_sources : Map Text (List Text) → Text → List Text → Map Text (List Text)
set_sources lists key [] = lists
set_sources lists key (source ∷ sources) = put lists key (source ∷ sources)

-- One round of the loop of `mergeCommunitySource` over the merged denials.
unfoldable pub merge_key : AdminState → AdminState → Text → AdminState
merge_key merged state key = record state {
  user_deny = add state.user_deny key;
  contributors =
      put state.contributors key (
        add_all (get_or (get state.contributors key) []) (get_or (get merged.contributors key) []));
  community_sources = set_sources state.community_sources key (
      add_all (get_or (get state.community_sources key) [])
        (get_or (get merged.community_sources key) []));
}

unfoldable pub merge_keys : AdminState → AdminState → List Text → AdminState
unfolding merge_key
merge_keys merged state [] = state
merge_keys merged state (key ∷ keys) = merge_keys merged (merge_key merged state key) keys

unfoldable pub merge_community_source : AdminState → Contribution → AuthorityState → AdminState
unfolding merge_keys reduce_admin_state protect_actors
merge_community_source state contribution authority =
    let merged = reduce_admin_state (contribution ∷ []) authority in
    protect_actors (merge_keys merged state merged.user_deny) authority

unfoldable pub is_denied : GovernanceTarget → AdminState → Bool
is_denied (user p) state = has state.user_deny (get_target_key (user p))
is_denied (event i a k) state = has state.event_deny (get_target_key (event i a k))
is_denied (address k p i) state = has state.address_deny (get_target_key (address k p i))

pub record SerializedAdminState : Type 0 where
  pub user_allow : List Text
  pub user_deny : List Text
  pub event_deny : List Text
  pub address_deny : List Text
  pub trust_seeds : List Text

unfoldable pub serialize_admin_state : AdminState → SerializedAdminState
serialize_admin_state state = record {
  user_allow = sort state.user_allow;
  user_deny = sort state.user_deny;
  event_deny = sort state.event_deny;
  address_deny = sort state.address_deny;
  trust_seeds = sort state.trust_seeds;
}
