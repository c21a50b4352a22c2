-- ===== src/Nostr/Roster.antt =====
-- packages/nostr/src/roster.js: the roles that signed role sets give.
pub mod Chain
pub mod Granted
use bitgate.Base.{
  ℕ, ◌==◌, Bool, true, false, not, ◌&&◌, ◌||◌, Option, none, some, List, [], ◌∷◌, filter, get_or,
  is_empty, ltb, nat_beq, if◌then◌else◌,
}
use bitgate.Base.Text.{Text, codes, text_eq, text_ltb}
use bitgate.Base.Set.{has, add}
use bitgate.Base.Map.{Map, get, put, values}
use bitgate.Nostr.Nip19.{normalize_pubkey_input}
use bitgate.Nostr.Replaceable.{NostrEvent, get_tag_value, get_tags}
use bitgate.Nostr.Tags.{at}

abbrev pub role_set_kind : ℕ
role_set_kind = 30000

pub record RosterSpec : Type 0 where
  pub identifier : Text
  pub role : Text
  pub signer : Option Text

abbrev pub RolesByKey : Type 0
RolesByKey = Map Text (List Text)

abbrev pub roles_at : RolesByKey → Text → List Text
roles_at actors pk = get_or (get actors pk) []

unfoldable pub grant : RolesByKey → Text → Text → RolesByKey
unfolding get put add
grant actors pubkey role =
    let pk = normalize_pubkey_input pubkey in
    if is_empty pk || is_empty role then actors else put actors pk (add (roles_at actors pk) role)

-- The signer's role, which is null for the root.
abbrev pub signer_role : RosterSpec → Option Text
signer_role spec =
    let signer = get_or spec.signer [] in
    if is_empty signer || signer == codes "root" then none else some signer

abbrev pub holds_signer_role : RolesByKey → Text → Option Text → Bool
holds_signer_role actors pk none = false
holds_signer_role actors pk (some role) = has (roles_at actors pk) role

-- `authorized(pubkey)`, on the roles resolved so far
unfoldable pub is_authorized_signer : Text → RolesByKey → RosterSpec → Text → Bool
unfolding get has
is_authorized_signer root_pk actors spec pubkey =
    let pk = normalize_pubkey_input pubkey in
    not (is_empty pk) && (pk == root_pk || holds_signer_role actors pk (signer_role spec))

abbrev pub is_later : NostrEvent → Option NostrEvent → Bool
is_later event none = true
is_later event (some prev) =
    ltb prev.created_at event.created_at
    || (nat_beq event.created_at prev.created_at && text_ltb event.id prev.id)

-- The loop over the role sets: the latest set of each authorized publisher.
unfoldable pub latest_by_publisher :
    Text → RolesByKey → RosterSpec → Map Text NostrEvent → List NostrEvent → Map Text NostrEvent
unfolding get put get_tag_value is_authorized_signer
latest_by_publisher root_pk actors spec latest [] = latest
latest_by_publisher root_pk actors spec latest (event ∷ events) =
    let taken =
      get_tag_value event (codes "d") == spec.identifier
      && (is_authorized_signer root_pk actors spec event.pubkey
          && is_later event (get latest event.pubkey)) in
    latest_by_publisher root_pk actors spec
      (if taken then put latest event.pubkey event else latest) events

unfoldable pub grant_members : RolesByKey → Text → List (List Text) → RolesByKey
unfolding grant
grant_members actors role [] = actors
grant_members actors role (tag ∷ tags) = grant_members (grant actors (at tag 1) role) role tags

unfoldable pub grant_sets : RolesByKey → Text → List NostrEvent → RolesByKey
unfolding grant_members get_tags
grant_sets actors role [] = actors
grant_sets actors role (event ∷ events) =
    grant_sets (grant_members actors role (get_tags event (codes "p"))) role events

unfoldable pub resolve_roster : Text → List NostrEvent → RolesByKey → RosterSpec → RolesByKey
unfolding grant_sets latest_by_publisher values
resolve_roster root_pk role_sets actors spec =
    grant_sets actors spec.role (values (latest_by_publisher root_pk actors spec [] role_sets))

unfoldable pub resolve_rosters : Text → List NostrEvent → RolesByKey → List RosterSpec → RolesByKey
unfolding resolve_roster
resolve_rosters root_pk role_sets actors [] = actors
resolve_rosters root_pk role_sets actors (spec ∷ rosters) =
    resolve_rosters root_pk role_sets (resolve_roster root_pk role_sets actors spec) rosters

abbrev pub is_role_set : NostrEvent → Bool
is_role_set event = nat_beq event.kind role_set_kind

-- The actors of `resolveAuthorityRoster`.
unfoldable pub resolve_authority_roster :
    List NostrEvent → Option Text → Option Text → List RosterSpec → RolesByKey
unfolding resolve_rosters grant
resolve_authority_roster events root root_role rosters =
    let root_pk = normalize_pubkey_input (get_or root []) in
    resolve_rosters root_pk (filter is_role_set events)
      (if is_empty root_pk then [] else grant [] root_pk (get_or root_role (codes "super_admin")))
      rosters
