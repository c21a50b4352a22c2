-- ===== src/Core/Fingerprint/Canonical/States.antt =====
-- packages/core/src: the authority and the administrative state as values that are fingerprinted.
use bitgate.Base.{List, [], ◌∷◌, map, Option, none, some, get_or}
use bitgate.Base.Text.{Text, codes}
use bitgate.Base.Map.{Map}
use bitgate.Core.Fingerprint.Canonical.{
  Value, null, num, text, array, set, Values, nil, cons, dict, Fields, end, field, of_map, texts,
  fingerprint,
}
use bitgate.Core.Authority.{
  Capability, manage_roles, manage_policy, manage_community_sources, contribute_user_allow,
  contribute_user_deny, contribute_event_deny, contribute_address_deny, contribute_trust_seed,
  review_evidence, unknown, AuthorityState,
}
use mathlib.Core.Option
use bitgate.Core.Evaluator.Snapshot.{ReportRecord, MuteRecord, GovernanceSnapshot}
use bitgate.Core.Policy.Profile.{PolicyDefinition, PolicyProfile}
use bitgate.Core.AdminState.{AdminState, serialize_admin_state}

-- The code's name of a capability. An authority state that was created holds no unknown one.
abbrev pub capability_name : Capability → Text
capability_name manage_roles = codes "manage-roles"
capability_name manage_policy = codes "manage-policy"
capability_name manage_community_sources = codes "manage-community-sources"
capability_name contribute_user_allow = codes "contribute-user-allow"
capability_name contribute_user_deny = codes "contribute-user-deny"
capability_name contribute_event_deny = codes "contribute-event-deny"
capability_name contribute_address_deny = codes "contribute-address-deny"
capability_name contribute_trust_seed = codes "contribute-trust-seed"
capability_name review_evidence = codes "review-evidence"
capability_name unknown = []

abbrev value_of_actors : Map Text (List Text) → Map Text Value
value_of_actors [] = []
value_of_actors ((pubkey, roles) ∷ rest) = (pubkey, texts roles) ∷ value_of_actors rest

abbrev value_of_roles : Map Text (List Capability) → Map Text Value
value_of_roles [] = []
value_of_roles ((role, capabilities) ∷ rest) =
    (role, texts (map capability_name capabilities)) ∷ value_of_roles rest

-- `#computeAuthorityFingerprint`
unfoldable pub authority_fingerprint : AuthorityState → Text
authority_fingerprint authority = fingerprint (
    dict (
      field (codes "root") (text (get_or authority.root [])) (
        field (codes "actors") (dict (of_map (value_of_actors authority.actors))) (
          field (codes "roles") (dict (of_map (value_of_roles authority.roles)))
            (field (codes "protectedActors") (texts authority.protected_actors) end)))))

-- `rootFingerprint`: the root alone.
unfoldable pub root_fingerprint : AuthorityState → Text
root_fingerprint authority =
    fingerprint (dict (field (codes "root") (text (get_or authority.root [])) end))

-- `fingerprint(serializeAdminState(state))`
unfoldable pub admin_fingerprint : AdminState → Text
admin_fingerprint state =
    let serialized = serialize_admin_state state in
    fingerprint (
      dict (
        field (codes "userAllow") (texts serialized.user_allow) (
          field (codes "userDeny") (texts serialized.user_deny) (
            field (codes "eventDeny") (texts serialized.event_deny) (
              field (codes "addressDeny") (texts serialized.address_deny)
                (field (codes "trustSeeds") (texts serialized.trust_seeds) end))))))

abbrev of_lists : Map Text (List Text) → Map Text Value
of_lists m = value_of_actors m

-- A value that may be undefined: a field that is left out.
abbrev optional : Text → Option Value → Fields → Fields
optional key none rest = rest
optional key (some value) rest = field key value rest

abbrev of_report : ReportRecord → Value
of_report r = dict (
    field (codes "reporter") (text r.reporter) (
      optional (codes "category") (Option.map text r.category)
        (optional (codes "createdAt") (Option.map num r.created_at) end)))

abbrev of_mute : MuteRecord → Value
of_mute m = dict (
    field (codes "muter") (text m.muter) (
      optional (codes "category") (Option.map text m.category)
        (optional (codes "updatedAt") (Option.map num m.updated_at) end)))

abbrev of_list {ℓ} : {A : Type ℓ} → (A → Value) → List A → Values
of_list write [] = nil
of_list write (a ∷ rest) = cons (write a) (of_list write rest)

abbrev of_record_map {ℓ} : {A : Type ℓ} → (A → Value) → Map Text (List A) → Map Text Value
of_record_map write [] = []
of_record_map write ((key, records) ∷ m) =
    (key, array (of_list write records)) ∷ of_record_map write m

-- The authority without its root, where it has none.
abbrev of_authority : AuthorityState → Value
of_authority authority = dict (
    field (codes "roles") (dict (of_map (value_of_roles authority.roles))) (
      field (codes "actors") (dict (of_map (value_of_actors authority.actors))) (
        field (codes "protectedActors") (texts authority.protected_actors)
          (optional (codes "root") (Option.map text authority.root) end))))

abbrev of_admin : AdminState → Value
of_admin state = dict (
    field (codes "userAllow") (set state.user_allow) (
      field (codes "userDeny") (set state.user_deny) (
        field (codes "eventDeny") (set state.event_deny) (
          field (codes "addressDeny") (set state.address_deny) (
            field (codes "trustSeeds") (set state.trust_seeds) (
              field (codes "contributors") (dict (of_map (of_lists state.contributors))) (
                field (codes "communitySources") (dict (of_map (of_lists state.community_sources)))
                  end)))))))

-- `snapshotFingerprint`, without overrides; the policy is the part of it that the caller names.
unfoldable pub snapshot_fingerprint : GovernanceSnapshot → Value → Text
snapshot_fingerprint snapshot policy = fingerprint (
    dict (
      field (codes "authority") (of_authority snapshot.authority) (
        field (codes "admin") (of_admin snapshot.admin) (
          field (codes "reports") (dict (of_map (of_record_map of_report snapshot.reports))) (
            field (codes "trustedMutes")
              (dict (of_map (of_record_map of_mute snapshot.trusted_mutes)))
              (field (codes "overrides") null (field (codes "policy") policy end)))))))

-- The fingerprint that an evaluation takes where its context gives none.
unfoldable pub evaluation_fingerprint : GovernanceSnapshot → PolicyDefinition → PolicyProfile → Text
unfolding snapshot_fingerprint
evaluation_fingerprint snapshot policy profile = snapshot_fingerprint snapshot (
    dict (
      field (codes "id") (text policy.id) (
        field (codes "version") (text policy.version)
          (field (codes "profile") (text profile.name) end))))
