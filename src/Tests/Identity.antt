-- ===== src/Tests/Identity.antt =====
-- Keys, targets and authority at concrete inputs.
use bitgate.Base.{
  OkAll, ℕ, ◌≡◌, ◌↔◌, refl, ap, ◌++◌, Bool, true, false, not, ◌&&◌, ◌||◌, Option, none, some, List,
  [], ◌∷◌, any, if◌then◌else◌, ok, err, Result, is_empty, get_or, ◌==◌,
}
use bitgate.Base.Text.{
  Text, text_eq, codes, is_hex64, to_lower_case, trim, is_hex_unit, lower_unit, is_space,
}
use bitgate.Base.Set.{has}
use bitgate.Base.Map.{get}
use bitgate.Core.Identifiers.{user, event, address, normalize_pubkey}
use bitgate.Core.Identifiers.Normal.{normalize_pubkey_idem}
use bitgate.Core.Targets.Collision.{Collide, address_key_collision}
use bitgate.Core.Targets.{
  are_targets_equal, is_valid_target, get_parent_target, is_descendant_of, descend,
}
use bitgate.Core.Targets.Equality.{are_targets_equal_iff}
use bitgate.Core.Targets.Descent.{is_descendant_of_lem, by_parent}
use bitgate.Core.Authority.{
  Capability, contribute_user_deny, manage_policy, AuthorityState, has_capability,
  is_protected_actor, create_role_definition, create_authority_state, is_governance_capability,
  default_role_capabilities,
}
use bitgate.Core.Authority.Capabilities.{has_capability_lem}
use bitgate.Tests.Data.{root_key_spelled, moderator_key, alice, event_id, post, roster}

normalize_pubkey_idem_example :
    normalize_pubkey (normalize_pubkey root_key_spelled) ≡ normalize_pubkey root_key_spelled
normalize_pubkey_idem_example = normalize_pubkey_idem root_key_spelled

address_key_collision_example :
    Collide
      (address (codes "30023" ++ (codes ":" ++ alice)) moderator_key (codes "c"))
      (address (codes "30023") alice (moderator_key ++ (codes ":" ++ codes "c")))
unfolding is_hex64
address_key_collision_example =
    address_key_collision (codes "30023") alice moderator_key (codes "c") refl refl

-- The author and the kind of an event are not compared.
are_targets_equal_iff_example :
    (are_targets_equal post (event event_id none (some 7)) ≡ true) ↔ (event_id ≡ event_id)
unfolding is_valid_target is_hex64
are_targets_equal_iff_example =
    are_targets_equal_iff post (event event_id none (some 7)) refl refl tt tt

is_descendant_of_lem_example :
    (is_descendant_of post (user alice) none ≡ (
      if are_targets_equal post (user alice)
      then some (ok false)
      else some (by_parent (user alice) (get_parent_target post none))))
    × (descend 5 post (user alice) none ≡ is_descendant_of post (user alice) none)
is_descendant_of_lem_example = is_descendant_of_lem 3 post (user alice) none

has_capability_lem_example : has_capability moderator_key contribute_user_deny roster ≡ (
    is_governance_capability contribute_user_deny
    && (not (is_empty (normalize_pubkey moderator_key)) && (false || true)))
unfolding normalize_pubkey get has bitgate.Base.Text.text_beq trim is_hex64 to_lower_case
    bitgate.Core.Authority.Capability-discrete
has_capability_lem_example = has_capability_lem moderator_key contribute_user_deny roster
