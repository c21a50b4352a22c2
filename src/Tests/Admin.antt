-- ===== src/Tests/Admin.antt =====
-- The administrative state at concrete inputs.
use mathlib.Core.List.{Permᴰ}
use bitgate.Base.{
  ◌≡◌, refl, ◌==◌, Bool, true, false, not, ◌&&◌, ◌||◌, Option, none, some, List, [], ◌∷◌, filter,
}
use bitgate.Base.Text.{Text, text_eq, codes}
use bitgate.Base.Set.{has}
use bitgate.Base.Map.{get}
use bitgate.Core.Identifiers.{user, user_key, get_target_key, normalize_pubkey}
use bitgate.Core.Targets.{is_valid_target}
use bitgate.Core.Authority.{has_capability, capability_eq}
use bitgate.Core.AdminState.{
  user_deny, create_empty_admin_state, is_authorized, reduce_admin_state, merge_community_source,
  is_denied,
}
use bitgate.Core.AdminState.Members.{set_of, reduce_admin_state_lem}
use bitgate.Core.AdminState.Merge.{merge_community_source_lem}
use bitgate.Core.AdminState.Authority.{
  reduce_admin_state-revoked, protected-not_denied, reduce_admin_state-perm,
}
use bitgate.Tests.Data.{root_key, alice, bob, roster, denials, unauthorized, contributions}

-- The moderator's denial of alice is in.
reduce_admin_state_lem_example :
    has (set_of user_deny (reduce_admin_state contributions roster)) (user_key alice) ≡ true
unfolding is_authorized get_target_key has_capability has bitgate.Core.Authority.Capability-discrete
    normalize_pubkey bitgate.Base.Text.trim bitgate.Base.Text.is_hex64
    bitgate.Base.Text.to_lower_case bitgate.Base.Text.text_beq get bitgate.Base.Set.add_all
    bitgate.Base.Set.add is_valid_target
reduce_admin_state_lem_example =
    reduce_admin_state_lem contributions roster user_deny (user_key alice)

-- Bob's denial of the event is not.
reduce_admin_state-revoked_example :
    reduce_admin_state contributions roster ≡ reduce_admin_state (denials ∷ []) roster
unfolding is_authorized has_capability has bitgate.Core.Authority.Capability-discrete
    reduce_admin_state normalize_pubkey bitgate.Base.Text.trim bitgate.Base.Text.is_hex64
    bitgate.Base.Text.to_lower_case bitgate.Base.Text.text_beq get bitgate.Base.Set.add_all
    bitgate.Base.Set.add
reduce_admin_state-revoked_example = reduce_admin_state-revoked contributions roster

protected-not_denied_example :
    is_denied (user root_key) (reduce_admin_state contributions roster) ≡ false
unfolding has bitgate.Base.Text.text_beq
protected-not_denied_example = protected-not_denied contributions roster root_key refl

reduce_admin_state-perm_example :
    has
      (set_of user_deny (reduce_admin_state (denials ∷ unauthorized ∷ []) roster))
      (user_key alice)
    ≡ has
        (set_of user_deny (reduce_admin_state (unauthorized ∷ denials ∷ []) roster))
        (user_key alice)
reduce_admin_state-perm_example =
    reduce_admin_state-perm (denials ∷ unauthorized ∷ []) (unauthorized ∷ denials ∷ []) roster
      user_deny (user_key alice) (Permᴰ.swap refl refl)

-- A state that denies bob gains the denial of alice.
merge_community_source_lem_example :
    has
      (set_of user_deny (
        merge_community_source
          (record create_empty_admin_state { user_deny = user_key bob ∷ [] })
          denials
          roster))
      (user_key alice)
    ≡ true
unfolding is_authorized get_target_key has bitgate.Base.Text.text_beq has_capability
    bitgate.Core.Authority.Capability-discrete normalize_pubkey bitgate.Base.Text.trim
    bitgate.Base.Text.is_hex64 bitgate.Base.Text.to_lower_case get bitgate.Base.Set.add_all
    bitgate.Base.Set.add is_valid_target
merge_community_source_lem_example =
    merge_community_source_lem (record create_empty_admin_state { user_deny = user_key bob ∷ [] })
      denials roster user_deny (user_key alice)
