-- ===== src/Core/Targets.antt =====
-- packages/core/src/targets.js: equality, validity and parents of targets.
pub mod Equality
pub mod Descent
pub mod Collision
use bitgate.Base.{
  ℕ, zero, suc, ◌==◌, Bool, true, false, Option, none, some, [], ◌∷◌, is_empty, if◌then◌else◌,
  Result, ok, err, author_required, ◌>>=◌,
}
use bitgate.Base.Text.{Text, text_eq, is_hex64}
use bitgate.Core.Identifiers.{
  GovernanceTarget, user, event, address, create_user_target, get_target_key,
}

unfoldable pub are_targets_equal : GovernanceTarget → GovernanceTarget → Bool
are_targets_equal a b = get_target_key a == get_target_key b

-- The `typeof` tests hold by the type of targets.
unfoldable pub is_valid_target : GovernanceTarget → Bool
is_valid_target (user pubkey) = is_hex64 pubkey
is_valid_target (event id author kind) = is_hex64 id
is_valid_target (address kind pubkey identifier) = is_hex64 pubkey

-- `authorPubkey ?? target.author`
abbrev explicit_or_carried : Option Text → Option Text → Option Text
explicit_or_carried none carried = carried
explicit_or_carried (some author) carried = some author

-- `if (!author) throw …`
abbrev parent_of_author : Option Text → Result (Option GovernanceTarget)
parent_of_author none = err author_required
parent_of_author (some []) = err author_required
parent_of_author (some (c ∷ author)) = ok (create_user_target (c ∷ author))

unfoldable pub get_parent_target : GovernanceTarget → Option Text → Result (Option GovernanceTarget)
get_parent_target (user pubkey) author_pubkey = ok none
get_parent_target (event id author kind) author_pubkey =
    parent_of_author (explicit_or_carried author_pubkey author)
get_parent_target (address kind pubkey identifier) author_pubkey = ok (create_user_target pubkey)

-- The recursion of `isDescendantOf` on fuel; `none` means that the fuel ran out.
unfoldable pub descend :
    ℕ → GovernanceTarget → GovernanceTarget → Option Text → Option (Result Bool)
descend zero target ancestor event_author = none
descend (suc fuel) target ancestor event_author =
    if are_targets_equal target ancestor
    then some (ok false)
    else elim (get_parent_target target event_author) [
      | err e ↦ some (err e)
      | ok none ↦ some (ok false)
      | ok (some parent) ↦ elim (are_targets_equal parent ancestor) [
        | true ↦ some (ok true)
        | false ↦ descend fuel parent ancestor event_author
      ]
    ]

-- A parent is a user, and a user has no parent: two rounds are enough.
unfoldable pub is_descendant_of :
    GovernanceTarget → GovernanceTarget → Option Text → Option (Result Bool)
unfolding descend
is_descendant_of target ancestor event_author_pubkey = descend 2 target ancestor event_author_pubkey
