-- ===== src/Runtime/Stores/Policies.antt =====
-- packages/runtime/src/stores.js: `PolicyStore`. The code compares policies by identity, so each is
-- held with the identity of its object.
use bitgate.Base.{
  ℕ, ◌≡◌, ◌==◌, nat_eq, not, Option, none, some, [], ◌∷◌, arith, get_or, if◌then◌else◌,
}
use bitgate.Core.Policy.Profile.{PolicyDefinition}
use bitgate.Runtime.Stores.{Outcome}

pub record PolicyObject : Type 0 where
  pub identity : ℕ
  pub definition : PolicyDefinition

pub record PolicyStore : Type 0 where
  pub default_policy : PolicyObject
  pub root_policy : Option PolicyObject
  pub local_policy : Option PolicyObject

-- The constructor.
abbrev pub create_policy_store : PolicyObject → PolicyStore
create_policy_store default_policy = record {
  default_policy = default_policy;
  root_policy = none;
  local_policy = none;
}

-- `get policy()`
unfoldable pub policy : PolicyStore → PolicyObject
policy store = get_or store.local_policy (get_or store.root_policy store.default_policy)

-- The emission at the end of both setters.
abbrev emit_replaced : PolicyObject → PolicyStore → Outcome PolicyStore PolicyObject
emit_replaced before store = record {
  store = store;
  changes = if not ((policy store).identity == before.identity) then policy store ∷ [] else [];
}

unfoldable pub set_root_policy :
    PolicyStore → Option PolicyObject → Outcome PolicyStore PolicyObject
unfolding policy
set_root_policy store root_policy =
    emit_replaced (policy store) (record store { root_policy = root_policy })

unfoldable pub set_local_policy :
    PolicyStore → Option PolicyObject → Outcome PolicyStore PolicyObject
unfolding policy
set_local_policy store local_policy =
    emit_replaced (policy store) (record store { local_policy = local_policy })

-- A policy of the root, once set or withdrawn, changes nothing for an application that pins its own
-- policy, and emits nothing.
pub set_root_policy-pinned :
    (store : PolicyStore) (root_policy : Option PolicyObject) (pinned : PolicyObject)
    → store.local_policy ≡ some pinned
    → (policy (set_root_policy store root_policy).store ≡ pinned)
      × ((set_root_policy store root_policy).changes ≡ [])
unfolding set_root_policy policy
set_root_policy-pinned store root_policy pinned h = ground (arith, h)
