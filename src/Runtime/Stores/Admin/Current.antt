-- ===== src/Runtime/Stores/Admin/Current.antt =====
-- packages/runtime/src/stores.js: the fields of a `GovernanceAdminStore` that are computed, and
-- when it emits.
use bitgate.Base.{Option, ◌≡◌, ◌↔◌, refl, none, some, List, [], arith}
use bitgate.Base.Text.{text_eq, text_beq_iff}
use bitgate.Core.Authority.{AuthorityState, create_authority_state}
use bitgate.Core.Identifiers.{normalize_pubkey}
use bitgate.Base.Text.{trim}
use bitgate.Base.Sort.{sort}
use bitgate.Base.Set.{of_list, add_all}
use bitgate.Core.AdminState.{Contribution, reduce_admin_state}
use bitgate.Core.Fingerprint.Canonical.States.{admin_fingerprint, authority_fingerprint}
use bitgate.Runtime.Stores.{Outcome}
use bitgate.Runtime.Stores.Admin.{
  Roster, AdminStore, AdminChange, authority_of, empty_admin_store, recompute, settle, set_roles,
  set_contributions, upserted, upsert_contribution,
}

-- The operations of the store.
pub data AdminOperation : Type 0 where
  roles : Roster → AdminOperation
  contributions : List Contribution → AdminOperation
  upsert : Contribution → AdminOperation

unfoldable pub perform : AdminStore → AdminOperation → Outcome AdminStore AdminChange
unfolding set_roles set_contributions upsert_contribution
perform store (roles roster) = set_roles store roster
perform store (contributions list) = set_contributions store list
perform store (upsert contribution) = upsert_contribution store contribution

-- The computed fields are those of the contributions and the authority.
abbrev pub IsCurrent : AdminStore → Type 0
IsCurrent store =
    (store.state ≡ reduce_admin_state store.contributions store.authority)
    × (store.fingerprint ≡ admin_fingerprint store.state)
    × (store.authority_print ≡ authority_fingerprint store.authority)

-- Nothing is emitted exactly when both fingerprints are those of before.
abbrev pub EmitsOnChange : AdminStore → Outcome AdminStore AdminChange → Type 0
EmitsOnChange before outcome = (outcome.changes ≡ []) ↔ (
    (outcome.store.fingerprint ≡ before.fingerprint)
    × (outcome.store.authority_print ≡ before.authority_print))

recompute-IsCurrent :
    (store : AdminStore) (authority : AuthorityState) (cs : List Contribution)
    → IsCurrent (recompute store authority cs).store
unfolding recompute
recompute-IsCurrent store authority cs = (refl, refl, refl)

recompute-EmitsOnChange :
    (store : AdminStore) (authority : AuthorityState) (cs : List Contribution)
    → EmitsOnChange store (recompute store authority cs)
unfolding recompute
recompute-EmitsOnChange store authority cs = ground (
  arith,
  text_beq_iff (admin_fingerprint (reduce_admin_state cs authority)) store.fingerprint,
  text_beq_iff (authority_fingerprint authority) store.authority_print,
)

empty-IsCurrent : IsCurrent empty_admin_store
unfolding reduce_admin_state create_authority_state sort normalize_pubkey trim of_list add_all
empty-IsCurrent = (refl, refl, refl)

settle-IsCurrent :
    (store : AdminStore) (o : Option (List Contribution))
    → IsCurrent store
    → IsCurrent (settle store o).store
settle-IsCurrent store none h = h
settle-IsCurrent store (some cs) h = recompute-IsCurrent store store.authority cs

settle-EmitsOnChange :
    (store : AdminStore) (o : Option (List Contribution)) → EmitsOnChange store (settle store o)
settle-EmitsOnChange store none = ground arith
settle-EmitsOnChange store (some cs) = recompute-EmitsOnChange store store.authority cs

perform-IsCurrent :
    (store : AdminStore) (operation : AdminOperation)
    → IsCurrent store
    → IsCurrent (perform store operation).store
unfolding perform set_roles set_contributions upsert_contribution
perform-IsCurrent store (roles roster) h =
    recompute-IsCurrent store (authority_of roster) store.contributions
perform-IsCurrent store (contributions cs) h = recompute-IsCurrent store store.authority cs
perform-IsCurrent store (upsert c) h = settle-IsCurrent store (upserted store.contributions c) h

-- Every operation emits exactly when one of the two fingerprints changes.
pub perform-EmitsOnChange :
    (store : AdminStore) (operation : AdminOperation)
    → EmitsOnChange store (perform store operation)
unfolding perform set_roles set_contributions upsert_contribution
perform-EmitsOnChange store (roles roster) =
    recompute-EmitsOnChange store (authority_of roster) store.contributions
perform-EmitsOnChange store (contributions cs) = recompute-EmitsOnChange store store.authority cs
perform-EmitsOnChange store (upsert c) = settle-EmitsOnChange store (upserted store.contributions c)

-- The stores that a sequence of operations on a new store reaches.
pub data Reached : AdminStore → Type 0 where
  start : Reached empty_admin_store
  next :
      {store : AdminStore}
      → Reached store
      → (operation : AdminOperation) → Reached (perform store operation).store

-- In every store that operations reach, the effective state is that of the contributions under the
-- authority, and the fingerprints are those of the state and of the authority.
pub reached-IsCurrent : (store : AdminStore) → Reached store → IsCurrent store
reached-IsCurrent store start = empty-IsCurrent
reached-IsCurrent store (next {store = before} reached operation) =
    perform-IsCurrent before operation (reached-IsCurrent before reached)
