-- ===== src/Runtime/Stores/Admin.antt =====
-- packages/runtime/src/stores.js: `GovernanceAdminStore`.
pub mod Slots
pub mod Current
use bitgate.Base.{
  ℕ, ◌≡◌, ◌↔◌, ◌==◌, Eq, decide_beq, decide_beq_iff, Bool, true, false, not, ◌&&◌, ◌||◌, Option,
  none, some, List, [], ◌∷◌, ◌++◌, arith, find, get_or, is_empty, ltb, if◌then◌else◌,
}
use bitgate.Base.Text.{Text, text_eq, text_beq_iff}
use bitgate.Base.Map.{Map}
use bitgate.Core.Authority.{Capability, AuthorityState, create_authority_state}
use bitgate.Core.AdminState.{
  ContributionKind, user_allow, user_deny, event_deny, address_deny, trust_seed, unknown, inherited,
  Contribution, AdminState, create_empty_admin_state, reduce_admin_state,
}
use bitgate.Core.Fingerprint.Canonical.States.{
  admin_fingerprint, authority_fingerprint, root_fingerprint,
}
use bitgate.Runtime.Stores.{Outcome, unchanged, emitting}

-- `===` on kinds
abbrev pub kind_beq : ContributionKind → ContributionKind → Bool
kind_beq user_allow user_allow = true
kind_beq user_deny user_deny = true
kind_beq event_deny event_deny = true
kind_beq address_deny address_deny = true
kind_beq trust_seed trust_seed = true
kind_beq (unknown a) (unknown b) = a == b
kind_beq (inherited a) (inherited b) = a == b
kind_beq _ _ = false

pub kind_beq_iff : (a b : ContributionKind) → (kind_beq a b ≡ true) ↔ (a ≡ b)
kind_beq_iff (unknown a) (unknown b) = ground (arith, text_beq_iff a b)
kind_beq_iff (inherited a) (inherited b) = ground (arith, text_beq_iff a b)
kind_beq_iff a b = ground arith

instance abbrev pub kind_eq : Eq ContributionKind
kind_eq = record { beq = kind_beq; beq_iff = kind_beq_iff }

pub record Roster : Type 0 where
  pub root : Option Text
  pub actors : Map Text (List Text)
  pub roles : Option (Map Text (List Capability))
  pub protected_actors : List Text

pub record AdminStore : Type 0 where
  pub authority : AuthorityState
  pub contributions : List Contribution
  pub state : AdminState
  pub fingerprint : Text
  pub authority_print : Text

-- { fingerprint, authorityFingerprint }
pub record AdminChange : Type 0 where
  pub fingerprint : Text
  pub authority_print : Text

abbrev pub authority_of : Roster → AuthorityState
authority_of roster =
    create_authority_state roster.roles roster.actors roster.protected_actors roster.root

-- The constructor.
abbrev pub empty_admin_store : AdminStore
empty_admin_store =
    let authority = create_authority_state none [] [] none in
    record {
      authority = authority;
      contributions = [];
      state = create_empty_admin_state;
      fingerprint = admin_fingerprint create_empty_admin_state;
      authority_print = authority_fingerprint authority;
    }

unfoldable pub recompute :
    AdminStore → AuthorityState → List Contribution → Outcome AdminStore AdminChange
recompute store authority contributions =
    let next = reduce_admin_state contributions authority in
    let next_print = admin_fingerprint next in
    let next_authority = authority_fingerprint authority in
    let updated : AdminStore = record {
      authority = authority;
      contributions = contributions;
      state = next;
      fingerprint = next_print;
      authority_print = next_authority;
    } in
    let change : AdminChange = record {
      fingerprint = next_print;
      authority_print = next_authority;
    } in
    record {
      store = updated;
      changes =
          if not (next_print == store.fingerprint) || not (next_authority == store.authority_print)
          then change ∷ []
          else [];
    }

unfoldable pub set_roles : AdminStore → Roster → Outcome AdminStore AdminChange
unfolding recompute
set_roles store roster = recompute store (authority_of roster) store.contributions

unfoldable pub set_contributions : AdminStore → List Contribution → Outcome AdminStore AdminChange
unfolding recompute
set_contributions store contributions = recompute store store.authority contributions

abbrev pub is_missing_kind : ContributionKind → Bool
is_missing_kind (unknown name) = is_empty name
is_missing_kind _ = false

-- `!contribution.actor || !contribution.kind`
unfoldable pub is_incomplete : Contribution → Bool
is_incomplete c = is_empty c.actor || is_missing_kind c.kind

-- The test of `findIndex`.
unfoldable pub same_slot : Contribution → Contribution → Bool
same_slot contribution entry = entry.actor == contribution.actor && entry.kind == contribution.kind

-- `contributions[index] = contribution` at the first entry of the slot
unfoldable pub replace_slot : List Contribution → Contribution → List Contribution
replace_slot [] c = []
replace_slot (entry ∷ entries) c =
    let rest = replace_slot entries c in if same_slot c entry then c ∷ entries else entry ∷ rest

abbrev pub stamp_of : Contribution → ℕ
stamp_of c = get_or c.created_at 0

-- The contributions after `upsertContribution`, or none where it returns early.
unfoldable pub upserted : List Contribution → Contribution → Option (List Contribution)
unfolding replace_slot same_slot is_incomplete
upserted entries c = if is_incomplete c then none else elim (find (same_slot c) entries) [
  | none ↦ some (entries ++ c ∷ [])
  | some existing ↦
      if ltb (stamp_of c) (stamp_of existing) then none else some (replace_slot entries c)
]

-- An early return, or the assignment and `#recompute()`.
abbrev pub settle : AdminStore → Option (List Contribution) → Outcome AdminStore AdminChange
settle store none = unchanged store
settle store (some contributions) = recompute store store.authority contributions

unfoldable pub upsert_contribution : AdminStore → Contribution → Outcome AdminStore AdminChange
unfolding upserted recompute
upsert_contribution store c = settle store (upserted store.contributions c)
