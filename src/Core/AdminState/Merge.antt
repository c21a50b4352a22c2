-- ===== src/Core/AdminState/Merge.antt =====
-- adminState.js: the members of the five sets after `mergeCommunitySource`.
use bitgate.Base.{◌≡◌, refl, ap, ◌∙◌, false, not, ◌&&◌, ◌||◌, List, [], ◌∷◌, arith, if◌then◌else◌}
use bitgate.Base.Text.{Text, text_eq}
use bitgate.Base.Set.{has, has-add}
use bitgate.Core.Authority.{AuthorityState}
use bitgate.Core.AdminState.{
  ContributionKind, user_allow, user_deny, event_deny, address_deny, trust_seed, unknown, inherited,
  Contribution, AdminState, is_authorized, reduce_admin_state, merge_key, merge_keys,
  protect_actors, merge_community_source,
}
use bitgate.Core.AdminState.Members.{
  set_of, enters, is_protected_key, reduce_admin_state_lem, has-strip_actors, set_of-strip_actors,
  same_kind,
}

has-merge_keys :
    (merged state : AdminState) (keys : List Text) (x : Text)
    → has (merge_keys merged state keys).user_deny x ≡ (has state.user_deny x || has keys x)
unfolding merge_keys merge_key has
has-merge_keys merged state [] x = ground arith
has-merge_keys merged state (key ∷ keys) x = ground (
  arith,
  has-merge_keys merged (merge_key merged state key) keys x,
  has-add state.user_deny key x,
)

set_of-merge_key :
    (k : ContributionKind) (merged state : AdminState) (key : Text)
    → same_kind user_deny k ≡ false
    → set_of k (merge_key merged state key) ≡ set_of k state
unfolding merge_key
set_of-merge_key k merged state key h = ground arith

set_of-merge_keys :
    (k : ContributionKind) (merged state : AdminState) (keys : List Text)
    → same_kind user_deny k ≡ false
    → set_of k (merge_keys merged state keys) ≡ set_of k state
unfolding merge_keys
set_of-merge_keys k merged state [] h = refl
set_of-merge_keys k merged state (key ∷ keys) h =
    set_of-merge_keys k merged (merge_key merged state key) keys h
    ∙ set_of-merge_key k merged state key h

module _ (state : AdminState) (c : Contribution) (authority : AuthorityState) where
  merged_denials :
      (x : Text)
      → has (merge_community_source state c authority).user_deny x ≡ (
          (has state.user_deny x
            || (is_authorized authority c && enters user_deny x c.kind c.targets))
          && not (is_protected_key authority x))
  unfolding merge_community_source protect_actors
  merged_denials x =
      let merged = reduce_admin_state (c ∷ []) authority in
      ground (
        arith,
        has-strip_actors (merge_keys merged state merged.user_deny) authority.protected_actors x,
        has-merge_keys merged state merged.user_deny x,
        reduce_admin_state_lem (c ∷ []) authority user_deny x,
      )

  other_sets :
      (k : ContributionKind)
      → same_kind user_deny k ≡ false
      → set_of k (merge_community_source state c authority) ≡ set_of k state
  unfolding merge_community_source protect_actors
  other_sets k h =
      let merged = reduce_admin_state (c ∷ []) authority in
      set_of-strip_actors k (merge_keys merged state merged.user_deny) authority.protected_actors h
      ∙ set_of-merge_keys k merged state merged.user_deny h

  -- The user denials become the union of those of the state and those that the contribution may
  -- add, less the protected actors; the other four sets stay as they are.
  pub merge_community_source_lem :
      (k : ContributionKind) (x : Text)
      → has (set_of k (merge_community_source state c authority)) x ≡ (
          if same_kind user_deny k
          then (has state.user_deny x
              || (is_authorized authority c && enters user_deny x c.kind c.targets))
            && not (is_protected_key authority x)
          else has (set_of k state) x)
  merge_community_source_lem user_deny x = merged_denials x
  merge_community_source_lem user_allow x = ap (λ s. has s x) (other_sets user_allow refl)
  merge_community_source_lem event_deny x = ap (λ s. has s x) (other_sets event_deny refl)
  merge_community_source_lem address_deny x = ap (λ s. has s x) (other_sets address_deny refl)
  merge_community_source_lem trust_seed x = ap (λ s. has s x) (other_sets trust_seed refl)
  merge_community_source_lem (unknown name) x = refl
  merge_community_source_lem (inherited member) x = refl
