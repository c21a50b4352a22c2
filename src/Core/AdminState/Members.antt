-- ===== src/Core/AdminState/Members.antt =====
-- adminState.js: the members of the five sets that `reduceAdminState` fills.
use bitgate.Base.{
  ◌≡◌, refl, ap, ◌∙◌, ◌==◌, Bool, true, false, not, ◌&&◌, ◌||◌, Option, List, [], ◌∷◌, arith, any,
  Bool-cases, inl, inr,
}
use bitgate.Base.Text.{Text, text_eq}
use bitgate.Base.Set.{has, has-add, has-delete}
use bitgate.Core.Identifiers.{GovernanceTarget, user_key, get_target_key}
use bitgate.Core.Authority.{AuthorityState}
use bitgate.Core.AdminState.{
  ContributionKind, user_allow, user_deny, event_deny, address_deny, trust_seed, unknown, inherited,
  Contribution, AdminState, create_empty_admin_state, pubkey_of, record_key, record_origin,
  is_accepted, add_target, add_targets, is_authorized, add_contribution, add_contributions,
  strip_actor, strip_actors, reduce_admin_state,
}

-- The set that a kind of contribution fills.
abbrev pub set_of : ContributionKind → AdminState → List Text
set_of user_allow state = state.user_allow
set_of user_deny state = state.user_deny
set_of event_deny state = state.event_deny
set_of address_deny state = state.address_deny
set_of trust_seed state = state.trust_seeds
set_of (unknown name) state = []
set_of (inherited member) state = []

abbrev pub same_kind : ContributionKind → ContributionKind → Bool
same_kind user_allow user_allow = true
same_kind user_deny user_deny = true
same_kind event_deny event_deny = true
same_kind address_deny address_deny = true
same_kind trust_seed trust_seed = true
same_kind _ _ = false

-- What is entered for a target: its key, or its pubkey among the trust seeds.
abbrev pub entry_of : ContributionKind → GovernanceTarget → Text
entry_of trust_seed t = pubkey_of t
entry_of _ t = get_target_key t

set_of-record_origin :
    (k kind : ContributionKind) (actor : Text) (source : Option Text) (key : Text)
    (state : AdminState)
    → set_of k (record_origin kind actor source key state) ≡ set_of k state
unfolding record_origin
set_of-record_origin k kind actor source key state = ground arith

has-record_key :
    (k kind : ContributionKind) (t : GovernanceTarget) (state : AdminState) (x : Text)
    → has (set_of k (record_key kind t state)) x
      ≡ (has (set_of k state) x || (same_kind kind k && entry_of kind t == x))
unfolding record_key
has-record_key user_allow user_allow t state x = has-add state.user_allow (get_target_key t) x
has-record_key user_deny user_deny t state x = has-add state.user_deny (get_target_key t) x
has-record_key event_deny event_deny t state x = has-add state.event_deny (get_target_key t) x
has-record_key address_deny address_deny t state x = has-add state.address_deny (get_target_key t) x
has-record_key trust_seed trust_seed t state x = has-add state.trust_seeds (pubkey_of t) x
has-record_key k kind t state x = ground arith

-- Some target of the list is accepted and entered as `x` in the set `k`.
abbrev pub enters : ContributionKind → Text → ContributionKind → List GovernanceTarget → Bool
enters k x kind ts = any (λ t. is_accepted kind t && (same_kind kind k && entry_of kind t == x)) ts

has-add_target :
    (k : ContributionKind) (c : Contribution) (state : AdminState) (t : GovernanceTarget) (x : Text)
    → has (set_of k (add_target c state t)) x ≡ (
        has (set_of k state) x
        || (is_accepted c.kind t && (same_kind c.kind k && entry_of c.kind t == x)))
has-add_target k c state t x = elim (Bool-cases (is_accepted c.kind t)) [
  | inl e ↦
      unfold add_target in
      rw e (
        ap (λ s. has s x)
          (set_of-record_origin k c.kind c.actor c.source (get_target_key t)
            (record_key c.kind t state))
        ∙ has-record_key k c.kind t state x)
  | inr e ↦ unfold add_target in rw e (ground arith)
]

has-add_targets :
    (k : ContributionKind) (c : Contribution) (state : AdminState) (ts : List GovernanceTarget)
    (x : Text)
    → has (set_of k (add_targets c state ts)) x ≡ (has (set_of k state) x || enters k x c.kind ts)
unfolding add_targets
has-add_targets k c state [] x = ground arith
has-add_targets k c state (t ∷ ts) x =
    has-add_targets k c (add_target c state t) ts x
    ∙ ap (λ b. b || enters k x c.kind ts) (has-add_target k c state t x)
    ∙ or_assoc (has (set_of k state) x) _ (enters k x c.kind ts)
  where
    or_assoc : (a b c : Bool) → ((a || b) || c) ≡ (a || (b || c))
    or_assoc a b c = ground arith

has-add_contribution :
    (authority : AuthorityState) (k : ContributionKind) (state : AdminState) (c : Contribution)
    (x : Text)
    → has (set_of k (add_contribution authority state c)) x
      ≡ (has (set_of k state) x || (is_authorized authority c && enters k x c.kind c.targets))
has-add_contribution authority k state c x = elim (Bool-cases (is_authorized authority c)) [
  | inl e ↦ unfold add_contribution in rw e (has-add_targets k c state c.targets x)
  | inr e ↦ unfold add_contribution in rw e (ground arith)
]

has-add_contributions :
    (authority : AuthorityState) (k : ContributionKind) (state : AdminState)
    (cs : List Contribution) (x : Text)
    → has (set_of k (add_contributions authority state cs)) x ≡ (
        has (set_of k state) x
        || any (λ c. is_authorized authority c && enters k x c.kind c.targets) cs)
unfolding add_contributions
has-add_contributions authority k state [] x = ground arith
has-add_contributions authority k state (c ∷ cs) x = ground (
  arith,
  has-add_contributions authority k (add_contribution authority state c) cs x,
  has-add_contribution authority k state c x,
)

-- The key of a protected actor.
abbrev pub is_protected_key : AuthorityState → Text → Bool
is_protected_key authority x = any (λ p. user_key p == x) authority.protected_actors

pub has-strip_actors :
    (state : AdminState) (ps : List Text) (x : Text)
    → has (strip_actors state ps).user_deny x
      ≡ (has state.user_deny x && not (any (λ p. user_key p == x) ps))
unfolding strip_actors
has-strip_actors state [] x = ground arith
has-strip_actors state (p ∷ ps) x =
    has-strip_actors (strip_actor state p) ps x
    ∙ ap (λ b. b && not (any (λ p. user_key p == x) ps)) (has-delete state.user_deny (user_key p) x)
    ∙ regroup (has state.user_deny x) (user_key p == x) (any (λ p. user_key p == x) ps)
  where
    regroup : (a b c : Bool) → ((a && not b) && not c) ≡ (a && not (b || c))
    regroup a b c = ground arith

set_of-strip_actor :
    (k : ContributionKind) (state : AdminState) (p : Text)
    → same_kind user_deny k ≡ false
    → set_of k (strip_actor state p) ≡ set_of k state
unfolding strip_actor
set_of-strip_actor k state p h = ground arith

pub set_of-strip_actors :
    (k : ContributionKind) (state : AdminState) (ps : List Text)
    → same_kind user_deny k ≡ false
    → set_of k (strip_actors state ps) ≡ set_of k state
unfolding strip_actors
set_of-strip_actors k state [] h = refl
set_of-strip_actors k state (p ∷ ps) h =
    set_of-strip_actors k (strip_actor state p) ps h ∙ set_of-strip_actor k state p h

nothing_yet : (k : ContributionKind) (x : Text) → has (set_of k create_empty_admin_state) x ≡ false
unfolding has
nothing_yet user_allow x = refl
nothing_yet user_deny x = refl
nothing_yet event_deny x = refl
nothing_yet address_deny x = refl
nothing_yet trust_seed x = refl
nothing_yet (unknown name) x = refl
nothing_yet (inherited member) x = refl

kept_set :
    (cs : List Contribution) (authority : AuthorityState) (k : ContributionKind) (x : Text)
    → same_kind user_deny k ≡ false
    → has (set_of k (reduce_admin_state cs authority)) x ≡ (
        any (λ c. is_authorized authority c && enters k x c.kind c.targets) cs
        && not (same_kind user_deny k && is_protected_key authority x))
kept_set cs authority k x h =
    unfold reduce_admin_state in
    ap (λ s. has s x) (set_of-strip_actors k _ authority.protected_actors h)
    ∙ has-add_contributions authority k create_empty_admin_state cs x
    ∙ rw (nothing_yet k x, h) (ground arith)

-- Each of the five sets holds exactly what some contribution of its kind enters, by an actor that
-- now holds the matching capability and for a well-formed target of the matching type; of the user
-- denials, exactly the keys of protected actors are left out.
pub reduce_admin_state_lem :
    (cs : List Contribution) (authority : AuthorityState) (k : ContributionKind) (x : Text)
    → has (set_of k (reduce_admin_state cs authority)) x ≡ (
        any (λ c. is_authorized authority c && enters k x c.kind c.targets) cs
        && not (same_kind user_deny k && is_protected_key authority x))
unfolding reduce_admin_state
reduce_admin_state_lem cs authority user_deny x =
    has-strip_actors _ authority.protected_actors x
    ∙ ap (λ b. b && not (is_protected_key authority x))
        (has-add_contributions authority user_deny create_empty_admin_state cs x)
    ∙ rw (nothing_yet user_deny x)
reduce_admin_state_lem cs authority user_allow x = kept_set cs authority user_allow x refl
reduce_admin_state_lem cs authority event_deny x = kept_set cs authority event_deny x refl
reduce_admin_state_lem cs authority address_deny x = kept_set cs authority address_deny x refl
reduce_admin_state_lem cs authority trust_seed x = kept_set cs authority trust_seed x refl
reduce_admin_state_lem cs authority (unknown name) x = kept_set cs authority (unknown name) x refl
reduce_admin_state_lem cs authority (inherited member) x =
    kept_set cs authority (inherited member) x refl
