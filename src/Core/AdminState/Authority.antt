-- ===== src/Core/AdminState/Authority.antt =====
-- adminState.js: revocation, protection and the order of contributions in `reduceAdminState`.
use mathlib.Core.List.{Permᴰ}
use bitgate.Base.{
  ◌≡◌, refl, sym, ap, ◌∙◌, ◌==◌, Bool, true, false, not, ◌&&◌, ◌||◌, List, [], ◌∷◌, arith, any,
  filter, Bool-cases, inl, inr,
}
use bitgate.Base.Text.{Text, text_eq, text_beq_iff}
use bitgate.Base.Set.{has}
use bitgate.Core.Identifiers.{user, user_key, get_target_key}
use bitgate.Core.Authority.{AuthorityState}
use bitgate.Core.AdminState.{
  ContributionKind, user_deny, Contribution, AdminState, create_empty_admin_state, is_authorized,
  add_contribution, add_contributions, reduce_admin_state, is_denied,
}
use bitgate.Core.AdminState.Members.{
  same_kind, set_of, enters, is_protected_key, reduce_admin_state_lem,
}

add_contributions-filter :
    (authority : AuthorityState) (state : AdminState) (cs : List Contribution)
    → add_contributions authority state (filter (is_authorized authority) cs)
      ≡ add_contributions authority state cs
unfolding add_contributions
add_contributions-filter authority state [] = refl
add_contributions-filter authority state (c ∷ cs) = elim (Bool-cases (is_authorized authority c)) [
  | inl e ↦ rw e (add_contributions-filter authority (add_contribution authority state c) cs)
  | inr e ↦ rw e (
      add_contributions-filter authority state cs
      ∙ ap (λ s. add_contributions authority s cs) (sym (skipped authority state c e)))
]
  where
    skipped :
        (authority : AuthorityState) (state : AdminState) (c : Contribution)
        → is_authorized authority c ≡ false
        → add_contribution authority state c ≡ state
    skipped authority state c e = unfold add_contribution in rw e

-- A contribution by an actor without the matching capability, such as a revoked one, has no effect
-- on any part of the state: the state is that of the authorized contributions alone.
pub reduce_admin_state-revoked :
    (cs : List Contribution) (authority : AuthorityState)
    → reduce_admin_state cs authority
      ≡ reduce_admin_state (filter (is_authorized authority) cs) authority
unfolding reduce_admin_state
reduce_admin_state-revoked cs authority =
    rw (add_contributions-filter authority create_empty_admin_state cs)

any-protected :
    (ps : List Text) (p : Text) → has ps p ≡ true → any (λ q. user_key q == user_key p) ps ≡ true
unfolding has
any-protected [] p h = cc
any-protected (q ∷ ps) p h = ground (
  arith,
  any-protected ps p,
  text_beq_iff q p,
  text_beq_iff (user_key q) (user_key p),
  ap user_key {x = q} {y = p},
)

-- A protected actor is not denied, whatever the contributions.
pub protected-not_denied :
    (cs : List Contribution) (authority : AuthorityState) (p : Text)
    → has authority.protected_actors p ≡ true
    → is_denied (user p) (reduce_admin_state cs authority) ≡ false
unfolding is_denied get_target_key
protected-not_denied cs authority p h = ground (
  arith,
  reduce_admin_state_lem cs authority user_deny (user_key p),
  any-protected authority.protected_actors p h,
)

any-perm : (f : Contribution → Bool) {cs ds : List Contribution} → Permᴰ cs ds → any f cs ≡ any f ds
any-perm f Permᴰ.nil = refl
any-perm f (Permᴰ.cons e p) = cc (ap f e, any-perm f p)
any-perm f (Permᴰ.swap {a} {b} {l} e q) = rw (← e, ← q) (swap_or (f a) (f b) (any f l))
  where
    swap_or : (a b c : Bool) → (a || (b || c)) ≡ (b || (a || c))
    swap_or a b c = ground arith
any-perm f (Permᴰ.trans p q) = any-perm f p ∙ any-perm f q

-- Each of the five sets has the same members in whatever order the contributions come.
pub reduce_admin_state-perm :
    (cs ds : List Contribution) (authority : AuthorityState) (k : ContributionKind) (x : Text)
    → Permᴰ cs ds
    → has (set_of k (reduce_admin_state cs authority)) x
      ≡ has (set_of k (reduce_admin_state ds authority)) x
reduce_admin_state-perm cs ds authority k x p =
    reduce_admin_state_lem cs authority k x
    ∙ ap (λ b. b && not (same_kind user_deny k && is_protected_key authority x))
        (any-perm (λ c. is_authorized authority c && enters k x c.kind c.targets) p)
    ∙ sym (reduce_admin_state_lem ds authority k x)
