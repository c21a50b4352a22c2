-- ===== src/Core/Targets/Descent.antt =====
-- targets.js: the recursion of `isDescendantOf`.
use bitgate.Base.{
  ℕ, suc, ◌+◌, ◌≡◌, refl, sym, ◌∙◌, Bool, true, false, Option, none, some, [], ◌∷◌, arith, Result,
  ok, err, if◌then◌else◌,
}
use bitgate.Base.Text.{Text, text_beq_iff}
use bitgate.Core.Identifiers.{
  GovernanceTarget, user, event, address, create_user_target, normalize_pubkey,
}
use bitgate.Core.Targets.Equality.{user-of_key}
use bitgate.Core.Targets.{are_targets_equal, get_parent_target, descend, is_descendant_of}

-- A parent is a user.
pub parent-user :
    (t p : GovernanceTarget) (author : Option Text)
    → get_parent_target t author ≡ ok (some p)
    → (pubkey : Text) × (p ≡ user pubkey)
unfolding get_parent_target create_user_target
parent-user (user pubkey) p author h = cc
parent-user (event id none kind) p none h = cc
parent-user (event id none kind) p (some []) h = cc
parent-user (event id carried kind) p (some (c ∷ s)) h = (normalize_pubkey (c ∷ s), ground arith)
parent-user (event id (some []) kind) p none h = cc
parent-user (event id (some (c ∷ s)) kind) p none h = (normalize_pubkey (c ∷ s), ground arith)
parent-user (event id (some a) kind) p (some []) h = cc
parent-user (address kind pubkey identifier) p author h = (normalize_pubkey pubkey, ground arith)

-- A user descends from nothing.
pub descend-user :
    (fuel : ℕ) (pubkey : Text) (a : GovernanceTarget) (author : Option Text)
    → descend (suc fuel) (user pubkey) a author ≡ some (ok false)
unfolding descend get_parent_target
descend-user fuel pubkey a author = ground arith

-- The answer by the parent alone.
abbrev pub by_parent : GovernanceTarget → Result (Option GovernanceTarget) → Result Bool
by_parent a (err e) = err e
by_parent a (ok none) = ok false
by_parent a (ok (some p)) = ok (are_targets_equal p a)

abbrev climb :
    ℕ → GovernanceTarget → Option Text → Result (Option GovernanceTarget) → Option (Result Bool)
climb fuel a author r = elim r [
  | err e ↦ some (err e)
  | ok none ↦ some (ok false)
  | ok (some parent) ↦ elim (are_targets_equal parent a) [
    | true ↦ some (ok true)
    | false ↦ descend (suc fuel) parent a author
  ]
]

climb-by_parent :
    (fuel : ℕ) (a : GovernanceTarget) (author : Option Text) (r : Result (Option GovernanceTarget))
    → ((p : GovernanceTarget) → r ≡ ok (some p) → (pubkey : Text) × (p ≡ user pubkey))
    → climb fuel a author r ≡ some (by_parent a r)
climb-by_parent fuel a author (err e) h = refl
climb-by_parent fuel a author (ok none) h = refl
climb-by_parent fuel a author (ok (some p)) h =
    let (pubkey, e) = h p refl in rw e (ground (arith, descend-user fuel pubkey a author))

-- One step up is enough: the answer with any fuel from two on.
pub descend_step :
    (fuel : ℕ) (t a : GovernanceTarget) (author : Option Text)
    → descend (suc (suc fuel)) t a author ≡ (
        if are_targets_equal t a
        then some (ok false)
        else some (by_parent a (get_parent_target t author)))
descend_step fuel t a author =
    unfold descend in
    rw (climb-by_parent fuel a author (get_parent_target t author) (λ p. parent-user t p author))

-- With two rounds the recursion ends, for every target, ancestor and author, and more rounds
-- change nothing: a target descends from its parent, if it has one, and from nothing else.
pub is_descendant_of_lem :
    (fuel : ℕ) (t a : GovernanceTarget) (author : Option Text)
    → (is_descendant_of t a author ≡ (
        if are_targets_equal t a
        then some (ok false)
        else some (by_parent a (get_parent_target t author))))
      × (descend (2 + fuel) t a author ≡ is_descendant_of t a author)
is_descendant_of_lem fuel t a author = (
  unfold is_descendant_of in descend_step 0 t a author,
  unfold is_descendant_of in
      rw (add_two fuel) (descend_step fuel t a author ∙ sym (descend_step 0 t a author)),
)
  where
    add_two : (n : ℕ) → 2 + n ≡ suc (suc n)
    add_two n = omega arith

by_parent-true :
    (a : GovernanceTarget) (r : Result (Option GovernanceTarget))
    → by_parent a r ≡ ok true
    → (p : GovernanceTarget) × (r ≡ ok (some p)) × (are_targets_equal p a ≡ true)
by_parent-true a (err e) h = cc
by_parent-true a (ok none) h = cc
by_parent-true a (ok (some p)) h = (p, refl, cc)

-- What has descendants is a user.
pub ancestor-user :
    (t a : GovernanceTarget) (author : Option Text)
    → is_descendant_of t a author ≡ some (ok true)
    → (pubkey : Text) × (a ≡ user pubkey)
ancestor-user t a author h =
    let step = (is_descendant_of_lem 0 t a author).0 in
    let (p, parent, equal) = by_parent-true a (get_parent_target t author) (ground (arith, step)) in
    let (pubkey, e) = parent-user t p author parent in
    user-of_key a pubkey (unfold are_targets_equal in (text_beq_iff _ _).0 (rw e at equal))

-- Descent is asymmetric: an ancestor of a target does not descend from it.
pub is_descendant_of-asymm :
    (t a : GovernanceTarget) (author : Option Text)
    → is_descendant_of t a author ≡ some (ok true)
    → is_descendant_of a t author ≡ some (ok false)
is_descendant_of-asymm t a author h =
    let (pubkey, e) = ancestor-user t a author h in
    rw e (unfold is_descendant_of in descend-user 1 pubkey t author)
