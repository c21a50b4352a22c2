-- ===== src/Core/Authority/Roster.antt =====
-- authority.js: the root and the protected actors of `createAuthorityState`.
use bitgate.Base.{
  ◌≡◌, ◌≢◌, refl, ap, ◌∙◌, ◌==◌, ==-refl, true, false, not, ◌&&◌, ◌||◌, Option, some, List, [], ◌∷◌,
  map, arith, any, is_empty, filter, Bool-cases, inl, inr,
}
use bitgate.Base.Text.{Text, text_eq, text_beq_iff}
use bitgate.Base.Set.{has, of_list, has-add, has-of_list}
use bitgate.Base.Map.{Map}
use bitgate.Base.Sort.{has-sort}
use bitgate.Core.Identifiers.{normalize_pubkey}
use bitgate.Core.Authority.{
  Capability, capability_eq, is_governance_capability, read_root, read_protected,
  create_authority_state, has_capability, is_protected_actor,
}

has-filter-map :
    (pubkeys : List Text) (k : Text)
    → is_empty k ≡ false
    → has (filter (λ p. not (is_empty p)) (map normalize_pubkey pubkeys)) k
      ≡ any (λ p. normalize_pubkey p == k) pubkeys
unfolding has
has-filter-map [] k h = refl
has-filter-map (p ∷ ps) k h = elim (Bool-cases (is_empty (normalize_pubkey p))) [
  | inl e ↦ rw e (
      ground (
        arith,
        has-filter-map ps k h,
        text_beq_iff (normalize_pubkey p) k,
        ap (λ (t : Text). is_empty t) {x = normalize_pubkey p} {y = k},
      ))
  | inr e ↦ rw e (ground (arith, has-filter-map ps k h))
]

has-read_protected :
    (protected : List Text) (root k : Text)
    → is_empty k ≡ false
    → has (read_protected protected root) k
      ≡ (any (λ p. normalize_pubkey p == k) protected || root == k)
unfolding read_protected
has-read_protected protected root k h =
    let listed = filter (λ p. not (is_empty p)) (map normalize_pubkey protected) in
    ground (
      arith,
      has-add (of_list listed) root k,
      has-of_list listed k,
      has-filter-map protected k h,
      text_beq_iff root k,
      ap (λ (t : Text). is_empty t) {x = root} {y = k},
    )

-- Exactly the listed actors and the root are protected, in any spelling of their keys.
pub is_protected_actor_lem :
    (roles : Option (Map Text (List Capability))) (actors : Map Text (List Text))
    (protected : List Text) (root : Option Text) (pubkey : Text)
    → is_protected_actor pubkey (create_authority_state roles actors protected root) ≡ (
        not (is_empty (normalize_pubkey pubkey))
        && (any (λ p. normalize_pubkey p == normalize_pubkey pubkey) protected
            || read_root root == normalize_pubkey pubkey))
unfolding is_protected_actor create_authority_state
is_protected_actor_lem roles actors protected root pubkey =
    elim (Bool-cases (is_empty (normalize_pubkey pubkey))) [
      | inl e ↦ rw e
      | inr e ↦ rw e (
          has-sort (read_protected protected (read_root root)) (normalize_pubkey pubkey)
          ∙ has-read_protected protected (read_root root) (normalize_pubkey pubkey) e)
    ]

-- The root holds every known capability and is protected, whatever the roles, the actors and the
-- protected actors say.
root_governs :
    (roles : Option (Map Text (List Capability))) (actors : Map Text (List Text))
    (protected : List Text) (root pubkey : Text) (c : Capability)
    → normalize_pubkey pubkey ≡ normalize_pubkey root
    → normalize_pubkey root ≢ []
    → is_governance_capability c ≡ true
    → (has_capability pubkey c (create_authority_state roles actors protected (some root)) ≡ true)
      × (is_protected_actor pubkey (create_authority_state roles actors protected (some root))
          ≡ true)
root_governs roles actors protected root pubkey c same valid known = (
  unfold has_capability create_authority_state in
      rw (known, same, not_empty (normalize_pubkey root) valid)
        (ground (arith, ==-refl (normalize_pubkey root), not_empty (normalize_pubkey root) valid)),
  is_protected_actor_lem roles actors protected (some root) pubkey
      ∙ rw same (
          ground (arith, ==-refl (normalize_pubkey root), not_empty (normalize_pubkey root) valid)),
)
  where
    not_empty : (t : Text) → t ≢ [] → is_empty t ≡ false
    not_empty [] h = absurd (h refl)
    not_empty (c ∷ t) h = refl
