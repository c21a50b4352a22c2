-- ===== src/Nostr/Roster/Chain.antt =====
-- packages/nostr/src/roster.js: chains of grants that start at the root.
use bitgate.Base.{
  ◌≡◌, ◌==◌, ◌⊎◌, ap, ◌∙◌, arith, inl, inr, Bool, true, false, some, List, [], ◌∷◌, filter,
  is_empty, if◌then◌else◌, Bool-cases,
}
use mathlib.Core.Path.{subst}
use bitgate.Base.Text.{Text, codes, text_eq, text_beq_iff}
use bitgate.Base.Set.{has, add, has-add}
use bitgate.Base.Map.{Map, put, values, get-put}
use bitgate.Nostr.Nip19.{normalize_pubkey_input}
use bitgate.Nostr.Replaceable.{NostrEvent, get_tag_value, get_tags}
use bitgate.Nostr.Tags.{at}
use bitgate.Nostr.Roster.{
  RosterSpec, RolesByKey, roles_at, grant, signer_role, holds_signer_role, is_authorized_signer,
  is_role_set,
}

abbrev pub Among : {A : Type 0} → A → List A → Type 0
Among a [] = ⊥
Among a (x ∷ xs) = (a ≡ x) ⊎ Among a xs

-- The event is a role set of the roster.
abbrev pub IsSetOf : RosterSpec → NostrEvent → Type 0
IsSetOf spec event =
    (is_role_set event ≡ true) × ((get_tag_value event (codes "d") == spec.identifier) ≡ true)

-- Who may hold which role: the root its role, and whoever a set names that the root published, or
-- an account that may hold the role to which the roster delegates.
pub data Granted (root_pk root_role : Text) (rosters : List RosterSpec) (events : List NostrEvent)
    : Text → Text → Type 0 where
  from_root :
      is_empty root_pk ≡ false
      → Granted root_pk root_role rosters events (normalize_pubkey_input root_pk) root_role
  from_root_set :
      (spec : RosterSpec) (event : NostrEvent) (tag : List Text)
      → Among spec rosters
      → Among event events
      → IsSetOf spec event
      → (normalize_pubkey_input event.pubkey ≡ root_pk) × (is_empty root_pk ≡ false)
      → Among tag (get_tags event (codes "p"))
      → Granted root_pk root_role rosters events (normalize_pubkey_input (at tag 1)) spec.role
  from_delegate :
      (spec : RosterSpec) (event : NostrEvent) (tag : List Text) (role : Text)
      → Among spec rosters
      → Among event events
      → IsSetOf spec event
      → signer_role spec ≡ some role
      → Granted root_pk root_role rosters events (normalize_pubkey_input event.pubkey) role
      → Among tag (get_tags event (codes "p"))
      → Granted root_pk root_role rosters events (normalize_pubkey_input (at tag 1)) spec.role

pub granted-cases :
    (actors : RolesByKey) (pubkey role pk r : Text)
    → has (roles_at (grant actors pubkey role) pk) r ≡ true
    → (has (roles_at actors pk) r ≡ true) ⊎ ((normalize_pubkey_input pubkey ≡ pk) × (role ≡ r))
unfolding grant
granted-cases actors pubkey role pk r h = ground (
  arith,
  get-put actors (normalize_pubkey_input pubkey) pk
      (add (roles_at actors (normalize_pubkey_input pubkey)) role),
  has-add (roles_at actors (normalize_pubkey_input pubkey)) role r,
  text_beq_iff (normalize_pubkey_input pubkey) pk,
  text_beq_iff role r,
)

pub values-put-Among :
    (latest : Map Text NostrEvent) (key : Text) (event e : NostrEvent)
    → Among e (values (put latest key event))
    → (e ≡ event) ⊎ Among e (values latest)
unfolding values put
values-put-Among [] key event e h = h
values-put-Among ((j, w) ∷ latest) key event e h = elim (Bool-cases (j == key)) [
  | inl t ↦ elim (subst (λ b. Among e (values (chosen b))) t h) [
    | inl same ↦ inl same
    | inr later ↦ inr (inr later)
  ]
  | inr f ↦ elim (subst (λ b. Among e (values (chosen b))) f h) [
    | inl same ↦ inr (inl same)
    | inr later ↦ elim (values-put-Among latest key event e later) [
      | inl new ↦ inl new
      | inr old ↦ inr (inr old)
    ]
  ]
]
  where
    chosen : Bool → Map Text NostrEvent
    chosen b = if b then (j, event) ∷ latest else (j, w) ∷ put latest key event

pub Among-filter :
    {A : Type 0} (p : A → Bool) (a : A) (xs : List A)
    → Among a (filter p xs)
    → Among a xs × (p a ≡ true)
Among-filter p a [] h = absurd h
Among-filter p a (x ∷ xs) h = elim (Bool-cases (p x)) [
  | inl e ↦ elim (subst (Among a) (ap (λ b. if b then x ∷ filter p xs else filter p xs) e) h) [
    | inl same ↦ (inl same, ap p same ∙ e)
    | inr later ↦ let (l, t) = Among-filter p a xs later in (inr l, t)
  ]
  | inr e ↦
      let (l, t) =
        Among-filter p a xs
          (subst (Among a) (ap (λ b. if b then x ∷ filter p xs else filter p xs) e) h) in
      (inr l, t)
]

pub authorized-cases :
    (root_pk : Text) (actors : RolesByKey) (spec : RosterSpec) (pubkey : Text)
    → is_authorized_signer root_pk actors spec pubkey ≡ true
    → ((normalize_pubkey_input pubkey ≡ root_pk) × (is_empty root_pk ≡ false))
      ⊎ (holds_signer_role actors (normalize_pubkey_input pubkey) (signer_role spec) ≡ true)
unfolding is_authorized_signer
authorized-cases root_pk actors spec pubkey h =
    elim (Bool-cases (normalize_pubkey_input pubkey == root_pk)) [
      | inl e ↦
          let same = (text_beq_iff (normalize_pubkey_input pubkey) root_pk).0 e in
          inl (same, subst (λ pk. is_empty pk ≡ false) same (ground (arith, h)))
      | inr e ↦
          inr
            (elim (Bool-cases
              (holds_signer_role actors (normalize_pubkey_input pubkey) (signer_role spec))) [
                | inl k ↦ k
                | inr k ↦ absurd (ground (arith, e, k, h))
              ])
    ]
