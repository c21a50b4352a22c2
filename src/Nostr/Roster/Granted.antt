-- ===== src/Nostr/Roster/Granted.antt =====
-- packages/nostr/src/roster.js: where a role comes from.
use bitgate.Base.{
  ◌≡◌, ◌==◌, ◌⊎◌, refl, sym, arith, inl, inr, true, false, ◌&&◌, Option, none, some, List, [], ◌∷◌,
  filter, get_or, is_empty, if◌then◌else◌, Bool-cases,
}
use mathlib.Core.Path.{subst}
use bitgate.Base.Text.{Text, codes, text_eq}
use bitgate.Base.Set.{has}
use bitgate.Base.Map.{Map, get, put, values}
use bitgate.Nostr.Nip19.{normalize_pubkey_input}
use bitgate.Nostr.Replaceable.{NostrEvent, get_tag_value, get_tags}
use bitgate.Nostr.Tags.{at}
use bitgate.Nostr.Roster.{
  RosterSpec, RolesByKey, roles_at, grant, signer_role, holds_signer_role, is_authorized_signer,
  is_later, latest_by_publisher, grant_members, grant_sets, resolve_roster, resolve_rosters,
  is_role_set, resolve_authority_roster,
}
use bitgate.Nostr.Roster.Chain.{
  Among, IsSetOf, Granted, from_root, from_root_set, from_delegate, granted-cases, values-put-Among,
  Among-filter, authorized-cases,
}

module _ (root_pk root_role : Text) (rosters : List RosterSpec) (events : List NostrEvent) where
  abbrev May : Text → Text → Type 0
  May = Granted root_pk root_role rosters events

  -- Every role that is held may be held.
  abbrev IsSound : RolesByKey → Type 0
  IsSound actors = (pk role : Text) → has (roles_at actors pk) role ≡ true → May pk role

  -- A publisher that is authorized.
  abbrev MaySign : RosterSpec → NostrEvent → Type 0
  MaySign spec event =
      ((normalize_pubkey_input event.pubkey ≡ root_pk) × (is_empty root_pk ≡ false))
      ⊎ ((role : Text) × (signer_role spec ≡ some role)
          × May (normalize_pubkey_input event.pubkey) role)

  abbrev IsGrantingSet : RosterSpec → NostrEvent → Type 0
  IsGrantingSet spec event = Among event events × IsSetOf spec event × MaySign spec event

  grant-IsSound :
      (actors : RolesByKey) (pubkey role : Text)
      → IsSound actors
      → May (normalize_pubkey_input pubkey) role
      → IsSound (grant actors pubkey role)
  unfolding grant
  grant-IsSound actors pubkey role sound may pk r h =
      elim (granted-cases actors pubkey role pk r h) [
        | inl old ↦ sound pk r old
        | inr (p, q) ↦ subst (May pk) q (subst (λ k. May k role) p may)
      ]

  members-IsSound :
      (spec : RosterSpec) (event : NostrEvent) (actors : RolesByKey) (tags : List (List Text))
      → Among spec rosters
      → IsGrantingSet spec event
      → ((tag : List Text) → Among tag tags → Among tag (get_tags event (codes "p")))
      → IsSound actors
      → IsSound (grant_members actors spec.role tags)
  unfolding grant_members
  members-IsSound spec event actors [] s e inside sound = sound
  members-IsSound spec event actors (tag ∷ tags) s (among, set, sign) inside sound =
      members-IsSound spec event (grant actors (at tag 1) spec.role) tags s (among, set, sign)
        (λ t a. inside t (inr a))
        (grant-IsSound actors (at tag 1) spec.role sound (elim sign [
          | inl root ↦ from_root_set spec event tag s among set root (inside tag (inl refl))
          | inr (role, signer, may) ↦
              from_delegate spec event tag role s among set signer may (inside tag (inl refl))
        ]))

  sets-IsSound :
      (spec : RosterSpec) (actors : RolesByKey) (sets : List NostrEvent)
      → Among spec rosters
      → ((event : NostrEvent) → Among event sets → IsGrantingSet spec event)
      → IsSound actors
      → IsSound (grant_sets actors spec.role sets)
  unfolding grant_sets
  sets-IsSound spec actors [] s h sound = sound
  sets-IsSound spec actors (event ∷ sets) s h sound =
      sets-IsSound spec (grant_members actors spec.role (get_tags event (codes "p"))) sets s
        (λ e a. h e (inr a))
        (members-IsSound spec event actors (get_tags event (codes "p")) s (h event (inl refl))
          (λ t a. a) sound)

  nobody : IsSound []
  unfolding get has
  nobody pk role h = absurd (cc h)

  delegate-MaySign :
      (actors : RolesByKey) (spec : RosterSpec) (pk : Text) (signer : Option Text)
      → IsSound actors
      → signer_role spec ≡ signer
      → holds_signer_role actors pk signer ≡ true
      → (role : Text) × (signer_role spec ≡ some role) × May pk role
  delegate-MaySign actors spec pk none sound e h = absurd (cc h)
  delegate-MaySign actors spec pk (some role) sound e h = (role, e, sound pk role h)

  authorized-MaySign :
      (actors : RolesByKey) (spec : RosterSpec) (event : NostrEvent)
      → IsSound actors
      → is_authorized_signer root_pk actors spec event.pubkey ≡ true
      → MaySign spec event
  authorized-MaySign actors spec event sound h =
      elim (authorized-cases root_pk actors spec event.pubkey h) [
        | inl root ↦ inl root
        | inr holds ↦ inr (
            delegate-MaySign actors spec (normalize_pubkey_input event.pubkey) (signer_role spec)
              sound refl holds)
      ]

  latest-IsGrantingSet :
      (actors : RolesByKey) (spec : RosterSpec) (latest : Map Text NostrEvent)
      (sets : List NostrEvent)
      → IsSound actors
      → ((e : NostrEvent) → Among e sets → Among e events × (is_role_set e ≡ true))
      → ((e : NostrEvent) → Among e (values latest) → IsGrantingSet spec e)
      → (e : NostrEvent) → Among e (values (latest_by_publisher root_pk actors spec latest sets))
      → IsGrantingSet spec e
  unfolding latest_by_publisher
  latest-IsGrantingSet actors spec latest [] sound inside held e a = held e a
  latest-IsGrantingSet actors spec latest (event ∷ sets) sound inside held e a =
      let here = get_tag_value event (codes "d") == spec.identifier in
      let signs = is_authorized_signer root_pk actors spec event.pubkey in
      let later = is_later event (get latest event.pubkey) in
      latest-IsGrantingSet actors spec
        (if here && (signs && later) then put latest event.pubkey event else latest) sets sound
        (λ x b. inside x (inr b))
        (elim (Bool-cases (here && (signs && later))) [
          | inl t ↦
              subst
                (λ b.
                  (x : NostrEvent)
                  → Among x (values (if b then put latest event.pubkey event else latest))
                  → IsGrantingSet spec x)
                (sym t)
                (λ x b. elim (values-put-Among latest event.pubkey event x b) [
                  | inl same ↦ subst (IsGrantingSet spec) (sym same) (
                    (inside event (inl refl)).0,
                    ((inside event (inl refl)).1, ground (arith, t)),
                    authorized-MaySign actors spec event sound (ground (arith, t)),
                  )
                  | inr old ↦ held x old
                ])
          | inr f ↦
              subst
                (λ b.
                  (x : NostrEvent)
                  → Among x (values (if b then put latest event.pubkey event else latest))
                  → IsGrantingSet spec x)
                (sym f) held
        ])
        e a

  rosters-IsSound :
      (actors : RolesByKey) (specs : List RosterSpec) (sets : List NostrEvent)
      → ((spec : RosterSpec) → Among spec specs → Among spec rosters)
      → ((e : NostrEvent) → Among e sets → Among e events × (is_role_set e ≡ true))
      → IsSound actors
      → IsSound (resolve_rosters root_pk sets actors specs)
  unfolding resolve_rosters resolve_roster
  rosters-IsSound actors [] sets known inside sound = sound
  rosters-IsSound actors (spec ∷ specs) sets known inside sound =
      let latest = latest_by_publisher root_pk actors spec [] sets in
      rosters-IsSound (grant_sets actors spec.role (values latest)) specs sets
        (λ s a. known s (inr a)) inside
        (sets-IsSound spec actors (values latest) (known spec (inl refl))
          (latest-IsGrantingSet actors spec [] sets sound inside (unfold values in λ e a. absurd a))
          sound)

Granted-root :
    {root_pk root_role : Text} {rosters : List RosterSpec} {events : List NostrEvent}
    (pk role : Text)
    → Granted root_pk root_role rosters events pk role
    → is_empty root_pk ≡ false
Granted-root pk role (from_root n) = n
Granted-root pk role (from_root_set spec event tag s e i (same, n) t) = n
Granted-root pk role (from_delegate spec event tag r s e i d g t) =
    Granted-root (normalize_pubkey_input event.pubkey) r g

resolved-Granted :
    (events : List NostrEvent) (root root_role : Option Text) (rosters : List RosterSpec)
    (pk role : Text)
    → has (roles_at (resolve_authority_roster events root root_role rosters) pk) role ≡ true
    → Granted
        (normalize_pubkey_input (get_or root []))
        (get_or root_role (codes "super_admin"))
        rosters
        events
        pk
        role
unfolding resolve_authority_roster
resolved-Granted events root root_role rosters =
    let root_pk = normalize_pubkey_input (get_or root []) in
    let given = get_or root_role (codes "super_admin") in
    rosters-IsSound root_pk given rosters events
      (if is_empty root_pk then [] else grant [] root_pk given) rosters (filter is_role_set events)
      (λ s a. a) (λ e a. Among-filter is_role_set e events a)
      (elim (Bool-cases (is_empty root_pk)) [
        | inl n ↦ rw n (nobody root_pk given rosters events)
        | inr n ↦ rw n (
            grant-IsSound root_pk given rosters events [] root_pk given
              (nobody root_pk given rosters events) (from_root n))
      ])

-- Every role that an account holds was given to it by the root: it is the root's own, or a role set
-- of a roster names the account that the root published, or that an account published to whose
-- role the roster delegates and to which, in turn, the root gave that role. No role is
-- held where no root is given.
pub resolve_authority_roster-Granted :
    (events : List NostrEvent) (root root_role : Option Text) (rosters : List RosterSpec)
    (pk role : Text)
    → has (roles_at (resolve_authority_roster events root root_role rosters) pk) role ≡ true
    → Granted
        (normalize_pubkey_input (get_or root []))
        (get_or root_role (codes "super_admin"))
        rosters
        events
        pk
        role
      × (is_empty (normalize_pubkey_input (get_or root [])) ≡ false)
resolve_authority_roster-Granted events root root_role rosters pk role h =
    let granted = resolved-Granted events root root_role rosters pk role h in
    (granted, Granted-root pk role granted)
