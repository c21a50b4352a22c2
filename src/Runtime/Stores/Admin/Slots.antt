-- ===== src/Runtime/Stores/Admin/Slots.antt =====
-- packages/runtime/src/stores.js: `upsertContribution`, which keeps one contribution for an actor
-- and a kind.
use bitgate.Base.{
  ◌≡◌, ◌≢◌, refl, inl, inr, true, false, Option, none, some, List, [], ◌∷◌, ◌++◌, arith, find, any,
  any-append, get_or, ltb, if◌then◌else◌, Bool-cases, Option-cases,
}
use bitgate.Base.Text.{text_eq, text_beq_iff}
use bitgate.Core.Authority.{AuthorityState}
use bitgate.Core.AdminState.{Contribution}
use bitgate.Runtime.Stores.Admin.{
  kind_eq, kind_beq_iff, AdminStore, recompute, is_incomplete, same_slot, replace_slot, stamp_of,
  upserted, upsert_contribution,
}

same_slot_trans : (c d e : Contribution) → same_slot c d ≡ true → same_slot c e ≡ same_slot d e
unfolding same_slot
same_slot_trans c d e h =
    ground (arith, text_beq_iff d.actor c.actor, kind_beq_iff d.kind c.kind, h)

same_slot_self : (c : Contribution) → same_slot c c ≡ true
unfolding same_slot
same_slot_self c = ground (arith, text_beq_iff c.actor c.actor, kind_beq_iff c.kind c.kind)

same_slot_symm : (c d : Contribution) → same_slot c d ≡ same_slot d c
unfolding same_slot
same_slot_symm c d = ground (
  arith,
  text_beq_iff d.actor c.actor,
  text_beq_iff c.actor d.actor,
  kind_beq_iff d.kind c.kind,
  kind_beq_iff c.kind d.kind,
)

-- What `findIndex` finds after an entry was replaced.
find-replace :
    (entries : List Contribution) (c d e : Contribution)
    → find (same_slot c) entries ≡ some e
    → find (same_slot d) (replace_slot entries c)
      ≡ (if same_slot d c then some c else find (same_slot d) entries)
unfolding replace_slot
find-replace [] c d e h = cc
find-replace (entry ∷ entries) c d e h = ground (
  arith,
  find-replace entries c d e,
  same_slot_trans c entry d,
  same_slot_trans d c entry,
  same_slot_symm c d,
  same_slot_symm c entry,
  same_slot_symm d entry,
)

find-append :
    (entries : List Contribution) (c d : Contribution)
    → find (same_slot d) (entries ++ c ∷ []) ≡ elim (find (same_slot d) entries) [
      | none ↦ if same_slot d c then some c else none
      | some entry ↦ some entry
    ]
find-append [] c d = refl
find-append (entry ∷ entries) c d = ground (arith, find-append entries c d)

-- Two contributions of one slot find the same entry.
find_slot_eq :
    (entries : List Contribution) (c d : Contribution)
    → same_slot d c ≡ true
    → find (same_slot d) entries ≡ find (same_slot c) entries
find_slot_eq [] c d h = refl
find_slot_eq (entry ∷ entries) c d h =
    ground (arith, find_slot_eq entries c d h, same_slot_trans d c entry)

-- The newer of the entry that is there and the one that arrives.
abbrev pub newer : Option Contribution → Contribution → Contribution
newer none c = c
newer (some existing) c = if ltb (stamp_of c) (stamp_of existing) then existing else c

upserted_lem :
    (entries : List Contribution) (c d : Contribution)
    → is_incomplete c ≡ false
    → find (same_slot d) (get_or (upserted entries c) entries) ≡ (
        if same_slot d c
        then some (newer (find (same_slot d) entries) c)
        else find (same_slot d) entries)
unfolding upserted
upserted_lem entries c d h = elim (Option-cases (find (same_slot c) entries)) [
  | inl absent ↦ ground (arith, find-append entries c d, find_slot_eq entries c d)
  | inr (existing, present) ↦
      ground (arith, find-replace entries c d existing present, find_slot_eq entries c d)
]

recompute-contributions :
    (store : AdminStore) (authority : AuthorityState) (cs : List Contribution)
    → (recompute store authority cs).store.contributions ≡ cs
unfolding recompute
recompute-contributions store authority cs = ground arith

upsert-contributions :
    (store : AdminStore) (c : Contribution)
    → (upsert_contribution store c).store.contributions
      ≡ get_or (upserted store.contributions c) store.contributions
unfolding upsert_contribution
upsert-contributions store c = elim (Option-cases (upserted store.contributions c)) [
  | inl e ↦ rw e refl
  | inr (cs, e) ↦ rw e (recompute-contributions store store.authority cs)
]

-- After an upsert of a contribution with an actor and a kind, its slot holds the newer of the
-- entry that was there and the one that arrived, which wins a tie; every other slot holds what it
-- held.
pub upsert_contribution_lem :
    (store : AdminStore) (c d : Contribution)
    → is_incomplete c ≡ false
    → find (same_slot d) (upsert_contribution store c).store.contributions ≡ (
        if same_slot d c
        then some (newer (find (same_slot d) store.contributions) c)
        else find (same_slot d) store.contributions)
upsert_contribution_lem store c d h =
    rw (upsert-contributions store c) (upserted_lem store.contributions c d h)

newer_comm :
    (o : Option Contribution) (c d : Contribution)
    → stamp_of c ≢ stamp_of d
    → newer (some (newer o c)) d ≡ newer (some (newer o d)) c
newer_comm none c d h = ground arith
newer_comm (some existing) c d h = ground arith

-- Two contributions, each with an actor and a kind, of different times or of different slots, leave
-- the same in every slot whichever arrives first.
pub upsert_contribution_comm :
    (store : AdminStore) (c d e : Contribution)
    → is_incomplete c ≡ false
    → is_incomplete d ≡ false
    → (same_slot c d ≡ true → stamp_of c ≢ stamp_of d)
    → find
        (same_slot e)
        (upsert_contribution (upsert_contribution store c).store d).store.contributions
      ≡ find
          (same_slot e)
          (upsert_contribution (upsert_contribution store d).store c).store.contributions
upsert_contribution_comm store c d e hc hd differ = ground (
  arith,
  upsert_contribution_lem store c e hc,
  upsert_contribution_lem store d e hd,
  upsert_contribution_lem (upsert_contribution store c).store d e hd,
  upsert_contribution_lem (upsert_contribution store d).store c e hc,
  newer_comm (find (same_slot e) store.contributions) c d,
  same_slot_symm e c,
  same_slot_trans c e d,
)

-- One contribution for an actor and a kind.
abbrev pub OneEach : List Contribution → Type 0
OneEach [] = Unit
OneEach (c ∷ cs) = (any (same_slot c) cs ≡ false) × OneEach cs

OneEach-append :
    (cs : List Contribution) (c : Contribution)
    → OneEach cs
    → find (same_slot c) cs ≡ none
    → OneEach (cs ++ c ∷ [])
OneEach-append [] c u h = (refl, tt)
OneEach-append (d ∷ cs) c (n, u) h = (
  ground (arith, any-append (same_slot d) cs (c ∷ []), same_slot_symm c d),
  OneEach-append cs c u (ground arith),
)

any-replace :
    (cs : List Contribution) (c d : Contribution)
    → any (same_slot d) (replace_slot cs c) ≡ any (same_slot d) cs
unfolding replace_slot
any-replace [] c d = refl
any-replace (e ∷ cs) c d =
    ground
      (arith, any-replace cs c d, same_slot_trans c e d, same_slot_symm c d, same_slot_symm e d)

any_slot_eq :
    (cs : List Contribution) (c d : Contribution)
    → same_slot c d ≡ true
    → any (same_slot c) cs ≡ any (same_slot d) cs
any_slot_eq [] c d h = refl
any_slot_eq (e ∷ cs) c d h = ground (arith, any_slot_eq cs c d h, same_slot_trans c d e h)

OneEach-replace :
    (cs : List Contribution) (c : Contribution) → OneEach cs → OneEach (replace_slot cs c)
unfolding replace_slot
OneEach-replace [] c u = tt
OneEach-replace (d ∷ cs) c (n, u) = elim (Bool-cases (same_slot c d)) [
  | inl e ↦ rw e (rw (any_slot_eq cs c d e) n, u)
  | inr e ↦ rw e (rw (any-replace cs c d) n, OneEach-replace cs c u)
]

OneEach-upserted :
    (cs : List Contribution) (c : Contribution) → OneEach cs → OneEach (get_or (upserted cs c) cs)
unfolding upserted
OneEach-upserted cs c u = elim (Bool-cases (is_incomplete c)) [
  | inl e ↦ rw e u
  | inr e ↦ elim (Option-cases (find (same_slot c) cs)) [
    | inl absent ↦ rw (e, absent) (OneEach-append cs c u absent)
    | inr (existing, present) ↦ elim (Bool-cases (ltb (stamp_of c) (stamp_of existing))) [
      | inl older ↦ rw (e, present, older) u
      | inr not_older ↦ rw (e, present, not_older) (OneEach-replace cs c u)
    ]
  ]
]

-- An upsert keeps the contributions at one for each actor and kind.
pub upsert_contribution-OneEach :
    (store : AdminStore) (c : Contribution)
    → OneEach store.contributions
    → OneEach (upsert_contribution store c).store.contributions
upsert_contribution-OneEach store c u =
    rw (upsert-contributions store c) (OneEach-upserted store.contributions c u)
