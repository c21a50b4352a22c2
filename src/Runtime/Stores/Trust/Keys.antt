-- ===== src/Runtime/Stores/Trust/Keys.antt =====
-- packages/runtime/src/stores.js: the invariant of a `TrustGraphStore`, and when it emits.
use mathlib.Core.List.{Permᴰ}
use bitgate.Base.{◌≡◌, refl, inl, inr, List, [], ◌∷◌, arith, is_empty, Bool-cases, All, All-append}
use bitgate.Base.Text.{Text, codes, text_eq, text_beq_iff}
use bitgate.Base.Set.{has, add, IsUnique, IsUnique-add}
use bitgate.Core.Identifiers.{normalize_pubkey}
use bitgate.Core.Identifiers.Normal.{IsHexKey, normalize_pubkey-cases}
use bitgate.Core.Fingerprint.Canonical.{set, field, end}
use bitgate.Core.Fingerprint.Canonical.Order.{fingerprint-field, canonical_stringify-set}
use bitgate.Runtime.Stores.{Outcome}
use bitgate.Runtime.Stores.Trust.{
  TrustStore, compute_fingerprint, normalize_from, normalize_set, emit_if_changed, set_contacts,
  set_seeds, set_blocks, set_mutes, clear_viewer_state,
}

-- Canonical keys, each once.
abbrev pub AreKeys : List Text → Type 0
AreKeys keys = All IsHexKey keys × IsUnique keys

-- Four sets of keys, and their fingerprint.
abbrev pub IsTrust : TrustStore → Type 0
IsTrust store =
    AreKeys store.contacts
    × AreKeys store.seeds
    × AreKeys store.blocks
    × AreKeys store.mutes
    × (store.fingerprint ≡ compute_fingerprint store.contacts store.seeds store.blocks store.mutes)

AreKeys-add : (keys : List Text) (k : Text) → AreKeys keys → IsHexKey k → AreKeys (add keys k)
unfolding add
AreKeys-add keys k (h, u) hex = elim (Bool-cases (has keys k)) [
  | inl e ↦ rw e (h, u)
  | inr e ↦ (rw e (All-append IsHexKey keys (k ∷ []) h (hex, tt)), IsUnique-add keys k u)
]

AreKeys-normalize_from :
    (keys pubkeys : List Text) → AreKeys keys → AreKeys (normalize_from keys pubkeys)
unfolding normalize_from
AreKeys-normalize_from keys [] h = h
AreKeys-normalize_from keys (pubkey ∷ pubkeys) h = elim (normalize_pubkey-cases pubkey) [
  | inl e ↦ rw e (AreKeys-normalize_from keys pubkeys h)
  | inr k ↦ elim (Bool-cases (is_empty (normalize_pubkey pubkey))) [
    | inl e ↦ rw e (AreKeys-normalize_from keys pubkeys h)
    | inr e ↦ rw e (
        AreKeys-normalize_from (add keys (normalize_pubkey pubkey)) pubkeys
          (AreKeys-add keys (normalize_pubkey pubkey) h k))
  ]
]

AreKeys-normalize_set : (pubkeys : List Text) → AreKeys (normalize_set pubkeys)
unfolding normalize_set
AreKeys-normalize_set pubkeys = AreKeys-normalize_from [] pubkeys (tt, tt)

-- The operations of the store.
pub data TrustOperation : Type 0 where
  contacts seeds blocks mutes : List Text → TrustOperation
  clear : TrustOperation

unfoldable pub perform : TrustStore → TrustOperation → Outcome TrustStore Text
unfolding set_contacts set_seeds set_blocks set_mutes clear_viewer_state
perform store (contacts pubkeys) = set_contacts store pubkeys
perform store (seeds pubkeys) = set_seeds store pubkeys
perform store (blocks pubkeys) = set_blocks store pubkeys
perform store (mutes pubkeys) = set_mutes store pubkeys
perform store clear = clear_viewer_state store

-- Every operation keeps four sets of canonical keys, each key once, and their fingerprint.
pub perform-IsTrust :
    (store : TrustStore) (operation : TrustOperation)
    → IsTrust store
    → IsTrust (perform store operation).store
unfolding perform set_contacts set_seeds set_blocks set_mutes clear_viewer_state emit_if_changed
perform-IsTrust store (contacts pubkeys) (c, s, b, m, f) =
    (AreKeys-normalize_set pubkeys, s, b, m, refl)
perform-IsTrust store (seeds pubkeys) (c, s, b, m, f) =
    (c, AreKeys-normalize_set pubkeys, b, m, refl)
perform-IsTrust store (blocks pubkeys) (c, s, b, m, f) =
    (c, s, AreKeys-normalize_set pubkeys, m, refl)
perform-IsTrust store (mutes pubkeys) (c, s, b, m, f) =
    (c, s, b, AreKeys-normalize_set pubkeys, refl)
perform-IsTrust store clear (c, s, b, m, f) = ((tt, tt), s, (tt, tt), (tt, tt), refl)

compute_fingerprint-perm :
    (before after s b m : List Text)
    → Permᴰ before after
    → compute_fingerprint before s b m ≡ compute_fingerprint after s b m
unfolding compute_fingerprint
compute_fingerprint-perm before after s b m p =
    fingerprint-field (codes "contacts") (set before) (set after)
      (field (codes "seeds") (set s)
        (field (codes "blocks") (set b) (field (codes "mutes") (set m) end)))
      (canonical_stringify-set before after p)

-- Contacts that hold the same keys as before, in whatever order and spelling, emit nothing.
pub set_contacts_same :
    (store : TrustStore) (pubkeys : List Text)
    → IsTrust store
    → Permᴰ store.contacts (normalize_set pubkeys)
    → (set_contacts store pubkeys).changes ≡ []
unfolding set_contacts emit_if_changed
set_contacts_same store pubkeys (c, s, b, m, f) p = ground (
  arith,
  f,
  compute_fingerprint-perm store.contacts (normalize_set pubkeys) store.seeds store.blocks
      store.mutes p,
  text_beq_iff (compute_fingerprint (normalize_set pubkeys) store.seeds store.blocks store.mutes)
      store.fingerprint,
)
