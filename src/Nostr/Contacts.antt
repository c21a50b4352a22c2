-- ===== src/Nostr/Contacts.antt =====
-- packages/nostr/src/contacts.js: NIP-02 contact lists.
use bitgate.Base.{
  ℕ, true, false, not, ◌||◌, Option, none, some, List, [], ◌∷◌, get_or, is_empty, nat_beq,
  if◌then◌else◌, ◌≡◌, refl, arith, inl, inr, All, Bool-cases,
}
use bitgate.Base.Text.{Text, codes, text_eq, text_beq_iff, trim}
use bitgate.Base.Set.{has, IsUnique}
use bitgate.Base.Map.{Map, put}
use bitgate.Core.Identifiers.Normal.{IsHexKey}
use bitgate.Nostr.Nip19.{normalize_pubkey_input}
use bitgate.Nostr.Nip19.Forms.{IsHexKey-input}
use bitgate.Nostr.Replaceable.{NostrEvent, get_tags}
use bitgate.Nostr.Tags.{at, Template, pair_tag}

abbrev pub contact_list_kind : ℕ
contact_list_kind = 3

pub record DecodedContactList : Type 0 where
  pub owner : Text
  pub updated_at : ℕ
  pub contacts : List Text
  pub relay_hints : Map Text Text

-- The loop over the `p` tags, with the pubkeys seen so far: the contacts.
unfoldable pub read_contacts : List Text → List (List Text) → List Text
read_contacts seen [] = []
read_contacts seen (tag ∷ tags) =
    let pubkey = normalize_pubkey_input (at tag 1) in
    let skipped = read_contacts seen tags in
    let rest = read_contacts (pubkey ∷ seen) tags in
    if is_empty pubkey || has seen pubkey then skipped else pubkey ∷ rest

-- The same loop: the relay hints.
unfoldable pub read_hints : List Text → Map Text Text → List (List Text) → Map Text Text
read_hints seen hints [] = hints
read_hints seen hints (tag ∷ tags) =
    let pubkey = normalize_pubkey_input (at tag 1) in
    let hint = trim (at tag 2) in
    let skipped = read_hints seen hints tags in
    let rest =
      read_hints (pubkey ∷ seen) (if is_empty hint then hints else put hints pubkey hint) tags in
    if is_empty pubkey || has seen pubkey then skipped else rest

unfoldable pub decode_contact_list : NostrEvent → Option DecodedContactList
unfolding read_contacts read_hints
decode_contact_list event =
    let owner = normalize_pubkey_input event.pubkey in
    let tags = get_tags event (codes "p") in
    if not (nat_beq event.kind contact_list_kind) || is_empty owner
    then none
    else some (record {
      owner = owner;
      updated_at = event.created_at;
      contacts = read_contacts [] tags;
      relay_hints = read_hints [] [] tags;
    })

-- An entry to encode: a pubkey alone, or a pubkey with a relay and a pet name.
pub data ContactEntry : Type 0 where
  plain : Text → ContactEntry
  named : Text → Option Text → Option Text → ContactEntry

abbrev pub contact_key : ContactEntry → Text
contact_key (plain pubkey) = normalize_pubkey_input pubkey
contact_key (named pubkey relay petname) = normalize_pubkey_input pubkey

abbrev pub contact_tag : ContactEntry → List Text
contact_tag (plain pubkey) = pair_tag (codes "p") (normalize_pubkey_input pubkey)
contact_tag (named pubkey relay petname) =
    codes "p" ∷ normalize_pubkey_input pubkey ∷ get_or relay [] ∷ get_or petname [] ∷ []

unfoldable pub contact_tags : List ContactEntry → List (List Text)
contact_tags [] = []
contact_tags (entry ∷ entries) =
    let rest = contact_tags entries in
    if is_empty (contact_key entry) then rest else contact_tag entry ∷ rest

unfoldable pub encode_contact_list : List ContactEntry → Template
unfolding contact_tags
encode_contact_list entries = record {
  kind = contact_list_kind;
  content = [];
  tags = contact_tags entries;
}

seen-not_read :
    (seen : List Text) (tags : List (List Text)) (b : Text)
    → has seen b ≡ true
    → has (read_contacts seen tags) b ≡ false
unfolding read_contacts has
seen-not_read seen [] b h = refl
seen-not_read seen (tag ∷ tags) b h =
    let pubkey = normalize_pubkey_input (at tag 1) in
    ground (
      arith,
      seen-not_read seen tags b h,
      seen-not_read (pubkey ∷ seen) tags b,
      text_beq_iff pubkey b,
    )

-- The contacts that are read are canonical keys, and none is there twice.
pub read_contacts-AreKeys :
    (seen : List Text) (tags : List (List Text))
    → All IsHexKey (read_contacts seen tags) × IsUnique (read_contacts seen tags)
unfolding read_contacts has
read_contacts-AreKeys seen [] = (tt, tt)
read_contacts-AreKeys seen (tag ∷ tags) =
    let pubkey = normalize_pubkey_input (at tag 1) in
    elim (Bool-cases (is_empty pubkey || has seen pubkey)) [
      | inl e ↦ rw e (read_contacts-AreKeys seen tags)
      | inr e ↦
          let (keys, unique) = read_contacts-AreKeys (pubkey ∷ seen) tags in
          let fresh =
            seen-not_read (pubkey ∷ seen) tags pubkey
              (ground (arith, text_beq_iff pubkey pubkey)) in
          rw e ((IsHexKey-input (at tag 1) (ground (arith, e)), keys), (fresh, unique))
    ]
