-- ===== src/Nostr/Mutes/Entries.antt =====
-- packages/nostr/src/mutes.js: the entries of a decoded list.
use bitgate.Base.{
  ℕ, ◌≡◌, ◌==◌, refl, ap, ◌∙◌, inl, inr, true, false, ◌||◌, Option, none, some, List, [], ◌∷◌,
  arith, filter, map, get_or, is_empty, Bool-cases, All,
}
use bitgate.Base.Text.{Text, codes, text_eq, text_beq, text_beq_iff, trim, to_lower_case}
use bitgate.Base.Set.{has, IsUnique}
use bitgate.Core.Identifiers.Normal.{IsHexKey, is_hex64-not_empty}
use bitgate.Nostr.Nip19.{normalize_pubkey_input}
use bitgate.Nostr.Nip19.Forms.{IsHexKey-input, normalize_pubkey_input-IsHexKey}
use bitgate.Nostr.Replaceable.{NostrEvent, has_label, get_tags}
use bitgate.Nostr.Tags.{at, signed}
use bitgate.Nostr.Mutes.{
  MuteEntry, Opener, entry_of, extract_mute_category, read_entries, decode_mute_list,
  decode_private_mute_entries, encode_mute_list, mute_tag,
}

abbrev pub pubkeys_of : List MuteEntry → List Text
pubkeys_of entries = map (λ entry. entry.pubkey) entries

seen-not_read :
    (seen : List Text) (tags : List (List Text)) (b : Text)
    → has seen b ≡ true
    → has (pubkeys_of (read_entries seen tags)) b ≡ false
unfolding read_entries has
seen-not_read seen [] b h = refl
seen-not_read seen (tag ∷ tags) b h =
    let pubkey = normalize_pubkey_input (at tag 1) in
    ground (
      arith,
      seen-not_read seen tags b h,
      seen-not_read (pubkey ∷ seen) tags b,
      text_beq_iff pubkey b,
    )

-- Every entry of a decoded list names another key.
pub IsUnique-read_entries :
    (seen : List Text) (tags : List (List Text)) → IsUnique (pubkeys_of (read_entries seen tags))
unfolding read_entries has
IsUnique-read_entries seen [] = tt
IsUnique-read_entries seen (tag ∷ tags) =
    let pubkey = normalize_pubkey_input (at tag 1) in
    elim (Bool-cases (is_empty pubkey || has seen pubkey)) [
      | inl e ↦ rw e (IsUnique-read_entries seen tags)
      | inr e ↦ rw e (
        seen-not_read (pubkey ∷ seen) tags pubkey (ground (arith, text_beq_iff pubkey pubkey)),
        IsUnique-read_entries (pubkey ∷ seen) tags,
      )
    ]

-- Every key of a decoded list is in the form that the core uses.
pub read_entries-IsHexKey :
    (seen : List Text) (tags : List (List Text))
    → All (λ entry. IsHexKey entry.pubkey) (read_entries seen tags)
unfolding read_entries
read_entries-IsHexKey seen [] = tt
read_entries-IsHexKey seen (tag ∷ tags) =
    let pubkey = normalize_pubkey_input (at tag 1) in
    elim (Bool-cases (is_empty pubkey || has seen pubkey)) [
      | inl e ↦ rw e (read_entries-IsHexKey seen tags)
      | inr e ↦ rw e (
        IsHexKey-input (at tag 1) (ground (arith, e)),
        read_entries-IsHexKey (pubkey ∷ seen) tags,
      )
    ]

-- A list of another account gives no private entries, whatever its content decrypts to.
pub decode_private_mute_entries-own :
    (event : NostrEvent) (viewer : Text) (opener : Opener)
    → (normalize_pubkey_input event.pubkey == normalize_pubkey_input viewer) ≡ false
    → decode_private_mute_entries event viewer opener ≡ []
unfolding decode_private_mute_entries
decode_private_mute_entries-own event viewer opener h = ground (arith, h)

-- A category that is not blank, trimmed and in lower case, or none.
abbrev pub IsCategory : Option Text → Type 0
IsCategory none = Unit
IsCategory (some c) = (is_empty c ≡ false) × (to_lower_case c ≡ c) × (trim c ≡ c)

entry_of-mute_tag :
    (p : Text) (o : Option Text)
    → IsCategory o
    → entry_of p (extract_mute_category (mute_tag (record { pubkey = p; category = o })))
      ≡ record { pubkey = p; category = o }
unfolding extract_mute_category trim to_lower_case
entry_of-mute_tag p none c = refl
entry_of-mute_tag p (some name) (filled, lower, trimmed) =
    rw filled (rw (trimmed, lower, filled) (rw filled refl))

at-mute_tag : (entry : MuteEntry) → at (mute_tag entry) 1 ≡ entry.pubkey
at-mute_tag entry = elim (Bool-cases (is_empty (get_or entry.category []))) [
  | inl e ↦ rw e refl
  | inr e ↦ rw e refl
]

fresh_cons :
    (seen : List Text) (p : Text) (entries : List MuteEntry)
    → All (λ entry. has seen entry.pubkey ≡ false) entries
    → has (pubkeys_of entries) p ≡ false
    → All (λ entry. has (p ∷ seen) entry.pubkey ≡ false) entries
unfolding has
fresh_cons seen p [] h u = tt
fresh_cons seen p (entry ∷ entries) (n, h) u = (
  ground (arith, n, u, text_beq_iff entry.pubkey p, text_beq_iff p entry.pubkey),
  fresh_cons seen p entries h (ground arith),
)

read_entries-mute_tag :
    (seen : List Text) (entries : List MuteEntry)
    → All (λ entry. IsHexKey entry.pubkey × IsCategory entry.category) entries
    → All (λ entry. has seen entry.pubkey ≡ false) entries
    → IsUnique (pubkeys_of entries)
    → read_entries seen (map mute_tag entries) ≡ entries
unfolding read_entries
read_entries-mute_tag seen [] h fresh u = refl
read_entries-mute_tag seen (entry ∷ entries) ((k, c), h) (n, fresh) (u, us) =
    let same : normalize_pubkey_input (at (mute_tag entry) 1) ≡ entry.pubkey =
      ap normalize_pubkey_input (at-mute_tag entry)
      ∙ normalize_pubkey_input-IsHexKey entry.pubkey k in
    rw
      (
        same,
        is_hex64-not_empty entry.pubkey k.0,
        n,
        entry_of-mute_tag entry.pubkey entry.category c,
        read_entries-mute_tag (entry.pubkey ∷ seen) entries h
            (fresh_cons seen entry.pubkey entries fresh u) us,
      )
      refl

get_tags-mute_tag :
    (entries : List MuteEntry)
    → filter (has_label (codes "p")) (map mute_tag entries) ≡ map mute_tag entries
unfolding text_beq
get_tags-mute_tag [] = refl
get_tags-mute_tag (entry ∷ entries) = elim (Bool-cases (is_empty (get_or entry.category []))) [
  | inl e ↦ rw (e, get_tags-mute_tag entries) refl
  | inr e ↦ rw (e, get_tags-mute_tag entries) refl
]

nothing_seen : (entries : List MuteEntry) → All (λ entry. has [] entry.pubkey ≡ false) entries
unfolding has
nothing_seen [] = tt
nothing_seen (entry ∷ entries) = (refl, nothing_seen entries)

-- A mute list that was encoded and signed is decoded to its entries, if no key is there twice, the
-- keys are canonical and each category is missing or trimmed, not blank and in lower case.
pub decode_mute_list-encode :
    (entries : List MuteEntry) (owner id : Text) (created_at : ℕ)
    → IsHexKey owner
    → All (λ entry. IsHexKey entry.pubkey × IsCategory entry.category) entries
    → IsUnique (pubkeys_of entries)
    → decode_mute_list (signed (encode_mute_list entries) owner created_at id)
      ≡ some (record {
        owner = owner;
        updated_at = created_at;
        entries = entries;
        has_encrypted_entries = false;
      })
unfolding decode_mute_list encode_mute_list get_tags
decode_mute_list-encode entries owner id created_at o h u =
    rw
      (
        normalize_pubkey_input-IsHexKey owner o,
        is_hex64-not_empty owner o.0,
        get_tags-mute_tag entries,
        read_entries-mute_tag [] entries h (nothing_seen entries) u,
      )
      refl
