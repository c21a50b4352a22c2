-- ===== src/Nostr/Mutes.antt =====
-- packages/nostr/src/mutes.js: NIP-51 mute lists.
pub mod Entries
pub mod Records
use bitgate.Base.{
  ℕ, ◌+◌, ◌*◌, ◌==◌, Bool, true, false, not, ◌&&◌, ◌||◌, Option, none, some, List, [], ◌∷◌, ◌++◌,
  map, filter, get_or, is_empty, length, ltb, nat_beq, if◌then◌else◌,
}
use bitgate.Base.Text.{Text, codes, text_eq, trim, to_lower_case}
use bitgate.Base.Set.{has}
use bitgate.Base.Map.{Map, get, put}
use bitgate.Core.Identifiers.{user_key}
use bitgate.Core.Evaluator.Snapshot.{MuteRecord}
use bitgate.Nostr.Nip19.{normalize_pubkey_input}
use bitgate.Nostr.Replaceable.{NostrEvent, get_tags}
use bitgate.Nostr.Tags.{at, starts_with, Template}

abbrev pub mute_list_kind : ℕ
mute_list_kind = 10000

abbrev pub max_mute_content_bytes : ℕ
max_mute_content_bytes = 128 * 1024

unfoldable pub looks_like_relay : Text → Bool
unfolding starts_with
looks_like_relay lower =
    starts_with lower (codes "wss://")
    || (starts_with lower (codes "ws://")
        || (starts_with lower (codes "https://") || starts_with lower (codes "http://")))

unfoldable pub extract_mute_category : List Text → Text
unfolding looks_like_relay
extract_mute_category tag =
    let direct = to_lower_case (trim (at tag 3)) in
    let lower = to_lower_case (trim (at tag 2)) in
    if not (is_empty direct)
    then direct
    else if is_empty (trim (at tag 2))
    then []
    else if looks_like_relay lower
    then []
    else lower

pub record MuteEntry : Type 0 where
  pub pubkey : Text
  pub category : Option Text

pub record DecodedMuteList : Type 0 where
  pub owner : Text
  pub updated_at : ℕ
  pub entries : List MuteEntry
  pub has_encrypted_entries : Bool

-- `category ? { pubkey, category } : { pubkey }`
abbrev pub entry_of : Text → Text → MuteEntry
entry_of pubkey category = record {
  pubkey = pubkey;
  category = if is_empty category then none else some category;
}

-- The loop over the `p` tags, with the pubkeys seen so far.
unfoldable pub read_entries : List Text → List (List Text) → List MuteEntry
unfolding extract_mute_category
read_entries seen [] = []
read_entries seen (tag ∷ tags) =
    let pubkey = normalize_pubkey_input (at tag 1) in
    let skipped = read_entries seen tags in
    let rest = read_entries (pubkey ∷ seen) tags in
    if is_empty pubkey || has seen pubkey
    then skipped
    else entry_of pubkey (extract_mute_category tag) ∷ rest

unfoldable pub decode_mute_list : NostrEvent → Option DecodedMuteList
unfolding read_entries
decode_mute_list event =
    let owner = normalize_pubkey_input event.pubkey in
    if not (nat_beq event.kind mute_list_kind) || is_empty owner
    then none
    else some (record {
      owner = owner;
      updated_at = event.created_at;
      entries = read_entries [] (get_tags event (codes "p"));
      has_encrypted_entries = not (is_empty event.content);
    })

abbrev is_p_tag : List Text → Bool
is_p_tag tag = at tag 0 == codes "p"

-- The array of tags that a signer's decryption and `JSON.parse` give, or none where one of them
-- throws, no signer decrypts, or the value is no array.
abbrev pub Opener : Type 0
Opener = Text → Text → Option (List (List Text))

unfoldable pub decode_private_mute_entries : NostrEvent → Text → Opener → List MuteEntry
unfolding read_entries
decode_private_mute_entries event viewer_pubkey open_content =
    let owner = normalize_pubkey_input event.pubkey in
    let viewer = normalize_pubkey_input viewer_pubkey in
    let content = trim event.content in
    if not (nat_beq event.kind mute_list_kind)
    then []
    else if is_empty owner || (is_empty viewer || not (owner == viewer))
    then []
    else if is_empty content || ltb max_mute_content_bytes (length content)
    then []
    else read_entries [] (filter is_p_tag (get_or (open_content owner content) []))

-- One entry of a list, put under its key.
unfoldable pub add_record :
    DecodedMuteList → Map Text (List MuteRecord) → MuteEntry → Map Text (List MuteRecord)
add_record list records entry =
    let key = user_key entry.pubkey in
    put records key (
      get_or (get records key) []
      ++ record { muter = list.owner; category = entry.category; updated_at = some list.updated_at }
        ∷ [])

unfoldable pub add_records :
    DecodedMuteList → Map Text (List MuteRecord) → List MuteEntry → Map Text (List MuteRecord)
unfolding add_record
add_records list records [] = records
add_records list records (entry ∷ entries) =
    add_records list (add_record list records entry) entries

unfoldable pub mute_records_from :
    Map Text (List MuteRecord) → List DecodedMuteList → Map Text (List MuteRecord)
unfolding add_records
mute_records_from records [] = records
mute_records_from records (list ∷ lists) =
    mute_records_from (add_records list records list.entries) lists

unfoldable pub to_mute_records : List DecodedMuteList → Map Text (List MuteRecord)
unfolding mute_records_from
to_mute_records lists = mute_records_from [] lists

abbrev pub mute_tag : MuteEntry → List Text
mute_tag entry =
    if is_empty (get_or entry.category [])
    then codes "p" ∷ entry.pubkey ∷ []
    else codes "p" ∷ entry.pubkey ∷ [] ∷ get_or entry.category [] ∷ []

unfoldable pub encode_mute_list : List MuteEntry → Template
encode_mute_list entries = record {
  kind = mute_list_kind;
  content = [];
  tags = map mute_tag entries;
}
