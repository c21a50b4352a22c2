-- ===== src/Nostr/Mutes/Records.antt =====
-- packages/nostr/src/mutes.js: `toMuteRecords`.
use bitgate.Base.{
  ◌≡◌, ◌==◌, refl, sym, ap, ◌∙◌, inl, inr, some, List, [], ◌∷◌, ◌++◌, arith, get_or, if◌then◌else◌,
  Bool-cases, append_assoc, append-nil,
}
use bitgate.Base.Text.{Text, text_eq, text_beq_iff}
use bitgate.Base.Map.{Map, get, get-put}
use bitgate.Core.Identifiers.{user_key}
use bitgate.Core.Evaluator.Snapshot.{MuteRecord}
use bitgate.Nostr.Mutes.{
  MuteEntry, DecodedMuteList, add_record, add_records, mute_records_from, to_mute_records,
}

-- The records of one list under a key, in the list's order.
abbrev pub records_in : DecodedMuteList → List MuteEntry → Text → List MuteRecord
records_in list [] key = []
records_in list (entry ∷ entries) key =
    let rest = records_in list entries key in
    if user_key entry.pubkey == key
    then record { muter = list.owner; category = entry.category; updated_at = some list.updated_at }
      ∷ rest
    else rest

-- The records of several lists under a key, list after list.
abbrev pub records_of : List DecodedMuteList → Text → List MuteRecord
records_of [] key = []
records_of (list ∷ lists) key = records_in list list.entries key ++ records_of lists key

get-add_record :
    (list : DecodedMuteList) (records : Map Text (List MuteRecord)) (entry : MuteEntry) (key : Text)
    → get_or (get (add_record list records entry) key) []
      ≡ get_or (get records key) [] ++ records_in list (entry ∷ []) key
unfolding add_record
get-add_record list records entry key = ground (
  arith,
  text_beq_iff (user_key entry.pubkey) key,
  append-nil (get_or (get records key) []),
  get-put records (user_key entry.pubkey) key (
      get_or (get records (user_key entry.pubkey)) []
      ++ record { muter = list.owner; category = entry.category; updated_at = some list.updated_at }
        ∷ []),
)

get-add_records :
    (list : DecodedMuteList) (records : Map Text (List MuteRecord)) (entries : List MuteEntry)
    (key : Text)
    → get_or (get (add_records list records entries) key) []
      ≡ get_or (get records key) [] ++ records_in list entries key
unfolding add_records
get-add_records list records [] key = sym (append-nil (get_or (get records key) []))
get-add_records list records (entry ∷ entries) key =
    rw
      (
        get-add_records list (add_record list records entry) entries key,
        get-add_record list records entry key,
      )
      (append_assoc (get_or (get records key) []) (records_in list (entry ∷ []) key)
          (records_in list entries key)
        ∙ ap (λ t. get_or (get records key) [] ++ t) (records_in_cons list entry entries key))
  where
    records_in_cons :
        (list : DecodedMuteList) (entry : MuteEntry) (entries : List MuteEntry) (key : Text)
        → records_in list (entry ∷ []) key ++ records_in list entries key
          ≡ records_in list (entry ∷ entries) key
    records_in_cons list entry entries key = elim (Bool-cases (user_key entry.pubkey == key)) [
      | inl e ↦ rw e refl
      | inr e ↦ rw e refl
    ]

get-mute_records_from :
    (records : Map Text (List MuteRecord)) (lists : List DecodedMuteList) (key : Text)
    → get_or (get (mute_records_from records lists) key) []
      ≡ get_or (get records key) [] ++ records_of lists key
unfolding mute_records_from
get-mute_records_from records [] key = sym (append-nil (get_or (get records key) []))
get-mute_records_from records (list ∷ lists) key =
    rw
      (
        get-mute_records_from (add_records list records list.entries) lists key,
        get-add_records list records list.entries key,
      )
      (append_assoc (get_or (get records key) []) (records_in list list.entries key)
        (records_of lists key))

-- Under each key stand the records of the entries that mute it, list after list and in the order
-- of each list.
pub to_mute_records_lem :
    (lists : List DecodedMuteList) (key : Text)
    → get_or (get (to_mute_records lists) key) [] ≡ records_of lists key
unfolding to_mute_records get
to_mute_records_lem lists key = get-mute_records_from [] lists key
