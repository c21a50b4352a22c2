-- ===== src/Runtime/Stores/Mutes/Newest.antt =====
-- packages/runtime/src/stores.js: which lists a `TrustedMuteStore` holds.
use bitgate.Base.{
  ◌<◌, ◌≤◌, ◌≡◌, ◌==◌, Bool, false, none, some, arith, length, is_empty, if◌then◌else◌,
}
use bitgate.Base.Text.{Text, text_eq}
use bitgate.Base.Map.{get, put, get-put}
use bitgate.Nostr.Mutes.{DecodedMuteList}
use bitgate.Runtime.Stores.Eviction.{is_evicted, get-evict_oldest, evict_oldest-put}
use bitgate.Runtime.Stores.Mutes.{MuteStore, emit_change, is_outdated, stored, replace_list}

-- Whether a replacement evicts the list of an owner.
abbrev pub drops : MuteStore → DecodedMuteList → Text → Bool
drops store list owner =
    is_evicted store.max_lists list.owner (put store.lists list.owner (stored list)) owner

-- A list that is older than the one held for its owner changes nothing and emits nothing. Any other
-- list with an owner becomes the list of its owner, and the lists of all other owners stay, but for
-- the one that may be evicted.
pub replace_list_lem :
    (store : MuteStore) (list : DecodedMuteList) (owner : Text)
    → is_empty list.owner ≡ false
    → get (replace_list store list).store.lists owner ≡ (
        if is_outdated (get store.lists list.owner) list
        then get store.lists owner
        else if drops store list owner
        then none
        else if list.owner == owner
        then some (stored list)
        else get store.lists owner)
unfolding replace_list emit_change
replace_list_lem store list owner h = ground (
  arith,
  h,
  get-evict_oldest store.max_lists list.owner (put store.lists list.owner (stored list)) owner,
  get-put store.lists list.owner owner (stored list),
)

-- A store with a ceiling stays within it.
pub replace_list-bounded :
    (store : MuteStore) (list : DecodedMuteList)
    → 0 < store.max_lists
    → length store.lists ≤ store.max_lists
    → length (replace_list store list).store.lists ≤ store.max_lists
unfolding replace_list emit_change
replace_list-bounded store list positive bound =
    ground
      (arith, evict_oldest-put store.max_lists store.lists list.owner (stored list) positive bound)
