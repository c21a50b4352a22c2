-- ===== src/Runtime/Stores/Mutes.antt =====
-- packages/runtime/src/stores.js: `TrustedMuteStore`. The clock is the time of the call.
pub mod Affected
pub mod Newest
use bitgate.Base.{
  ℕ, zero, suc, ◌+◌, ◌==◌, Bool, true, false, not, ◌&&◌, ◌||◌, Option, none, some, List, [], ◌∷◌,
  ◌++◌, map, filter, get_or, is_empty, length, ltb, nat_beq, if◌then◌else◌,
}
use bitgate.Base.Text.{Text, text_eq}
use bitgate.Base.Decimal.{decimal}
use bitgate.Base.Set.{add_all, of_list}
use bitgate.Base.Map.{Map, get, put, remove, values}
use bitgate.Core.Identifiers.{user_key}
use bitgate.Core.Fingerprint.Canonical.{
  Value, num, text, array, Values, nil, cons, dict, end, fingerprint, sort_entries, join_commas,
}
use bitgate.Core.Evaluator.Snapshot.{MuteRecord}
use bitgate.Nostr.Mutes.{MuteEntry, DecodedMuteList, to_mute_records}
use bitgate.Runtime.Stores.{Outcome, unchanged, emitting, evict_oldest}

pub record MuteStore : Type 0 where
  pub lists : Map Text DecodedMuteList
  pub window_seconds : ℕ
  pub max_lists : ℕ
  pub fingerprint : Text

pub record MuteChange : Type 0 where
  pub fingerprint : Text
  pub target_keys : List Text

abbrev pub empty_mute_store : ℕ → ℕ → MuteStore
empty_mute_store window_seconds max_lists = record {
  lists = [];
  window_seconds = window_seconds;
  max_lists = max_lists;
  fingerprint = fingerprint (dict end);
}

-- [owner, updatedAt, entries.length] for each list, under the text by which `sort()` orders arrays.
unfoldable pub described : List DecodedMuteList → Map Text Value
described [] = []
described (list ∷ lists) =
    (
      join_commas (list.owner ∷ decimal list.updated_at ∷ decimal (length list.entries) ∷ []),
      array (
          cons (text list.owner)
            (cons (num list.updated_at) (cons (num (length list.entries)) nil))),
    )
    ∷ described lists

abbrev values_of : Map Text Value → Values
values_of [] = nil
values_of ((key, value) ∷ rest) = cons value (values_of rest)

-- `#emitChange(targetKeys)`, on the lists as they are then
unfoldable pub emit_change :
    MuteStore → Map Text DecodedMuteList → List Text → Outcome MuteStore MuteChange
unfolding described
emit_change store lists target_keys =
    let next = fingerprint (array (values_of (sort_entries (described (values lists))))) in
    emitting
      (record {
        lists = lists;
        window_seconds = store.window_seconds;
        max_lists = store.max_lists;
        fingerprint = next;
      })
      (record { fingerprint = next; target_keys = target_keys })

abbrev pub entry_keys : List MuteEntry → List Text
entry_keys [] = []
entry_keys (entry ∷ entries) = user_key entry.pubkey ∷ entry_keys entries

abbrev pub entries_of : Option DecodedMuteList → List MuteEntry
entries_of none = []
entries_of (some list) = list.entries

-- `existing && existing.updatedAt > list.updatedAt`
abbrev pub is_outdated : Option DecodedMuteList → DecodedMuteList → Bool
is_outdated none list = false
is_outdated (some existing) list = ltb list.updated_at existing.updated_at

-- The keys that a replacement may change.
abbrev pub affected_keys : Option DecodedMuteList → DecodedMuteList → List Text
affected_keys existing list =
    add_all (add_all [] (entry_keys (entries_of existing))) (entry_keys list.entries)

-- The list as the store keeps it.
abbrev pub stored : DecodedMuteList → DecodedMuteList
stored list = record {
  owner = list.owner;
  updated_at = list.updated_at;
  entries = list.entries;
  has_encrypted_entries = false;
}

unfoldable pub replace_list : MuteStore → DecodedMuteList → Outcome MuteStore MuteChange
unfolding emit_change evict_oldest
replace_list store list =
    let existing = get store.lists list.owner in
    if is_empty list.owner
    then unchanged store
    else if is_outdated existing list
    then unchanged store
    else emit_change store
        (evict_oldest store.max_lists list.owner (put store.lists list.owner (stored list)))
        (affected_keys existing list)

-- `list.updatedAt < now - windowSeconds`
abbrev pub is_expired : MuteStore → ℕ → DecodedMuteList → Bool
is_expired store now list = ltb (list.updated_at + store.window_seconds) now

unfoldable pub kept_lists : MuteStore → ℕ → Map Text DecodedMuteList → Map Text DecodedMuteList
kept_lists store now [] = []
kept_lists store now ((owner, list) ∷ lists) =
    let rest = kept_lists store now lists in
    if is_expired store now list then rest else (owner, list) ∷ rest

-- The keys of the entries of the lists that are pruned.
unfoldable pub pruned_keys : MuteStore → ℕ → List Text → Map Text DecodedMuteList → List Text
pruned_keys store now affected [] = affected
pruned_keys store now affected ((owner, list) ∷ lists) =
    pruned_keys store now
      (if is_expired store now list then add_all affected (entry_keys list.entries) else affected)
      lists

unfoldable pub pruned_count : MuteStore → ℕ → Map Text DecodedMuteList → ℕ
pruned_count store now [] = 0
pruned_count store now ((owner, list) ∷ lists) =
    let rest = pruned_count store now lists in if is_expired store now list then suc rest else rest

-- The outcome, and the number that `prune` returns.
unfoldable pub prune : MuteStore → ℕ → Outcome MuteStore MuteChange × ℕ
unfolding kept_lists pruned_keys pruned_count emit_change
prune store now =
    let pruned = pruned_count store now store.lists in
    if nat_beq store.window_seconds 0
    then (unchanged store, 0)
    else if nat_beq pruned 0
    then (unchanged store, 0)
    else (
      emit_change store (kept_lists store now store.lists) (pruned_keys store now [] store.lists),
      pruned,
    )

unfoldable pub to_record_map : MuteStore → Map Text (List MuteRecord)
unfolding to_mute_records
to_record_map store = to_mute_records (map stored (values store.lists))

unfoldable pub count_each : Map Text (List MuteRecord) → Map Text ℕ → List Text → Map Text ℕ
count_each records counts [] = counts
count_each records counts (pubkey ∷ pubkeys) =
    count_each records (put counts pubkey (length (get_or (get records (user_key pubkey)) [])))
      pubkeys

unfoldable pub counts_for_authors : MuteStore → List Text → Map Text ℕ
unfolding to_record_map count_each
counts_for_authors store pubkeys = count_each (to_record_map store) [] pubkeys
