-- ===== src/Runtime/Stores/Mutes/Affected.antt =====
-- packages/runtime/src/stores.js: the targets that a change of a `TrustedMuteStore` names.
use bitgate.Base.{
  ℕ, ◌≡◌, ◌==◌, refl, sym, ◌∙◌, inl, inr, Bool, false, none, List, [], ◌∷◌, map, arith, any, get_or,
  is_empty, nat_beq, Bool-cases,
}
use bitgate.Base.Text.{Text, text_eq}
use bitgate.Base.Set.{has, add_all, has-add_all}
use bitgate.Base.Map.{Map, get, put, values}
use bitgate.Core.Evaluator.Snapshot.{MuteRecord}
use bitgate.Nostr.Mutes.{MuteEntry, DecodedMuteList}
use bitgate.Nostr.Mutes.Records.{records_in, records_of, to_mute_records_lem}
use bitgate.Runtime.Stores.{evict_oldest, oldest_evicted}
use bitgate.Runtime.Stores.Mutes.{
  MuteStore, MuteChange, emit_change, entry_keys, entries_of, is_outdated, affected_keys, stored,
  replace_list, is_expired, kept_lists, pruned_keys, pruned_count, prune, to_record_map,
}

-- The records under a key as the evaluator reads them.
abbrev pub records_at : MuteStore → Text → List MuteRecord
records_at store key = get_or (get (to_record_map store) key) []

-- Whether a change names a key.
abbrev pub is_named : List MuteChange → Text → Bool
is_named changes key = any (λ change. has change.target_keys key) changes

records_in-none :
    (list : DecodedMuteList) (entries : List MuteEntry) (key : Text)
    → has (entry_keys entries) key ≡ false
    → records_in list entries key ≡ []
unfolding has
records_in-none list [] key h = refl
records_in-none list (entry ∷ entries) key h = ground (arith, records_in-none list entries key)

-- The records that the lists of a store give a key.
abbrev view : Map Text DecodedMuteList → Text → List MuteRecord
view lists key = records_of (map stored (values lists)) key

records_at-view : (store : MuteStore) (key : Text) → records_at store key ≡ view store.lists key
unfolding to_record_map
records_at-view store key = to_mute_records_lem (map stored (values store.lists)) key

view-put :
    (lists : Map Text DecodedMuteList) (owner key : Text) (list : DecodedMuteList)
    → has (entry_keys (entries_of (get lists owner))) key ≡ false
    → has (entry_keys list.entries) key ≡ false
    → view (put lists owner list) key ≡ view lists key
unfolding get put values
view-put [] owner key list h k = rw (records_in-none (stored list) list.entries key k) refl
view-put ((j, old) ∷ lists) owner key list h k = elim (Bool-cases (j == owner)) [
  | inl e ↦
      let none_before : records_in (stored old) old.entries key ≡ [] =
        records_in-none (stored old) old.entries key (ground (arith, h, e)) in
      rw (e, none_before, records_in-none (stored list) list.entries key k) refl
  | inr e ↦ rw (e, view-put lists owner key list (ground (arith, h, e)) k) refl
]

view-kept :
    (store : MuteStore) (now : ℕ) (affected : List Text) (lists : Map Text DecodedMuteList)
    (key : Text)
    → has (pruned_keys store now affected lists) key ≡ false
    → (has affected key ≡ false) × (view (kept_lists store now lists) key ≡ view lists key)
unfolding pruned_keys kept_lists values
view-kept store now affected [] key h = (h, refl)
view-kept store now affected ((owner, list) ∷ lists) key h =
    elim (Bool-cases (is_expired store now list)) [
      | inl e ↦
          let (before, same) =
            view-kept store now (add_all affected (entry_keys list.entries)) lists key
              (ground (arith, h, e)) in
          let parts = has-add_all affected (entry_keys list.entries) key in
          (
            ground (arith, before, parts),
            rw (e, records_in-none (stored list) list.entries key (ground (arith, before, parts)))
                same,
          )
      | inr e ↦
          let (before, same) = view-kept store now affected lists key (ground (arith, h, e)) in
          (before, rw (e, same) refl)
    ]

records_at_of_view :
    (before after : MuteStore) (key : Text)
    → view after.lists key ≡ view before.lists key
    → records_at after key ≡ records_at before key
records_at_of_view before after key h =
    records_at-view after key ∙ h ∙ sym (records_at-view before key)

view-replace_list :
    (store : MuteStore) (list : DecodedMuteList) (key : Text)
    → oldest_evicted store.max_lists list.owner (put store.lists list.owner (stored list)) ≡ none
    → is_named (replace_list store list).changes key ≡ false
    → view (replace_list store list).store.lists key ≡ view store.lists key
unfolding replace_list emit_change evict_oldest
view-replace_list store list key kept unnamed = elim (Bool-cases (is_empty list.owner)) [
  | inl e ↦ rw e refl
  | inr e ↦ elim (Bool-cases (is_outdated (get store.lists list.owner) list)) [
    | inl o ↦ rw (e, o) refl
    | inr o ↦
        let named : has (affected_keys (get store.lists list.owner) list) key ≡ false =
          ground (arith, unnamed, e, o) in
        let before = add_all [] (entry_keys (entries_of (get store.lists list.owner))) in
        let parts = has-add_all before (entry_keys list.entries) key in
        let old = has-add_all [] (entry_keys (entries_of (get store.lists list.owner))) key in
        rw (e, o, kept)
          (view-put store.lists list.owner key (stored list) (ground (arith, named, parts, old))
            (ground (arith, named, parts)))
  ]
]

view-prune :
    (store : MuteStore) (now : ℕ) (key : Text)
    → is_named (prune store now).0.changes key ≡ false
    → view (prune store now).0.store.lists key ≡ view store.lists key
unfolding prune emit_change
view-prune store now key unnamed = elim (Bool-cases (nat_beq store.window_seconds 0)) [
  | inl e ↦ rw e refl
  | inr e ↦ elim (Bool-cases (nat_beq (pruned_count store now store.lists) 0)) [
    | inl o ↦ rw (e, o) refl
    | inr o ↦ rw (e, o) (view-kept store now [] store.lists key (ground (arith, unnamed, e, o))).1
  ]
]

-- A target whose key a replacement does not name keeps its mute records, if no list is evicted.
pub replace_list-covers :
    (store : MuteStore) (list : DecodedMuteList) (key : Text)
    → oldest_evicted store.max_lists list.owner (put store.lists list.owner (stored list)) ≡ none
    → is_named (replace_list store list).changes key ≡ false
    → records_at (replace_list store list).store key ≡ records_at store key
replace_list-covers store list key none_evicted unnamed =
    records_at_of_view store (replace_list store list).store key
      (view-replace_list store list key none_evicted unnamed)

-- A target whose key a pruning does not name keeps its mute records.
pub prune-covers :
    (store : MuteStore) (now : ℕ) (key : Text)
    → is_named (prune store now).0.changes key ≡ false
    → records_at (prune store now).0.store key ≡ records_at store key
prune-covers store now key unnamed =
    records_at_of_view store (prune store now).0.store key (view-prune store now key unnamed)
