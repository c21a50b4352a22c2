-- ===== src/Runtime/Stores.antt =====
-- packages/runtime/src/stores.js: the stores. An operation gives the new store and the details of
-- the "change" events that it emits, in their order; the store does not read what the listeners do.
pub mod Admin
pub mod Eviction
pub mod Reports
pub mod Trust
pub mod Policies
pub mod Overrides
pub mod Mutes
use bitgate.Base.{
  ℕ, suc, ◌==◌, not, ◌&&◌, Option, none, some, List, [], ◌∷◌, length, ltb, if◌then◌else◌,
}
use bitgate.Base.Text.{Text, text_eq}
use bitgate.Base.Map.{Map, remove}

pub record Outcome {ℓ κ} (S : Type ℓ) (D : Type κ) : Type (ℓ ⊔ κ) where
  pub store : S
  pub changes : List D

-- An early return.
abbrev pub unchanged {ℓ κ} : {S : Type ℓ} {D : Type κ} → S → Outcome S D
unchanged s = record { store = s; changes = [] }

-- `this.emit("change", detail)` as the last statement
abbrev pub emitting {ℓ κ} : {S : Type ℓ} {D : Type κ} → S → D → Outcome S D
emitting s detail = record { store = s; changes = detail ∷ [] }

-- `max > 0 && map.size > max`, and an oldest key that is not the one just written.
unfoldable pub oldest_evicted {ℓ} : {V : Type ℓ} → ℕ → Text → Map Text V → Option Text
oldest_evicted max key [] = none
oldest_evicted max key ((oldest, value) ∷ m) =
    if (ltb 0 max && ltb max (suc (length m))) && not (oldest == key) then some oldest else none

abbrev pub drop_key {ℓ} : {V : Type ℓ} → Map Text V → Option Text → Map Text V
drop_key m none = m
drop_key m (some oldest) = remove m oldest

-- The eviction at the end of `ingest` and of `replaceList`.
unfoldable pub evict_oldest {ℓ} : {V : Type ℓ} → ℕ → Text → Map Text V → Map Text V
unfolding oldest_evicted
evict_oldest max key m = drop_key m (oldest_evicted max key m)
