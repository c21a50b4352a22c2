-- ===== src/Runtime/Stores/Eviction.antt =====
-- packages/runtime/src/stores.js: the eviction of the oldest entry of a store.
use bitgate.Base.{
  ℕ, ◌<◌, ◌≤◌, ◌≡◌, ◌==◌, refl, Bool, false, Option, none, some, [], ◌∷◌, arith, length,
  if◌then◌else◌,
}
use bitgate.Base.Text.{Text, text_eq, text_beq_iff}
use bitgate.Base.Map.{Map, get, put, remove, get-remove, length-put}
use bitgate.Runtime.Stores.{drop_key, oldest_evicted, evict_oldest}

pub length-remove {ℓ} : {V : Type ℓ} (m : Map Text V) (k : Text) → length (remove m k) ≤ length m
unfolding remove
length-remove [] k = omega arith
length-remove ((j, v) ∷ m) k = ground (arith, length-remove m k)

abbrev is_at : Option Text → Text → Bool
is_at none k = false
is_at (some oldest) k = oldest == k

-- Whether the entry of a key is the one that is evicted.
abbrev pub is_evicted {ℓ} : {V : Type ℓ} → ℕ → Text → Map Text V → Text → Bool
is_evicted max key m k = is_at (oldest_evicted max key m) k

get-drop_key {ℓ} :
    {V : Type ℓ} (m : Map Text V) (o : Option Text) (k : Text)
    → get (drop_key m o) k ≡ (if is_at o k then none else get m k)
get-drop_key m none k = refl
get-drop_key m (some oldest) k = get-remove m oldest k

pub get-evict_oldest {ℓ} :
    {V : Type ℓ} (max : ℕ) (key : Text) (m : Map Text V) (k : Text)
    → get (evict_oldest max key m) k ≡ (if is_evicted max key m k then none else get m k)
unfolding evict_oldest
get-evict_oldest max key m k = get-drop_key m (oldest_evicted max key m) k

-- The key just written is not evicted.
pub is_evicted-key {ℓ} :
    {V : Type ℓ} (max : ℕ) (key : Text) (m : Map Text V) → is_evicted max key m key ≡ false
unfolding oldest_evicted
is_evicted-key max key [] = refl
is_evicted-key max key ((oldest, v) ∷ m) = ground arith

-- What a write and the eviction after it leave is within the bound, if what was there is.
pub evict_oldest-put {ℓ} :
    {V : Type ℓ} (max : ℕ) (m : Map Text V) (key : Text) (v : V)
    → 0 < max
    → length m ≤ max
    → length (evict_oldest max key (put m key v)) ≤ max
unfolding evict_oldest oldest_evicted put remove
evict_oldest-put max [] key v positive bound = ground arith
evict_oldest-put max ((oldest, w) ∷ m) key v positive bound =
    ground
      (arith, length-put m key v, length-remove (put m key v) oldest, text_beq_iff oldest oldest)

pub evict_oldest-none {ℓ} :
    {V : Type ℓ} (max : ℕ) (key : Text) (m : Map Text V)
    → oldest_evicted max key m ≡ none
    → evict_oldest max key m ≡ m
unfolding evict_oldest
evict_oldest-none max key m h = rw h refl
