-- ===== src/Runtime/Stores/Overrides/Live.antt =====
-- packages/runtime/src/stores.js: `OverrideStore.toMap`.
use bitgate.Base.{ℕ, ◌≡◌, ◌∙◌, refl, Option, none, some, [], ◌∷◌, arith, if◌then◌else◌}
use bitgate.Base.Text.{Text, text_eq, text_beq_iff}
use bitgate.Base.Set.{IsUnique, has}
use bitgate.Base.Map.{Map, get, put, keys, get-put, has-keys}
use bitgate.Core.Evaluator.Snapshot.{Override}
use bitgate.Runtime.Stores.Overrides.{
  ExpiringOverride, OverrideStore, is_expired, live_override, live_from, to_map,
}

-- What is left of an override at a time.
abbrev pub live_at : ℕ → Option ExpiringOverride → Option Override
live_at now none = none
live_at now (some override) =
    if is_expired now override then none else some (live_override override)

abbrev or_else : Option Override → Option Override → Option Override
or_else none o = o
or_else (some override) o = some override

or_else-none : (o : Option Override) → or_else o none ≡ o
or_else-none none = refl
or_else-none (some override) = refl

get-live_from :
    (now : ℕ) (live : Map Text Override) (store : OverrideStore) (key : Text)
    → IsUnique (keys store)
    → get (live_from now live store) key ≡ or_else (live_at now (get store key)) (get live key)
unfolding live_from get keys has
get-live_from now live [] key u = refl
get-live_from now live ((k, override) ∷ store) key (n, u) = ground (
  arith,
  get-live_from now live store key u,
  get-live_from now (put live k (live_override override)) store key u,
  get-put live k key (live_override override),
  has-keys store key,
  text_beq_iff k key,
)

-- The map of a store whose keys are all different holds, at each time, the overrides that have not
-- expired, without their times.
pub to_map_lem :
    (store : OverrideStore) (now : ℕ) (key : Text)
    → IsUnique (keys store)
    → get (to_map store now) key ≡ live_at now (get store key)
unfolding to_map get
to_map_lem store now key u =
    get-live_from now [] store key u ∙ or_else-none (live_at now (get store key))
