-- ===== src/Runtime/Stores/Overrides.antt =====
-- packages/runtime/src/stores.js: `OverrideStore`. The clock is the time of the call.
pub mod Live
use bitgate.Base.{
  ℕ, Bool, true, false, Option, none, some, List, [], ◌∷◌, is_empty, leb, if◌then◌else◌,
}
use bitgate.Base.Text.{Text, text_eq}
use bitgate.Base.Map.{Map, get, put, remove, has_key}
use bitgate.Core.Policy.Effects.{Effect}
use bitgate.Core.Evaluator.Snapshot.{Override}
use bitgate.Runtime.Stores.{Outcome, unchanged, emitting}

pub record ExpiringOverride : Type 0 where
  pub visibility : Effect
  pub reason : Option Text
  pub expires_at : Option ℕ

abbrev pub OverrideStore : Type 0
OverrideStore = Map Text ExpiringOverride

-- The detail of a change is the target's key, or none where all overrides are dropped.
unfoldable pub set : OverrideStore → Text → ExpiringOverride → Outcome OverrideStore (Option Text)
set store target_key override = emitting (put store target_key override) (some target_key)

unfoldable pub remove_override : OverrideStore → Text → Outcome OverrideStore (Option Text)
remove_override store target_key =
    if has_key store target_key
    then emitting (remove store target_key) (some target_key)
    else unchanged store

unfoldable pub clear_overrides : OverrideStore → Outcome OverrideStore (Option Text)
clear_overrides store = if is_empty store then unchanged store else emitting [] none

-- `override.expiresAt !== undefined && override.expiresAt <= now`
abbrev pub is_expired : ℕ → ExpiringOverride → Bool
is_expired now override = elim override.expires_at [ none ↦ false | some time ↦ leb time now ]

abbrev pub live_override : ExpiringOverride → Override
live_override override = record { visibility = override.visibility; reason = override.reason }

unfoldable pub live_from : ℕ → Map Text Override → OverrideStore → Map Text Override
live_from now live [] = live
live_from now live ((key, override) ∷ rest) =
    live_from now (if is_expired now override then live else put live key (live_override override))
      rest

unfoldable pub to_map : OverrideStore → ℕ → Map Text Override
unfolding live_from
to_map store now = live_from now [] store
