-- ===== src/Core/Policy/Profile.antt =====
-- policy.js: profiles and policies, their normalization and lookup.
-- A `Raw…` record is what an application hands over. A raw number is not finite, negative, or a
-- finite number that is not negative, given by its floor. Gates with unknown names are carried by
-- the code and never read; the model leaves them out.
pub mod Normalize
pub mod Accepted
pub mod Named
pub mod Definition
use bitgate.Base.{
  ℕ, ◌≡◌, ◌==◌, ◌||◌, Bool, true, false, not, Option, none, some, List, [], ◌∷◌, is_empty, is_some,
  if◌then◌else◌, get_or, Result, ok, err, ◌>>=◌, ◌>>◌, guard, invalid_effect, negative_threshold,
  negative_window, invalid_ceiling, name_required, id_required, version_required, no_profiles,
  unknown_default, unknown_profile,
}
use bitgate.Base.Text.{Text, codes, text_eq, trim, to_lower_case}
use bitgate.Base.Map.{Map, get, put, keys, has_key}
use bitgate.Core.Policy.Effects.{
  Dimension, ranking, visibility, interaction, transaction, Effect, effect_severity, restrict,
}
use bitgate.Core.Policy.Gates.{Gate, gate_eq, CategoryThresholds, DimensionEffects, no_effects}

pub data RawNumber : Type 0 where
  not_finite negative : RawNumber
  floor_to : ℕ → RawNumber

pub record PolicyProfile : Type 0 where
  pub name : Text
  pub administrative_deny : Option DimensionEffects
  pub viewer_block : Option DimensionEffects
  pub allowlist_miss : Option DimensionEffects
  pub require_allowlist : Bool
  pub allow_viewer_override : Bool
  pub expose_evidence : Bool
  pub bypass_hide : Bool
  pub bypass_hide_ceiling : Option Effect
  pub disabled : Bool
  pub reports : Map Text CategoryThresholds
  pub mutes : Map Text CategoryThresholds
  pub mute_window_seconds : Option ℕ

-- A missing flag is `none`. A thresholds entry that is no object is `none`.
pub record RawProfile : Type 0 where
  pub name : Option Text
  pub administrative_deny : Option DimensionEffects
  pub viewer_block : Option DimensionEffects
  pub allowlist_miss : Option DimensionEffects
  pub require_allowlist : Option Bool
  pub allow_viewer_override : Option Bool
  pub expose_evidence : Option Bool
  pub bypass_hide : Option Bool
  pub bypass_hide_ceiling : Option Effect
  pub disabled : Option Bool
  pub reports : Map Text (Option (Map Gate RawNumber))
  pub mutes : Map Text (Option (Map Gate RawNumber))
  pub mute_window_seconds : RawNumber

-- `if (value === undefined) continue; if (effectSeverity(…) < 0) throw …`
unfoldable pub check_effect : Dimension → Option Effect → Result (Option Effect)
check_effect dimension none = ok none
check_effect dimension (some value) = elim (effect_severity dimension value) [
  | none ↦ err invalid_effect
  | some severity ↦ ok (some value)
]

unfoldable pub normalize_dimension_effects : Option DimensionEffects → Result DimensionEffects
unfolding check_effect
normalize_dimension_effects none = ok no_effects
normalize_dimension_effects (some effects) = do
  r ← check_effect ranking effects.ranking
  v ← check_effect visibility effects.visibility
  i ← check_effect interaction effects.interaction
  t ← check_effect transaction effects.transaction
  ok (record { ranking = r; visibility = v; interaction = i; transaction = t })

-- The inner loop, over the gates of one category.
unfoldable pub normalize_gates : CategoryThresholds → Map Gate RawNumber → Result CategoryThresholds
normalize_gates entry [] = ok entry
normalize_gates entry ((gate, not_finite) ∷ config) = normalize_gates entry config
normalize_gates entry ((gate, negative) ∷ config) = err negative_threshold
normalize_gates entry ((gate, floor_to n) ∷ config) = normalize_gates (put entry gate n) config

unfoldable pub normalize_categories :
    Map Text CategoryThresholds
    → Map Text (Option (Map Gate RawNumber))
    → Result (Map Text CategoryThresholds)
unfolding normalize_gates
normalize_categories normalized [] = ok normalized
normalize_categories normalized ((category, none) ∷ rest) = normalize_categories normalized rest
normalize_categories normalized ((category, some config) ∷ rest) =
    let trimmed = to_lower_case (trim category) in
    elim (is_empty trimmed) [
      | true ↦ normalize_categories normalized rest
      | false ↦ elim (normalize_gates [] config) [
        | err e ↦ err e
        | ok entry ↦ normalize_categories (put normalized trimmed entry) rest
      ]
    ]

unfoldable pub normalize_category_thresholds :
    Map Text (Option (Map Gate RawNumber)) → Result (Map Text CategoryThresholds)
unfolding normalize_categories
normalize_category_thresholds thresholds = normalize_categories [] thresholds

abbrev normalize_window : RawNumber → Result (Option ℕ)
normalize_window not_finite = ok none
normalize_window negative = err negative_window
normalize_window (floor_to n) = ok (some n)

abbrev normalize_ceiling : Option Effect → Bool → Result (Option Effect)
normalize_ceiling none bypass_hide = ok (if bypass_hide then some restrict else none)
normalize_ceiling (some ceiling) bypass_hide = elim (effect_severity visibility ceiling) [
  | none ↦ err invalid_ceiling
  | some severity ↦ ok (some ceiling)
]

abbrev is_named : Option Text → Result Text
is_named none = err name_required
is_named (some name) = if is_empty (trim name) then err name_required else ok (trim name)

unfoldable pub normalize_policy_profile : RawProfile → Result PolicyProfile
unfolding normalize_dimension_effects normalize_category_thresholds
normalize_policy_profile profile = do
  name ← is_named profile.name
  administrative_deny ← normalize_dimension_effects profile.administrative_deny
  viewer_block ← normalize_dimension_effects profile.viewer_block
  allowlist_miss ← normalize_dimension_effects profile.allowlist_miss
  reports ← normalize_category_thresholds profile.reports
  mutes ← normalize_category_thresholds profile.mutes
  window ← normalize_window profile.mute_window_seconds
  ceiling ← normalize_ceiling profile.bypass_hide_ceiling (get_or profile.bypass_hide false)
  ok (record {
    name = name;
    administrative_deny = some administrative_deny;
    viewer_block = some viewer_block;
    allowlist_miss = some allowlist_miss;
    require_allowlist = get_or profile.require_allowlist false;
    allow_viewer_override = get_or profile.allow_viewer_override true;
    expose_evidence = get_or profile.expose_evidence false;
    bypass_hide = get_or profile.bypass_hide false;
    bypass_hide_ceiling = ceiling;
    disabled = get_or profile.disabled false;
    reports = reports;
    mutes = mutes;
    mute_window_seconds = window;
  })

pub record PolicyDefinition : Type 0 where
  pub id : Text
  pub name : Text
  pub description : Text
  pub version : Text
  pub profiles : Map Text PolicyProfile
  pub default_profile : Option Text

pub record RawPolicy : Type 0 where
  pub id : Option Text
  pub name : Option Text
  pub description : Option Text
  pub version : Option Text
  pub profiles : Map Text RawProfile
  pub default_profile : Option Text

-- `{ ...profile, name: profile?.name ?? key }`
unfoldable pub normalize_profiles :
    Map Text PolicyProfile → Map Text RawProfile → Result (Map Text PolicyProfile)
unfolding normalize_policy_profile
normalize_profiles profiles [] = ok profiles
normalize_profiles profiles ((key, profile) ∷ rest) =
    elim (normalize_policy_profile (record profile { name = some (get_or profile.name key) })) [
      | err e ↦ err e
      | ok normalized ↦ normalize_profiles (put profiles (trim key) normalized) rest
    ]

-- The trimmed text, or "" where it is missing.
abbrev trimmed_or_empty : Option Text → Text
trimmed_or_empty text = trim (get_or text [])

-- The first key of an object, if it has one.
abbrev first_key {ℓ} : {V : Type ℓ} → Map Text V → Option Text
first_key [] = none
first_key ((key, value) ∷ rest) = some key

-- `policy.defaultProfile?.trim() || profileNames[0]`
abbrev chosen_default : Option Text → Text → Text
chosen_default requested first =
    if is_empty (trimmed_or_empty requested) then first else trimmed_or_empty requested

abbrev with_default : Map Text PolicyProfile → Option Text → Result Text
with_default profiles requested = elim (first_key profiles) [
  | none ↦ err no_profiles
  | some first ↦
      if has_key profiles (chosen_default requested first)
      then ok (chosen_default requested first)
      else err unknown_default
]

unfoldable pub normalize_policy_definition : RawPolicy → Result PolicyDefinition
unfolding normalize_profiles
normalize_policy_definition policy = do
  guard (not (is_empty (trimmed_or_empty policy.id))) id_required
  guard (not (is_empty (trimmed_or_empty policy.version))) version_required
  profiles ← normalize_profiles [] policy.profiles
  default_profile ← with_default profiles policy.default_profile
  ok (record {
    id = trimmed_or_empty policy.id;
    name =
        if is_empty (trimmed_or_empty policy.name)
        then trimmed_or_empty policy.id
        else trimmed_or_empty policy.name;
    description = get_or policy.description [];
    version = trimmed_or_empty policy.version;
    profiles = profiles;
    default_profile = some default_profile;
  })

-- `policy.profiles[name]` for an own property, else a throw
abbrev own_profile : PolicyDefinition → Text → Result PolicyProfile
own_profile policy name = elim (get policy.profiles name) [
  | none ↦ err unknown_profile
  | some profile ↦ ok profile
]

abbrev fallback_profile : PolicyDefinition → Option Text → Result PolicyProfile
fallback_profile policy (some name) = own_profile policy name
fallback_profile policy none = elim (first_key policy.profiles) [
  | none ↦ err unknown_profile
  | some name ↦ own_profile policy name
]

-- The argument is `context?.policyProfile`.
unfoldable pub resolve_profile : PolicyDefinition → Option Text → Result PolicyProfile
resolve_profile policy policy_profile =
    if is_empty (trimmed_or_empty policy_profile)
    then fallback_profile policy policy.default_profile
    else own_profile policy (trimmed_or_empty policy_profile)

-- `Object.hasOwn(table, "default") ? table.default : {}`
abbrev default_thresholds : Map Text CategoryThresholds → CategoryThresholds
default_thresholds table = get_or (get table (codes "default")) []

unfoldable pub resolve_thresholds : Map Text CategoryThresholds → Option Text → CategoryThresholds
resolve_thresholds table category =
    let normalized = to_lower_case (trim (get_or category [])) in
    if is_empty normalized then default_thresholds table else elim (get table normalized) [
      | some thresholds ↦ thresholds
      | none ↦ default_thresholds table
    ]
