-- ===== src/Core/Policy/Profile/Normalize.antt =====
-- policy.js: the normal form of profiles and `normalizePolicyProfile`.
use bitgate.Base.{
  ℕ, ◌≡◌, refl, ap, Bool, true, false, Option, none, some, is_empty, is_some, if◌then◌else◌, get_or,
  Result, ok, err, OkAll, OkAll->>=, invalid_effect, invalid_ceiling, name_required,
}
use bitgate.Base.Text.{Text, text_eq, trim}
use bitgate.Core.Policy.Effects.{
  Dimension, ranking, visibility, interaction, transaction, Effect, Effect-discrete,
  effect_severity, index_of,
}
use bitgate.Core.Policy.Effects.Order.{IsEffect}
use bitgate.Core.Policy.Gates.{DimensionEffects, no_effects}
use bitgate.Core.Policy.Profile.{
  PolicyProfile, RawProfile, is_named, normalize_ceiling, normalize_window,
  normalize_category_thresholds, check_effect, normalize_dimension_effects,
  normalize_policy_profile,
}

-- Every effect that is given is on the ladder of its dimension.
abbrev pub OnLadder : Dimension → Option Effect → Type 0
OnLadder d none = Unit
OnLadder d (some e) = IsEffect d e

abbrev pub AreEffects : DimensionEffects → Type 0
AreEffects effects =
    OnLadder ranking effects.ranking
    × OnLadder visibility effects.visibility
    × OnLadder interaction effects.interaction
    × OnLadder transaction effects.transaction

-- A profile in normal form: a name, effects on the ladders, a ceiling where hiding is bypassed,
-- and three blocks of effects, which are there even if none was given.
abbrev pub IsProfile : PolicyProfile → Type 0
IsProfile profile =
    AreEffects (get_or profile.administrative_deny no_effects)
    × AreEffects (get_or profile.viewer_block no_effects)
    × AreEffects (get_or profile.allowlist_miss no_effects)
    × OnLadder visibility profile.bypass_hide_ceiling
    × (is_empty profile.name ≡ false)
    × (is_some profile.administrative_deny ≡ true)
    × (is_some profile.viewer_block ≡ true)
    × (is_some profile.allowlist_miss ≡ true)

abbrev pub Anything {ℓ} : {A : Type ℓ} → A → Type 0
Anything a = Unit

pub anything {ℓ} : {A : Type ℓ} (m : Result A) → OkAll Anything m
anything (ok a) = tt
anything (err e) = tt

check_effect-OnLadder :
    (d : Dimension) (value : Option Effect) → OkAll (OnLadder d) (check_effect d value)
unfolding check_effect
check_effect-OnLadder d none = tt
check_effect-OnLadder d (some value) = go (effect_severity d value) refl
  where
    go :
        (place : Option ℕ)
        → effect_severity d value ≡ place
        → OkAll (OnLadder d) (elim place [ none ↦ err invalid_effect | some i ↦ ok (some value) ])
    go none h = tt
    go (some i) h = ap is_some h

normalize_dimension_effects-AreEffects :
    (effects : Option DimensionEffects) → OkAll AreEffects (normalize_dimension_effects effects)
unfolding normalize_dimension_effects
normalize_dimension_effects-AreEffects none = (tt, tt, tt, tt)
normalize_dimension_effects-AreEffects (some effects) =
    OkAll->>= (OnLadder ranking) AreEffects (check_effect ranking effects.ranking) _
      (check_effect-OnLadder ranking effects.ranking)
      λ a _ ha.
        OkAll->>= (OnLadder visibility) AreEffects (check_effect visibility effects.visibility) _
          (check_effect-OnLadder visibility effects.visibility)
          λ b _ hb.
            OkAll->>= (OnLadder interaction) AreEffects
              (check_effect interaction effects.interaction) _
              (check_effect-OnLadder interaction effects.interaction)
              λ c _ hc.
                OkAll->>= (OnLadder transaction) AreEffects
                  (check_effect transaction effects.transaction) _
                  (check_effect-OnLadder transaction effects.transaction) λ e _ he. (ha, hb, hc, he)

is_named-nonempty : (name : Option Text) → OkAll (λ n. is_empty n ≡ false) (is_named name)
is_named-nonempty none = tt
is_named-nonempty (some name) = go (is_empty (trim name)) refl
  where
    go :
        (b : Bool)
        → is_empty (trim name) ≡ b
        → OkAll (λ n. is_empty n ≡ false) (if b then err name_required else ok (trim name))
    go true h = tt
    go false h = h

normalize_ceiling-OnLadder :
    (ceiling : Option Effect) (bypass_hide : Bool)
    → OkAll (OnLadder visibility) (normalize_ceiling ceiling bypass_hide)
normalize_ceiling-OnLadder none true =
    unfold effect_severity in unfold index_of in unfold Effect-discrete in refl
normalize_ceiling-OnLadder none false = tt
normalize_ceiling-OnLadder (some ceiling) bypass_hide = go (effect_severity visibility ceiling) refl
  where
    go :
        (place : Option ℕ)
        → effect_severity visibility ceiling ≡ place
        → OkAll
            (OnLadder visibility)
            (elim place [ none ↦ err invalid_ceiling | some i ↦ ok (some ceiling) ])
    go none h = tt
    go (some i) h = ap is_some h

-- A profile that is accepted has a name that is not empty, effects and a ceiling on their ladders,
-- and effects for the denial, the viewer's block and the allowlist miss, given or not.
pub normalize_policy_profile-IsProfile :
    (profile : RawProfile) → OkAll IsProfile (normalize_policy_profile profile)
unfolding normalize_policy_profile
normalize_policy_profile-IsProfile profile =
    OkAll->>= (λ n. is_empty n ≡ false) IsProfile (is_named profile.name) _
      (is_named-nonempty profile.name)
      λ name _ hn.
        OkAll->>= AreEffects IsProfile (normalize_dimension_effects profile.administrative_deny) _
          (normalize_dimension_effects-AreEffects profile.administrative_deny)
          λ a _ ha.
            OkAll->>= AreEffects IsProfile (normalize_dimension_effects profile.viewer_block) _
              (normalize_dimension_effects-AreEffects profile.viewer_block)
              λ b _ hb.
                OkAll->>= AreEffects IsProfile (normalize_dimension_effects profile.allowlist_miss)
                  _ (normalize_dimension_effects-AreEffects profile.allowlist_miss)
                  λ c _ hc.
                    OkAll->>= Anything IsProfile (normalize_category_thresholds profile.reports) _
                      (anything _)
                      λ reports _ _.
                        OkAll->>= Anything IsProfile (normalize_category_thresholds profile.mutes) _
                          (anything _)
                          λ mutes _ _.
                            OkAll->>= Anything IsProfile
                              (normalize_window profile.mute_window_seconds) _ (anything _)
                              λ window _ _.
                                OkAll->>= (OnLadder visibility) IsProfile
                                  (normalize_ceiling profile.bypass_hide_ceiling
                                    (get_or profile.bypass_hide false))
                                  _
                                  (normalize_ceiling-OnLadder profile.bypass_hide_ceiling
                                    (get_or profile.bypass_hide false))
                                  λ ceiling _ h. (ha, hb, hc, h, hn, refl, refl, refl)
