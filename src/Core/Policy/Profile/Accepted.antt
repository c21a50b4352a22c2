-- ===== src/Core/Policy/Profile/Accepted.antt =====
-- policy.js: which profiles `normalizePolicyProfile` accepts.
use bitgate.Base.{
  ℕ, invalid_effect, invalid_ceiling, ◌≡◌, refl, ap, sym, ◌∙◌, Bool, true, false, not, ◌&&◌, ◌||◌,
  Option, none, some, [], ◌∷◌, all, is_empty, is_some, get_or, Bool-cases, inl, inr, Result, ok,
  err, ◌>>=◌, guard, Error,
}
use bitgate.Base.Text.{Text, text_eq, trim, is_space, to_lower_case}
use bitgate.Base.Text.Blank.{is_empty-trim, is_empty-lower}
use bitgate.Base.Map.{Map, put}
use bitgate.Core.Policy.Effects.{
  Dimension, ranking, visibility, interaction, transaction, Effect, effect_severity,
}
use bitgate.Core.Policy.Gates.{Gate, gate_eq, CategoryThresholds, DimensionEffects}
use bitgate.Core.Policy.Profile.{
  RawNumber, not_finite, negative, floor_to, RawProfile, is_named, normalize_ceiling,
  normalize_window, normalize_gates, normalize_categories, normalize_category_thresholds,
  check_effect, normalize_dimension_effects, normalize_policy_profile,
}

abbrev pub is_ok {ℓ} : {A : Type ℓ} → Result A → Bool
is_ok (ok a) = true
is_ok (err e) = false

-- A step and the code after it succeed where both do.
pub is_ok->>= {ℓ κ} :
    {A : Type ℓ} {B : Type κ} (m : Result A) (f : A → Result B) (a b : Bool)
    → is_ok m ≡ a
    → ((x : A) → m ≡ ok x → is_ok (f x) ≡ b)
    → is_ok (m >>= f) ≡ (a && b)
is_ok->>= (ok x) f a b h k = k x refl ∙ ap (λ c. c && b) h
is_ok->>= (err e) f a b h k = ap (λ c. c && b) h

-- A last step that cannot fail.
pub is_ok-last {ℓ κ} :
    {A : Type ℓ} {B : Type κ} (m : Result A) (f : A → B) → is_ok (m >>= λ x. ok (f x)) ≡ is_ok m
is_ok-last (ok x) f = refl
is_ok-last (err e) f = refl

pub is_ok-guard : (test : Bool) (e : Error) → is_ok (guard test e) ≡ test
is_ok-guard true e = refl
is_ok-guard false e = refl

-- No unit but spaces, or no text at all.
abbrev pub is_blank : Option Text → Bool
is_blank text = all is_space (get_or text [])

-- An effect that is missing or on the ladder of its dimension.
abbrev pub is_effect : Dimension → Option Effect → Bool
is_effect dimension none = true
is_effect dimension (some value) = is_some (effect_severity dimension value)

abbrev pub are_effects : Option DimensionEffects → Bool
are_effects none = true
are_effects (some effects) =
    is_effect ranking effects.ranking
    && (is_effect visibility effects.visibility
        && (is_effect interaction effects.interaction && is_effect transaction effects.transaction))

abbrev pub is_count : RawNumber → Bool
is_count negative = false
is_count _ = true

-- Thresholds of a category that has a name are not negative.
abbrev pub are_counts : Text × Option (Map Gate RawNumber) → Bool
are_counts (category, none) = true
are_counts (category, some config) = all is_space category || all (λ gate. is_count gate.1) config

-- A profile that is named, with effects and a ceiling on their ladders, and without a negative
-- threshold or window.
abbrev pub is_acceptable_profile : RawProfile → Bool
is_acceptable_profile profile =
    not (is_blank profile.name)
    && (are_effects profile.administrative_deny
        && (are_effects profile.viewer_block
            && (are_effects profile.allowlist_miss
                && (all are_counts profile.reports
                    && (all are_counts profile.mutes
                        && (is_count profile.mute_window_seconds
                            && is_effect visibility profile.bypass_hide_ceiling))))))

check_effect-ok :
    (d : Dimension) (value : Option Effect) → is_ok (check_effect d value) ≡ is_effect d value
unfolding check_effect
check_effect-ok d none = refl
check_effect-ok d (some value) = found (effect_severity d value)
  where
    found :
        (place : Option ℕ)
        → is_ok (elim place [ none ↦ err invalid_effect | some i ↦ ok (some value) ])
          ≡ is_some place
    found none = refl
    found (some i) = refl

normalize_dimension_effects-ok :
    (effects : Option DimensionEffects)
    → is_ok (normalize_dimension_effects effects) ≡ are_effects effects
unfolding normalize_dimension_effects
normalize_dimension_effects-ok none = refl
normalize_dimension_effects-ok (some effects) =
    is_ok->>= (check_effect ranking effects.ranking) _ _ _ (check_effect-ok ranking effects.ranking)
      λ a _.
        is_ok->>= (check_effect visibility effects.visibility) _ _ _
          (check_effect-ok visibility effects.visibility)
          λ b _.
            is_ok->>= (check_effect interaction effects.interaction) _ _ _
              (check_effect-ok interaction effects.interaction)
              λ c _.
                is_ok-last (check_effect transaction effects.transaction) _
                ∙ check_effect-ok transaction effects.transaction

normalize_gates-ok :
    (entry : CategoryThresholds) (config : Map Gate RawNumber)
    → is_ok (normalize_gates entry config) ≡ all (λ gate. is_count gate.1) config
unfolding normalize_gates
normalize_gates-ok entry [] = refl
normalize_gates-ok entry ((gate, not_finite) ∷ config) = normalize_gates-ok entry config
normalize_gates-ok entry ((gate, negative) ∷ config) = refl
normalize_gates-ok entry ((gate, floor_to n) ∷ config) =
    normalize_gates-ok (put entry gate n) config

normalize_categories-ok :
    (normalized : Map Text CategoryThresholds) (raw : Map Text (Option (Map Gate RawNumber)))
    → is_ok (normalize_categories normalized raw) ≡ all are_counts raw
unfolding normalize_categories
normalize_categories-ok normalized [] = refl
normalize_categories-ok normalized ((category, none) ∷ rest) =
    normalize_categories-ok normalized rest
normalize_categories-ok normalized ((category, some config) ∷ rest) =
    branch (is_empty (to_lower_case (trim category)))
      (λ entries. normalize_categories-ok entries rest)
    ∙ ap (λ b. (b || all (λ gate. is_count gate.1) config) && all are_counts rest)
        (is_empty-lower (trim category) ∙ is_empty-trim category)
  where
    gates :
        (m : Result CategoryThresholds)
        → is_ok m ≡ all (λ gate. is_count gate.1) config
        → ((entries : Map Text CategoryThresholds)
            → is_ok (normalize_categories entries rest) ≡ all are_counts rest)
        → is_ok (elim m [
          | err e ↦ err e
          | ok entry ↦
              normalize_categories (put normalized (to_lower_case (trim category)) entry) rest
        ])
          ≡ (all (λ gate. is_count gate.1) config && all are_counts rest)
    gates (err e) h next = ap (λ c. c && all are_counts rest) h
    gates (ok entry) h next = next _ ∙ ap (λ c. c && all are_counts rest) h

    branch :
        (b : Bool)
        → ((entries : Map Text CategoryThresholds)
            → is_ok (normalize_categories entries rest) ≡ all are_counts rest)
        → is_ok (elim b [
          | true ↦ normalize_categories normalized rest
          | false ↦ elim (normalize_gates [] config) [
            | err e ↦ err e
            | ok entry ↦
                normalize_categories (put normalized (to_lower_case (trim category)) entry) rest
          ]
        ])
          ≡ ((b || all (λ gate. is_count gate.1) config) && all are_counts rest)
    branch true next = next normalized
    branch false next = gates (normalize_gates [] config) (normalize_gates-ok [] config) next

normalize_window-ok : (window : RawNumber) → is_ok (normalize_window window) ≡ is_count window
normalize_window-ok not_finite = refl
normalize_window-ok negative = refl
normalize_window-ok (floor_to n) = refl

normalize_ceiling-ok :
    (ceiling : Option Effect) (bypass_hide : Bool)
    → is_ok (normalize_ceiling ceiling bypass_hide) ≡ is_effect visibility ceiling
normalize_ceiling-ok none bypass_hide = refl
normalize_ceiling-ok (some ceiling) bypass_hide = found (effect_severity visibility ceiling)
  where
    found :
        (place : Option ℕ)
        → is_ok (elim place [ none ↦ err invalid_ceiling | some i ↦ ok (some ceiling) ])
          ≡ is_some place
    found none = refl
    found (some i) = refl

is_named-ok : (name : Option Text) → is_ok (is_named name) ≡ not (is_blank name)
is_named-ok none = refl
is_named-ok (some name) = elim (Bool-cases (is_empty (trim name))) [
  | inl e ↦ rw (e, sym (is_empty-trim name), e) refl
  | inr e ↦ rw (e, sym (is_empty-trim name), e) refl
]

-- A profile is accepted exactly where it is named and its effects, its ceiling, its thresholds and
-- its window are in range.
pub normalize_policy_profile-ok :
    (profile : RawProfile)
    → is_ok (normalize_policy_profile profile) ≡ is_acceptable_profile profile
unfolding normalize_policy_profile normalize_category_thresholds
normalize_policy_profile-ok profile =
    is_ok->>= (is_named profile.name) _ _ _ (is_named-ok profile.name) λ _ _.
      is_ok->>= (normalize_dimension_effects profile.administrative_deny) _ _ _
        (normalize_dimension_effects-ok profile.administrative_deny)
        λ _ _.
          is_ok->>= (normalize_dimension_effects profile.viewer_block) _ _ _
            (normalize_dimension_effects-ok profile.viewer_block)
            λ _ _.
              is_ok->>= (normalize_dimension_effects profile.allowlist_miss) _ _ _
                (normalize_dimension_effects-ok profile.allowlist_miss)
                λ _ _.
                  is_ok->>= (normalize_category_thresholds profile.reports) _ _ _
                    (normalize_categories-ok [] profile.reports)
                    λ _ _.
                      is_ok->>= (normalize_category_thresholds profile.mutes) _ _ _
                        (normalize_categories-ok [] profile.mutes)
                        λ _ _.
                          is_ok->>= (normalize_window profile.mute_window_seconds) _ _ _
                            (normalize_window-ok profile.mute_window_seconds)
                            λ _ _.
                              is_ok-last
                                (normalize_ceiling profile.bypass_hide_ceiling
                                  (get_or profile.bypass_hide false))
                                _
                              ∙ normalize_ceiling-ok profile.bypass_hide_ceiling
                                  (get_or profile.bypass_hide false)
