-- ===== src/Core/Policy/Profile/Definition.antt =====
-- policy.js: `normalizePolicyDefinition` and the lookup of the default profile.
use mathlib.Core.Path.{subst}
use bitgate.Base.{
  Bool-cases, all, ◌&&◌, ap, sym, ◌∙◌, ◌≡◌, refl, Bool, true, false, not, Option, none, some, [],
  ◌∷◌, arith, is_empty, if◌then◌else◌, get_or, Option-cases, inl, inr, ok, err, guard, OkAll,
  OkAll->>=, unknown_default,
}
use bitgate.Base.Text.{Text, text_eq, is_space, trim, trim_end, trim_start}
use bitgate.Base.Map.{Map, get, has_key}
use bitgate.Core.Policy.Profile.{
  PolicyProfile, RawProfile, PolicyDefinition, RawPolicy, normalize_profiles,
  normalize_policy_definition, trimmed_or_empty, with_default, chosen_default, resolve_profile,
}
use bitgate.Base.Text.Blank.{is_empty-trim}
use bitgate.Core.Policy.Profile.Accepted.{
  is_ok, is_ok->>=, is_ok-last, is_ok-guard, is_blank, is_acceptable_profile,
}
use bitgate.Core.Policy.Profile.Normalize.{Anything, anything}
use bitgate.Core.Policy.Profile.Named.{
  AreProfiles, named_by, is_named_in, first_after, AreNormal, normalize_profiles-AreNormal,
  normalize_profiles-ok, known_from_raw,
}

abbrev first_name : Map Text RawProfile → Text
first_name [] = []
first_name ((key, profile) ∷ rest) = trim key

-- The default: the one that is asked for, or else the first.
abbrev pub default_name : RawPolicy → Text
default_name policy =
    if is_blank policy.default_profile
    then first_name policy.profiles
    else trim (get_or policy.default_profile [])

-- A policy is accepted if it has an identifier and a version, all of its profiles are, and its
-- default is the name of a profile.
abbrev pub is_acceptable : RawPolicy → Bool
is_acceptable policy =
    not (is_blank policy.id)
    && (not (is_blank policy.version)
        && (all (λ entry. is_acceptable_profile (named_by entry)) policy.profiles
            && is_named_in policy.profiles (default_name policy)))

-- What a policy is normalized to: profiles in normal form under the trimmed names, and the default,
-- which is what is found where no profile is asked for.
abbrev pub IsPolicy : RawPolicy → PolicyDefinition → Type 0
IsPolicy raw policy =
    AreProfiles policy.profiles
    × ((name : Text) → has_key policy.profiles name ≡ is_named_in raw.profiles name)
    × (policy.default_profile ≡ some (default_name raw))
    × ((profile : PolicyProfile) × (resolve_profile policy none ≡ ok profile)
        × (get policy.profiles (default_name raw) ≡ some profile))

not_blank : (text : Option Text) → not (is_empty (trimmed_or_empty text)) ≡ not (is_blank text)
not_blank text = ap not (is_empty-trim (get_or text []))

first_name-after :
    (raw : Map Text RawProfile) (first : Text)
    → some first ≡ first_after none raw
    → first ≡ first_name raw
first_name-after [] first h = absurd (cc h)
first_name-after ((key, profile) ∷ rest) first h = cc h

-- The default that is looked up is the one described.
chosen-default_name :
    (policy : RawPolicy) (first : Text)
    → some first ≡ first_after none policy.profiles
    → chosen_default policy.default_profile first ≡ default_name policy
chosen-default_name policy first h =
    let requested = get_or policy.default_profile [] in
    elim (Bool-cases (all is_space requested)) [
      | inl e ↦ rw (is_empty-trim requested, e) (first_name-after policy.profiles first h)
      | inr e ↦ rw (is_empty-trim requested, e) refl
    ]

is_ok-if : (b : Bool) (name : Text) → is_ok (if b then ok name else err unknown_default) ≡ b
is_ok-if true name = refl
is_ok-if false name = refl

OkAll-if :
    (P : Text → Type 0) (b : Bool) (name : Text)
    → (b ≡ true → P name)
    → OkAll P (if b then ok name else err unknown_default)
OkAll-if P true name h = h refl
OkAll-if P false name h = tt

with_default-ok :
    (policy : RawPolicy) (profiles : Map Text PolicyProfile)
    → AreNormal [] policy.profiles profiles
    → is_ok (with_default profiles policy.default_profile)
      ≡ is_named_in policy.profiles (default_name policy)
with_default-ok policy [] normal =
    unfold get in known_from_raw policy.profiles [] (default_name policy) normal
with_default-ok policy ((first, profile) ∷ profiles) normal =
    is_ok-if (has_key ((first, profile) ∷ profiles) (chosen_default policy.default_profile first)) _
    ∙ (ap (has_key ((first, profile) ∷ profiles)) (chosen-default_name policy first normal.2)
        ∙ known_from_raw policy.profiles ((first, profile) ∷ profiles) (default_name policy) normal)

with_default-name :
    (policy : RawPolicy) (profiles : Map Text PolicyProfile)
    → AreNormal [] policy.profiles profiles
    → OkAll
        (λ name. (name ≡ default_name policy) × (has_key profiles name ≡ true))
        (with_default profiles policy.default_profile)
with_default-name policy [] normal = tt
with_default-name policy ((first, profile) ∷ profiles) normal =
    OkAll-if
      (λ name. (name ≡ default_name policy) × (has_key ((first, profile) ∷ profiles) name ≡ true))
      (has_key ((first, profile) ∷ profiles) (chosen_default policy.default_profile first))
      (chosen_default policy.default_profile first)
      λ known. (chosen-default_name policy first normal.2, known)

default_resolves :
    (policy : PolicyDefinition) (name wanted : Text)
    → policy.default_profile ≡ some name
    → name ≡ wanted
    → has_key policy.profiles name ≡ true
    → (profile : PolicyProfile) × (resolve_profile policy none ≡ ok profile)
      × (get policy.profiles wanted ≡ some profile)
unfolding resolve_profile trim trim_end trim_start
default_resolves policy name wanted default same known =
    elim (Option-cases (get policy.profiles name)) [
      | inl e ↦ ground arith
      | inr (profile, e) ↦
          (profile, ground (arith, default, e), ap (get policy.profiles) (sym same) ∙ e)
    ]

normalize_policy_definition-ok :
    (policy : RawPolicy) → is_ok (normalize_policy_definition policy) ≡ is_acceptable policy
unfolding normalize_policy_definition
normalize_policy_definition-ok policy =
    is_ok->>= (guard (not (is_empty (trimmed_or_empty policy.id))) _) _ _ _
      (is_ok-guard _ _ ∙ not_blank policy.id)
      λ _ _.
        is_ok->>= (guard (not (is_empty (trimmed_or_empty policy.version))) _) _ _ _
          (is_ok-guard _ _ ∙ not_blank policy.version)
          λ _ _.
            is_ok->>= (normalize_profiles [] policy.profiles) _ _ _
              (normalize_profiles-ok [] policy.profiles)
              λ profiles given.
                is_ok-last (with_default profiles policy.default_profile) _
                ∙ with_default-ok policy profiles (
                    subst (OkAll (AreNormal [] policy.profiles)) given
                      (normalize_profiles-AreNormal [] policy.profiles λ name. unfold get in tt))

normalize_policy_definition-IsPolicy :
    (policy : RawPolicy) → OkAll (IsPolicy policy) (normalize_policy_definition policy)
unfolding normalize_policy_definition
normalize_policy_definition-IsPolicy policy =
    OkAll->>= Anything (IsPolicy policy) (guard (not (is_empty (trimmed_or_empty policy.id))) _) _
      (anything _)
      λ _ _ _.
        OkAll->>= Anything (IsPolicy policy)
          (guard (not (is_empty (trimmed_or_empty policy.version))) _) _ (anything _)
          λ _ _ _.
            OkAll->>= (AreNormal [] policy.profiles) (IsPolicy policy)
              (normalize_profiles [] policy.profiles) _
              (normalize_profiles-AreNormal [] policy.profiles λ name. unfold get in tt)
              λ profiles _ normal.
                OkAll->>= (λ name. (name ≡ default_name policy) × (has_key profiles name ≡ true))
                  (IsPolicy policy) (with_default profiles policy.default_profile) _
                  (with_default-name policy profiles normal)
                  λ name _ (same, known). (
                    normal.0,
                    λ n. known_from_raw policy.profiles profiles n normal,
                    ap some same,
                    default_resolves _ name (default_name policy) refl same known,
                  )

-- A policy is accepted exactly where its identifier and its version are not blank, every profile is
-- named and has effects, a ceiling, thresholds and a window in range, and the default is the name
-- of a profile: the trimmed name that is asked for, or the first profile's where none is. What is
-- accepted holds profiles in normal form, under the trimmed names of those handed over; and where
-- no profile is asked for, the profile of the default is found.
pub normalize_policy_definition_lem :
    (policy : RawPolicy)
    → (is_ok (normalize_policy_definition policy) ≡ is_acceptable policy)
      × OkAll (IsPolicy policy) (normalize_policy_definition policy)
normalize_policy_definition_lem policy =
    (normalize_policy_definition-ok policy, normalize_policy_definition-IsPolicy policy)
