-- ===== src/Core/Policy/Profile/Named.antt =====
-- policy.js: the profiles of a policy and their names.
use bitgate.Base.{
  Bool-cases, any, all, ◌||◌, ◌&&◌, ap, ◌∙◌, ◌≡◌, refl, ◌==◌, Bool, true, false, Option, none, some,
  [], ◌∷◌, arith, if◌then◌else◌, get_or, inl, inr, Result, ok, err, OkAll, OkAll-map,
}
use bitgate.Base.Text.{Text, text_eq, trim}
use bitgate.Base.Map.{Map, get, put, has_key, get-put}
use bitgate.Core.Policy.Profile.{
  PolicyProfile, RawProfile, normalize_policy_profile, normalize_profiles, first_key,
}
use bitgate.Core.Policy.Profile.Accepted.{is_ok, is_acceptable_profile, normalize_policy_profile-ok}
use bitgate.Core.Policy.Profile.Normalize.{IsProfile, normalize_policy_profile-IsProfile}

abbrev pub IsProfileIf : Option PolicyProfile → Type 0
IsProfileIf none = Unit
IsProfileIf (some profile) = IsProfile profile

abbrev pub AreProfiles : Map Text PolicyProfile → Type 0
AreProfiles profiles = (name : Text) → IsProfileIf (get profiles name)

pub AreProfiles-put :
    (profiles : Map Text PolicyProfile) (key : Text) (profile : PolicyProfile)
    → AreProfiles profiles
    → IsProfile profile
    → AreProfiles (put profiles key profile)
AreProfiles-put profiles key profile all one name =
    rw (get-put profiles key name profile) (chosen (key == name))
  where
    chosen : (b : Bool) → IsProfileIf (if b then some profile else get profiles name)
    chosen true = one
    chosen false = all name

-- The profile that is handed over under a key, named by the key where it has no name.
abbrev pub named_by : Text × RawProfile → RawProfile
named_by (key, profile) = record profile { name = some (get_or profile.name key) }

-- Some profile is handed over under this name, up to spaces around it.
abbrev pub is_named_in : Map Text RawProfile → Text → Bool
is_named_in raw name = any (λ entry. trim entry.0 == name) raw

abbrev pub first_after : Option Text → Map Text RawProfile → Option Text
first_after (some first) raw = some first
first_after none [] = none
first_after none ((key, profile) ∷ rest) = some (trim key)

-- The profiles that come of the ones handed over, after some that are there.
abbrev pub AreNormal :
    Map Text PolicyProfile → Map Text RawProfile → Map Text PolicyProfile → Type 0
AreNormal before raw profiles =
    AreProfiles profiles
    × ((name : Text) → has_key profiles name ≡ (has_key before name || is_named_in raw name))
    × (first_key profiles ≡ first_after (first_key before) raw)

first_after-nil : (first : Option Text) → first ≡ first_after first []
first_after-nil none = refl
first_after-nil (some first) = refl

first_after-put :
    (profiles : Map Text PolicyProfile) (key : Text) (profile : RawProfile)
    (normalized : PolicyProfile) (rest : Map Text RawProfile)
    → first_after (first_key (put profiles (trim key) normalized)) rest
      ≡ first_after (first_key profiles) ((key, profile) ∷ rest)
unfolding put
first_after-put [] key profile normalized rest = refl
first_after-put ((j, v) ∷ profiles) key profile normalized rest =
    elim (Bool-cases (j == trim key)) [ inl e ↦ rw e refl | inr e ↦ rw e refl ]

AreNormal-put :
    (before profiles : Map Text PolicyProfile) (key : Text) (profile : RawProfile)
    (normalized : PolicyProfile) (rest : Map Text RawProfile)
    → AreNormal (put before (trim key) normalized) rest profiles
    → AreNormal before ((key, profile) ∷ rest) profiles
AreNormal-put before profiles key profile normalized rest (all, known, first) = (
  all,
  λ name. known name ∙ (elim (Bool-cases (trim key == name)) [
    | inl e ↦ rw (get-put before (trim key) name normalized, e) (ground arith)
    | inr e ↦ rw (get-put before (trim key) name normalized, e) refl
  ]),
  first ∙ first_after-put before key profile normalized rest,
)

pub normalize_profiles-AreNormal :
    (profiles : Map Text PolicyProfile) (raw : Map Text RawProfile)
    → AreProfiles profiles
    → OkAll (AreNormal profiles raw) (normalize_profiles profiles raw)
unfolding normalize_profiles
normalize_profiles-AreNormal profiles [] all =
    (all, λ name. ground arith, first_after-nil (first_key profiles))
normalize_profiles-AreNormal profiles ((key, profile) ∷ rest) all =
    go (normalize_policy_profile (named_by (key, profile)))
      (normalize_policy_profile-IsProfile (named_by (key, profile)))
      λ normalized h.
        OkAll-map (AreNormal (put profiles (trim key) normalized) rest)
          (AreNormal profiles ((key, profile) ∷ rest))
          (normalize_profiles (put profiles (trim key) normalized) rest)
          (normalize_profiles-AreNormal (put profiles (trim key) normalized) rest
            (AreProfiles-put profiles (trim key) normalized all h))
          λ after. AreNormal-put profiles after key profile normalized rest
  where
    go :
        (m : Result PolicyProfile)
        → OkAll IsProfile m
        → ((normalized : PolicyProfile)
            → IsProfile normalized
            → OkAll
                (AreNormal profiles ((key, profile) ∷ rest))
                (normalize_profiles (put profiles (trim key) normalized) rest))
        → OkAll (AreNormal profiles ((key, profile) ∷ rest)) (elim m [
          | err e ↦ err e
          | ok normalized ↦ normalize_profiles (put profiles (trim key) normalized) rest
        ])
    go (err e) h next = tt
    go (ok normalized) h next = next normalized h

pub normalize_profiles-ok :
    (profiles : Map Text PolicyProfile) (raw : Map Text RawProfile)
    → is_ok (normalize_profiles profiles raw)
      ≡ all (λ entry. is_acceptable_profile (named_by entry)) raw
unfolding normalize_profiles
normalize_profiles-ok profiles [] = refl
normalize_profiles-ok profiles ((key, profile) ∷ rest) =
    go (normalize_policy_profile (named_by (key, profile)))
      (normalize_policy_profile-ok (named_by (key, profile)))
      λ normalized. normalize_profiles-ok (put profiles (trim key) normalized) rest
  where
    go :
        (m : Result PolicyProfile)
        → is_ok m ≡ is_acceptable_profile (named_by (key, profile))
        → ((normalized : PolicyProfile)
            → is_ok (normalize_profiles (put profiles (trim key) normalized) rest)
              ≡ all (λ entry. is_acceptable_profile (named_by entry)) rest)
        → is_ok (elim m [
          | err e ↦ err e
          | ok normalized ↦ normalize_profiles (put profiles (trim key) normalized) rest
        ])
          ≡ all (λ entry. is_acceptable_profile (named_by entry)) ((key, profile) ∷ rest)
    go (err e) h next = ap (λ b. b && all (λ entry. is_acceptable_profile (named_by entry)) rest) h
    go (ok normalized) h next =
        next normalized
        ∙ ap (λ b. b && all (λ entry. is_acceptable_profile (named_by entry)) rest) h

no_key : (name : Text) → has_key {V = PolicyProfile} [] name ≡ false
unfolding get
no_key name = refl

pub known_from_raw :
    (raw : Map Text RawProfile) (profiles : Map Text PolicyProfile) (name : Text)
    → AreNormal [] raw profiles
    → has_key profiles name ≡ is_named_in raw name
known_from_raw raw profiles name (all, known, first) =
    known name ∙ ap (λ b. b || is_named_in raw name) (no_key name)
