-- ===== src/Base/Errors.antt =====
-- Results of code that throws. One constructor for each `throw` that the modelled code makes.
use mathlib.Core.Path.{◌≡◌, refl}
use mathlib.Core.Bool.{Bool, true, false}

pub data Error : Type 0 where
  author_required invalid_target unknown_profile : Error
  invalid_effect negative_threshold negative_window invalid_ceiling : Error
  name_required id_required version_required no_profiles unknown_default : Error
  role_name_required role_capabilities_required unknown_capability : Error
  category_required value_required : Error

pub data Result {ℓ} (A : Type ℓ) : Type ℓ where
  err : Error → Result A
  ok : A → Result A

-- `if (!test) throw e`
abbrev pub guard : Bool → Error → Result (Unit {0})
guard test e = elim test [ true ↦ ok tt | false ↦ err e ]

-- A statement and the code after it: a thrown error skips the rest.
infixl 5 ◌>>=◌ ◌>>◌
abbrev pub ◌>>=◌ {ℓ κ} : {A : Type ℓ} {B : Type κ} → Result A → (A → Result B) → Result B
err thrown >>= rest = err thrown
ok value >>= rest = rest value

abbrev pub ◌>>◌ {ℓ} : {B : Type ℓ} → Result (Unit {0}) → Result B → Result B
statement >> rest = statement >>= λ _. rest

-- What holds of a result that is not an error.
abbrev pub OkAll {ℓ κ} : {A : Type ℓ} → (A → Type κ) → Result A → Type κ
OkAll P (ok a) = P a
OkAll P (err e) = Unit

-- Through a chain of steps each step may use what holds of the one before.
pub OkAll->>= {ℓ κ μ ν} :
    {A : Type ℓ} {B : Type κ} (P : A → Type μ) (Q : B → Type ν) (m : Result A) (f : A → Result B)
    → OkAll P m
    → ((a : A) → m ≡ ok a → P a → OkAll Q (f a))
    → OkAll Q (m >>= f)
OkAll->>= P Q (ok a) f h k = k a refl h
OkAll->>= P Q (err e) f h k = tt

pub OkAll-map {ℓ κ μ} :
    {A : Type ℓ} (P : A → Type κ) (Q : A → Type μ) (m : Result A)
    → OkAll P m
    → ((a : A) → P a → Q a)
    → OkAll Q m
OkAll-map P Q (ok a) h k = k a h
OkAll-map P Q (err e) h k = tt
