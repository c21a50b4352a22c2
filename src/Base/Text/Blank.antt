-- ===== src/Base/Text/Blank.antt =====
-- What `trim` leaves: blank texts, and texts that are trimmed already.
use Prim.Native.Nat.{ℕ}
use mathlib.Core.Path.{◌≡◌, refl, ap, ◌∙◌}
use mathlib.Core.Logic.{inl, inr}
use mathlib.Core.Bool.{Bool, true, not}
use mathlib.Core.List.{[], ◌∷◌}
use native.Mathlib.Omega.{arith}
use bitgate.Base.Lists.{all, is_empty}
use bitgate.Base.Tests.{Bool-cases}
use bitgate.Base.Text.{Text, is_space, trim_start, close, trim_end, trim, lower_unit, to_lower_case}
use bitgate.Base.Text.Laws.{to_lower_case_idem}

is_empty-trim_end : (s : Text) → is_empty (trim_end s) ≡ all is_space s
unfolding trim_end
is_empty-trim_end [] = refl
is_empty-trim_end (c ∷ s) = closed (trim_end s) (is_empty-trim_end s)
  where
    closed : (t : Text) → is_empty t ≡ all is_space s → is_empty (close c t) ≡ all is_space (c ∷ s)
    closed [] h = ground arith
    closed (d ∷ t) h = ground arith

all-trim_start : (s : Text) → all is_space (trim_start s) ≡ all is_space s
unfolding trim_start
all-trim_start [] = refl
all-trim_start (c ∷ s) = ground (arith, all-trim_start s)

-- A text is trimmed to nothing exactly if every unit is a space.
pub is_empty-trim : (s : Text) → is_empty (trim s) ≡ all is_space s
unfolding trim
is_empty-trim s = is_empty-trim_end (trim_start s) ∙ all-trim_start s

-- No space at the start.
abbrev starts_solid : Text → Bool
starts_solid [] = true
starts_solid (c ∷ s) = not (is_space c)

trim_start-solid : (s : Text) → starts_solid (trim_start s) ≡ true
unfolding trim_start
trim_start-solid [] = refl
trim_start-solid (c ∷ s) = ground (arith, trim_start-solid s)

trim_end-solid : (s : Text) → starts_solid s ≡ true → trim_start (trim_end s) ≡ trim_end s
unfolding trim_start trim_end
trim_end-solid [] h = refl
trim_end-solid (c ∷ s) h = closed (trim_end s)
  where
    closed : (t : Text) → trim_start (close c t) ≡ close c t
    closed [] = ground arith
    closed (d ∷ t) = ground arith

trim_end_idem : (s : Text) → trim_end (trim_end s) ≡ trim_end s
unfolding trim_end
trim_end_idem [] = refl
trim_end_idem (c ∷ s) = closed (trim_end s) (trim_end_idem s)
  where
    closed : (t : Text) → trim_end t ≡ t → trim_end (close c t) ≡ close c t
    closed [] h = elim (Bool-cases (is_space c)) [ inl e ↦ rw e refl | inr e ↦ rw e (rw e refl) ]
    closed (d ∷ t) h = rw h refl

trim_idem : (s : Text) → trim (trim s) ≡ trim s
unfolding trim
trim_idem s =
    ap trim_end (trim_end-solid (trim_start s) (trim_start-solid s)) ∙ trim_end_idem (trim_start s)

is_space-lower : (c : ℕ) → is_space (lower_unit c) ≡ is_space c
unfolding is_space lower_unit
is_space-lower c = ground arith

trim_start-lower : (s : Text) → trim_start (to_lower_case s) ≡ to_lower_case (trim_start s)
unfolding trim_start to_lower_case
trim_start-lower [] = refl
trim_start-lower (c ∷ s) = ground (arith, trim_start-lower s, is_space-lower c)

trim_end-lower : (s : Text) → trim_end (to_lower_case s) ≡ to_lower_case (trim_end s)
unfolding trim_end to_lower_case
trim_end-lower [] = refl
trim_end-lower (c ∷ s) = ap (close (lower_unit c)) (trim_end-lower s) ∙ closed (trim_end s)
  where
    closed : (t : Text) → close (lower_unit c) (to_lower_case t) ≡ to_lower_case (close c t)
    closed [] = ground (arith, is_space-lower c)
    closed (d ∷ t) = refl

trim-lower : (s : Text) → trim (to_lower_case s) ≡ to_lower_case (trim s)
unfolding trim
trim-lower s = ap trim_end (trim_start-lower s) ∙ trim_end-lower (trim_start s)

pub is_empty-lower : (s : Text) → is_empty (to_lower_case s) ≡ is_empty s
unfolding to_lower_case
is_empty-lower [] = refl
is_empty-lower (c ∷ s) = refl

-- A text that was trimmed and put into lower case stays as it is.
pub lower-trim_idem :
    (s : Text) → to_lower_case (trim (to_lower_case (trim s))) ≡ to_lower_case (trim s)
lower-trim_idem s =
    ap to_lower_case (trim-lower (trim s) ∙ ap to_lower_case (trim_idem s))
    ∙ to_lower_case_idem (trim s)
