-- ===== src/Base/Text/Laws.antt =====
-- Trimming, case folding and the test for 64 hexadecimal digits.
use Prim.Native.Nat.{ℕ, suc}
use mathlib.Core.Path.{◌≡◌, refl, ap}
use mathlib.Core.Bool.{true, false}
use mathlib.Core.List.{[], ◌∷◌}
use native.Mathlib.Omega.{arith}
use bitgate.Base.Lists.{length, all}
use bitgate.Base.Text.{
  Text, is_space, trim_start, close, trim_end, trim, lower_unit, to_lower_case, is_hex_unit,
  is_hex64,
}

-- A text that `trim` leaves alone at both ends, because no unit of it is a space.
hex_not_space : (c : ℕ) → is_hex_unit c ≡ true → is_space c ≡ false
unfolding is_hex_unit is_space
hex_not_space c h = ground arith

trim_start-hex : (s : Text) → all is_hex_unit s ≡ true → trim_start s ≡ s
unfolding trim_start
trim_start-hex [] h = refl
trim_start-hex (c ∷ s) h = ground (arith, hex_not_space c)

close-hex : (c : ℕ) (s : Text) → is_hex_unit c ≡ true → close c s ≡ c ∷ s
close-hex c [] h = ground (arith, hex_not_space c)
close-hex c (d ∷ s) h = refl

trim_end-hex : (s : Text) → all is_hex_unit s ≡ true → trim_end s ≡ s
unfolding trim_end
trim_end-hex [] h = refl
trim_end-hex (c ∷ s) h = ground (arith, trim_end-hex s, close-hex c s)

pub trim-hex : (s : Text) → all is_hex_unit s ≡ true → trim s ≡ s
unfolding trim
trim-hex s h = rw (trim_start-hex s h) (trim_end-hex s h)

pub lower_unit-hex : (c : ℕ) → is_hex_unit (lower_unit c) ≡ is_hex_unit c
unfolding lower_unit is_hex_unit
lower_unit-hex c = ground arith

pub lower_unit_idem : (c : ℕ) → lower_unit (lower_unit c) ≡ lower_unit c
unfolding lower_unit
lower_unit_idem c = ground arith

pub to_lower_case_idem : (s : Text) → to_lower_case (to_lower_case s) ≡ to_lower_case s
unfolding to_lower_case
to_lower_case_idem [] = refl
to_lower_case_idem (c ∷ s) = cc (lower_unit_idem c, to_lower_case_idem s)

all-hex-lower : (s : Text) → all is_hex_unit (to_lower_case s) ≡ all is_hex_unit s
unfolding to_lower_case
all-hex-lower [] = refl
all-hex-lower (c ∷ s) = ground (arith, lower_unit-hex c, all-hex-lower s)

length-to_lower_case : (s : Text) → length (to_lower_case s) ≡ length s
unfolding to_lower_case
length-to_lower_case [] = refl
length-to_lower_case (c ∷ s) = ap suc (length-to_lower_case s)

-- The test ignores case.
pub is_hex64-to_lower_case : (s : Text) → is_hex64 (to_lower_case s) ≡ is_hex64 s
unfolding is_hex64
is_hex64-to_lower_case s = rw (length-to_lower_case s, all-hex-lower s)

-- Sixty-four hexadecimal digits have no space to strip.
pub trim-is_hex64 : (s : Text) → is_hex64 s ≡ true → trim s ≡ s
unfolding is_hex64
trim-is_hex64 s h = trim-hex s (ground arith)

pub length-is_hex64 : (s : Text) → is_hex64 s ≡ true → length s ≡ 64
unfolding is_hex64
length-is_hex64 s h = ground arith

pub is_hex64-ne-nil : is_hex64 [] ≡ false
unfolding is_hex64
is_hex64-ne-nil = refl
