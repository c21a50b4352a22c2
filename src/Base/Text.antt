-- ===== src/Base/Text.antt =====
-- JavaScript strings as lists of UTF-16 code units, with the string methods that the program uses.
-- `to_lower_case` maps the ASCII capitals; the case mapping of other letters is not modelled, so
-- the model's texts hold none where the program folds case.
pub mod Laws
pub mod Blank
use Prim.Native.Char.{code}
use Prim.Native.Nat.{ℕ, suc, ◌+◌}
use Prim.Native.String.{String}
use mathlib.Core.Path.{◌≡◌, refl, ap, sym}
use mathlib.Core.Logic.{◌↔◌}
use mathlib.Core.Bool.{Bool, true, false, ◌&&◌, ◌||◌}
use mathlib.Core.List.{List, [], ◌∷◌, ◌++◌, map}
use native.Mathlib.Omega.{arith}
use bitgate.Base.Tests.{leb, ltb, nat_beq, nat_beq_iff, if◌then◌else◌, Eq}
use bitgate.Base.Lists.{length, all}

abbrev pub Text : Type 0
Text = List ℕ

-- The code units of a literal.
abbrev pub codes : String → Text
codes String.[] = []
codes (String.◌∷◌ c s) = code c ∷ codes s

-- `a === b`
unfoldable pub text_beq : Text → Text → Bool
text_beq [] [] = true
text_beq [] (d ∷ t) = false
text_beq (c ∷ s) [] = false
text_beq (c ∷ s) (d ∷ t) = nat_beq c d && text_beq s t

pub text_beq_iff : (s t : Text) → (text_beq s t ≡ true) ↔ (s ≡ t)
unfolding text_beq
text_beq_iff [] [] = ground arith
text_beq_iff [] (d ∷ t) = ground arith
text_beq_iff (c ∷ s) [] = ground arith
text_beq_iff (c ∷ s) (d ∷ t) = ground (arith, text_beq_iff s t)

instance abbrev pub text_eq : Eq Text
text_eq = record { beq = text_beq; beq_iff = text_beq_iff }

-- `a < b`: the order of `<` and of `sort()` with no argument, by code units.
unfoldable pub text_ltb : Text → Text → Bool
text_ltb [] [] = false
text_ltb [] (d ∷ t) = true
text_ltb (c ∷ s) [] = false
text_ltb (c ∷ s) (d ∷ t) = ltb c d || (nat_beq c d && text_ltb s t)

-- The code units that `trim` strips: WhiteSpace and LineTerminator.
unfoldable pub is_space : ℕ → Bool
is_space c =
    (leb 9 c && leb c 13)
    || (nat_beq c 32
        || (nat_beq c 160
            || (nat_beq c 0x1680
                || ((leb 0x2000 c && leb c 0x200a)
                    || ((leb 0x2028 c && leb c 0x2029)
                        || (nat_beq c 0x202f
                            || (nat_beq c 0x205f || (nat_beq c 0x3000 || nat_beq c 0xfeff))))))))

unfoldable pub trim_start : Text → Text
trim_start [] = []
trim_start (c ∷ s) = let rest = trim_start s in if is_space c then rest else c ∷ s

abbrev close : ℕ → Text → Text
close c [] = if is_space c then [] else c ∷ []
close c (d ∷ t) = c ∷ d ∷ t

unfoldable pub trim_end : Text → Text
unfolding is_space
trim_end [] = []
trim_end (c ∷ s) = close c (trim_end s)

unfoldable pub trim : Text → Text
unfolding trim_start trim_end is_space
trim s = trim_end (trim_start s)

unfoldable pub lower_unit : ℕ → ℕ
lower_unit c = if leb 65 c && leb c 90 then c + 32 else c

unfoldable pub to_lower_case : Text → Text
unfolding lower_unit
to_lower_case = map lower_unit

-- `/^[0-9a-f]{64}$/i`
unfoldable pub is_hex_unit : ℕ → Bool
is_hex_unit c = (leb 48 c && leb c 57) || ((leb 97 c && leb c 102) || (leb 65 c && leb c 70))

unfoldable pub is_hex64 : Text → Bool
unfolding is_hex_unit
is_hex64 s = nat_beq (length s) 64 && all is_hex_unit s
