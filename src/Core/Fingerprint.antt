-- ===== src/Core/Fingerprint.antt =====
-- packages/core/src/fingerprint.js: `hashString`, on 32-bit words with their wrap-around.
pub mod Digest
pub mod Canonical
use Prim.Native.Nat.{◌/◌, ◌%◌, bit_xor}
use bitgate.Base.{
  ℕ, zero, suc, ◌+◌, ◌-◌, ◌*◌, Bool, true, false, List, [], ◌∷◌, ◌++◌, length, ltb, if◌then◌else◌,
}
use bitgate.Base.Text.{Text}

-- `Math.imul(a, b) >>> 0`
abbrev pub imul : ℕ → ℕ → ℕ
imul a b = (a * b) % 0x100000000

-- The two halves of the digest.
pub record Halves : Type 0 where
  pub high : ℕ
  pub low : ℕ

abbrev pub start : Halves
start = record { high = 0x811c9dc5; low = 0x01000193 }

-- One round of the loop. Code units are below 2 ^ 16, and an operand of `^` is taken as 32 bits.
unfoldable pub mix : Halves → ℕ → ℕ → Halves
mix halves index code = record {
  high = imul (bit_xor halves.high code) 0x01000193;
  low = imul (bit_xor halves.low ((code + index) % 0x100000000)) 0x85ebca6b;
}

unfoldable pub mix_all : Halves → ℕ → Text → Halves
mix_all halves index [] = halves
mix_all halves index (code ∷ input) = mix_all (mix halves index code) (suc index) input

abbrev pub hex_unit : ℕ → ℕ
hex_unit d = if ltb d 10 then 48 + d else 87 + d

-- The digits of a number to the base 16, with fuel for as many rounds.
unfoldable pub hex_digits : ℕ → ℕ → Text
hex_digits zero n = []
hex_digits (suc fuel) n =
    let rest = hex_digits fuel (n / 16) in
    if ltb n 16 then hex_unit n ∷ [] else rest ++ hex_unit (n % 16) ∷ []

unfoldable pub zeros : ℕ → Text
zeros zero = []
zeros (suc n) = 48 ∷ zeros n

-- `n.toString(16).padStart(8, "0")` of a 32-bit word
unfoldable pub hex8 : ℕ → Text
unfolding hex_digits zeros
hex8 n = zeros (8 - length (hex_digits 8 n)) ++ hex_digits 8 n

unfoldable pub hash_string : Text → Text
unfolding mix_all mix hex8
hash_string input = hex8 (mix_all start 0 input).high ++ hex8 (mix_all start 0 input).low
