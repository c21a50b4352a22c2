-- ===== src/Core/Fingerprint/Digest.antt =====
-- fingerprint.js: the digest of `hashString`.
use Prim.Native.Nat.{◌/◌, ◌%◌}
use bitgate.Base.{
  ℕ, zero, suc, ◌-◌, ◌*◌, ◌≤◌, ◌<◌, ◌≡◌, refl, ap, ◌∙◌, Bool, true, ◌&&◌, [], ◌∷◌, ◌++◌, arith,
  length, all, length-append, ltb, Bool-cases, inl, inr,
}
use bitgate.Base.Text.{Text, is_hex_unit}
use bitgate.Core.Fingerprint.{
  imul, Halves, start, mix, mix_all, hex_unit, hex_digits, zeros, hex8, hash_string,
}

-- 16 to the power of a number.
abbrev span : ℕ → ℕ
span zero = 1
span (suc k) = 16 * span k

-- For a number of at most `f` digits, and at least one, more fuel changes nothing.
hex_digits_enough : (f g n : ℕ) → n < span f → 0 < f → f ≤ g → hex_digits g n ≡ hex_digits f n
unfolding hex_digits
hex_digits_enough zero g n h p le = absurd (omega arith)
hex_digits_enough (suc f) zero n h p le = absurd (omega arith)
hex_digits_enough (suc zero) (suc g) n h p le = rw (small n (omega arith)) refl
  where
    small : (n : ℕ) → n < 16 → ltb n 16 ≡ true
    small n h = ground arith
hex_digits_enough (suc (suc f)) (suc g) n h p le = elim (Bool-cases (ltb n 16)) [
  | inl e ↦ rw e refl
  | inr e ↦ rw e (
      ap (λ t. t ++ hex_unit (n % 16) ∷ [])
        (hex_digits_enough (suc f) g (n / 16) (omega arith) (omega arith) (omega arith)))
]

length-hex_digits : (f n : ℕ) → length (hex_digits f n) ≤ f
unfolding hex_digits
length-hex_digits zero n = omega arith
length-hex_digits (suc f) n = elim (Bool-cases (ltb n 16)) [
  | inl e ↦ rw e (omega arith)
  | inr e ↦ rw e (
      omega (
        arith,
        length-append (hex_digits f (n / 16)) (hex_unit (n % 16) ∷ []),
        length-hex_digits f (n / 16),
      ))
]

length-zeros : (k : ℕ) → length (zeros k) ≡ k
unfolding zeros
length-zeros zero = refl
length-zeros (suc k) = ap suc (length-zeros k)

length-hex8 : (n : ℕ) → length (hex8 n) ≡ 8
unfolding hex8
length-hex8 n = omega (
  arith,
  length-append (zeros (8 - length (hex_digits 8 n))) (hex_digits 8 n),
  length-zeros (8 - length (hex_digits 8 n)),
  length-hex_digits 8 n,
)

is_hex_unit-hex_unit : (d : ℕ) → d < 16 → is_hex_unit (hex_unit d) ≡ true
unfolding is_hex_unit
is_hex_unit-hex_unit d h = ground arith

all-append : (p : ℕ → Bool) (s t : Text) → all p (s ++ t) ≡ (all p s && all p t)
all-append p [] t = refl
all-append p (x ∷ s) t = ground (arith, all-append p s t)

all-hex_digits : (f n : ℕ) → all is_hex_unit (hex_digits f n) ≡ true
unfolding hex_digits
all-hex_digits zero n = refl
all-hex_digits (suc f) n = elim (Bool-cases (ltb n 16)) [
  | inl e ↦ rw e (rw (is_hex_unit-hex_unit n (ground arith)) refl)
  | inr e ↦ rw e (
      all-append is_hex_unit (hex_digits f (n / 16)) (hex_unit (n % 16) ∷ [])
      ∙ rw (all-hex_digits f (n / 16), is_hex_unit-hex_unit (n % 16) (omega arith)) refl)
]

all-zeros : (k : ℕ) → all is_hex_unit (zeros k) ≡ true
unfolding zeros is_hex_unit
all-zeros zero = refl
all-zeros (suc k) = all-zeros k

all-hex8 : (n : ℕ) → all is_hex_unit (hex8 n) ≡ true
unfolding hex8
all-hex8 n =
    all-append is_hex_unit (zeros (8 - length (hex_digits 8 n))) (hex_digits 8 n)
    ∙ rw (all-zeros (8 - length (hex_digits 8 n)), all-hex_digits 8 n) refl

imul_bound : (a b : ℕ) → imul a b < 0x100000000
imul_bound a b = omega arith

abbrev pub AreWords : Halves → Type 0
AreWords halves = (halves.high < 0x100000000) × (halves.low < 0x100000000)

mix_all-AreWords :
    (halves : Halves) (index : ℕ) (input : Text)
    → AreWords halves
    → AreWords (mix_all halves index input)
unfolding mix_all
mix_all-AreWords halves index [] h = h
mix_all-AreWords halves index (code ∷ input) h =
    mix_all-AreWords (mix halves index code) (suc index) input
      (unfold mix in (imul_bound _ _, imul_bound _ _))

-- For every string both halves stay 32-bit words, their hexadecimal digits are complete, so that
-- more rounds of digits change nothing, and the digest has 16 units, each a hexadecimal digit.
pub hash_string_lem :
    (input : Text) (fuel : ℕ)
    → 8 ≤ fuel
    → AreWords (mix_all start 0 input)
      × (hex_digits fuel (mix_all start 0 input).high ≡ hex_digits 8 (mix_all start 0 input).high)
      × (hex_digits fuel (mix_all start 0 input).low ≡ hex_digits 8 (mix_all start 0 input).low)
      × (length (hash_string input) ≡ 16)
      × (all is_hex_unit (hash_string input) ≡ true)
unfolding hash_string
hash_string_lem input fuel h =
    let (hi, lo) = mix_all-AreWords start 0 input (omega arith, omega arith) in
    let high = (mix_all start 0 input).high in
    let low = (mix_all start 0 input).low in
    (
      (hi, lo),
      hex_digits_enough 8 fuel high hi (omega arith) h,
      hex_digits_enough 8 fuel low lo (omega arith) h,
      omega (arith, length-append (hex8 high) (hex8 low), length-hex8 high, length-hex8 low),
      all-append is_hex_unit (hex8 high) (hex8 low) ∙ rw (all-hex8 high, all-hex8 low) refl,
    )
