-- ===== src/Nostr/Nip19.antt =====
-- packages/nostr/src/nip19.js: bech32 forms of keys and of event identifiers. An empty text is the
-- code's "invalid" result.
pub mod Forms
use Prim.Native.Nat.{◌/◌, ◌%◌, ◌^◌, bit_xor}
use bitgate.Base.{
  ℕ, zero, suc, ◌+◌, ◌-◌, ◌*◌, ◌==◌, Bool, true, false, not, ◌&&◌, ◌||◌, Option, none, some, List,
  [], ◌∷◌, ◌++◌, map, length, is_empty, leb, ltb, nat_beq, if◌then◌else◌,
}
use bitgate.Base.Options.{◌>>=◌}
use bitgate.Base.Text.{Text, codes, text_eq, trim, to_lower_case, is_hex64}
use bitgate.Core.Fingerprint.{hex_unit}

unfoldable pub charset : Text
charset = codes "qpzry9x8gf2tvdw0s3jn54khce6mua7l"

-- `CHARSET_MAP.get(c)`, counted from an index
unfoldable pub word_from : ℕ → Text → ℕ → Option ℕ
word_from index [] c = none
word_from index (d ∷ rest) c =
    let next = word_from (suc index) rest c in if nat_beq d c then some index else next

abbrev pub generators : List ℕ
generators = 0x3b6a57b2 ∷ 0x26508e6d ∷ 0x1ea119fa ∷ 0x3d4233dd ∷ 0x2a1462b3 ∷ []

-- The loop over the bits of `top`.
unfoldable pub mix_generators : List ℕ → ℕ → ℕ → ℕ
mix_generators [] top checksum = checksum
mix_generators (generator ∷ rest) top checksum =
    mix_generators rest (top / 2)
      (if nat_beq (top % 2) 1 then bit_xor checksum generator else checksum)

unfoldable pub polymod_from : ℕ → List ℕ → ℕ
unfolding mix_generators
polymod_from checksum [] = checksum
polymod_from checksum (value ∷ values) =
    polymod_from
      (mix_generators generators (checksum / 0x2000000)
        (bit_xor ((checksum % 0x2000000) * 32) value))
      values

unfoldable pub polymod : List ℕ → ℕ
unfolding polymod_from
polymod values = polymod_from 1 values

unfoldable pub hrp_expand : Text → List ℕ
hrp_expand hrp = map (λ c. c / 32) hrp ++ 0 ∷ map (λ c. c % 32) hrp

-- The text before the last unit of a code, and the text after it.
unfoldable pub split_last : ℕ → Text → Option (Text × Text)
split_last c [] = none
split_last c (d ∷ s) = elim (split_last c s) [
  | some (before, after) ↦ some (d ∷ before, after)
  | none ↦ if nat_beq d c then some ([], s) else none
]

unfoldable pub words_of : Text → Option (List ℕ)
unfolding word_from charset
words_of [] = some []
words_of (c ∷ s) = do word ← word_from 0 charset c; words ← words_of s; some (word ∷ words)

abbrev pub to_upper_case : Text → Text
to_upper_case = map (λ c. if leb 97 c && leb c 122 then c - 32 else c)

unfoldable pub drop_last : ℕ → List ℕ → List ℕ
drop_last n [] = []
drop_last n (x ∷ xs) = let rest = drop_last n xs in if leb n (length xs) then x ∷ rest else []

pub record Bech32 : Type 0 where
  pub hrp : Text
  pub words : List ℕ

abbrev is_mixed_case : Text → Bool
is_mixed_case trimmed =
    not (trimmed == to_lower_case trimmed) && not (trimmed == to_upper_case trimmed)

unfoldable pub checked_words : Text → List ℕ → Option Bech32
unfolding polymod hrp_expand drop_last
checked_words hrp words =
    if nat_beq (polymod (hrp_expand hrp ++ words)) 1
    then some (record { hrp = hrp; words = drop_last 6 words })
    else none

unfoldable pub bech32_decode : Text → Option Bech32
unfolding split_last words_of checked_words
bech32_decode value = do
  let trimmed = trim value
  (hrp, rest) ← if is_mixed_case trimmed then none else split_last 49 (to_lower_case trimmed)
  words ← if is_empty hrp || ltb (length rest) 6 then none else words_of rest
  checked_words hrp words

-- The accumulator of `convertBits`, how many of its bits are to be written, and what was written.
pub record Bits : Type 0 where
  pub accumulator : ℕ
  pub bits : ℕ
  pub result : List ℕ

-- The `while` loop, with fuel for as many rounds as there are bits.
unfoldable pub drain : ℕ → ℕ → Bits → Bits
drain zero to state = state
drain (suc fuel) to state =
    let next = drain fuel to (record {
      accumulator = state.accumulator;
      bits = state.bits - to;
      result = state.result ++ (state.accumulator / 2 ^ (state.bits - to)) % 2 ^ to ∷ [];
    }) in
    if leb to state.bits then next else state

unfoldable pub convert_all : ℕ → ℕ → Bits → List ℕ → Option Bits
unfolding drain
convert_all from to state [] = some state
convert_all from to state (value ∷ values) =
    let read : Bits = record {
      accumulator = (state.accumulator * 2 ^ from + value) % 2 ^ (from + to - 1);
      bits = state.bits + from;
      result = state.result;
    } in
    let rest = convert_all from to (drain read.bits to read) values in
    if leb (2 ^ from) value then none else rest

-- The last group: padded to a whole one, or required to be less than a group of zero bits.
unfoldable pub close_bits : ℕ → ℕ → Bool → Bits → Option (List ℕ)
close_bits from to true state =
    if nat_beq state.bits 0
    then some state.result
    else some (state.result ++ (state.accumulator * 2 ^ (to - state.bits)) % 2 ^ to ∷ [])
close_bits from to false state =
    if leb from state.bits || not (nat_beq ((state.accumulator * 2 ^ (to - state.bits)) % 2 ^ to) 0)
    then none
    else some state.result

unfoldable pub convert_bits : List ℕ → ℕ → ℕ → Bool → Option (List ℕ)
unfolding convert_all close_bits
convert_bits values from to pad = do
  state ← convert_all from to (record { accumulator = 0; bits = 0; result = [] }) values
  close_bits from to pad state

-- `byte.toString(16).padStart(2, "0")`, joined
unfoldable pub hex_bytes : List ℕ → Text
hex_bytes [] = []
hex_bytes (byte ∷ bytes) = hex_unit (byte / 16) ∷ hex_unit (byte % 16) ∷ hex_bytes bytes

-- The 32 bytes of a form with the prefix.
unfoldable pub decoded_bytes : Text → Text → Option (List ℕ)
unfolding bech32_decode convert_bits
decoded_bytes prefix value = do
  decoded ← bech32_decode value
  bytes ← if decoded.hrp == prefix then convert_bits decoded.words 5 8 false else none
  if nat_beq (length bytes) 32 then some bytes else none

abbrev pub hex_or_empty : Option (List ℕ) → Text
hex_or_empty none = []
hex_or_empty (some bytes) = hex_bytes bytes

-- `decodeNpub` and `decodeNote`, which differ in the prefix.
unfoldable pub decode_form : Text → Text → Text
unfolding decoded_bytes hex_bytes
decode_form prefix value = hex_or_empty (decoded_bytes prefix value)

unfoldable pub normalize_pubkey_input : Text → Text
unfolding decode_form
normalize_pubkey_input value =
    let trimmed = trim value in
    if is_hex64 trimmed then to_lower_case trimmed else decode_form (codes "npub") trimmed

unfoldable pub normalize_event_id_input : Text → Text
unfolding decode_form
normalize_event_id_input value =
    let trimmed = trim value in
    if is_hex64 trimmed then to_lower_case trimmed else decode_form (codes "note") trimmed
