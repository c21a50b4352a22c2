-- ===== src/Nostr/Nip19/Forms.antt =====
-- packages/nostr/src/nip19.js: what the two normalizations return.
use Prim.Native.Nat.{◌/◌, ◌%◌, ◌^◌}
use bitgate.Base.{
  ℕ, zero, suc, ◌+◌, ◌-◌, ◌*◌, ◌≡◌, ◌⊎◌, refl, ap, ◌∙◌, inl, inr, Bool, true, false, some, List, [],
  ◌∷◌, ◌++◌, arith, length, all, is_empty, ltb, Bool-cases, Option-cases, map,
}
use bitgate.Base.Text.{Text, codes, text_eq, trim, to_lower_case, lower_unit, is_hex_unit, is_hex64}
use bitgate.Base.Text.Laws.{trim-is_hex64}
use bitgate.Core.Fingerprint.{hex_unit}
use bitgate.Core.Identifiers.{normalize_pubkey}
use bitgate.Core.Identifiers.Normal.{
  IsHexKey, IsHexKey-lower, normalize_pubkey-IsHexKey, normalize_pubkey_nil,
}
use bitgate.Nostr.Nip19.{
  Bits, drain, convert_all, close_bits, convert_bits, hex_bytes, bech32_decode, decoded_bytes,
  decode_form, normalize_pubkey_input, normalize_event_id_input,
}

abbrev is_byte : ℕ → Bool
is_byte n = ltb n 256

all-snoc :
    (xs : List ℕ) (x : ℕ)
    → all is_byte xs ≡ true
    → is_byte x ≡ true
    → all is_byte (xs ++ x ∷ []) ≡ true
all-snoc [] x h k = ground arith
all-snoc (y ∷ xs) x h k = ground (arith, all-snoc xs x)

drain-bytes :
    (fuel : ℕ) (state : Bits)
    → all is_byte state.result ≡ true
    → all is_byte (drain fuel 8 state).result ≡ true
unfolding drain
drain-bytes zero state h = h
drain-bytes (suc fuel) state h =
    let byte = (state.accumulator / 2 ^ (state.bits - 8)) % 256 in
    let next =
      drain-bytes fuel
        (record {
          accumulator = state.accumulator;
          bits = state.bits - 8;
          result = state.result ++ byte ∷ [];
        })
        (all-snoc state.result byte h (ground arith)) in
    ground (arith, next)

-- Each value written fits in eight bits.
convert_all-bytes :
    (state : Bits) (values : List ℕ)
    → all is_byte state.result ≡ true
    → (after : Bits) → convert_all 5 8 state values ≡ some after
    → all is_byte after.result ≡ true
unfolding convert_all
convert_all-bytes state [] h after e = ground arith
convert_all-bytes state (value ∷ values) h after e =
    let read : Bits = record {
      accumulator = (state.accumulator * 32 + value) % 4096;
      bits = state.bits + 5;
      result = state.result;
    } in
    ground (
      arith,
      convert_all-bytes (drain read.bits 8 read) values (drain-bytes read.bits read h) after,
      e,
    )

convert_bits-bytes :
    (values bytes : List ℕ) → convert_bits values 5 8 false ≡ some bytes → all is_byte bytes ≡ true
unfolding convert_bits close_bits
convert_bits-bytes values bytes e =
    elim (Option-cases
      (convert_all 5 8 (record { accumulator = 0; bits = 0; result = [] }) values)) [
        | inl f ↦ ground (arith, e, f)
        | inr (after, f) ↦ ground (
          arith,
          e,
          f,
          convert_all-bytes (record { accumulator = 0; bits = 0; result = [] }) values refl after f,
        )
      ]

hex_unit-digit :
    (d : ℕ)
    → ltb d 16 ≡ true
    → (is_hex_unit (hex_unit d) ≡ true) × (lower_unit (hex_unit d) ≡ hex_unit d)
unfolding is_hex_unit lower_unit
hex_unit-digit d h = (ground arith, ground arith)

hex_bytes-digits :
    (bytes : List ℕ)
    → all is_byte bytes ≡ true
    → (all is_hex_unit (hex_bytes bytes) ≡ true)
      × (map lower_unit (hex_bytes bytes) ≡ hex_bytes bytes)
unfolding hex_bytes
hex_bytes-digits [] h = (refl, refl)
hex_bytes-digits (byte ∷ bytes) h =
    let high = hex_unit-digit (byte / 16) (ground arith) in
    let low = hex_unit-digit (byte % 16) (ground arith) in
    let rest = hex_bytes-digits bytes (ground arith) in
    (rw (high.0, low.0) (rest.0), rw (high.1, low.1, rest.1) refl)

length-hex_bytes : (bytes : List ℕ) → length (hex_bytes bytes) ≡ 2 * length bytes
unfolding hex_bytes
length-hex_bytes [] = omega arith
length-hex_bytes (byte ∷ bytes) = omega (arith, length-hex_bytes bytes)

IsHexKey-hex_bytes :
    (bytes : List ℕ) → length bytes ≡ 32 → all is_byte bytes ≡ true → IsHexKey (hex_bytes bytes)
unfolding is_hex64 to_lower_case
IsHexKey-hex_bytes bytes l h = (
  ground (arith, length-hex_bytes bytes, (hex_bytes-digits bytes h).0),
  (hex_bytes-digits bytes h).1,
)

decoded-IsHexKey :
    (prefix value : Text) (bytes : List ℕ)
    → decoded_bytes prefix value ≡ some bytes
    → IsHexKey (hex_bytes bytes)
unfolding decoded_bytes
decoded-IsHexKey prefix value bytes e = elim (Option-cases (bech32_decode value)) [
  | inl f ↦ ground (arith, e, f)
  | inr (decoded, f) ↦ elim (Option-cases (convert_bits decoded.words 5 8 false)) [
    | inl g ↦ ground (arith, e, f, g)
    | inr (all_bytes, g) ↦
        let (l, same) : (length bytes ≡ 32) × (all_bytes ≡ bytes) = ground (arith, e, f, g) in
        IsHexKey-hex_bytes bytes l (convert_bits-bytes decoded.words bytes (g ∙ ap some same))
  ]
]

decode_form-cases :
    (prefix value : Text) → (decode_form prefix value ≡ []) ⊎ IsHexKey (decode_form prefix value)
unfolding decode_form
decode_form-cases prefix value = elim (Option-cases (decoded_bytes prefix value)) [
  | inl e ↦ inl (rw e refl)
  | inr (bytes, e) ↦ inr (rw e (decoded-IsHexKey prefix value bytes e))
]

pub normalize_pubkey_input-cases :
    (value : Text) → (normalize_pubkey_input value ≡ []) ⊎ IsHexKey (normalize_pubkey_input value)
unfolding normalize_pubkey_input
normalize_pubkey_input-cases value = elim (Bool-cases (is_hex64 (trim value))) [
  | inl e ↦ inr (rw e (IsHexKey-lower (trim value) e))
  | inr e ↦ rw e (decode_form-cases (codes "npub") (trim value))
]

pub normalize_event_id_input-cases :
    (value : Text)
    → (normalize_event_id_input value ≡ []) ⊎ IsHexKey (normalize_event_id_input value)
unfolding normalize_event_id_input
normalize_event_id_input-cases value = elim (Bool-cases (is_hex64 (trim value))) [
  | inl e ↦ inr (rw e (IsHexKey-lower (trim value) e))
  | inr e ↦ rw e (decode_form-cases (codes "note") (trim value))
]

-- A key given in hexadecimal digits or as an npub is normalized to a key that the core's
-- normalization leaves as it is, or to the empty text.
pub normalize_pubkey-input :
    (value : Text) → normalize_pubkey (normalize_pubkey_input value) ≡ normalize_pubkey_input value
normalize_pubkey-input value = elim (normalize_pubkey_input-cases value) [
  | inl e ↦ rw e normalize_pubkey_nil
  | inr h ↦ normalize_pubkey-IsHexKey (normalize_pubkey_input value) h
]

-- A canonical key is left as it is.
pub normalize_pubkey_input-IsHexKey : (s : Text) → IsHexKey s → normalize_pubkey_input s ≡ s
unfolding normalize_pubkey_input
normalize_pubkey_input-IsHexKey s (h, l) = rw (trim-is_hex64 s h, h) l

pub normalize_event_id_input-IsHexKey : (s : Text) → IsHexKey s → normalize_event_id_input s ≡ s
unfolding normalize_event_id_input
normalize_event_id_input-IsHexKey s (h, l) = rw (trim-is_hex64 s h, h) l

-- A result that is not empty is a canonical key.
pub IsHexKey-input :
    (value : Text)
    → is_empty (normalize_pubkey_input value) ≡ false
    → IsHexKey (normalize_pubkey_input value)
IsHexKey-input value h = elim (normalize_pubkey_input-cases value) [
  | inl e ↦ ground (arith, e, h)
  | inr k ↦ k
]
