-- ===== src/Nostr/Canonical/Identifier.antt =====
-- packages/nostr/src/canonical.js: identifiers of documents, and coordinates of addresses.
use bitgate.Base.{◌≡◌, refl, true, false, some, [], ◌∷◌, ◌++◌, arith, all, is_empty}
use bitgate.Base.Text.{Text, codes, text_eq, text_beq, trim, is_hex64, is_hex_unit}
use bitgate.Base.Text.Laws.{trim-hex}
use bitgate.Core.Identifiers.{address, normalize_address}
use bitgate.Core.Identifiers.Normal.{IsHexKey, is_hex64-not_empty, normalize_pubkey-IsHexKey}
use bitgate.Nostr.Nip19.Forms.{normalize_pubkey_input-IsHexKey}
use bitgate.Nostr.Canonical.{
  canonical_identifier, split_colon, has_colon, are_digits, is_digit, match_identifier,
  parse_identifier, decode_address_coordinate, encode_address_coordinate, canonical_version,
}

split_colon-append : (a s : Text) → has_colon a ≡ false → split_colon (a ++ 58 ∷ s) ≡ some (a, s)
unfolding split_colon
split_colon-append [] s h = refl
split_colon-append (c ∷ a) s h = rw (split_colon-append a s (ground arith)) (ground arith)

-- A namespace or a scope: not empty and without a colon.
abbrev pub IsPart : Text → Type 0
IsPart s = (is_empty s ≡ false) × (has_colon s ≡ false)

-- The identifier of a document is parsed to its namespace and scope, if both are parts and it
-- neither starts nor ends with a space.
pub parse_identifier-canonical :
    (namespace scope : Text)
    → IsPart namespace
    → IsPart scope
    → trim (canonical_identifier namespace scope) ≡ canonical_identifier namespace scope
    → parse_identifier (canonical_identifier namespace scope)
      ≡ some (record { namespace = namespace; scope = scope; version = canonical_version })
unfolding parse_identifier match_identifier canonical_identifier split_colon text_beq
parse_identifier-canonical namespace scope (n, nc) (f, fc) t =
    rw (t, split_colon-append namespace _ nc)
      (rw (split_colon-append scope (codes "v1") fc) (rw (n, f) refl))

hex_no_colon : (s : Text) → all is_hex_unit s ≡ true → has_colon s ≡ false
unfolding is_hex_unit
hex_no_colon [] h = refl
hex_no_colon (c ∷ s) h = ground (arith, hex_no_colon s)

digits_hex : (s : Text) → all is_digit s ≡ true → all is_hex_unit s ≡ true
unfolding is_hex_unit
digits_hex [] h = refl
digits_hex (c ∷ s) h = ground (arith, digits_hex s)

digits_no_colon : (s : Text) → all is_digit s ≡ true → has_colon s ≡ false
digits_no_colon [] h = refl
digits_no_colon (c ∷ s) h = ground (arith, digits_no_colon s)

-- The coordinate of an address is decoded to the address, if the kind is digits, the key is
-- canonical and the identifier is not empty and has no space at its ends, colons or not.
pub decode_address_coordinate-encode :
    (kind pubkey identifier : Text)
    → are_digits kind ≡ true
    → IsHexKey pubkey
    → is_empty identifier ≡ false
    → trim identifier ≡ identifier
    → decode_address_coordinate (encode_address_coordinate kind pubkey identifier)
      ≡ some (address kind pubkey identifier)
unfolding decode_address_coordinate is_hex64 normalize_address
decode_address_coordinate-encode kind pubkey identifier d k i t =
    rw
      (
        split_colon-append kind (pubkey ++ 58 ∷ identifier)
            (digits_no_colon kind (ground (arith, d))),
        split_colon-append pubkey identifier (hex_no_colon pubkey (ground (arith, k.0))),
        d,
        i,
        normalize_pubkey_input-IsHexKey pubkey k,
        trim-hex kind (digits_hex kind (ground (arith, d))),
        normalize_pubkey-IsHexKey pubkey k,
        is_hex64-not_empty pubkey k.0,
        t,
      )
      (ground (arith, d, i))
