-- ===== src/Core/Identifiers/Normal.antt =====
-- identifiers.js: the results of `normalizePubkey` and `normalizeEventId`.
use bitgate.Base.{◌≡◌, refl, ap, sym, ◌∙◌, ◌⊎◌, inl, inr, true, false, [], ◌∷◌, arith, is_empty}
use bitgate.Base.Text.{Text, trim, to_lower_case, is_hex64}
use bitgate.Base.Text.Laws.{
  to_lower_case_idem, is_hex64-to_lower_case, trim-is_hex64, is_hex64-ne-nil,
}
use bitgate.Core.Identifiers.{normalize_pubkey, normalize_event_id}

-- Sixty-four lower-case hexadecimal digits.
abbrev pub IsHexKey : Text → Type 0
IsHexKey s = (is_hex64 s ≡ true) × (to_lower_case s ≡ s)

pub IsHexKey-lower : (s : Text) → is_hex64 s ≡ true → IsHexKey (to_lower_case s)
IsHexKey-lower s h = (is_hex64-to_lower_case s ∙ h, to_lower_case_idem s)

-- The result is empty, or a key in canonical form.
pub normalize_pubkey-cases : (s : Text) → (normalize_pubkey s ≡ []) ⊎ IsHexKey (normalize_pubkey s)
unfolding normalize_pubkey
normalize_pubkey-cases s = ground (arith, IsHexKey-lower (trim s))

pub normalize_event_id-cases :
    (s : Text) → (normalize_event_id s ≡ []) ⊎ IsHexKey (normalize_event_id s)
unfolding normalize_event_id
normalize_event_id-cases s = ground (arith, IsHexKey-lower (trim s))

pub is_hex64-not_empty : (s : Text) → is_hex64 s ≡ true → is_empty s ≡ false
is_hex64-not_empty [] h = cc (is_hex64-ne-nil, h)
is_hex64-not_empty (c ∷ s) h = refl

-- A canonical key is left as it is.
pub normalize_pubkey-IsHexKey : (s : Text) → IsHexKey s → normalize_pubkey s ≡ s
unfolding normalize_pubkey
normalize_pubkey-IsHexKey s h = rw (trim-is_hex64 s h.0, is_hex64-not_empty s h.0, h.0) h.1

pub normalize_pubkey_nil : normalize_pubkey [] ≡ []
unfolding normalize_pubkey trim
normalize_pubkey_nil = refl

-- Normalizing twice is normalizing once.
pub normalize_pubkey_idem : (s : Text) → normalize_pubkey (normalize_pubkey s) ≡ normalize_pubkey s
normalize_pubkey_idem s = elim (normalize_pubkey-cases s) [
  | inl e ↦ rw e normalize_pubkey_nil
  | inr h ↦ normalize_pubkey-IsHexKey _ h
]

-- For any spelling of 64 hexadecimal digits, in either case and with space around it, the result
-- is their lower-case spelling.
pub normalize_pubkey-spelling :
    (s digits : Text)
    → IsHexKey digits
    → to_lower_case (trim s) ≡ digits
    → normalize_pubkey s ≡ digits
unfolding normalize_pubkey
normalize_pubkey-spelling s digits h e =
    let hex : is_hex64 (trim s) ≡ true =
      sym (is_hex64-to_lower_case (trim s)) ∙ ap is_hex64 e ∙ h.0 in
    rw (is_hex64-not_empty (trim s) hex, hex) e
