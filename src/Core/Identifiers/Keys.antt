-- ===== src/Core/Identifiers/Keys.antt =====
-- identifiers.js: the targets that share a key of `getTargetKey`.
use bitgate.Base.{◌≡◌, ◌≢◌, refl, true, [], ◌∷◌, ◌++◌, arith, All, all}
use mathlib.Core.List.{append_cancel_left}
use bitgate.Base.Text.{Text, codes, is_hex_unit, is_hex64}
use bitgate.Core.Identifiers.{address, user_key, get_target_key}

-- No colon among the code units.
abbrev pub NoColon : Text → Type 0
NoColon s = All (λ c. c ≢ b':') s

all-hex-NoColon : (s : Text) → all is_hex_unit s ≡ true → NoColon s
unfolding is_hex_unit
all-hex-NoColon [] h = tt
all-hex-NoColon (c ∷ s) h = (ground arith, all-hex-NoColon s (ground arith))

pub is_hex64-NoColon : (s : Text) → is_hex64 s ≡ true → NoColon s
unfolding is_hex64
is_hex64-NoColon s h = all-hex-NoColon s (ground arith)

-- A text is cut in one way at its first colon.
cut_at_colon :
    (s t r u : Text)
    → NoColon s
    → NoColon t
    → s ++ (codes ":" ++ r) ≡ t ++ (codes ":" ++ u)
    → (s ≡ t) × (r ≡ u)
cut_at_colon [] [] r u hs ht e = (refl, cc)
cut_at_colon [] (d ∷ t) r u hs ht e = absurd (ht.0 (cc))
cut_at_colon (c ∷ s) [] r u hs ht e = absurd (hs.0 (cc))
cut_at_colon (c ∷ s) (d ∷ t) r u hs ht e =
    let ih = cut_at_colon s t r u hs.1 ht.1 (cc) in (cc ih.0, ih.1)

pub user_key-injective : (p q : Text) → user_key p ≡ user_key q → p ≡ q
user_key-injective p q e = cc

-- Addresses with the same key, if neither the kinds nor the pubkeys hold a colon.
pub address_key-injective :
    (k l p q i j : Text)
    → NoColon k
    → NoColon l
    → NoColon p
    → NoColon q
    → get_target_key (address k p i) ≡ get_target_key (address l q j)
    → (k ≡ l) × (p ≡ q) × (i ≡ j)
unfolding get_target_key
address_key-injective k l p q i j hk hl hp hq e =
    let (first, rest) = cut_at_colon k l _ _ hk hl (append_cancel_left (codes "address:") _ _ e) in
    let (second, third) = cut_at_colon p q i j hp hq rest in (first, second, third)
