-- ===== src/Core/Targets/Collision.antt =====
-- targets.js and identifiers.js: valid targets that share a key.
use bitgate.Base.{◌≡◌, ◌≢◌, sym, ap, ◌∙◌, true, [], ◌++◌, append_assoc, append-nil}
use mathlib.Core.List.{append_cancel_left}
use bitgate.Base.Text.{Text, codes, is_hex64}
use bitgate.Core.Identifiers.{GovernanceTarget, address, get_target_key}
use bitgate.Core.Targets.{is_valid_target}

abbrev kind_of : GovernanceTarget → Text
kind_of (address kind pubkey identifier) = kind
kind_of target = []

longer_kind : (kind rest : Text) → kind ++ (codes ":" ++ rest) ≢ kind
longer_kind kind rest e =
    let tail = append_cancel_left kind (codes ":" ++ rest) [] (e ∙ sym (append-nil kind)) in
    absurd (cc tail)

-- Two different targets that are both valid and have one key.
abbrev pub Collide : GovernanceTarget → GovernanceTarget → Type 0
Collide a b =
    (is_valid_target a ≡ true)
    × (is_valid_target b ≡ true)
    × (a ≢ b)
    × (get_target_key a ≡ get_target_key b)

-- For any two valid pubkeys, the address whose kind is `kind:pubkey`, with a colon inside, under
-- the other pubkey, and the address of that kind and pubkey whose identifier starts with the other
-- pubkey and a colon, are different targets, both valid, with the same key.
pub address_key_collision :
    (kind pubkey other identifier : Text)
    → is_hex64 pubkey ≡ true
    → is_hex64 other ≡ true
    → Collide
        (address (kind ++ (codes ":" ++ pubkey)) other identifier)
        (address kind pubkey (other ++ (codes ":" ++ identifier)))
unfolding get_target_key is_valid_target
address_key_collision kind pubkey other identifier p o = (
  o,
  p,
  λ e. longer_kind kind pubkey (ap kind_of e),
  ap (λ t. codes "address:" ++ t) (simp append_assoc),
)
