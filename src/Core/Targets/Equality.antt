-- ===== src/Core/Targets/Equality.antt =====
-- targets.js: `areTargetsEqual` and the keys of targets.
use bitgate.Base.{ℕ, ◌≡◌, refl, ap, ◌↔◌, true, [], ◌∷◌, arith}
use bitgate.Base.Text.{Text, text_eq, text_beq_iff}
use bitgate.Core.Identifiers.{GovernanceTarget, user, event, address, get_target_key}
use bitgate.Core.Identifiers.Keys.{
  NoColon, is_hex64-NoColon, user_key-injective, address_key-injective,
}
use bitgate.Core.Targets.{are_targets_equal, is_valid_target}

-- The same user, the same event, or the same coordinate; an event's author and kind do not count.
abbrev pub SameSubject : GovernanceTarget → GovernanceTarget → Type 0
SameSubject (user p) (user q) = p ≡ q
SameSubject (event i _ _) (event j _ _) = i ≡ j
SameSubject (address k p i) (address l q j) = (k ≡ l) × (p ≡ q) × (i ≡ j)
SameSubject _ _ = ⊥

abbrev pub HasPlainKind : GovernanceTarget → Type 0
HasPlainKind (address kind _ _) = NoColon kind
HasPlainKind _ = Unit

-- Keys of different kinds of target differ in their first unit.
abbrev first_unit : Text → ℕ
first_unit [] = 0
first_unit (c ∷ s) = c

-- Only a user has a user's key.
pub user-of_key :
    (a : GovernanceTarget) (p : Text)
    → get_target_key (user p) ≡ get_target_key a
    → (q : Text) × (a ≡ user q)
unfolding get_target_key
user-of_key (user q) p e = (q, refl)
user-of_key (event i _ _) p e = absurd (omega (arith, ap first_unit e))
user-of_key (address k q i) p e = absurd (omega (arith, ap first_unit e))

eq-of_key :
    (a b : GovernanceTarget)
    → is_valid_target a ≡ true
    → is_valid_target b ≡ true
    → HasPlainKind a
    → HasPlainKind b
    → get_target_key a ≡ get_target_key b
    → SameSubject a b
unfolding is_valid_target
eq-of_key (user p) (user q) va vb ka kb e = unfold get_target_key in user_key-injective p q e
eq-of_key (event i _ _) (event j _ _) va vb ka kb e = unfold get_target_key in cc
eq-of_key (address k p i) (address l q j) va vb ka kb e =
    address_key-injective k l p q i j ka kb (is_hex64-NoColon p va) (is_hex64-NoColon q vb) e
eq-of_key (user p) (event _ _ _) va vb ka kb e =
    absurd (unfold get_target_key in omega (arith, ap first_unit e))
eq-of_key (user p) (address _ _ _) va vb ka kb e =
    absurd (unfold get_target_key in omega (arith, ap first_unit e))
eq-of_key (event i _ _) (user q) va vb ka kb e =
    absurd (unfold get_target_key in omega (arith, ap first_unit e))
eq-of_key (event i _ _) (address _ _ _) va vb ka kb e =
    absurd (unfold get_target_key in omega (arith, ap first_unit e))
eq-of_key (address _ _ _) (user q) va vb ka kb e =
    absurd (unfold get_target_key in omega (arith, ap first_unit e))
eq-of_key (address _ _ _) (event _ _ _) va vb ka kb e =
    absurd (unfold get_target_key in omega (arith, ap first_unit e))

key-of_SameSubject :
    (a b : GovernanceTarget) → SameSubject a b → get_target_key a ≡ get_target_key b
unfolding get_target_key
key-of_SameSubject (user p) (user q) h = cc
key-of_SameSubject (event i _ _) (event j _ _) h = cc
key-of_SameSubject (address k p i) (address l q j) (hk, hp, hi) = cc
key-of_SameSubject (user p) (event _ _ _) h = absurd h
key-of_SameSubject (user p) (address _ _ _) h = absurd h
key-of_SameSubject (event i _ _) (user q) h = absurd h
key-of_SameSubject (event i _ _) (address _ _ _) h = absurd h
key-of_SameSubject (address _ _ _) (user q) h = absurd h
key-of_SameSubject (address _ _ _) (event _ _ _) h = absurd h

-- Valid targets whose kinds hold no colon are equal exactly when they name the same user, the same
-- event or the same coordinate.
pub are_targets_equal_iff :
    (a b : GovernanceTarget)
    → is_valid_target a ≡ true
    → is_valid_target b ≡ true
    → HasPlainKind a
    → HasPlainKind b
    → (are_targets_equal a b ≡ true) ↔ SameSubject a b
unfolding are_targets_equal
are_targets_equal_iff a b va vb ka kb =
    let keys = text_beq_iff (get_target_key a) (get_target_key b) in
    (λ e. eq-of_key a b va vb ka kb (keys.0 e), λ h. keys.1 (key-of_SameSubject a b h))
