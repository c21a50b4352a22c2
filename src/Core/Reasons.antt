-- ===== src/Core/Reasons.antt =====
-- packages/core/src/reasons.js: reason identifiers, their details and deduplication.
-- An identifier is one of the list by its type, so `createReason` cannot throw here.
pub mod Dedupe
use native.Mathlib.Decide.{ℕ_discrete}
use bitgate.Base.{
  ℕ, ◌≡◌, refl, ◌↔◌, ◌==◌, Eq, decide_beq, decide_beq_iff, option_beq, option_beq_iff, nat_eq, Bool,
  true, ◌&&◌, Option, none, some, List, [], ◌∷◌, arith, ltb, is_empty, if◌then◌else◌, get_or,
}
use bitgate.Base.Text.{Text, trim, text_eq, text_beq_iff}
use bitgate.Base.Map.{Map, get, put, values}

pub data ReasonId : Type 0 where
  viewer_block viewer_mute viewer_override : ReasonId
  admin_user_deny admin_event_deny admin_address_deny community_user_deny : ReasonId
  trusted_report trusted_report_threshold trusted_mute trusted_mute_threshold : ReasonId
  allowlist_miss protected_target surface_policy_bypass policy_disabled : ReasonId

unfoldable pub ReasonId-discrete : Discrete ReasonId
ReasonId-discrete = hlevel

pub reason_id_beq_iff : (a b : ReasonId) → (decide_beq ReasonId-discrete a b ≡ true) ↔ (a ≡ b)
reason_id_beq_iff = decide_beq_iff ReasonId-discrete

instance abbrev pub reason_id_eq : Eq ReasonId
reason_id_eq = record { beq = decide_beq ReasonId-discrete; beq_iff = reason_id_beq_iff }

pub record Reason : Type 0 where
  pub id : ReasonId
  pub category : Option Text
  pub count : Option ℕ
  pub threshold : Option ℕ
  pub source : Option Text

-- `typeof text === "string" && text.trim()`, then the trimmed text
abbrev kept : Option Text → Option Text
kept none = none
kept (some text) = if is_empty (trim text) then none else some (trim text)

unfoldable pub create_reason : ReasonId → Option Text → Option ℕ → Option ℕ → Option Text → Reason
create_reason id category count threshold source = record {
  id = id;
  category = kept category;
  count = count;
  threshold = threshold;
  source = kept source;
}

abbrev pub plain_reason : ReasonId → Reason
plain_reason id = create_reason id none none none none

-- The code joins the three parts with `|` into one text. No identifier and no number holds a `|`,
-- so two such texts are equal exactly when the parts are.
pub record ReasonKey : Type 0 where
  pub id : ReasonId
  pub category : Text
  pub threshold : Option ℕ

unfoldable pub reason_key : Reason → ReasonKey
reason_key r = record { id = r.id; category = get_or r.category []; threshold = r.threshold }

unfoldable pub reason_key_beq : ReasonKey → ReasonKey → Bool
reason_key_beq a b =
    a.id == b.id && (a.category == b.category && option_beq a.threshold b.threshold)

pub reason_key_beq_iff : (a b : ReasonKey) → (reason_key_beq a b ≡ true) ↔ (a ≡ b)
unfolding reason_key_beq
reason_key_beq_iff a b = ground (
  arith,
  reason_id_beq_iff a.id b.id,
  text_beq_iff a.category b.category,
  option_beq_iff a.threshold b.threshold,
)

instance abbrev pub reason_key_eq : Eq ReasonKey
reason_key_eq = record { beq = reason_key_beq; beq_iff = reason_key_beq_iff }

-- The larger count is kept.
unfoldable pub raise_count : Reason → Reason → Reason
raise_count existing reason = elim reason.count [
  | none ↦ existing
  | some next ↦ elim existing.count [
    | none ↦ record existing { count = some next }
    | some held ↦ if ltb held next then record existing { count = some next } else existing
  ]
]

-- A first reason is stored; a later one only raises the count of the one that is there.
abbrev pub merged : Option Reason → Reason → Reason
merged none reason = reason
merged (some existing) reason = raise_count existing reason

unfoldable pub dedupe_step : Map ReasonKey Reason → Reason → Map ReasonKey Reason
dedupe_step by_key reason =
    put by_key (reason_key reason) (merged (get by_key (reason_key reason)) reason)

unfoldable pub dedupe_from : Map ReasonKey Reason → List Reason → Map ReasonKey Reason
dedupe_from by_key [] = by_key
dedupe_from by_key (reason ∷ rest) = dedupe_from (dedupe_step by_key reason) rest

unfoldable pub dedupe_reasons : List Reason → List Reason
unfolding dedupe_from dedupe_step raise_count reason_key
dedupe_reasons reasons = values (dedupe_from [] reasons)
