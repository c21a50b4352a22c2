-- ===== src/Core/Evaluator/Signals.antt =====
-- evaluator.js: counting trusted reports and mutes.
pub mod Countable
pub mod Counts
use bitgate.Base.{
  ℕ, ◌+◌, ◌==◌, Bool, true, false, not, ◌&&◌, Option, none, some, List, [], ◌∷◌, is_empty, length,
  ltb, if◌then◌else◌, get_or,
}
use bitgate.Base.Text.{Text, text_eq, trim, to_lower_case}
use bitgate.Base.Set.{has, add}
use bitgate.Base.Map.{Map, get, put}
use bitgate.Core.Identifiers.{user_key}
use bitgate.Core.Evaluator.Snapshot.{ReportRecord, MuteRecord, ViewerState, GovernanceSnapshot}

-- The early returns of `isCountableSignal`, in their order.
unfoldable pub is_countable_signal : Text → List Text → GovernanceSnapshot → ViewerState → Bool
is_countable_signal pubkey trust_set snapshot viewer =
    if is_empty pubkey
    then false
    else if not (has trust_set pubkey)
    then false
    else if has viewer.blocks pubkey
    then false
    else not (has snapshot.admin.user_deny (user_key pubkey))

-- `typeof category === "string" ? category.trim().toLowerCase() : ""`
abbrev pub category_text : Option Text → Text
category_text none = []
category_text (some category) = to_lower_case (trim category)

-- The sets of contributors by category, and the set of all of them.
pub record Tally : Type 0 where
  pub by_category : Map Text (List Text)
  pub everyone : List Text

abbrev pub no_tally : Tally
no_tally = record { by_category = []; everyone = [] }

-- `byCategory.get(category).add(pubkey)`, with a new set for a new category
abbrev pub note : Map Text (List Text) → Text → Text → Map Text (List Text)
note by_category category pubkey =
    put by_category category (add (get_or (get by_category category) []) pubkey)

unfoldable pub tally_report :
    List Text → GovernanceSnapshot → ViewerState → Tally → ReportRecord → Tally
unfolding is_countable_signal
tally_report trust_set snapshot viewer tally r =
    if not (is_countable_signal r.reporter trust_set snapshot viewer)
    then tally
    else if is_empty (category_text r.category)
    then tally
    else record {
      by_category = note tally.by_category (category_text r.category) r.reporter;
      everyone = add tally.everyone r.reporter;
    }

unfoldable pub tally_reports :
    List Text → GovernanceSnapshot → ViewerState → Tally → List ReportRecord → Tally
tally_reports trust_set snapshot viewer tally [] = tally
tally_reports trust_set snapshot viewer tally (r ∷ rs) =
    tally_reports trust_set snapshot viewer (tally_report trust_set snapshot viewer tally r) rs

-- `counts[category] = set.size`
unfoldable pub sizes : Map Text (List Text) → Map Text ℕ
sizes [] = []
sizes ((category, set) ∷ rest) = (category, length set) ∷ sizes rest

unfoldable pub sum_sizes : Map Text (List Text) → ℕ
sum_sizes [] = 0
sum_sizes ((category, set) ∷ rest) = length set + sum_sizes rest

pub record Aggregate : Type 0 where
  pub total : ℕ
  pub by_category : Map Text ℕ
  pub pubkeys : List Text

unfoldable pub aggregate_reports : Text → GovernanceSnapshot → ViewerState → List Text → Aggregate
unfolding tally_reports tally_report sizes sum_sizes
aggregate_reports key snapshot viewer trust_set =
    let tally =
      tally_reports trust_set snapshot viewer no_tally (get_or (get snapshot.reports key) []) in
    record {
      total = sum_sizes tally.by_category;
      by_category = sizes tally.by_category;
      pubkeys = tally.everyone;
    }

-- `updatedAt < cutoff`, where the cutoff is `now - windowSeconds` for a positive window and minus
-- infinity otherwise. The difference may be negative, so the window stands on the other side.
abbrev pub is_stale : ℕ → Option ℕ → Option ℕ → Bool
is_stale now none updated_at = false
is_stale now (some window) updated_at = ltb 0 window && ltb (get_or updated_at 0 + window) now

unfoldable pub tally_mute :
    List Text → GovernanceSnapshot → ViewerState → ℕ → Option ℕ → Tally → MuteRecord → Tally
unfolding is_countable_signal
tally_mute trust_set snapshot viewer now window tally r =
    if not (is_countable_signal r.muter trust_set snapshot viewer)
    then tally
    else if is_stale now window r.updated_at
    then tally
    else record {
      by_category =
          if is_empty (category_text r.category)
          then tally.by_category
          else note tally.by_category (category_text r.category) r.muter;
      everyone = add tally.everyone r.muter;
    }

unfoldable pub tally_mutes :
    List Text → GovernanceSnapshot → ViewerState → ℕ → Option ℕ → Tally → List MuteRecord → Tally
tally_mutes trust_set snapshot viewer now window tally [] = tally
tally_mutes trust_set snapshot viewer now window tally (r ∷ rs) =
    tally_mutes trust_set snapshot viewer now window
      (tally_mute trust_set snapshot viewer now window tally r) rs

unfoldable pub aggregate_mutes :
    Text → GovernanceSnapshot → ViewerState → List Text → ℕ → Option ℕ → Aggregate
unfolding tally_mutes tally_mute sizes
aggregate_mutes key snapshot viewer trust_set now window_seconds =
    let tally =
      tally_mutes trust_set snapshot viewer now window_seconds no_tally
        (get_or (get snapshot.trusted_mutes key) []) in
    record {
      total = length tally.everyone;
      by_category = sizes tally.by_category;
      pubkeys = tally.everyone;
    }
