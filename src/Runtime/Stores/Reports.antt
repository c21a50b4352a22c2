-- ===== src/Runtime/Stores/Reports.antt =====
-- packages/runtime/src/stores.js: `ReportStore`. The fingerprint of the store counts the records of
-- each target.
pub mod Latest
pub mod Arrivals
use bitgate.Base.{
  ℕ, zero, suc, ◌==◌, Bool, true, false, not, ◌&&◌, ◌||◌, Option, none, some, List, [], ◌∷◌, ◌++◌,
  map, get_or, is_empty, is_some, leb, length, if◌then◌else◌,
}
use bitgate.Base.Text.{Text, text_eq}
use bitgate.Base.Map.{Map, get, put, remove, keys, has_key}
use bitgate.Base.Sort.{sort}
use bitgate.Core.Fingerprint.Canonical.{
  Value, num, text, array, Values, nil, cons, dict, end, fingerprint,
}
use bitgate.Core.Evaluator.Snapshot.{ReportRecord}
use bitgate.Runtime.Stores.{Outcome, unchanged, emitting, evict_oldest}

-- The fields of a decoded report that the store reads; a missing text is empty.
pub record Report : Type 0 where
  pub reporter : Text
  pub category : Text
  pub created_at : Option ℕ

-- A time for each reporter and category.
abbrev pub Filed : Type 0
Filed = Map Text (Map Text ℕ)

pub record ReportStore : Type 0 where
  pub reports : Map Text Filed
  pub max_targets : ℕ
  pub fingerprint : Text

pub record ReportChange : Type 0 where
  pub target_key : Text
  pub fingerprint : Text

abbrev pub empty_report_store : ℕ → ReportStore
empty_report_store max_targets = record {
  reports = [];
  max_targets = max_targets;
  fingerprint = fingerprint (dict end);
}

unfoldable pub category_records : Text → Map Text ℕ → List ReportRecord
category_records reporter [] = []
category_records reporter ((category, created_at) ∷ rest) =
    record { reporter = reporter; category = some category; created_at = some created_at }
    ∷ category_records reporter rest

unfoldable pub reporter_records : Filed → List ReportRecord
unfolding category_records
reporter_records [] = []
reporter_records ((reporter, by_category) ∷ rest) =
    category_records reporter by_category ++ reporter_records rest

unfoldable pub records_for : Map Text Filed → Text → List ReportRecord
unfolding reporter_records
records_for reports target_key = reporter_records (get_or (get reports target_key) [])

unfoldable pub record_map_of : Map Text Filed → List Text → Map Text (List ReportRecord)
unfolding records_for
record_map_of reports [] = []
record_map_of reports (key ∷ rest) = (key, records_for reports key) ∷ record_map_of reports rest

unfoldable pub to_record_map : ReportStore → Map Text (List ReportRecord)
unfolding record_map_of
to_record_map store = record_map_of store.reports (keys store.reports)

-- [key, count] for each target, in the order of the keys.
unfoldable pub counted : Map Text Filed → List Text → Values
unfolding records_for
counted reports [] = nil
counted reports (key ∷ rest) =
    cons (array (cons (text key) (cons (num (length (records_for reports key))) nil)))
      (counted reports rest)

-- `#emitChange(targetKey)`, on the reports as they are then
unfoldable pub emit_change : ReportStore → Map Text Filed → Text → Outcome ReportStore ReportChange
unfolding counted
emit_change store reports target_key =
    let next = fingerprint (array (counted reports (sort (keys reports)))) in
    emitting (record { reports = reports; max_targets = store.max_targets; fingerprint = next })
      (record { target_key = target_key; fingerprint = next })

unfoldable pub is_incomplete : Report → Text → Bool
is_incomplete report target_key =
    is_empty report.reporter || (is_empty report.category || is_empty target_key)

-- `reports[targetKey]?.[reporter]?.[category]`
unfoldable pub time_of : Map Text Filed → Text → Text → Text → Option ℕ
time_of reports target_key reporter category =
    get (get_or (get (get_or (get reports target_key) []) reporter) []) category

-- `existing !== undefined && existing >= createdAt`
unfoldable pub is_known : Map Text Filed → Report → Text → Bool
unfolding time_of
is_known reports report target_key =
    elim (time_of reports target_key report.reporter report.category) [
      | none ↦ false
      | some existing ↦ leb (get_or report.created_at 0) existing
    ]

-- The two missing maps, and `byCategory.set(report.category, createdAt)`.
unfoldable pub file_report : Map Text Filed → Report → Text → Map Text Filed
file_report reports report target_key =
    let by_reporter = get_or (get reports target_key) [] in
    let by_category = get_or (get by_reporter report.reporter) [] in
    put reports target_key (
      put by_reporter report.reporter
        (put by_category report.category (get_or report.created_at 0)))

unfoldable pub ingest : ReportStore → Report → Text → Outcome ReportStore ReportChange
unfolding file_report emit_change is_known is_incomplete evict_oldest
ingest store report target_key =
    if is_incomplete report target_key
    then unchanged store
    else if is_known store.reports report target_key
    then unchanged store
    else emit_change store
        (evict_oldest store.max_targets target_key (file_report store.reports report target_key))
        target_key

unfoldable pub clear_target : ReportStore → Text → Outcome ReportStore ReportChange
unfolding emit_change
clear_target store target_key =
    if has_key store.reports target_key
    then emit_change store (remove store.reports target_key) target_key
    else unchanged store
