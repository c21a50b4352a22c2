-- ===== src/Runtime/Stores/Reports/Latest.antt =====
-- packages/runtime/src/stores.js: which reports a `ReportStore` holds.
use bitgate.Base.{
  ℕ, ◌<◌, ◌≤◌, ◌≡◌, ◌==◌, refl, inl, inr, Bool, true, false, not, ◌&&◌, Option, none, some, [],
  arith, length, get_or, leb, if◌then◌else◌, Bool-cases,
}
use bitgate.Base.Text.{Text, text_eq, text_beq_iff}
use bitgate.Base.Map.{Map, get, put, get-put}
use bitgate.Runtime.Stores.{unchanged, evict_oldest}
use bitgate.Runtime.Stores.Eviction.{is_evicted, get-evict_oldest, is_evicted-key, evict_oldest-put}
use bitgate.Runtime.Stores.Reports.{
  Report, Filed, ReportStore, emit_change, is_incomplete, time_of, is_known, file_report, ingest,
}

-- The later of two times.
abbrev pub later : Option ℕ → ℕ → ℕ
later none t = t
later (some existing) t = if leb t existing then existing else t

-- Whether a report is the one that a target, a reporter and a category name.
abbrev pub names : Report → Text → Text → Text → Text → Bool
names report target_key t r c =
    (target_key == t) && ((report.reporter == r) && (report.category == c))

-- The reports of the target with the report filed.
abbrev filed_with : Map Text Filed → Report → Text → Filed
filed_with reports report target_key =
    let by_reporter = get_or (get reports target_key) [] in
    put by_reporter report.reporter (
      put (get_or (get by_reporter report.reporter) []) report.category
        (get_or report.created_at 0))

time_of-file_report :
    (reports : Map Text Filed) (report : Report) (target_key t r c : Text)
    → time_of (file_report reports report target_key) t r c ≡ (
        if names report target_key t r c
        then some (get_or report.created_at 0)
        else time_of reports t r c)
unfolding time_of file_report
time_of-file_report reports report target_key t r c =
    let by_reporter = get_or (get reports target_key) [] in
    let by_category = get_or (get by_reporter report.reporter) [] in
    let t0 = get_or report.created_at 0 in
    ground (
      arith,
      get-put reports target_key t
          (put by_reporter report.reporter (put by_category report.category t0)),
      get-put by_reporter report.reporter r (put by_category report.category t0),
      get-put by_category report.category c t0,
      text_beq_iff target_key t,
      text_beq_iff report.reporter r,
      text_beq_iff report.category c,
    )

time_of-evicted :
    (max : ℕ) (key : Text) (reports : Map Text Filed) (t r c : Text)
    → time_of (evict_oldest max key reports) t r c
      ≡ (if is_evicted max key reports t then none else time_of reports t r c)
unfolding time_of get
time_of-evicted max key reports t r c = ground (arith, get-evict_oldest max key reports t)

-- Whether an ingestion evicts a target.
abbrev pub drops : ReportStore → Report → Text → Text → Bool
drops store report target_key t =
    not (is_known store.reports report target_key)
    && is_evicted store.max_targets target_key (file_report store.reports report target_key) t

-- A report that names its reporter, category and target leaves the later of its time and the time
-- that was there. Other reporters, categories and targets keep their times, except those of the one
-- target that may be evicted.
pub ingest_lem :
    (store : ReportStore) (report : Report) (target_key t r c : Text)
    → is_incomplete report target_key ≡ false
    → time_of (ingest store report target_key).store.reports t r c ≡ (
        if drops store report target_key t
        then none
        else if names report target_key t r c
        then some (later (time_of store.reports t r c) (get_or report.created_at 0))
        else time_of store.reports t r c)
unfolding ingest emit_change is_known
ingest_lem store report target_key t r c complete = ground (
  arith,
  complete,
  time_of-evicted store.max_targets target_key (file_report store.reports report target_key) t r c,
  time_of-file_report store.reports report target_key t r c,
  text_beq_iff target_key t,
  text_beq_iff report.reporter r,
  text_beq_iff report.category c,
)

pub ingest_incomplete :
    (store : ReportStore) (report : Report) (target_key : Text)
    → is_incomplete report target_key ≡ true
    → ingest store report target_key ≡ unchanged store
unfolding ingest
ingest_incomplete store report target_key e = rw e refl

pub ingest_known :
    (store : ReportStore) (report : Report) (target_key : Text)
    → is_known store.reports report target_key ≡ true
    → ingest store report target_key ≡ unchanged store
unfolding ingest
ingest_known store report target_key e = elim (Bool-cases (is_incomplete report target_key)) [
  | inl i ↦ rw i refl
  | inr i ↦ rw (i, e) refl
]

known-ingest :
    (store : ReportStore) (report : Report) (target_key : Text)
    → is_incomplete report target_key ≡ false
    → is_known (ingest store report target_key).store.reports report target_key ≡ true
unfolding is_known
known-ingest store report target_key complete = ground (
  arith,
  ingest_lem store report target_key target_key report.reporter report.category complete,
  is_evicted-key store.max_targets target_key (file_report store.reports report target_key),
  text_beq_iff target_key target_key,
  text_beq_iff report.reporter report.reporter,
  text_beq_iff report.category report.category,
)

-- The same report again changes nothing and emits nothing.
pub ingest_again :
    (store : ReportStore) (report : Report) (target_key : Text)
    → ingest (ingest store report target_key).store report target_key
      ≡ unchanged (ingest store report target_key).store
ingest_again store report target_key = elim (Bool-cases (is_incomplete report target_key)) [
  | inl i ↦ ingest_incomplete (ingest store report target_key).store report target_key i
  | inr i ↦
      ingest_known (ingest store report target_key).store report target_key
        (known-ingest store report target_key i)
]

-- A store with a ceiling stays within it.
pub ingest-bounded :
    (store : ReportStore) (report : Report) (target_key : Text)
    → 0 < store.max_targets
    → length store.reports ≤ store.max_targets
    → length (ingest store report target_key).store.reports ≤ store.max_targets
unfolding ingest emit_change file_report
ingest-bounded store report target_key positive bound =
    elim (Bool-cases (is_incomplete report target_key)) [
      | inl i ↦ rw i bound
      | inr i ↦ elim (Bool-cases (is_known store.reports report target_key)) [
        | inl k ↦ rw (i, k) bound
        | inr k ↦
            rw (i, k)
              (evict_oldest-put store.max_targets store.reports target_key
                (filed_with store.reports report target_key) positive bound)
      ]
    ]

pub ingest-max_targets :
    (store : ReportStore) (report : Report) (target_key : Text)
    → (ingest store report target_key).store.max_targets ≡ store.max_targets
unfolding ingest emit_change
ingest-max_targets store report target_key = ground arith
