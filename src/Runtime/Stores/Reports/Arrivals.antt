-- ===== src/Runtime/Stores/Reports/Arrivals.antt =====
-- packages/runtime/src/stores.js: a `ReportStore` without a ceiling after a sequence of reports.
use mathlib.Core.List.{Permᴰ}
use bitgate.Base.{
  sym, inl, inr, Bool-cases, ℕ, ◌≡◌, refl, ap, ◌∙◌, false, not, ◌&&◌, Option, none, some, List, [],
  ◌∷◌, arith, get_or, leb, if◌then◌else◌,
}
use bitgate.Base.Text.{Text, text_eq}
use bitgate.Runtime.Stores.{oldest_evicted}
use bitgate.Runtime.Stores.Eviction.{is_evicted}
use bitgate.Runtime.Stores.Reports.{
  Report, ReportStore, empty_report_store, is_incomplete, time_of, file_report, ingest, Filed,
}
use bitgate.Runtime.Stores.Reports.Latest.{
  later, names, ingest_lem, ingest_incomplete, ingest-max_targets,
}
use bitgate.Base.Map.{Map, get}

-- A report with the key of its target.
abbrev pub Arrival : Type 0
Arrival = Report × Text

unfoldable pub ingest_all : ReportStore → List Arrival → ReportStore
unfolding ingest
ingest_all store [] = store
ingest_all store ((report, target_key) ∷ arrivals) =
    ingest_all (ingest store report target_key).store arrivals

-- The later of two times that may be missing.
abbrev pub latest : Option ℕ → Option ℕ → Option ℕ
latest none o = o
latest (some a) none = some a
latest (some a) (some b) = if leb b a then some a else some b

-- The time that an arrival gives a target, a reporter and a category.
abbrev pub time_in : Arrival → Text → Text → Text → Option ℕ
time_in (report, target_key) t r c =
    if not (is_incomplete report target_key) && names report target_key t r c
    then some (get_or report.created_at 0)
    else none

-- The latest time that the arrivals give.
unfoldable pub latest_of : List Arrival → Text → Text → Text → Option ℕ
latest_of [] t r c = none
latest_of (arrival ∷ arrivals) t r c = latest (time_in arrival t r c) (latest_of arrivals t r c)

latest_comm : (a b : Option ℕ) → latest a b ≡ latest b a
latest_comm none none = refl
latest_comm none (some b) = refl
latest_comm (some a) none = refl
latest_comm (some a) (some b) = ground arith

latest_assoc : (a b c : Option ℕ) → latest (latest a b) c ≡ latest a (latest b c)
latest_assoc none b c = refl
latest_assoc (some a) none c = refl
latest_assoc (some a) (some b) none = ground arith
latest_assoc (some a) (some b) (some c) = ground arith

no_eviction :
    (max : ℕ) (key : Text) (reports : Map Text Filed) (t : Text)
    → max ≡ 0
    → is_evicted max key reports t ≡ false
unfolding oldest_evicted
no_eviction max key [] t h = refl
no_eviction max key ((k, v) ∷ m) t h = ground arith

latest-later : (o : Option ℕ) (b : ℕ) → latest o (some b) ≡ some (later o b)
latest-later none b = refl
latest-later (some a) b = ground arith

latest-none : (o : Option ℕ) → latest o none ≡ o
latest-none none = refl
latest-none (some a) = refl

time_of-ingest :
    (store : ReportStore) (arrival : Arrival) (t r c : Text)
    → store.max_targets ≡ 0
    → time_of (ingest store arrival.0 arrival.1).store.reports t r c
      ≡ latest (time_of store.reports t r c) (time_in arrival t r c)
time_of-ingest store (report, key) t r c h = elim (Bool-cases (is_incomplete report key)) [
  | inl i ↦
      rw (ingest_incomplete store report key i, i) (sym (latest-none (time_of store.reports t r c)))
  | inr i ↦ ground (
    arith,
    i,
    ingest_lem store report key t r c i,
    no_eviction store.max_targets key (file_report store.reports report key) t h,
    latest-none (time_of store.reports t r c),
    latest-later (time_of store.reports t r c) (get_or report.created_at 0),
  )
]

time_of-ingest_all :
    (store : ReportStore) (arrivals : List Arrival) (t r c : Text)
    → store.max_targets ≡ 0
    → time_of (ingest_all store arrivals).reports t r c
      ≡ latest (time_of store.reports t r c) (latest_of arrivals t r c)
unfolding ingest_all latest_of
time_of-ingest_all store [] t r c h = sym (latest-none (time_of store.reports t r c))
time_of-ingest_all store ((report, key) ∷ arrivals) t r c h =
    rw
      (
        time_of-ingest_all (ingest store report key).store arrivals t r c
            (rw (ingest-max_targets store report key) h),
        time_of-ingest store (report, key) t r c h,
      )
      (latest_assoc (time_of store.reports t r c) (time_in (report, key) t r c)
        (latest_of arrivals t r c))

-- A store without a ceiling holds, for each target, reporter and category, the latest time that
-- the arrivals give, and nothing where no arrival names them.
pub ingest_all_lem :
    (arrivals : List Arrival) (t r c : Text)
    → time_of (ingest_all (empty_report_store 0) arrivals).reports t r c ≡ latest_of arrivals t r c
unfolding time_of get
ingest_all_lem arrivals t r c = time_of-ingest_all (empty_report_store 0) arrivals t r c refl

latest_swap : (a b c : Option ℕ) → latest a (latest b c) ≡ latest b (latest a c)
latest_swap a b c =
    sym (latest_assoc a b c) ∙ ap (λ o. latest o c) (latest_comm a b) ∙ latest_assoc b a c

latest_of-perm :
    {xs ys : List Arrival} (t r c : Text) → Permᴰ xs ys → latest_of xs t r c ≡ latest_of ys t r c
unfolding latest_of
latest_of-perm t r c Permᴰ.nil = refl
latest_of-perm t r c (Permᴰ.cons e p) = cc (ap (λ a. time_in a t r c) e, latest_of-perm t r c p)
latest_of-perm t r c (Permᴰ.swap {a} {b} {a' = x} {b' = y} {l} e f) =
    rw (e, f) (latest_swap (time_in y t r c) (time_in x t r c) (latest_of l t r c))
latest_of-perm t r c (Permᴰ.trans p q) = latest_of-perm t r c p ∙ latest_of-perm t r c q

-- The order in which reports arrive does not matter to a store without a ceiling.
pub ingest_all-perm :
    (xs ys : List Arrival) (t r c : Text)
    → Permᴰ xs ys
    → time_of (ingest_all (empty_report_store 0) xs).reports t r c
      ≡ time_of (ingest_all (empty_report_store 0) ys).reports t r c
ingest_all-perm xs ys t r c p =
    ingest_all_lem xs t r c ∙ latest_of-perm t r c p ∙ sym (ingest_all_lem ys t r c)
