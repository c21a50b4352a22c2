-- ===== src/Runtime/Decisions/Coherence.antt =====
-- packages/runtime/src/runtime.js: the listeners of the stores and the decision cache.
use mathlib.Core.Path.{subst}
use bitgate.Base.{
  ◌≡◌, ◌⊎◌, ◌==◌, refl, sym, ap, ◌∙◌, inl, inr, false, Option, none, some, List, [], ◌∷◌, arith,
  get_or, is_empty, Bool-cases,
}
use bitgate.Base.Text.{Text, text_eq}
use bitgate.Base.Set.{has}
use bitgate.Base.Map.{Map, get, put, get-put}
use bitgate.Core.Policy.Decision.{GovernanceDecision}
use bitgate.Nostr.Mutes.{DecodedMuteList}
use bitgate.Runtime.Stores.{Outcome, unchanged, oldest_evicted, evict_oldest}
use bitgate.Runtime.Stores.Eviction.{evict_oldest-none}
use bitgate.Runtime.Stores.Reports.{
  Report, ReportStore, ReportChange, reporter_records, records_for, file_report, ingest,
  emit_change, is_incomplete, is_known, Filed,
}
use bitgate.Runtime.Stores.Mutes.{MuteChange, stored, replace_list}
use bitgate.Runtime.Stores.Mutes.Affected.{records_at, is_named, replace_list-covers}
use bitgate.Runtime.Decisions.{
  Runtime, cache_key, kept_decisions, invalidate_decisions, named_target, on_report_changes,
  after_reports, on_mute_changes, ingest_report, replace_mute_list,
}
use bitgate.Runtime.Decisions.Cache.{has_bar, target_part-cache_key, get-drop_targets}

-- The decision that is cached for a profile and a target's key.
abbrev pub cached_for : Runtime → Option Text → Text → Option GovernanceDecision
cached_for runtime profile t = get runtime.decision_cache (cache_key profile t)

get-file_report :
    (reports : Map Text Filed) (report : Report) (target_key t : Text)
    → (target_key == t) ≡ false
    → get (file_report reports report target_key) t ≡ get reports t
unfolding file_report
get-file_report reports report target_key t h =
    let by_reporter = get_or (get reports target_key) [] in
    ground (
      arith,
      h,
      get-put reports target_key t (
          put by_reporter report.reporter (
            put (get_or (get by_reporter report.reporter) []) report.category
              (get_or report.created_at 0))),
    )

invalidated :
    (runtime : Runtime) (profile : Option Text) (target_key t : Text) (d : GovernanceDecision)
    → has_bar (get_or profile []) ≡ false
    → is_empty target_key ≡ false
    → cached_for (invalidate_decisions runtime (named_target target_key)) profile t ≡ some d
    → (cached_for runtime profile t ≡ some d) × ((target_key == t) ≡ false)
unfolding invalidate_decisions kept_decisions has
invalidated runtime profile target_key t d b f h = ground (
  arith,
  f,
  h,
  target_part-cache_key profile t b,
  get-drop_targets (target_key ∷ []) runtime.decision_cache (cache_key profile t),
)

invalidated_all :
    (runtime : Runtime) (profile : Option Text) (affected : List Text) (t : Text)
    (d : GovernanceDecision)
    → has_bar (get_or profile []) ≡ false
    → cached_for (invalidate_decisions runtime (some affected)) profile t ≡ some d
    → (cached_for runtime profile t ≡ some d) × (has affected t ≡ false)
unfolding invalidate_decisions kept_decisions
invalidated_all runtime profile affected t d b h = ground (
  arith,
  h,
  target_part-cache_key profile t b,
  get-drop_targets affected runtime.decision_cache (cache_key profile t),
)

-- What holds of a decision that is cached after a report store's outcome.
abbrev KeepsReports :
    Runtime → Option Text → Text → GovernanceDecision → Outcome ReportStore ReportChange → Type 0
KeepsReports runtime profile t d outcome =
    cached_for (after_reports runtime outcome) profile t ≡ some d
    → (cached_for runtime profile t ≡ some d)
      × (records_for outcome.store.reports t ≡ records_for runtime.reports.reports t)

KeepsReports-unchanged :
    (runtime : Runtime) (profile : Option Text) (t : Text) (d : GovernanceDecision)
    → KeepsReports runtime profile t d (unchanged runtime.reports)
unfolding on_report_changes
KeepsReports-unchanged runtime profile t d h = (h, refl)

KeepsReports-emit :
    (runtime : Runtime) (profile : Option Text) (target_key t : Text) (d : GovernanceDecision)
    (reports : Map Text Filed)
    → has_bar (get_or profile []) ≡ false
    → is_empty target_key ≡ false
    → ((target_key == t) ≡ false → get reports t ≡ get runtime.reports.reports t)
    → KeepsReports runtime profile t d (emit_change runtime.reports reports target_key)
unfolding on_report_changes emit_change records_for
KeepsReports-emit runtime profile target_key t d reports b f same h =
    let next = (emit_change runtime.reports reports target_key).store in
    let (before, other) =
      invalidated (record runtime { reports = next }) profile target_key t d b f h in
    (before, ap (λ found. reporter_records (get_or found [])) (same other))

-- What `ingest` does.
ingest-cases :
    (store : ReportStore) (report : Report) (target_key : Text)
    → (ingest store report target_key ≡ unchanged store)
      ⊎ ((is_empty target_key ≡ false)
          × (ingest store report target_key
              ≡ emit_change store
                  (evict_oldest store.max_targets target_key
                    (file_report store.reports report target_key))
                  target_key))
unfolding ingest is_incomplete
ingest-cases store report target_key = elim (Bool-cases (is_incomplete report target_key)) [
  | inl i ↦ inl (rw i refl)
  | inr i ↦ elim (Bool-cases (is_known store.reports report target_key)) [
    | inl k ↦ inl (rw (i, k) refl)
    | inr k ↦ inr (ground (arith, i), rw (i, k) refl)
  ]
]

-- A decision that is still cached after a report arrived was cached before, and the reports of its
-- target are those of before, if the profile's name has no bar and no target is evicted.
pub ingest_report-coherent :
    (runtime : Runtime) (report : Report) (target_key t : Text) (profile : Option Text)
    (d : GovernanceDecision)
    → has_bar (get_or profile []) ≡ false
    → oldest_evicted runtime.reports.max_targets target_key
        (file_report runtime.reports.reports report target_key)
      ≡ none
    → cached_for (ingest_report runtime report target_key) profile t ≡ some d
    → (cached_for runtime profile t ≡ some d)
      × (records_for (ingest runtime.reports report target_key).store.reports t
          ≡ records_for runtime.reports.reports t)
unfolding ingest_report
ingest_report-coherent runtime report target_key t profile d b kept =
    elim (ingest-cases runtime.reports report target_key) [
      | inl e ↦
          subst (KeepsReports runtime profile t d) (sym e)
            (KeepsReports-unchanged runtime profile t d)
      | inr (f, e) ↦ subst (KeepsReports runtime profile t d) (sym e) (
          KeepsReports-emit runtime profile target_key t d
            (evict_oldest runtime.reports.max_targets target_key
              (file_report runtime.reports.reports report target_key))
            b f
            (λ other.
              ap (λ m. get m t)
                (evict_oldest-none runtime.reports.max_targets target_key
                  (file_report runtime.reports.reports report target_key) kept)
              ∙ get-file_report runtime.reports.reports report target_key t other))
    ]

muted :
    (runtime : Runtime) (profile : Option Text) (t : Text) (d : GovernanceDecision)
    (changes : List MuteChange)
    → has_bar (get_or profile []) ≡ false
    → cached_for (on_mute_changes runtime changes) profile t ≡ some d
    → (cached_for runtime profile t ≡ some d) × (is_named changes t ≡ false)
unfolding on_mute_changes
muted runtime profile t d [] b h = (h, refl)
muted runtime profile t d (change ∷ changes) b h =
    let (after, rest) =
      muted (invalidate_decisions runtime (some change.target_keys)) profile t d changes b h in
    let (before, other) = invalidated_all runtime profile change.target_keys t d b after in
    (before, ground (arith, other, rest))

-- A decision that is still cached after a mute list arrived was cached before, and the mute records
-- of its target are those of before, if the profile's name has no bar and no list is evicted.
pub replace_mute_list-coherent :
    (runtime : Runtime) (list : DecodedMuteList) (t : Text) (profile : Option Text)
    (d : GovernanceDecision)
    → has_bar (get_or profile []) ≡ false
    → oldest_evicted runtime.mutes.max_lists list.owner
        (put runtime.mutes.lists list.owner (stored list))
      ≡ none
    → cached_for (replace_mute_list runtime list) profile t ≡ some d
    → (cached_for runtime profile t ≡ some d)
      × (records_at (replace_list runtime.mutes list).store t ≡ records_at runtime.mutes t)
unfolding replace_mute_list
replace_mute_list-coherent runtime list t profile d b kept h =
    let outcome = replace_list runtime.mutes list in
    let (before, unnamed) =
      muted (record runtime { mutes = outcome.store }) profile t d outcome.changes b h in
    (before, replace_list-covers runtime.mutes list t kept unnamed)
