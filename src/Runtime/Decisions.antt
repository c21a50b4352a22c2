-- ===== src/Runtime/Decisions.antt =====
-- packages/runtime/src/runtime.js: the decisions that a `GovernanceRuntime` caches, and what drops
-- them. Freezing a decision is not modelled: the model's values do not change.
pub mod Cache
pub mod Repeat
pub mod Coherence
pub mod Viewer
use bitgate.Base.{
  ℕ, suc, ◌+◌, ◌==◌, Bool, true, false, not, Option, none, some, List, [], ◌∷◌, ◌++◌, get_or,
  is_empty, length, ltb, nat_beq, if◌then◌else◌, Result, ok, err,
}
use bitgate.Base.Text.{Text, codes, text_eq}
use bitgate.Base.Set.{has}
use bitgate.Base.Map.{Map, get, put, remove, has_key}
use bitgate.Core.Identifiers.{GovernanceTarget, normalize_pubkey, get_target_key}
use bitgate.Core.Targets.{is_valid_target}
use bitgate.Core.Policy.Decision.{GovernanceDecision}
use bitgate.Core.Evaluator.Snapshot.{GovernanceSnapshot, PolicyContext, ViewerState}
use bitgate.Core.Evaluator.Target.{evaluate_target}
use bitgate.Core.Fingerprint.Canonical.{text, dict, end, field}
use bitgate.Core.Fingerprint.Canonical.States.{snapshot_fingerprint, evaluation_fingerprint}
use bitgate.Nostr.Mutes.{DecodedMuteList}
use bitgate.Runtime.Stores.{Outcome}
use bitgate.Runtime.Stores.Admin.{AdminStore, AdminChange}
use bitgate.Runtime.Stores.Trust.{TrustStore, clear_viewer_state}
use bitgate.Runtime.Stores.Reports.{Report, ReportStore, ReportChange, ingest}
use bitgate.Runtime.Stores.Mutes.{MuteStore, MuteChange, replace_list, prune}
use bitgate.Runtime.Stores.Policies.{PolicyObject, PolicyStore, policy}
use bitgate.Runtime.Stores.Overrides.{OverrideStore, ExpiringOverride, clear_overrides}
use bitgate.Runtime.Stores.Reports
use bitgate.Runtime.Stores.Mutes
use bitgate.Runtime.Stores.Overrides

-- The stores, the viewer, and what is derived from them. A decision cache maps
-- `${profile}|${targetKey}` to a decision.
pub record Runtime : Type 0 where
  pub admin : AdminStore
  pub trust : TrustStore
  pub reports : ReportStore
  pub mutes : MuteStore
  pub policies : PolicyStore
  pub overrides : OverrideStore
  pub viewer_pubkey : Text
  pub active_targets : Map Text GovernanceTarget
  pub decision_cache : Map Text GovernanceDecision
  pub max_cached_decisions : ℕ
  pub cached_snapshot : Option GovernanceSnapshot
  pub cached_print : Text
  pub cache_hits : ℕ
  pub cache_misses : ℕ

abbrev pub bar : ℕ
bar = 124

abbrev pub cache_key : Option Text → Text → Text
cache_key profile target_key = get_or profile [] ++ bar ∷ target_key

-- `text.indexOf("|")`, as the text after it; none where there is no bar.
unfoldable pub after_bar : Text → Option Text
after_bar [] = none
after_bar (c ∷ s) = let rest = after_bar s in if nat_beq c bar then some s else rest

-- `cacheKey.slice(cacheKey.indexOf("|") + 1)`
unfoldable pub target_part : Text → Text
unfolding after_bar
target_part key = get_or (after_bar key) key

unfoldable pub drop_targets {ℓ} : {D : Type ℓ} → List Text → Map Text D → Map Text D
unfolding target_part
drop_targets affected [] = []
drop_targets affected ((key, decision) ∷ cache) =
    let rest = drop_targets affected cache in
    if has affected (target_part key) then rest else (key, decision) ∷ rest

-- The loop of `invalidateDecisions`, or `clear()` where no target is named.
unfoldable pub kept_decisions {ℓ} : {D : Type ℓ} → Option (List Text) → Map Text D → Map Text D
unfolding drop_targets
kept_decisions none cache = []
kept_decisions (some target_keys) cache = drop_targets target_keys cache

unfoldable pub invalidate_decisions : Runtime → Option (List Text) → Runtime
unfolding kept_decisions
invalidate_decisions runtime target_keys = record runtime {
  cached_snapshot = none;
  cached_print = [];
  decision_cache = kept_decisions target_keys runtime.decision_cache;
}

-- The target that a report or an override change names; an empty key counts as none.
abbrev pub named_target : Text → Option (List Text)
named_target target_key = if is_empty target_key then none else some (target_key ∷ [])

-- The listeners of the six stores. The administrative, the trust and the policy store's drop every
-- decision.
unfoldable pub on_any_change {ℓ} : {D : Type ℓ} → Runtime → List D → Runtime
unfolding invalidate_decisions
on_any_change runtime [] = runtime
on_any_change runtime (change ∷ changes) = on_any_change (invalidate_decisions runtime none) changes

unfoldable pub on_report_changes : Runtime → List ReportChange → Runtime
unfolding invalidate_decisions
on_report_changes runtime [] = runtime
on_report_changes runtime (change ∷ changes) =
    on_report_changes (invalidate_decisions runtime (named_target change.target_key)) changes

unfoldable pub on_mute_changes : Runtime → List MuteChange → Runtime
unfolding invalidate_decisions
on_mute_changes runtime [] = runtime
on_mute_changes runtime (change ∷ changes) =
    on_mute_changes (invalidate_decisions runtime (some change.target_keys)) changes

unfoldable pub on_override_changes : Runtime → List (Option Text) → Runtime
unfolding invalidate_decisions
on_override_changes runtime [] = runtime
on_override_changes runtime (none ∷ changes) =
    on_override_changes (invalidate_decisions runtime none) changes
on_override_changes runtime (some key ∷ changes) =
    on_override_changes (invalidate_decisions runtime (named_target key)) changes

abbrev pub after_reports : Runtime → Outcome ReportStore ReportChange → Runtime
after_reports runtime outcome =
    on_report_changes (record runtime { reports = outcome.store }) outcome.changes

abbrev pub after_mutes : Runtime → Outcome MuteStore MuteChange → Runtime
after_mutes runtime outcome =
    on_mute_changes (record runtime { mutes = outcome.store }) outcome.changes

-- `runtime.reports.ingest(report, targetKey)` with its listener
unfoldable pub ingest_report : Runtime → Report → Text → Runtime
unfolding on_report_changes ingest
ingest_report runtime report target_key =
    after_reports runtime (ingest runtime.reports report target_key)

-- `runtime.mutes.replaceList(list)` with its listener
unfoldable pub replace_mute_list : Runtime → DecodedMuteList → Runtime
unfolding on_mute_changes replace_list
replace_mute_list runtime list = after_mutes runtime (replace_list runtime.mutes list)

-- `snapshot()` where nothing is cached
unfoldable pub build_snapshot : Runtime → GovernanceSnapshot
build_snapshot runtime = record {
  authority = runtime.admin.authority;
  admin = runtime.admin.state;
  trust = record { contacts = runtime.trust.contacts; seeds = runtime.trust.seeds };
  reports = Reports.to_record_map runtime.reports;
  trusted_mutes = Mutes.to_record_map runtime.mutes;
}

unfoldable pub snapshot : Runtime → Runtime × GovernanceSnapshot
unfolding build_snapshot
snapshot runtime = elim runtime.cached_snapshot [
  | some cached ↦ (runtime, cached)
  | none ↦
      (record runtime { cached_snapshot = some (build_snapshot runtime) }, build_snapshot runtime)
]

-- `snapshotFingerprint()`, after `snapshot()`
unfoldable pub fingerprint_of : Runtime → GovernanceSnapshot → Runtime × Text
unfolding snapshot_fingerprint policy
fingerprint_of runtime current =
    if not (is_empty runtime.cached_print)
    then (runtime, runtime.cached_print)
    else let definition = (policy runtime.policies).definition in
      let print = snapshot_fingerprint current (
        dict (
          field (codes "id") (text definition.id)
            (field (codes "version") (text definition.version) end))) in
      (record runtime { cached_print = print }, print)

unfoldable pub viewer_state : Runtime → ℕ → ViewerState
viewer_state runtime now = record {
  blocks = runtime.trust.blocks;
  mutes = runtime.trust.mutes;
  overrides = Overrides.to_map runtime.overrides now;
}

abbrev pub drop_first {ℓ} : {D : Type ℓ} → Map Text D → Map Text D
drop_first [] = []
drop_first ((oldest, decision) ∷ cache) = remove ((oldest, decision) ∷ cache) oldest

-- `decisionCache.set(cacheKey, decision)`, and the eviction
unfoldable pub remember {ℓ} : {D : Type ℓ} → ℕ → Map Text D → Text → D → Map Text D
remember max cache key decision =
    let cached = put cache key decision in
    if ltb max (length cached) then drop_first cached else cached

-- The result of an evaluation, which is not remembered where it throws.
unfoldable pub settle :
    Runtime → Text → Result GovernanceDecision → Runtime × Result GovernanceDecision
unfolding remember
settle runtime key (err e) = (runtime, err e)
settle runtime key (ok decision) = (
  record runtime {
    cache_misses = suc runtime.cache_misses;
    decision_cache = remember runtime.max_cached_decisions runtime.decision_cache key decision;
  },
  ok decision,
)

-- The runtime once the snapshot and its fingerprint were asked for, and the two.
abbrev pub prepared : Runtime → Runtime × (GovernanceSnapshot × Text)
prepared runtime =
    let (with_snapshot, current) = snapshot runtime in
    let (with_print, print) = fingerprint_of with_snapshot current in (with_print, (current, print))

-- The call of `evaluateTarget`.
unfoldable pub decide :
    Runtime
    → GovernanceSnapshot × Text
    → GovernanceTarget
    → Option Text
    → ℕ
    → Result GovernanceDecision
unfolding evaluate_target policy viewer_state
decide runtime (current, print) target profile now =
    evaluate_target evaluation_fingerprint target current
      (record {
        policy_profile = profile;
        policy = some (policy runtime.policies).definition;
        now = some now;
        snapshot_fingerprint = some print;
        allow_overrides = none;
      })
      (viewer_state runtime now)

-- `evaluate` where nothing is cached for the key
unfoldable pub evaluate_fresh :
    Runtime → GovernanceTarget → Option Text → ℕ → Runtime × Result GovernanceDecision
evaluate_fresh runtime target profile now =
    settle (prepared runtime).0 (cache_key profile (get_target_key target))
      (decide runtime (prepared runtime).1 target profile now)

-- `if (cached) { … return cached; }`, and the code after it
abbrev pub cached_or :
    Runtime
    → Option GovernanceDecision
    → Runtime × Result GovernanceDecision
    → Runtime × Result GovernanceDecision
cached_or runtime none fresh = fresh
cached_or runtime (some cached) fresh =
    (record runtime { cache_hits = suc runtime.cache_hits }, ok cached)

unfoldable pub evaluate :
    Runtime → GovernanceTarget → Option Text → ℕ → Runtime × Result GovernanceDecision
unfolding evaluate_fresh settle decide snapshot fingerprint_of
evaluate runtime target profile now =
    cached_or runtime (get runtime.decision_cache (cache_key profile (get_target_key target)))
      (evaluate_fresh runtime target profile now)

unfoldable pub set_viewer : Runtime → Text → Runtime
unfolding on_any_change on_override_changes clear_viewer_state clear_overrides
set_viewer runtime pubkey =
    let normalized = normalize_pubkey pubkey in
    let trust = clear_viewer_state runtime.trust in
    let overrides = clear_overrides runtime.overrides in
    if normalized == runtime.viewer_pubkey
    then runtime
    else let cleared : Runtime = record runtime {
      viewer_pubkey = normalized;
      decision_cache = [];
    } in
      let trusting = on_any_change (record cleared { trust = trust.store }) trust.changes in
      on_override_changes (record trusting { overrides = overrides.store }) overrides.changes

unfoldable pub active_from :
    Map Text GovernanceTarget → List GovernanceTarget → Map Text GovernanceTarget
active_from active [] = active
active_from active (target ∷ targets) =
    active_from
      (if is_valid_target target then put active (get_target_key target) target else active) targets

unfoldable pub set_active_targets : Runtime → List GovernanceTarget → Runtime
unfolding active_from
set_active_targets runtime targets = record runtime { active_targets = active_from [] targets }
