-- ===== src/Runtime/Decisions/Repeat.antt =====
-- packages/runtime/src/runtime.js: `evaluate` twice at one time.
use mathlib.Core.Path.{subst}
use bitgate.Base.{
  ℕ, suc, ◌<◌, ◌≡◌, refl, sym, ap, ◌∙◌, inl, inr, true, false, Option, none, some, is_empty,
  Bool-cases, Option-cases, Result, ok, err,
}
use bitgate.Base.Text.{Text, text_eq}
use bitgate.Base.Map.{Map, get}
use bitgate.Core.Identifiers.{GovernanceTarget, get_target_key}
use bitgate.Core.Evaluator.Snapshot.{GovernanceSnapshot}
use bitgate.Core.Policy.Decision.{GovernanceDecision}
use bitgate.Runtime.Decisions.{
  Runtime, cache_key, remember, settle, evaluate_fresh, evaluate, prepared, decide, snapshot,
  fingerprint_of, viewer_state,
}
use bitgate.Runtime.Decisions.Cache.{count_hit, evaluate-miss, evaluate-hit, evaluate-remembered}

-- What a decision reads of a runtime besides the snapshot and its fingerprint.
abbrev SameSources : Runtime → Runtime → Type 0
SameSources after before =
    (after.policies ≡ before.policies)
    × (after.trust ≡ before.trust)
    × (after.overrides ≡ before.overrides)

snapshot-SameSources :
    (runtime : Runtime)
    → SameSources (snapshot runtime).0 runtime
      × ((snapshot runtime).0.cached_snapshot ≡ some (snapshot runtime).1)
unfolding snapshot
snapshot-SameSources runtime = elim (Option-cases runtime.cached_snapshot) [
  | inl e ↦ rw e ((refl, refl, refl), refl)
  | inr (cached, e) ↦ rw e ((refl, refl, refl), refl)
]

fingerprint_of-SameSources :
    (runtime : Runtime) (current : GovernanceSnapshot)
    → SameSources (fingerprint_of runtime current).0 runtime
      × ((fingerprint_of runtime current).0.cached_snapshot ≡ runtime.cached_snapshot)
unfolding fingerprint_of
fingerprint_of-SameSources runtime current = elim (Bool-cases (is_empty runtime.cached_print)) [
  | inl e ↦ rw e ((refl, refl, refl), refl)
  | inr e ↦ rw e ((refl, refl, refl), refl)
]

snapshot_again :
    (runtime : Runtime) (current : GovernanceSnapshot)
    → runtime.cached_snapshot ≡ some current
    → snapshot runtime ≡ (runtime, current)
unfolding snapshot
snapshot_again runtime current e = rw e refl

cached_print-fingerprint_of :
    (runtime : Runtime) (current : GovernanceSnapshot)
    → (fingerprint_of runtime current).0.cached_print ≡ (fingerprint_of runtime current).1
unfolding fingerprint_of
cached_print-fingerprint_of runtime current = elim (Bool-cases (is_empty runtime.cached_print)) [
  | inl e ↦ rw e refl
  | inr e ↦ rw e refl
]

fingerprint_of-cached :
    (runtime : Runtime) (current : GovernanceSnapshot)
    → is_empty runtime.cached_print ≡ false
    → fingerprint_of runtime current ≡ (runtime, runtime.cached_print)
unfolding fingerprint_of
fingerprint_of-cached runtime current e = rw e refl

fingerprint_of-policies :
    (after before : Runtime) (current : GovernanceSnapshot)
    → after.policies ≡ before.policies
    → is_empty after.cached_print ≡ true
    → is_empty before.cached_print ≡ true
    → (fingerprint_of after current).1 ≡ (fingerprint_of before current).1
unfolding fingerprint_of
fingerprint_of-policies after before current p a b = rw (a, b, p) refl

fingerprint_again :
    (before after : Runtime) (current : GovernanceSnapshot)
    → after.policies ≡ before.policies
    → after.cached_print ≡ (fingerprint_of before current).0.cached_print
    → (fingerprint_of after current).1 ≡ (fingerprint_of before current).1
fingerprint_again before after current p e = elim (Bool-cases (is_empty after.cached_print)) [
  | inr a ↦
      ap (λ x. x.1) (fingerprint_of-cached after current a)
      ∙ (e ∙ cached_print-fingerprint_of before current)
  | inl a ↦ elim (Bool-cases (is_empty before.cached_print)) [
    | inl b ↦ fingerprint_of-policies after before current p a b
    | inr b ↦
        let same = e ∙ ap (λ x. x.0.cached_print) (fingerprint_of-cached before current b) in
        absurd (cc (sym a ∙ ap is_empty same ∙ b))
  ]
]

prepared-SameSources :
    (runtime : Runtime)
    → SameSources (prepared runtime).0 runtime
      × ((prepared runtime).0.cached_snapshot ≡ some (prepared runtime).1.0)
prepared-SameSources runtime =
    let ((p, t, o), c) = snapshot-SameSources runtime in
    let ((q, u, w), d) = fingerprint_of-SameSources (snapshot runtime).0 (snapshot runtime).1 in
    ((q ∙ p, u ∙ t, w ∙ o), d ∙ c)

-- A runtime that has just decided: the snapshot and its fingerprint are there, the decision was
-- counted and remembered.
abbrev decided_with : Runtime → ℕ → Map Text GovernanceDecision → Runtime
decided_with runtime misses cache = record (prepared runtime).0 {
  cache_misses = misses;
  decision_cache = cache;
}

-- Once they were asked for, the snapshot and its fingerprint stay what they are.
prepared_again :
    (runtime : Runtime) (misses : ℕ) (cache : Map Text GovernanceDecision)
    → (prepared (decided_with runtime misses cache)).1 ≡ (prepared runtime).1
prepared_again runtime misses cache =
    let ((p, t, o), c) = snapshot-SameSources runtime in
    let ((q, u, w), d) = fingerprint_of-SameSources (snapshot runtime).0 (snapshot runtime).1 in
    rw (snapshot_again (decided_with runtime misses cache) (snapshot runtime).1 (d ∙ c)) (
      ap (λ print. ((snapshot runtime).1, print))
        (fingerprint_again (snapshot runtime).0 (decided_with runtime misses cache)
          (snapshot runtime).1 q refl))

decide-SameSources :
    (after before : Runtime) (given asked : GovernanceSnapshot × Text) (target : GovernanceTarget)
    (profile : Option Text) (now : ℕ)
    → SameSources after before
    → given ≡ asked
    → decide after given target profile now ≡ decide before asked target profile now
unfolding decide viewer_state
decide-SameSources after before given asked target profile now (p, t, o) e =
    ap (λ x. decide after x target profile now) e
    ∙ (ap (λ x. decide (record after { policies = x }) asked target profile now) p
        ∙ (ap
              (λ x.
                decide (record after { policies = before.policies; trust = x }) asked target profile
                  now)
              t
            ∙ ap
                (λ x.
                  decide
                    (record after {
                      policies = before.policies;
                      trust = before.trust;
                      overrides = x;
                    })
                    asked target profile now)
                o))

-- What is evaluated right after a decision is evaluated as it was.
decide_again :
    (runtime : Runtime) (misses : ℕ) (cache : Map Text GovernanceDecision)
    (target : GovernanceTarget) (profile : Option Text) (now : ℕ)
    → decide
        (decided_with runtime misses cache)
        (prepared (decided_with runtime misses cache)).1
        target
        profile
        now
      ≡ decide runtime (prepared runtime).1 target profile now
decide_again runtime misses cache target profile now =
    decide-SameSources (decided_with runtime misses cache) runtime
      (prepared (decided_with runtime misses cache)).1 (prepared runtime).1 target profile now
      (prepared-SameSources runtime).0 (prepared_again runtime misses cache)

settle-ok :
    (runtime : Runtime) (key : Text) (result : Result GovernanceDecision) (d : GovernanceDecision)
    → (settle runtime key result).1 ≡ ok d
    → (result ≡ ok d)
      × ((settle runtime key result).0 ≡ record runtime {
        cache_misses = suc runtime.cache_misses;
        decision_cache = remember runtime.max_cached_decisions runtime.decision_cache key d;
      })
unfolding settle
settle-ok runtime key (err e) d h = absurd (cc h)
settle-ok runtime key (ok decision) d h = (
  h,
  ap
      (λ r. elim r [
        | err e ↦ runtime
        | ok x ↦ record runtime {
          cache_misses = suc runtime.cache_misses;
          decision_cache = remember runtime.max_cached_decisions runtime.decision_cache key x;
        }
      ])
      h,
)

settle-result :
    (runtime : Runtime) (key : Text) (result : Result GovernanceDecision)
    → (settle runtime key result).1 ≡ result
unfolding settle
settle-result runtime key (err e) = refl
settle-result runtime key (ok decision) = refl

fresh-result :
    (runtime : Runtime) (target : GovernanceTarget) (profile : Option Text) (now : ℕ)
    → (evaluate_fresh runtime target profile now).1
      ≡ decide runtime (prepared runtime).1 target profile now
unfolding evaluate_fresh
fresh-result runtime target profile now =
    settle-result (prepared runtime).0 (cache_key profile (get_target_key target))
      (decide runtime (prepared runtime).1 target profile now)

fresh_again :
    (runtime : Runtime) (target : GovernanceTarget) (profile : Option Text) (now : ℕ)
    (d : GovernanceDecision)
    → (evaluate_fresh runtime target profile now).1 ≡ ok d
    → (evaluate_fresh (evaluate_fresh runtime target profile now).0 target profile now).1 ≡ ok d
unfolding evaluate_fresh
fresh_again runtime target profile now d h =
    let key = cache_key profile (get_target_key target) in
    let result = decide runtime (prepared runtime).1 target profile now in
    let (given, after) = settle-ok (prepared runtime).0 key result d h in
    subst (λ r. (evaluate_fresh r target profile now).1 ≡ ok d) (sym after)
      (fresh-result _ target profile now
        ∙ (decide_again runtime (suc (prepared runtime).0.cache_misses)
              (remember (prepared runtime).0.max_cached_decisions
                (prepared runtime).0.decision_cache key d)
              target profile now
            ∙ given))

-- Where no decision is cached for a target under a profile, and the cache may hold a decision, the
-- decision that an evaluation gives is given again when the same target is evaluated next under
-- the same profile at the same time. It comes from the cache, and nothing but the counter of hits
-- changes; an evaluation that did not read the cache would give the same decision.
pub evaluate_again :
    (runtime : Runtime) (target : GovernanceTarget) (profile : Option Text) (now : ℕ)
    (d : GovernanceDecision)
    → 0 < runtime.max_cached_decisions
    → get runtime.decision_cache (cache_key profile (get_target_key target)) ≡ none
    → (evaluate runtime target profile now).1 ≡ ok d
    → (evaluate (evaluate runtime target profile now).0 target profile now
        ≡ (count_hit (evaluate runtime target profile now).0, ok d))
      × ((evaluate_fresh (evaluate runtime target profile now).0 target profile now).1 ≡ ok d)
evaluate_again runtime target profile now d p absent h = (
  evaluate-hit (evaluate runtime target profile now).0 target profile now d
      (evaluate-remembered runtime target profile now d p h),
  let missed = evaluate-miss runtime target profile now absent in
      subst (λ x. (evaluate_fresh x.0 target profile now).1 ≡ ok d) (sym missed)
        (fresh_again runtime target profile now d (sym (ap (λ x. x.1) missed) ∙ h)),
)
