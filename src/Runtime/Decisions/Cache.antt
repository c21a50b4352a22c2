-- ===== src/Runtime/Decisions/Cache.antt =====
-- packages/runtime/src/runtime.js: the decision cache of `evaluate` and `invalidateDecisions`.
use bitgate.Base.{
  ℕ, suc, ◌<◌, ◌≤◌, ◌≡◌, refl, sym, ap, ◌∙◌, inl, inr, Bool, false, Option, none, some, List, [],
  ◌∷◌, ◌++◌, arith, any, get_or, is_empty, length, nat_beq, if◌then◌else◌, Bool-cases, Option-cases,
  Result, ok, err,
}
use bitgate.Base.Text.{Text, text_eq, text_beq_iff}
use bitgate.Base.Set.{has}
use bitgate.Base.Map.{Map, get, put, remove, get-put_self, get-remove, length-put}
use bitgate.Core.Identifiers.{GovernanceTarget, get_target_key}
use bitgate.Core.Evaluator.Snapshot.{GovernanceSnapshot}
use bitgate.Core.Policy.Decision.{GovernanceDecision}
use bitgate.Runtime.Stores.Eviction.{length-remove}
use bitgate.Runtime.Decisions.{
  Runtime, bar, cache_key, after_bar, target_part, drop_targets, remember, settle, evaluate_fresh,
  evaluate, cached_or, prepared, decide, snapshot, fingerprint_of,
}

abbrev pub has_bar : Text → Bool
has_bar s = any (λ c. nat_beq c bar) s

after_bar-append : (s t : Text) → has_bar s ≡ false → after_bar (s ++ bar ∷ t) ≡ some t
unfolding after_bar
after_bar-append [] t h = refl
after_bar-append (c ∷ s) t h = ground (arith, after_bar-append s t)

-- The target of a cache key, where the profile's name has no bar.
pub target_part-cache_key :
    (profile : Option Text) (t : Text)
    → has_bar (get_or profile []) ≡ false
    → target_part (cache_key profile t) ≡ t
unfolding target_part
target_part-cache_key profile t h = rw (after_bar-append (get_or profile []) t h) refl

pub get-drop_targets {ℓ} :
    {D : Type ℓ} (affected : List Text) (cache : Map Text D) (key : Text)
    → get (drop_targets affected cache) key
      ≡ (if has affected (target_part key) then none else get cache key)
unfolding drop_targets get
get-drop_targets affected [] key = ground arith
get-drop_targets affected ((k, d) ∷ cache) key =
    ground (arith, get-drop_targets affected cache key, text_beq_iff k key)

remember-bounded {ℓ} :
    {D : Type ℓ} (max : ℕ) (cache : Map Text D) (key : Text) (d : D)
    → length cache ≤ max
    → length (remember max cache key d) ≤ max
unfolding remember put remove
remember-bounded {D = D} max [] key d h = ground (arith, text_beq_iff key key)
remember-bounded {D = D} max ((k, e) ∷ cache) key d h = ground (
  arith,
  length-put cache key d,
  length-remove cache k,
  length-remove (put cache key d) k,
  text_beq_iff k k,
)

-- What is remembered under a new key is found there, if the cache may hold a decision at all.
get-remember {ℓ} :
    {D : Type ℓ} (max : ℕ) (cache : Map Text D) (key : Text) (d : D)
    → 0 < max
    → get cache key ≡ none
    → get (remember max cache key d) key ≡ some d
unfolding remember put get
get-remember {D = D} max [] key d p h = ground (arith, text_beq_iff key key)
get-remember {D = D} max ((k, e) ∷ cache) key d p h = ground (
  arith,
  text_beq_iff k key,
  get-put_self cache key d,
  get-remove ((k, e) ∷ put cache key d) k key,
)

-- A runtime with the decisions and the ceiling of another.
abbrev SameCache : Runtime → Runtime → Type 0
SameCache after before =
    (after.decision_cache ≡ before.decision_cache)
    × (after.max_cached_decisions ≡ before.max_cached_decisions)

snapshot-SameCache : (runtime : Runtime) → SameCache (snapshot runtime).0 runtime
unfolding snapshot
snapshot-SameCache runtime = elim (Option-cases runtime.cached_snapshot) [
  | inl e ↦ rw e (refl, refl)
  | inr (cached, e) ↦ rw e (refl, refl)
]

fingerprint_of-SameCache :
    (runtime : Runtime) (current : GovernanceSnapshot)
    → SameCache (fingerprint_of runtime current).0 runtime
unfolding fingerprint_of
fingerprint_of-SameCache runtime current = elim (Bool-cases (is_empty runtime.cached_print)) [
  | inl e ↦ rw e (refl, refl)
  | inr e ↦ rw e (refl, refl)
]

prepared-SameCache : (runtime : Runtime) → SameCache (prepared runtime).0 runtime
prepared-SameCache runtime =
    let (c, m) = fingerprint_of-SameCache (snapshot runtime).0 (snapshot runtime).1 in
    let (d, n) = snapshot-SameCache runtime in (c ∙ d, m ∙ n)

settle-bounded :
    (runtime : Runtime) (key : Text) (result : Result GovernanceDecision)
    → length runtime.decision_cache ≤ runtime.max_cached_decisions
    → length (settle runtime key result).0.decision_cache ≤ runtime.max_cached_decisions
unfolding settle
settle-bounded runtime key (err e) h = h
settle-bounded runtime key (ok decision) h =
    remember-bounded runtime.max_cached_decisions runtime.decision_cache key decision h

fresh-bounded :
    (runtime : Runtime) (target : GovernanceTarget) (profile : Option Text) (now : ℕ)
    → length runtime.decision_cache ≤ runtime.max_cached_decisions
    → length (evaluate_fresh runtime target profile now).0.decision_cache
      ≤ runtime.max_cached_decisions
unfolding evaluate_fresh
fresh-bounded runtime target profile now h =
    let (c, m) = prepared-SameCache runtime in
    let key = cache_key profile (get_target_key target) in
    let result = decide runtime (prepared runtime).1 target profile now in
    let bounded = settle-bounded (prepared runtime).0 key result (ground (arith, c, m, h)) in
    ground (arith, bounded, m)

cached_or-bounded :
    (runtime : Runtime) (cached : Option GovernanceDecision)
    (fresh : Runtime × Result GovernanceDecision)
    → length runtime.decision_cache ≤ runtime.max_cached_decisions
    → length fresh.0.decision_cache ≤ runtime.max_cached_decisions
    → length (cached_or runtime cached fresh).0.decision_cache ≤ runtime.max_cached_decisions
cached_or-bounded runtime none fresh h k = k
cached_or-bounded runtime (some cached) fresh h k = h

-- Whatever an evaluation does, a cache within the ceiling stays within it.
pub evaluate-bounded :
    (runtime : Runtime) (target : GovernanceTarget) (profile : Option Text) (now : ℕ)
    → length runtime.decision_cache ≤ runtime.max_cached_decisions
    → length (evaluate runtime target profile now).0.decision_cache ≤ runtime.max_cached_decisions
unfolding evaluate
evaluate-bounded runtime target profile now h =
    cached_or-bounded runtime
      (get runtime.decision_cache (cache_key profile (get_target_key target)))
      (evaluate_fresh runtime target profile now) h (fresh-bounded runtime target profile now h)

settle-remembered :
    (runtime : Runtime) (key : Text) (result : Result GovernanceDecision) (d : GovernanceDecision)
    → 0 < runtime.max_cached_decisions
    → get runtime.decision_cache key ≡ none
    → (settle runtime key result).1 ≡ ok d
    → get (settle runtime key result).0.decision_cache key ≡ some d
unfolding settle
settle-remembered runtime key (err e) d p a h = ground (arith, h)
settle-remembered runtime key (ok decision) d p a h =
    ground
      (arith, h, get-remember runtime.max_cached_decisions runtime.decision_cache key decision p a)

abbrev pub count_hit : Runtime → Runtime
count_hit runtime = record runtime { cache_hits = suc runtime.cache_hits }

pub evaluate-hit :
    (runtime : Runtime) (target : GovernanceTarget) (profile : Option Text) (now : ℕ)
    (d : GovernanceDecision)
    → get runtime.decision_cache (cache_key profile (get_target_key target)) ≡ some d
    → evaluate runtime target profile now
      ≡ (record runtime { cache_hits = suc runtime.cache_hits }, ok d)
unfolding evaluate
evaluate-hit runtime target profile now d e = rw e refl

pub evaluate-miss :
    (runtime : Runtime) (target : GovernanceTarget) (profile : Option Text) (now : ℕ)
    → get runtime.decision_cache (cache_key profile (get_target_key target)) ≡ none
    → evaluate runtime target profile now ≡ evaluate_fresh runtime target profile now
unfolding evaluate
evaluate-miss runtime target profile now e = rw e refl

fresh-remembered :
    (runtime : Runtime) (target : GovernanceTarget) (profile : Option Text) (now : ℕ)
    (d : GovernanceDecision)
    → 0 < runtime.max_cached_decisions
    → get runtime.decision_cache (cache_key profile (get_target_key target)) ≡ none
    → (evaluate_fresh runtime target profile now).1 ≡ ok d
    → get
        (evaluate_fresh runtime target profile now).0.decision_cache
        (cache_key profile (get_target_key target))
      ≡ some d
unfolding evaluate_fresh
fresh-remembered runtime target profile now d p e h =
    let key = cache_key profile (get_target_key target) in
    let (c, m) = prepared-SameCache runtime in
    settle-remembered (prepared runtime).0 key
      (decide runtime (prepared runtime).1 target profile now) d (rw m p)
      (ap (λ cache. get cache key) c ∙ e) h

ok-injective : (a b : GovernanceDecision) → ok a ≡ ok b → a ≡ b
ok-injective a b h = ap (λ r. elim r [ err e ↦ a | ok d ↦ d ]) h

pub evaluate-remembered :
    (runtime : Runtime) (target : GovernanceTarget) (profile : Option Text) (now : ℕ)
    (d : GovernanceDecision)
    → 0 < runtime.max_cached_decisions
    → (evaluate runtime target profile now).1 ≡ ok d
    → get
        (evaluate runtime target profile now).0.decision_cache
        (cache_key profile (get_target_key target))
      ≡ some d
evaluate-remembered runtime target profile now d p h =
    let key = cache_key profile (get_target_key target) in
    elim (Option-cases (get runtime.decision_cache key)) [
      | inl e ↦
          let same = evaluate-miss runtime target profile now e in
          ap (λ x. get x.0.decision_cache key) same
          ∙ fresh-remembered runtime target profile now d p e (sym (ap (λ x. x.1) same) ∙ h)
      | inr (cached, e) ↦
          let same = evaluate-hit runtime target profile now cached e in
          ap (λ x. get x.0.decision_cache key) same
          ∙ (e ∙ ap some (ok-injective cached d (sym (ap (λ x. x.1) same) ∙ h)))
    ]
