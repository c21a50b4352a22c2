-- ===== src/Core/Reasons/Dedupe.antt =====
-- reasons.js: the keys and counts of `dedupeReasons`.
use bitgate.Base.{
  ℕ, ◌≡◌, refl, ap, sym, ◌∙◌, ◌==◌, ==-symm, false, ◌||◌, Option, none, some, List, [], ◌∷◌, ◌++◌,
  map, arith, ltb, if◌then◌else◌, All, Bool-cases, inl, inr, append-nil, append_assoc,
}
use bitgate.Base.Set.{has, add, IsUnique, has-add, has-append}
use bitgate.Base.Map.{
  Map, get, put, keys, values, get-put, put_new, has-keys, keys-put, IsUnique-put, keys-append,
  values-append,
}
use bitgate.Core.Reasons.{
  plain_reason, policy_disabled, Reason, ReasonKey, reason_key, reason_key_eq, reason_key_beq_iff,
  raise_count, merged, dedupe_step, dedupe_from, dedupe_reasons,
}

-- The higher of two optional counts.
abbrev pub join : Option ℕ → Option ℕ → Option ℕ
join none b = b
join (some a) none = some a
join (some a) (some b) = if ltb a b then some b else some a

join_assoc : (a b c : Option ℕ) → join (join a b) c ≡ join a (join b c)
join_assoc a b c = ground arith

-- The highest count among the reasons with a key.
abbrev pub top_count : ReasonKey → List Reason → Option ℕ
top_count k [] = none
top_count k (r ∷ rs) = if reason_key r == k then join r.count (top_count k rs) else top_count k rs

abbrev count_at : Option Reason → Option ℕ
count_at none = none
count_at (some r) = r.count

raise_count-count : (e r : Reason) → (raise_count e r).count ≡ join e.count r.count
unfolding raise_count
raise_count-count e r = ground arith

raise_count-key : (e r : Reason) → reason_key (raise_count e r) ≡ reason_key e
unfolding raise_count reason_key
raise_count-key e r = ground arith

-- Every entry stands under its own key.
abbrev Keyed : Map ReasonKey Reason → Type 0
Keyed m = All (λ b. b.0 ≡ reason_key b.1) m

Keyed-get :
    (m : Map ReasonKey Reason) (k : ReasonKey) (r : Reason)
    → Keyed m
    → get m k ≡ some r
    → reason_key r ≡ k
unfolding get
Keyed-get [] k r h e = cc
Keyed-get ((j, v) ∷ m) k r (here, h) e = ground (arith, Keyed-get m k r h, reason_key_beq_iff j k)

Keyed-put :
    (m : Map ReasonKey Reason) (k : ReasonKey) (r : Reason)
    → Keyed m
    → k ≡ reason_key r
    → Keyed (put m k r)
unfolding put
Keyed-put [] k r h e = (e, tt)
Keyed-put ((j, v) ∷ m) k r (here, h) e = elim (Bool-cases (j == k)) [
  | inl p ↦ rw p ((reason_key_beq_iff j k).0 p ∙ e, h)
  | inr p ↦ rw p (here, Keyed-put m k r h e)
]

Keyed-dedupe_step : (m : Map ReasonKey Reason) (r : Reason) → Keyed m → Keyed (dedupe_step m r)
unfolding dedupe_step
Keyed-dedupe_step m r h = Keyed-put m (reason_key r) _ h (key_of (get m (reason_key r)) refl)
  where
    key_of : (o : Option Reason) → get m (reason_key r) ≡ o → reason_key r ≡ reason_key (merged o r)
    key_of none e = refl
    key_of (some old) e = sym (raise_count-key old r ∙ Keyed-get m (reason_key r) old h e)

Keyed-dedupe_from :
    (m : Map ReasonKey Reason) (rs : List Reason) → Keyed m → Keyed (dedupe_from m rs)
unfolding dedupe_from
Keyed-dedupe_from m [] h = h
Keyed-dedupe_from m (r ∷ rs) h = Keyed-dedupe_from (dedupe_step m r) rs (Keyed-dedupe_step m r h)

map-values : (m : Map ReasonKey Reason) → Keyed m → map reason_key (values m) ≡ keys m
unfolding values keys
map-values [] h = refl
map-values ((j, v) ∷ m) (here, h) = cc (here, map-values m h)

keys-dedupe_step :
    (m : Map ReasonKey Reason) (r : Reason) → keys (dedupe_step m r) ≡ add (keys m) (reason_key r)
unfolding dedupe_step
keys-dedupe_step m r = keys-put m (reason_key r) _

IsUnique-dedupe_from :
    (m : Map ReasonKey Reason) (rs : List Reason)
    → IsUnique (keys m)
    → IsUnique (keys (dedupe_from m rs))
unfolding dedupe_from
IsUnique-dedupe_from m [] u = u
IsUnique-dedupe_from m (r ∷ rs) u =
    IsUnique-dedupe_from (dedupe_step m r) rs
      (unfold dedupe_step in IsUnique-put m (reason_key r) _ u)

has-dedupe_from :
    (m : Map ReasonKey Reason) (rs : List Reason) (k : ReasonKey)
    → has (keys (dedupe_from m rs)) k ≡ (has (keys m) k || has (map reason_key rs) k)
unfolding dedupe_from has
has-dedupe_from m [] k = ground arith
has-dedupe_from m (r ∷ rs) k = ground (
  arith,
  has-dedupe_from (dedupe_step m r) rs k,
  ap (λ (t : List ReasonKey). has t k) (keys-dedupe_step m r),
  has-add (keys m) (reason_key r) k,
)

count_at-dedupe_step :
    (m : Map ReasonKey Reason) (r : Reason) (k : ReasonKey)
    → count_at (get (dedupe_step m r) k)
      ≡ (if reason_key r == k then join (count_at (get m k)) r.count else count_at (get m k))
unfolding dedupe_step
count_at-dedupe_step m r k = ground (
  arith,
  get-put m (reason_key r) k (merged (get m (reason_key r)) r),
  ap (λ (j : ReasonKey). get m j) {x = reason_key r} {y = k},
  reason_key_beq_iff (reason_key r) k,
  count-merged (get m (reason_key r)),
)
  where
    count-merged : (o : Option Reason) → (merged o r).count ≡ join (count_at o) r.count
    count-merged none = refl
    count-merged (some old) = raise_count-count old r

count_at-dedupe_from :
    (m : Map ReasonKey Reason) (rs : List Reason) (k : ReasonKey)
    → count_at (get (dedupe_from m rs) k) ≡ join (count_at (get m k)) (top_count k rs)
unfolding dedupe_from
count_at-dedupe_from m [] k = ground arith
count_at-dedupe_from m (r ∷ rs) k = ground (
  arith,
  count_at-dedupe_from (dedupe_step m r) rs k,
  count_at-dedupe_step m r k,
  join_assoc (count_at (get m k)) r.count (top_count k rs),
)

top_count-absent :
    (k : ReasonKey) (rs : List Reason) → has (map reason_key rs) k ≡ false → top_count k rs ≡ none
unfolding has
top_count-absent k [] h = refl
top_count-absent k (r ∷ rs) h = ground (arith, top_count-absent k rs)

top_count-values :
    (m : Map ReasonKey Reason) (k : ReasonKey)
    → Keyed m
    → IsUnique (keys m)
    → top_count k (values m) ≡ count_at (get m k)
unfolding get values keys
top_count-values [] k h u = refl
top_count-values ((j, v) ∷ m) k (here, h) (n, u) = ground (
  arith,
  top_count-values m k h u,
  reason_key_beq_iff j k,
  reason_key_beq_iff (reason_key v) k,
  top_count-absent k (values m),
  ap (λ (t : List ReasonKey). has t k) (map-values m h),
  join_none v.count,
)
  where
    join_none : (a : Option ℕ) → join a none ≡ a
    join_none a = ground arith

-- No two of the reasons kept share a key; a key is among them exactly when a given reason has it;
-- and under each key the highest count given is kept.
pub dedupe_reasons_lem :
    (rs : List Reason) (k : ReasonKey)
    → IsUnique (map reason_key (dedupe_reasons rs))
      × (has (map reason_key (dedupe_reasons rs)) k ≡ has (map reason_key rs) k)
      × (top_count k (dedupe_reasons rs) ≡ top_count k rs)
unfolding dedupe_reasons keys get has
dedupe_reasons_lem rs k =
    let keyed = Keyed-dedupe_from [] rs tt in
    let unique = IsUnique-dedupe_from [] rs tt in
    (
      rw (map-values _ keyed) unique,
      rw (map-values _ keyed) (has-dedupe_from [] rs k),
      top_count-values _ k keyed unique ∙ count_at-dedupe_from [] rs k,
    )

step_new :
    (m : Map ReasonKey Reason) (r : Reason)
    → has (keys m) (reason_key r) ≡ false
    → dedupe_step m r ≡ m ++ (reason_key r, r) ∷ []
unfolding dedupe_step
step_new m r new =
    let absent : get m (reason_key r) ≡ none = ground (arith, has-keys m (reason_key r)) in
    rw absent (put_new m (reason_key r) r absent)

still_new :
    (ks : List ReasonKey) (r : Reason) (rs : List Reason)
    → has (map reason_key rs) (reason_key r) ≡ false
    → All (λ q. has ks (reason_key q) ≡ false) rs
    → All (λ q. has (ks ++ reason_key r ∷ []) (reason_key q) ≡ false) rs
unfolding has
still_new ks r [] n h = tt
still_new ks r (q ∷ rs) n (here, h) = (
  ground (
    arith,
    has-append ks (reason_key r ∷ []) (reason_key q),
    ==-symm (reason_key q) (reason_key r),
  ),
  still_new ks r rs (ground arith) h,
)

dedupe_from_unique :
    (m : Map ReasonKey Reason) (rs : List Reason)
    → IsUnique (map reason_key rs)
    → All (λ r. has (keys m) (reason_key r) ≡ false) rs
    → values (dedupe_from m rs) ≡ values m ++ rs
unfolding dedupe_from
dedupe_from_unique m [] u h = sym (append-nil _)
dedupe_from_unique m (r ∷ rs) (n, u) (new, h) = rw (step_new m r new) (
    dedupe_from_unique (m ++ (reason_key r, r) ∷ []) rs u
      (rw (keys-append m (reason_key r) r) (still_new (keys m) r rs n h))
    ∙ rw (values-append m (reason_key r) r) (append_assoc (values m) (r ∷ []) rs))

-- Reasons of which no two share a key are left as they are, in their order.
pub dedupe_reasons_of_IsUnique :
    (rs : List Reason) → IsUnique (map reason_key rs) → dedupe_reasons rs ≡ rs
unfolding dedupe_reasons values keys has
dedupe_reasons_of_IsUnique rs u = dedupe_from_unique [] rs u (all_new rs)
  where
    all_new : (qs : List Reason) → All (λ r. has [] (reason_key r) ≡ false) qs
    all_new [] = tt
    all_new (q ∷ qs) = (refl, all_new qs)

-- Deduplicating twice is deduplicating once.
pub dedupe_reasons_idem :
    (rs : List Reason) → dedupe_reasons (dedupe_reasons rs) ≡ dedupe_reasons rs
dedupe_reasons_idem rs =
    dedupe_reasons_of_IsUnique (dedupe_reasons rs)
      (dedupe_reasons_lem rs (reason_key (plain_reason policy_disabled))).0
