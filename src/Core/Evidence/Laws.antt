-- ===== src/Core/Evidence/Laws.antt =====
-- evidence.js: the counts and flags of `mergeEvidence`.
use bitgate.Base.{
  ℕ, ◌+◌, ◌≡◌, refl, ◌∙◌, ◌==◌, ◌||◌, Bool, List, [], ◌∷◌, get_or, arith, if◌then◌else◌, any,
}
use bitgate.Base.Text.{Text, text_eq, text_beq_iff}
use bitgate.Base.Set.{has, has-add_all}
use bitgate.Base.Map.{Map, get, put, keys, get-put, has-keys}
use bitgate.Base.Sort.{sort, has-sort}
use bitgate.Core.Evidence.{
  Evidence, create_empty_evidence, copy_keys, sorted_counts, sum_counts, merge_record,
  merge_records, merge_evidence,
}

-- The count of a category, 0 where it has none.
abbrev pub count_of : Map Text ℕ → Text → ℕ
count_of m c = get_or (get m c) 0

count_of-copy_keys :
    (source : Map Text ℕ) (ks : List Text) (copied : Map Text ℕ) (c : Text)
    → count_of (copy_keys source ks copied) c
      ≡ (if has ks c then count_of source c else count_of copied c)
unfolding copy_keys has
count_of-copy_keys source [] copied c = refl
count_of-copy_keys source (k ∷ ks) copied c = ground (
  arith,
  count_of-copy_keys source ks (put copied k (count_of source k)) c,
  get-put copied k c (count_of source k),
  text_beq_iff k c,
)

-- Sorting the categories keeps every count.
pub count_of-sorted_counts :
    (m : Map Text ℕ) (c : Text) → count_of (sorted_counts m) c ≡ count_of m c
unfolding sorted_counts get
count_of-sorted_counts m c =
    ground (arith, count_of-copy_keys m (sort (keys m)) [] c, has-sort (keys m) c, has-keys m c)

-- The counts of a list of entries for a category, added up.
abbrev pub total_of : Map Text ℕ → Text → ℕ
total_of [] c = 0
total_of ((k, n) ∷ m) c = if k == c then n + total_of m c else total_of m c

count_of-sum_counts :
    (merged m : Map Text ℕ) (c : Text)
    → count_of (sum_counts merged m) c ≡ count_of merged c + total_of m c
unfolding sum_counts
count_of-sum_counts merged [] c = omega arith
count_of-sum_counts merged ((k, n) ∷ m) c = ground (
  arith,
  count_of-sum_counts (put merged k (count_of merged k + n)) m c,
  get-put merged k c (count_of merged k + n),
  text_beq_iff k c,
)

abbrev pub sum_over : (Evidence → ℕ) → List Evidence → ℕ
sum_over g [] = 0
sum_over g (e ∷ es) = g e + sum_over g es

merge_records-sum :
    (f g : Evidence → ℕ)
    → ((m e : Evidence) → f (merge_record m e) ≡ f m + g e)
    → (m : Evidence) (es : List Evidence) → f (merge_records m es) ≡ f m + sum_over g es
unfolding merge_records
merge_records-sum f g step m [] = omega arith
merge_records-sum f g step m (e ∷ es) =
    omega (arith, merge_records-sum f g step (merge_record m e) es, step m e)

merge_records-any :
    (f g : Evidence → Bool)
    → ((m e : Evidence) → f (merge_record m e) ≡ (f m || g e))
    → (m : Evidence) (es : List Evidence) → f (merge_records m es) ≡ (f m || any g es)
unfolding merge_records
merge_records-any f g step m [] = ground arith
merge_records-any f g step m (e ∷ es) =
    ground (arith, merge_records-any f g step (merge_record m e) es, step m e)

-- The merged counts of every category, the totals, the contributors and the flags are those of all
-- the records together.
pub record IsUnion (es : List Evidence) (merged : Evidence) : Type 0 where
  pub report_total : merged.trusted_report_total ≡ sum_over (λ e. e.trusted_report_total) es
  pub mute_total : merged.trusted_mute_total ≡ sum_over (λ e. e.trusted_mute_total) es
  pub reports :
      (c : Text)
      → count_of merged.trusted_reports_by_category c
        ≡ sum_over (λ e. total_of e.trusted_reports_by_category c) es
  pub mutes :
      (c : Text)
      → count_of merged.trusted_mutes_by_category c
        ≡ sum_over (λ e. total_of e.trusted_mutes_by_category c) es
  pub reporters :
      (p : Text)
      → has merged.trusted_reporter_pubkeys p ≡ any (λ e. has e.trusted_reporter_pubkeys p) es
  pub muters :
      (p : Text) → has merged.trusted_muter_pubkeys p ≡ any (λ e. has e.trusted_muter_pubkeys p) es
  pub blocked : merged.personal_block ≡ any (λ e. e.personal_block) es
  pub muted : merged.personal_mute ≡ any (λ e. e.personal_mute) es
  pub user_denied : merged.user_denied ≡ any (λ e. e.user_denied) es
  pub event_denied : merged.event_denied ≡ any (λ e. e.event_denied) es
  pub address_denied : merged.address_denied ≡ any (λ e. e.address_denied) es
  pub user_allowed : merged.user_allowed ≡ any (λ e. e.user_allowed) es
  pub protected_target : merged.protected_target ≡ any (λ e. e.protected_target) es

-- Merged evidence has the sums of the records' totals, for every category the sum of its counts,
-- the union of the reporters and of the muters, and each flag that some record has.
pub merge_evidence-IsUnion : (es : List Evidence) → IsUnion es (merge_evidence es)
unfolding merge_evidence merge_record has get
merge_evidence-IsUnion es = record {
  report_total =
      merge_records-sum (λ e. e.trusted_report_total) (λ e. e.trusted_report_total) (λ m e. refl)
        create_empty_evidence es
      ∙ omega arith;
  mute_total =
      merge_records-sum (λ e. e.trusted_mute_total) (λ e. e.trusted_mute_total) (λ m e. refl)
        create_empty_evidence es
      ∙ omega arith;
  reports = λ c.
      count_of-sorted_counts _ c
      ∙ merge_records-sum (λ e. count_of e.trusted_reports_by_category c)
          (λ e. total_of e.trusted_reports_by_category c)
          (λ m e. count_of-sum_counts m.trusted_reports_by_category e.trusted_reports_by_category c)
          create_empty_evidence es
      ∙ omega arith;
  mutes = λ c.
      count_of-sorted_counts _ c
      ∙ merge_records-sum (λ e. count_of e.trusted_mutes_by_category c)
          (λ e. total_of e.trusted_mutes_by_category c)
          (λ m e. count_of-sum_counts m.trusted_mutes_by_category e.trusted_mutes_by_category c)
          create_empty_evidence es
      ∙ omega arith;
  reporters = λ p.
      has-sort _ p
      ∙ merge_records-any (λ e. has e.trusted_reporter_pubkeys p)
          (λ e. has e.trusted_reporter_pubkeys p)
          (λ m e. has-add_all m.trusted_reporter_pubkeys e.trusted_reporter_pubkeys p)
          create_empty_evidence es;
  muters = λ p.
      has-sort _ p
      ∙ merge_records-any (λ e. has e.trusted_muter_pubkeys p) (λ e. has e.trusted_muter_pubkeys p)
          (λ m e. has-add_all m.trusted_muter_pubkeys e.trusted_muter_pubkeys p)
          create_empty_evidence es;
  blocked =
      merge_records-any (λ e. e.personal_block) (λ e. e.personal_block) (λ m e. refl)
        create_empty_evidence es;
  muted =
      merge_records-any (λ e. e.personal_mute) (λ e. e.personal_mute) (λ m e. refl)
        create_empty_evidence es;
  user_denied =
      merge_records-any (λ e. e.user_denied) (λ e. e.user_denied) (λ m e. refl)
        create_empty_evidence es;
  event_denied =
      merge_records-any (λ e. e.event_denied) (λ e. e.event_denied) (λ m e. refl)
        create_empty_evidence es;
  address_denied =
      merge_records-any (λ e. e.address_denied) (λ e. e.address_denied) (λ m e. refl)
        create_empty_evidence es;
  user_allowed =
      merge_records-any (λ e. e.user_allowed) (λ e. e.user_allowed) (λ m e. refl)
        create_empty_evidence es;
  protected_target =
      merge_records-any (λ e. e.protected_target) (λ e. e.protected_target) (λ m e. refl)
        create_empty_evidence es;
}
