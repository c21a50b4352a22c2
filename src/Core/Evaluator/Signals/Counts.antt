-- ===== src/Core/Evaluator/Signals/Counts.antt =====
-- evaluator.js: the counts of `aggregateReports` by category.
use bitgate.Base.{
  ◌≡◌, ◌≢◌, refl, sym, ap, ◌∙◌, ◌==◌, true, ◌&&◌, List, [], ◌∷◌, map, arith, is_empty, filter,
  length, if◌then◌else◌, get_or, Bool-cases, inl, inr,
}
use bitgate.Base.Text.{Text, text_eq, text_beq_iff}
use bitgate.Base.Set.{add, add_all, of_list}
use bitgate.Base.Map.{Map, get, get-put}
use bitgate.Core.Evaluator.Snapshot.{ReportRecord, ViewerState, GovernanceSnapshot}
use bitgate.Core.Evaluator.Signals.{
  category_text, Tally, no_tally, note, tally_report, tally_reports, sizes, aggregate_reports,
}
use bitgate.Core.Evaluator.Signals.Countable.{counts_report}

-- The set of a category, empty while there is none.
abbrev set_at : Map Text (List Text) → Text → List Text
set_at m c = get_or (get m c) []

count-sizes :
    (m : Map Text (List Text)) (c : Text) → get_or (get (sizes m) c) 0 ≡ length (set_at m c)
unfolding sizes get
count-sizes [] c = refl
count-sizes ((k, s) ∷ m) c = ground (arith, count-sizes m c)

is_empty-[] {ℓ} : {A : Type ℓ} (xs : List A) → is_empty xs ≡ true → xs ≡ []
is_empty-[] [] e = refl
is_empty-[] (x ∷ xs) e = cc

set_at-note :
    (m : Map Text (List Text)) (c d p : Text)
    → set_at (note m c p) d ≡ (if c == d then add (set_at m d) p else set_at m d)
set_at-note m c d p =
    ground
      (arith, get-put m c d (add (set_at m c) p), text_beq_iff c d, ap (set_at m) {x = c} {y = d})

module _ (trust_set : List Text) (snapshot : GovernanceSnapshot) (viewer : ViewerState) where
  -- The reporters of a category, in order, repetitions included.
  abbrev pub reporters_of : Text → List ReportRecord → List Text
  reporters_of c rs =
      map (λ r. r.reporter)
        (filter (λ r. counts_report trust_set snapshot viewer r && category_text r.category == c)
          rs)

  set_at-tally_report :
      (tally : Tally) (r : ReportRecord) (c : Text)
      → c ≢ []
      → set_at (tally_report trust_set snapshot viewer tally r).by_category c
        ≡ add_all (set_at tally.by_category c) (reporters_of c (r ∷ []))
  set_at-tally_report tally r c nonempty =
      elim (Bool-cases (counts_report trust_set snapshot viewer r)) [
        | inr e ↦ unfold tally_report in unfold add_all in rw e refl
        | inl e ↦ elim (Bool-cases (category_text r.category == c)) [
          | inl same ↦ elim (Bool-cases (is_empty (category_text r.category))) [
            | inl none_given ↦ absurd (
                nonempty (
                  sym ((text_beq_iff (category_text r.category) c).0 same)
                  ∙ is_empty-[] _ none_given))
            | inr given ↦
                unfold tally_report in
                unfold add_all in
                rw (e, same, given)
                  (set_at-note tally.by_category (category_text r.category) c r.reporter
                    ∙ rw same refl)
          ]
          | inr differ ↦ elim (Bool-cases (is_empty (category_text r.category))) [
            | inl none_given ↦
                unfold tally_report in unfold add_all in rw (e, differ, none_given) refl
            | inr given ↦
                unfold tally_report in
                unfold add_all in
                rw (e, differ, given)
                  (set_at-note tally.by_category (category_text r.category) c r.reporter
                    ∙ rw differ refl)
          ]
        ]
      ]

  set_at-tally_reports :
      (tally : Tally) (rs : List ReportRecord) (c : Text)
      → c ≢ []
      → set_at (tally_reports trust_set snapshot viewer tally rs).by_category c
        ≡ add_all (set_at tally.by_category c) (reporters_of c rs)
  unfolding tally_reports
  set_at-tally_reports tally [] c nonempty = unfold add_all in refl
  set_at-tally_reports tally (r ∷ rs) c nonempty =
      set_at-tally_reports (tally_report trust_set snapshot viewer tally r) rs c nonempty
      ∙ ap (λ s. add_all s (reporters_of c rs)) (set_at-tally_report tally r c nonempty)
      ∙ join
    where
      join :
          add_all
            (add_all (set_at tally.by_category c) (reporters_of c (r ∷ [])))
            (reporters_of c rs)
          ≡ add_all (set_at tally.by_category c) (reporters_of c (r ∷ rs))
      join = unfold add_all in ground arith

-- The count of a category among a target's reports is the number of different reporters whose
-- countable reports name the category: repeated reports of one reporter add nothing.
pub aggregate_reports-count :
    (key : Text) (snapshot : GovernanceSnapshot) (viewer : ViewerState) (trust_set : List Text)
    (c : Text)
    → c ≢ []
    → get_or (get (aggregate_reports key snapshot viewer trust_set).by_category c) 0
      ≡ length (
          of_list (reporters_of trust_set snapshot viewer c (get_or (get snapshot.reports key) [])))
unfolding of_list
aggregate_reports-count key snapshot viewer trust_set c nonempty =
    let records = get_or (get snapshot.reports key) [] in
    unfold aggregate_reports in
    count-sizes (tally_reports trust_set snapshot viewer no_tally records).by_category c
    ∙ ap length
        (set_at-tally_reports trust_set snapshot viewer no_tally records c nonempty ∙ at_start)
  where
    at_start :
        add_all
          (set_at no_tally.by_category c)
          (reporters_of trust_set snapshot viewer c (get_or (get snapshot.reports key) []))
        ≡ add_all []
            (reporters_of trust_set snapshot viewer c (get_or (get snapshot.reports key) []))
    at_start = unfold get in refl
