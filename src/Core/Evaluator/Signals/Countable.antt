-- ===== src/Core/Evaluator/Signals/Countable.antt =====
-- evaluator.js: `isCountableSignal` in the two aggregations.
use bitgate.Base.{
  ℕ, ◌≡◌, refl, sym, ap, ◌∙◌, ==-refl, ◌↔◌, Bool, true, false, not, ◌&&◌, Option, List, [], ◌∷◌,
  arith, is_empty, filter, length, get_or, Bool-cases, inl, inr,
}
use bitgate.Base.Text.{Text, text_eq}
use bitgate.Base.Set.{has}
use bitgate.Base.Map.{get}
use bitgate.Core.Identifiers.{user_key}
use bitgate.Core.Evaluator.Snapshot.{ReportRecord, MuteRecord, ViewerState, GovernanceSnapshot}
use bitgate.Core.Evaluator.Signals.{
  is_countable_signal, Tally, no_tally, tally_report, tally_reports, aggregate_reports, is_stale,
  tally_mute, tally_mutes, aggregate_mutes, sizes, sum_sizes,
}

-- A signal counts exactly if its author is named, trusted, not blocked by the viewer and not
-- denied by the administration.
pub is_countable_signal_iff :
    (p : Text) (trust_set : List Text) (snapshot : GovernanceSnapshot) (viewer : ViewerState)
    → (is_countable_signal p trust_set snapshot viewer ≡ true) ↔ (
        (is_empty p ≡ false)
        × (has trust_set p ≡ true)
        × (has viewer.blocks p ≡ false)
        × (has snapshot.admin.user_deny (user_key p) ≡ false))
unfolding is_countable_signal
is_countable_signal_iff p trust_set snapshot viewer = ground arith

module _ (trust_set : List Text) (snapshot : GovernanceSnapshot) (viewer : ViewerState) where
  abbrev pub counts_report : ReportRecord → Bool
  counts_report r = is_countable_signal r.reporter trust_set snapshot viewer

  abbrev pub counts_mute : ℕ → Option ℕ → MuteRecord → Bool
  counts_mute now window r =
      is_countable_signal r.muter trust_set snapshot viewer
      && not (is_stale now window r.updated_at)

-- Two snapshots with the same administrative state, one with all records and one with those that
-- count.
module _ (trust_set : List Text) (snapshot other : GovernanceSnapshot) (viewer : ViewerState)
    (same : other.admin ≡ snapshot.admin) where
  countable_same :
      (p : Text)
      → is_countable_signal p trust_set other viewer
        ≡ is_countable_signal p trust_set snapshot viewer
  unfolding is_countable_signal
  countable_same p = rw same

  tally_report_same :
      (tally : Tally) (r : ReportRecord)
      → tally_report trust_set other viewer tally r ≡ tally_report trust_set snapshot viewer tally r
  unfolding tally_report
  tally_report_same tally r = rw (countable_same r.reporter)

  tally_reports-filter :
      (tally : Tally) (rs : List ReportRecord)
      → tally_reports trust_set other viewer tally
          (filter (counts_report trust_set snapshot viewer) rs)
        ≡ tally_reports trust_set snapshot viewer tally rs
  unfolding tally_reports
  tally_reports-filter tally [] = refl
  tally_reports-filter tally (r ∷ rs) =
      elim (Bool-cases (counts_report trust_set snapshot viewer r)) [
        | inl e ↦ rw e (
            ap
              (λ t.
                tally_reports trust_set other viewer t
                  (filter (counts_report trust_set snapshot viewer) rs))
              (tally_report_same tally r)
            ∙ tally_reports-filter (tally_report trust_set snapshot viewer tally r) rs)
        | inr e ↦ rw e (
            tally_reports-filter tally rs
            ∙ ap (λ t. tally_reports trust_set snapshot viewer t rs) (sym (skipped e)))
      ]
    where
      skipped :
          counts_report trust_set snapshot viewer r ≡ false
          → tally_report trust_set snapshot viewer tally r ≡ tally
      skipped e = unfold tally_report in rw e

  module _ (now : ℕ) (window : Option ℕ) where
    tally_mute_same :
        (tally : Tally) (r : MuteRecord)
        → tally_mute trust_set other viewer now window tally r
          ≡ tally_mute trust_set snapshot viewer now window tally r
    unfolding tally_mute
    tally_mute_same tally r = rw (countable_same r.muter)

    tally_mutes-filter :
        (tally : Tally) (rs : List MuteRecord)
        → tally_mutes trust_set other viewer now window tally
            (filter (counts_mute trust_set snapshot viewer now window) rs)
          ≡ tally_mutes trust_set snapshot viewer now window tally rs
    unfolding tally_mutes
    tally_mutes-filter tally [] = refl
    tally_mutes-filter tally (r ∷ rs) =
        elim (Bool-cases (counts_mute trust_set snapshot viewer now window r)) [
          | inl e ↦ rw e (
              ap
                (λ t.
                  tally_mutes trust_set other viewer now window t
                    (filter (counts_mute trust_set snapshot viewer now window) rs))
                (tally_mute_same tally r)
              ∙ tally_mutes-filter (tally_mute trust_set snapshot viewer now window tally r) rs)
          | inr e ↦ rw e (
              tally_mutes-filter tally rs
              ∙ ap (λ t. tally_mutes trust_set snapshot viewer now window t rs) (sym (skipped e)))
        ]
      where
        skipped :
            counts_mute trust_set snapshot viewer now window r ≡ false
            → tally_mute trust_set snapshot viewer now window tally r ≡ tally
        skipped e = unfold tally_mute in ground arith

-- The aggregated reports of a target, with their total, their counts and their reporters, are
-- those of its countable reports alone.
aggregate_reports-countable :
    (key : Text) (snapshot : GovernanceSnapshot) (viewer : ViewerState) (trust_set : List Text)
    → aggregate_reports key
        (record snapshot {
          reports =
              (
                key,
                filter
                    (counts_report trust_set snapshot viewer)
                    (get_or (get snapshot.reports key) []),
              )
              ∷ [];
        })
        viewer
        trust_set
      ≡ aggregate_reports key snapshot viewer trust_set
unfolding aggregate_reports get
aggregate_reports-countable key snapshot viewer trust_set =
    let all = get_or (get snapshot.reports key) [] in
    let other = record snapshot {
      reports = (key, filter (counts_report trust_set snapshot viewer) all) ∷ [];
    } in
    rw (==-refl key) (
      ap
        (λ t. record {
          total = sum_sizes t.by_category;
          by_category = sizes t.by_category;
          pubkeys = t.everyone;
        })
        (tally_reports-filter trust_set snapshot other viewer refl no_tally all))

-- The aggregated mutes of a target are those of its countable mutes inside the window alone.
pub aggregate_mutes-countable :
    (key : Text) (snapshot : GovernanceSnapshot) (viewer : ViewerState) (trust_set : List Text)
    (now : ℕ) (window : Option ℕ)
    → aggregate_mutes key
        (record snapshot {
          trusted_mutes =
              (
                key,
                filter
                    (counts_mute trust_set snapshot viewer now window)
                    (get_or (get snapshot.trusted_mutes key) []),
              )
              ∷ [];
        })
        viewer
        trust_set
        now
        window
      ≡ aggregate_mutes key snapshot viewer trust_set now window
unfolding aggregate_mutes get
aggregate_mutes-countable key snapshot viewer trust_set now window =
    let all = get_or (get snapshot.trusted_mutes key) [] in
    let other = record snapshot {
      trusted_mutes = (key, filter (counts_mute trust_set snapshot viewer now window) all) ∷ [];
    } in
    rw (==-refl key) (
      ap
        (λ t. record {
          total = length t.everyone;
          by_category = sizes t.by_category;
          pubkeys = t.everyone;
        })
        (tally_mutes-filter trust_set snapshot other viewer refl now window no_tally all))
