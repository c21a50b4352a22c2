-- ===== src/Tests/Stores.antt =====
-- The stores at concrete inputs.
use bitgate.Base.{List, ◌≡◌, ◌≤◌, refl, some, [], ◌∷◌, arith, find, length}
use bitgate.Base.Text.{Text, codes}
use bitgate.Core.AdminState.{Contribution}
use bitgate.Runtime.Stores.Admin.{empty_admin_store, same_slot, upsert_contribution, is_incomplete}
use bitgate.Runtime.Stores.Admin.Slots.{upsert_contribution_comm}
use bitgate.Runtime.Stores.Admin.Current.{
  upsert, perform, IsCurrent, EmitsOnChange, perform-EmitsOnChange, start, next, reached-IsCurrent,
}
use bitgate.Runtime.Stores.Reports.{Report, ReportStore, empty_report_store, time_of, ingest}
use bitgate.Runtime.Stores.Reports.Latest.{ingest-bounded}
use bitgate.Runtime.Stores.Reports.Arrivals.{Arrival, ingest_all, latest_of, ingest_all_lem}
use bitgate.Tests.Data.{denials, alice, bob}

-- The moderator's list as it was ten seconds before.
abbrev earlier : Contribution
earlier = record denials { targets = []; created_at = some 10 }

upsert_contribution_comm_example :
    find
      (same_slot denials)
      (upsert_contribution
        (upsert_contribution empty_admin_store earlier).store
        denials).store.contributions
    ≡ find
        (same_slot denials)
        (upsert_contribution
          (upsert_contribution empty_admin_store denials).store
          earlier).store.contributions
unfolding is_incomplete
upsert_contribution_comm_example =
    upsert_contribution_comm empty_admin_store earlier denials denials refl refl
      (λ same equal. omega (arith, equal))

perform-EmitsOnChange_example :
    EmitsOnChange empty_admin_store (perform empty_admin_store (upsert denials))
perform-EmitsOnChange_example = perform-EmitsOnChange empty_admin_store (upsert denials)

reached-IsCurrent_example : IsCurrent (perform empty_admin_store (upsert denials)).store
reached-IsCurrent_example =
    reached-IsCurrent (perform empty_admin_store (upsert denials)).store
      (next start (upsert denials))

abbrev pub spam_at : Text → Report
spam_at reporter = record { reporter = reporter; category = codes "spam"; created_at = some 20 }

-- The newer report of bob, one of alice, and an older one of bob.
abbrev arrivals : List Arrival
arrivals =
    (spam_at bob, codes "event:e5")
    ∷ (spam_at alice, codes "event:e5")
    ∷ (record (spam_at bob) { created_at = some 5 }, codes "event:e5")
    ∷ []

ingest_all_lem_example :
    time_of
      (ingest_all (empty_report_store 0) arrivals).reports
      (codes "event:e5")
      bob
      (codes "spam")
    ≡ latest_of arrivals (codes "event:e5") bob (codes "spam")
ingest_all_lem_example = ingest_all_lem arrivals (codes "event:e5") bob (codes "spam")

-- A store that may hold one target, and holds one.
abbrev full_store : ReportStore
full_store = record { reports = (codes "event:e5", []) ∷ []; max_targets = 1; fingerprint = [] }

ingest-bounded_example :
    length (ingest full_store (spam_at bob) (codes "event:e6")).store.reports ≤ 1
ingest-bounded_example =
    ingest-bounded full_store (spam_at bob) (codes "event:e6") (omega arith) (omega arith)
