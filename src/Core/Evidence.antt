-- ===== src/Core/Evidence.antt =====
-- packages/core/src/evidence.js: the evidence that explains a decision.
pub mod Laws
use bitgate.Base.{ℕ, ◌+◌, ◌||◌, Bool, true, false, Option, none, some, List, [], ◌∷◌, get_or}
use bitgate.Base.Text.{Text, text_eq}
use bitgate.Base.Set.{add_all}
use bitgate.Base.Map.{Map, get, put, keys}
use bitgate.Base.Sort.{sort}

pub record EvidenceThresholds : Type 0 where
  pub warn : Option ℕ
  pub restrict : Option ℕ
  pub hide : Option ℕ
  pub deny : Option ℕ

abbrev pub no_thresholds : EvidenceThresholds
no_thresholds = record { warn = none; restrict = none; hide = none; deny = none }

pub record Evidence : Type 0 where
  pub trusted_report_total : ℕ
  pub trusted_reports_by_category : Map Text ℕ
  pub trusted_reporter_pubkeys : List Text
  pub trusted_mute_total : ℕ
  pub trusted_mutes_by_category : Map Text ℕ
  pub trusted_muter_pubkeys : List Text
  pub personal_block : Bool
  pub personal_mute : Bool
  pub user_denied : Bool
  pub event_denied : Bool
  pub address_denied : Bool
  pub user_allowed : Bool
  pub protected_target : Bool
  pub thresholds : EvidenceThresholds

abbrev pub create_empty_evidence : Evidence
create_empty_evidence = record {
  trusted_report_total = 0;
  trusted_reports_by_category = [];
  trusted_reporter_pubkeys = [];
  trusted_mute_total = 0;
  trusted_mutes_by_category = [];
  trusted_muter_pubkeys = [];
  personal_block = false;
  personal_mute = false;
  user_denied = false;
  event_denied = false;
  address_denied = false;
  user_allowed = false;
  protected_target = false;
  thresholds = no_thresholds;
}

-- The loop over the sorted keys; every key is one of the map.
unfoldable pub copy_keys : Map Text ℕ → List Text → Map Text ℕ → Map Text ℕ
copy_keys source [] copied = copied
copy_keys source (key ∷ rest) copied =
    copy_keys source rest (put copied key (get_or (get source key) 0))

unfoldable pub sorted_counts : Map Text ℕ → Map Text ℕ
unfolding copy_keys
sorted_counts counts = copy_keys counts (sort (keys counts)) []

unfoldable pub freeze_evidence : Evidence → Evidence
unfolding sorted_counts
freeze_evidence evidence = record evidence {
  trusted_reports_by_category = sorted_counts evidence.trusted_reports_by_category;
  trusted_mutes_by_category = sorted_counts evidence.trusted_mutes_by_category;
  trusted_reporter_pubkeys = sort evidence.trusted_reporter_pubkeys;
  trusted_muter_pubkeys = sort evidence.trusted_muter_pubkeys;
}

-- `merged[category] = previous + count` for each entry of a record
unfoldable pub sum_counts : Map Text ℕ → Map Text ℕ → Map Text ℕ
sum_counts merged [] = merged
sum_counts merged ((category, count) ∷ rest) =
    sum_counts (put merged category (get_or (get merged category) 0 + count)) rest

-- `{ ...a, ...b }` for one gate
abbrev later : Option ℕ → Option ℕ → Option ℕ
later a none = a
later a (some b) = some b

abbrev pub spread : EvidenceThresholds → EvidenceThresholds → EvidenceThresholds
spread a b = record {
  warn = later a.warn b.warn;
  restrict = later a.restrict b.restrict;
  hide = later a.hide b.hide;
  deny = later a.deny b.deny;
}

-- One round of the loop of `mergeEvidence`. The code collects the pubkeys in sets of their own,
-- which start empty and are written back at the end; here they grow in the merged record.
unfoldable pub merge_record : Evidence → Evidence → Evidence
unfolding sum_counts
merge_record merged e = record {
  trusted_report_total = merged.trusted_report_total + e.trusted_report_total;
  trusted_reports_by_category =
      sum_counts merged.trusted_reports_by_category e.trusted_reports_by_category;
  trusted_reporter_pubkeys = add_all merged.trusted_reporter_pubkeys e.trusted_reporter_pubkeys;
  trusted_mute_total = merged.trusted_mute_total + e.trusted_mute_total;
  trusted_mutes_by_category =
      sum_counts merged.trusted_mutes_by_category e.trusted_mutes_by_category;
  trusted_muter_pubkeys = add_all merged.trusted_muter_pubkeys e.trusted_muter_pubkeys;
  personal_block = merged.personal_block || e.personal_block;
  personal_mute = merged.personal_mute || e.personal_mute;
  user_denied = merged.user_denied || e.user_denied;
  event_denied = merged.event_denied || e.event_denied;
  address_denied = merged.address_denied || e.address_denied;
  user_allowed = merged.user_allowed || e.user_allowed;
  protected_target = merged.protected_target || e.protected_target;
  thresholds = spread merged.thresholds e.thresholds;
}

unfoldable pub merge_records : Evidence → List Evidence → Evidence
merge_records merged [] = merged
merge_records merged (e ∷ records) = merge_records (merge_record merged e) records

unfoldable pub merge_evidence : List Evidence → Evidence
unfolding merge_records merge_record freeze_evidence
merge_evidence records = freeze_evidence (merge_records create_empty_evidence records)

unfoldable pub redact_evidence : Evidence → Evidence
unfolding freeze_evidence
redact_evidence evidence = record (freeze_evidence evidence) {
  trusted_reporter_pubkeys = [];
  trusted_muter_pubkeys = [];
}
