-- ===== src/Tests/Runtimes.antt =====
-- The runtime at concrete inputs.
use bitgate.Base.{
  ℕ, ◌≡◌, ◌==◌, refl, true, false, none, some, List, [], ◌∷◌, arith, All, Result, ok, err,
}
use bitgate.Base.Text.{Text, codes, text_eq}
use bitgate.Base.Map.{put}
use bitgate.Core.Identifiers.{normalize_pubkey, get_target_key}
use bitgate.Core.Policy.Decision.{GovernanceDecision, create_neutral_decision}
use bitgate.Core.Evaluator.Target.{neutral_policy}
use bitgate.Nostr.Mutes.{DecodedMuteList}
use bitgate.Runtime.Chunks.{chunk, concat, IsChunk, chunk_lem}
use bitgate.Runtime.Stores.Admin.{empty_admin_store}
use bitgate.Runtime.Stores.Trust.{empty_trust_store}
use bitgate.Runtime.Stores.Reports.{empty_report_store, records_for, ingest}
use bitgate.Runtime.Stores.Mutes.{empty_mute_store, replace_list}
use bitgate.Runtime.Stores.Mutes.Affected.{records_at}
use bitgate.Runtime.Stores.Policies.{create_policy_store}
use bitgate.Runtime.Decisions.{
  Runtime, cache_key, ingest_report, replace_mute_list, evaluate, evaluate_fresh, set_viewer,
}
use bitgate.Runtime.Decisions.Cache.{count_hit}
use bitgate.Runtime.Decisions.Repeat.{evaluate_again}
use bitgate.Runtime.Decisions.Coherence.{
  cached_for, ingest_report-coherent, replace_mute_list-coherent,
}
use bitgate.Runtime.Decisions.Viewer.{StartsAnew, set_viewer_lem}
use bitgate.Tests.Data.{alice, bob, post}
use bitgate.Tests.Stores.{spam_at}

-- A runtime at its start, with a ceiling of two decisions.
abbrev runtime : Runtime
runtime = record {
  admin = empty_admin_store;
  trust = empty_trust_store;
  reports = empty_report_store 2;
  mutes = empty_mute_store 0 2;
  policies = create_policy_store (record { identity = 1; definition = neutral_policy });
  overrides = [];
  viewer_pubkey = [];
  active_targets = [];
  decision_cache = [];
  max_cached_decisions = 2;
  cached_snapshot = none;
  cached_print = [];
  cache_hits = 0;
  cache_misses = 0;
}

abbrev decision : GovernanceDecision
decision = create_neutral_decision (get_target_key post) (some post) false

-- The same with a decision about the post in the cache.
abbrev warm : Runtime
warm = record runtime { decision_cache = (cache_key none (get_target_key post), decision) ∷ [] }

ingest_report-coherent_example :
    (cached_for warm none (get_target_key post) ≡ some decision)
    × (records_for
          (ingest warm.reports (spam_at bob) (codes "event:e6")).store.reports
          (get_target_key post)
        ≡ records_for warm.reports.reports (get_target_key post))
unfolding bitgate.Runtime.Stores.oldest_evicted bitgate.Runtime.Stores.Reports.file_report put
    bitgate.Base.Map.get ingest_report bitgate.Base.Set.has bitgate.Base.Text.text_beq
    get_target_key
ingest_report-coherent_example =
    ingest_report-coherent warm (spam_at bob) (codes "event:e6") (get_target_key post) none decision
      refl refl refl

abbrev list : DecodedMuteList
list = record {
  owner = bob;
  updated_at = 20;
  entries = record { pubkey = alice; category = none } ∷ [];
  has_encrypted_entries = false;
}

replace_mute_list-coherent_example :
    (cached_for warm none (get_target_key post) ≡ some decision)
    × (records_at (replace_list warm.mutes list).store (get_target_key post)
        ≡ records_at warm.mutes (get_target_key post))
unfolding bitgate.Runtime.Stores.oldest_evicted put bitgate.Base.Map.get replace_mute_list
    bitgate.Base.Set.has bitgate.Base.Set.add_all bitgate.Base.Set.add bitgate.Base.Text.text_beq
    get_target_key
replace_mute_list-coherent_example =
    replace_mute_list-coherent warm list (get_target_key post) none decision refl refl refl

abbrev decided : Result GovernanceDecision → GovernanceDecision
decided (ok d) = d
decided (err e) = decision

evaluate_again_example :
    (evaluate (evaluate runtime post none 10).0 post none 10 ≡ (
      count_hit (evaluate runtime post none 10).0,
      ok (decided (evaluate runtime post none 10).1),
    ))
    × ((evaluate_fresh (evaluate runtime post none 10).0 post none 10).1
        ≡ ok (decided (evaluate runtime post none 10).1))
unfolding evaluate bitgate.Base.Map.get bitgate.Core.Targets.is_valid_target
    bitgate.Base.Text.is_hex64 bitgate.Core.Policy.Profile.resolve_profile bitgate.Base.Text.trim
    bitgate.Base.Text.text_beq
evaluate_again_example =
    evaluate_again runtime post none 10 (decided (evaluate runtime post none 10).1) (omega arith)
      refl refl

set_viewer_lem_example :
    ((set_viewer warm alice).viewer_pubkey ≡ normalize_pubkey alice)
    × StartsAnew (set_viewer warm alice) warm
unfolding bitgate.Base.Text.text_beq normalize_pubkey bitgate.Base.Text.trim
    bitgate.Base.Text.is_hex64 bitgate.Base.Text.to_lower_case
set_viewer_lem_example = set_viewer_lem warm alice refl

abbrev five : List ℕ
five = 1 ∷ 2 ∷ 3 ∷ 4 ∷ 5 ∷ []

chunk_lem_example : (concat (chunk five 2) ≡ five) × All (IsChunk 2) (chunk five 2)
chunk_lem_example = chunk_lem five 2 (omega arith)
