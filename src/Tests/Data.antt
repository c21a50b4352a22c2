-- ===== src/Tests/Data.antt =====
-- The community of the tests.
use bitgate.Base.{ℕ, none, some, List, [], ◌∷◌, ◌++◌}
use bitgate.Base.Text.{Text, codes}
use bitgate.Core.Identifiers.{GovernanceTarget, user, event, user_key}
use bitgate.Core.Authority.{AuthorityState, contribute_user_deny, contribute_event_deny}
use bitgate.Core.AdminState.{Contribution, user_deny, event_deny, create_empty_admin_state}
use bitgate.Core.Evaluator.Snapshot.{
  GovernanceSnapshot, ReportRecord, MuteRecord, ViewerState, create_viewer_state, create_snapshot,
  PolicyContext,
}

abbrev pub root_key : Text
root_key = codes "00000000000000000000000000000000000000000000000000000000000000a1"

abbrev pub root_key_spelled : Text
root_key_spelled = codes " 00000000000000000000000000000000000000000000000000000000000000A1"

abbrev pub moderator_key : Text
moderator_key = codes "00000000000000000000000000000000000000000000000000000000000000b2"

abbrev pub alice : Text
alice = codes "00000000000000000000000000000000000000000000000000000000000000c3"

abbrev pub bob : Text
bob = codes "00000000000000000000000000000000000000000000000000000000000000d4"

abbrev pub event_id : Text
event_id = codes "00000000000000000000000000000000000000000000000000000000000000e5"

-- A post by alice.
abbrev pub post : GovernanceTarget
post = event event_id (some alice) (some 1)

abbrev pub roster : AuthorityState
roster = record {
  roles = (codes "moderator", contribute_user_deny ∷ contribute_event_deny ∷ []) ∷ [];
  actors = (moderator_key, codes "moderator" ∷ []) ∷ [];
  protected_actors = root_key ∷ [];
  root = some root_key;
}

-- The moderator denies alice and tries to deny the root.
abbrev pub denials : Contribution
denials = record {
  actor = moderator_key;
  kind = user_deny;
  targets = user alice ∷ user root_key ∷ [];
  source = some (codes "list");
  created_at = some 20;
}

-- Bob, who has no role, tries to deny an event.
abbrev pub unauthorized : Contribution
unauthorized = record {
  actor = bob;
  kind = event_deny;
  targets = post ∷ [];
  source = none;
  created_at = none;
}

abbrev pub contributions : List Contribution
contributions = denials ∷ unauthorized ∷ []

abbrev pub report_by : Text → Text → ReportRecord
report_by reporter category = record {
  reporter = reporter;
  category = some category;
  created_at = some 10;
}

abbrev pub mute_by : Text → ℕ → MuteRecord
mute_by muter updated_at = record {
  muter = muter;
  category = some (codes "spam");
  updated_at = some updated_at;
}

-- Two reports of the post by bob, one by the moderator, and one by an untrusted account; two mutes
-- of its author, one of them old.
abbrev pub snapshot : GovernanceSnapshot
snapshot = record create_snapshot {
  authority = roster;
  admin = record create_empty_admin_state { user_deny = user_key alice ∷ [] };
  trust = record { contacts = bob ∷ moderator_key ∷ []; seeds = [] };
  reports =
      (
        codes "event:" ++ event_id,
        report_by bob (codes "Spam")
            ∷ report_by bob (codes "spam ")
            ∷ report_by moderator_key (codes "spam")
            ∷ report_by event_id (codes "spam")
            ∷ [],
      )
      ∷ [];
  trusted_mutes = (user_key alice, mute_by bob 100 ∷ mute_by moderator_key 900 ∷ []) ∷ [];
}

abbrev pub context : PolicyContext
context = record {
  policy_profile = none;
  policy = none;
  now = some 1000;
  snapshot_fingerprint = none;
  allow_overrides = none;
}

abbrev pub viewer : ViewerState
viewer = create_viewer_state
