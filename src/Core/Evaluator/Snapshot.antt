-- ===== src/Core/Evaluator/Snapshot.antt =====
-- evaluator.js: what an evaluation reads. A missing set or map counts as an empty one, as the
-- code's `?.` and `??` make it; times are whole seconds that are not negative.
use bitgate.Base.{ℕ, Bool, Option, none, List, [], is_empty, if◌then◌else◌}
use bitgate.Base.Text.{Text}
use bitgate.Base.Map.{Map}
use bitgate.Core.Authority.{AuthorityState}
use bitgate.Core.AdminState.{AdminState, create_empty_admin_state}
use bitgate.Core.Policy.Effects.{Effect}
use bitgate.Core.Policy.Profile.{PolicyDefinition}

pub record ReportRecord : Type 0 where
  pub reporter : Text
  pub category : Option Text
  pub created_at : Option ℕ

pub record MuteRecord : Type 0 where
  pub muter : Text
  pub category : Option Text
  pub updated_at : Option ℕ

pub record Override : Type 0 where
  pub visibility : Effect
  pub reason : Option Text

pub record ViewerState : Type 0 where
  pub blocks : List Text
  pub mutes : List Text
  pub overrides : Map Text Override

pub record TrustState : Type 0 where
  pub contacts : List Text
  pub seeds : List Text

pub record GovernanceSnapshot : Type 0 where
  pub authority : AuthorityState
  pub admin : AdminState
  pub trust : TrustState
  pub reports : Map Text (List ReportRecord)
  pub trusted_mutes : Map Text (List MuteRecord)

-- `context.enforcement?.allowOverrides` is a field of its own. The surface is not read.
pub record PolicyContext : Type 0 where
  pub policy_profile : Option Text
  pub policy : Option PolicyDefinition
  pub now : Option ℕ
  pub snapshot_fingerprint : Option Text
  pub allow_overrides : Option Bool

abbrev pub create_viewer_state : ViewerState
create_viewer_state = record { blocks = []; mutes = []; overrides = [] }

abbrev pub create_snapshot : GovernanceSnapshot
create_snapshot = record {
  authority = record { roles = []; actors = []; protected_actors = []; root = none };
  admin = create_empty_admin_state;
  trust = record { contacts = []; seeds = [] };
  reports = [];
  trusted_mutes = [];
}

-- Contacts, or the seeds while there are no contacts.
unfoldable pub resolve_trust_set : TrustState → List Text
resolve_trust_set trust = if is_empty trust.contacts then trust.seeds else trust.contacts
