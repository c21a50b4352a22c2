-- ===== src/Core/Identifiers.antt =====
-- packages/core/src/identifiers.js: targets, their normalization and their keys.
-- An empty text is the code's "invalid" result of the two normalizations.
pub mod Normal
pub mod Keys
use bitgate.Base.{ℕ, Bool, Option, none, some, [], ◌++◌, not, is_empty, if◌then◌else◌, get_or}
use bitgate.Base.Text.{Text, codes, trim, to_lower_case, is_hex64}

pub data GovernanceTarget : Type 0 where
  user : Text → GovernanceTarget
  event : Text → Option Text → Option ℕ → GovernanceTarget
  address : Text → Text → Text → GovernanceTarget

-- Both decoders of bech32 forms are placeholders in the source that return "".
unfoldable pub normalize_pubkey : Text → Text
normalize_pubkey pubkey =
    let trimmed = trim pubkey in
    if is_empty trimmed then [] else if is_hex64 trimmed then to_lower_case trimmed else []

unfoldable pub normalize_event_id : Text → Text
normalize_event_id id =
    let trimmed = trim id in
    if is_empty trimmed then [] else if is_hex64 trimmed then to_lower_case trimmed else []

unfoldable pub normalize_address : Text → Text → Text → Option GovernanceTarget
normalize_address kind pubkey identifier =
    let kind_str = trim kind in
    let normalized_pubkey = normalize_pubkey pubkey in
    let identifier_str = trim identifier in
    if is_empty kind_str
    then none
    else if is_empty normalized_pubkey
    then none
    else if is_empty identifier_str
    then none
    else some (address kind_str normalized_pubkey identifier_str)

unfoldable pub create_user_target : Text → Option GovernanceTarget
create_user_target pubkey =
    let normalized_pubkey = normalize_pubkey pubkey in
    if is_empty normalized_pubkey then none else some (user normalized_pubkey)

-- A finite `options.kind` is `some`; every other value is `none`.
unfoldable pub create_event_target : Text → Option Text → Option ℕ → Option GovernanceTarget
create_event_target id options_author options_kind =
    let normalized_id = normalize_event_id id in
    let author = normalize_pubkey (get_or options_author []) in
    if is_empty normalized_id
    then none
    else some (event normalized_id (if is_empty author then none else some author) options_kind)

-- `user:${pubkey}`, which authority.js, adminState.js and evaluator.js also write out themselves.
abbrev pub user_key : Text → Text
user_key pubkey = codes "user:" ++ pubkey

unfoldable pub get_target_key : GovernanceTarget → Text
get_target_key (user pubkey) = user_key pubkey
get_target_key (event id author kind) = codes "event:" ++ id
get_target_key (address kind pubkey identifier) =
    codes "address:" ++ (kind ++ (codes ":" ++ (pubkey ++ (codes ":" ++ identifier))))
