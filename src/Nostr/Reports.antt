-- ===== src/Nostr/Reports.antt =====
-- packages/nostr/src/reports.js: NIP-56 reports.
pub mod Decoded
pub mod Encoded
use bitgate.Base.{
  ℕ, ◌==◌, Bool, true, false, not, ◌&&◌, ◌||◌, Option, none, some, List, [], ◌∷◌, ◌++◌, get_or,
  is_empty, nat_beq, if◌then◌else◌, Result, ok, err, ◌>>=◌, ◌>>◌, guard, category_required,
}
use bitgate.Base.Text.{Text, codes, text_eq, trim, to_lower_case}
use bitgate.Core.Identifiers.{GovernanceTarget, user, event, address}
use bitgate.Nostr.Nip19.{normalize_pubkey_input, normalize_event_id_input}
use bitgate.Nostr.Replaceable.{NostrEvent, get_tags}
use bitgate.Nostr.Tags.{at, starts_with, Template, pair_tag}

abbrev pub report_kind : ℕ
report_kind = 1984

unfoldable pub is_relay_hint : Text → Bool
unfolding starts_with
is_relay_hint value =
    let lower = to_lower_case (trim value) in
    starts_with lower (codes "wss://")
    || (starts_with lower (codes "ws://")
        || (starts_with lower (codes "https://") || starts_with lower (codes "http://")))

unfoldable pub normalize_category : Text → Text
normalize_category value = to_lower_case (trim value)

-- The first category of the tags that is not empty, as a reader of one tag gives it.
unfoldable pub first_category : (List Text → Text) → List (List Text) → Text
first_category read [] = []
first_category read (tag ∷ tags) =
    let rest = first_category read tags in if is_empty (read tag) then rest else read tag

abbrev pub read_report_tag : List Text → Text
read_report_tag tag =
    if at tag 0 == codes "report" || at tag 0 == codes "type"
    then normalize_category (at tag 1)
    else []

abbrev pub read_target_tag : Text → List Text → Text
read_target_tag target_value tag =
    if at tag 0 == codes "e" || at tag 0 == codes "p"
    then if not (at tag 1 == target_value) || is_relay_hint (at tag 2)
      then []
      else normalize_category (at tag 2)
    else []

abbrev pub read_t_tag : List Text → Text
read_t_tag tag = normalize_category (at tag 1)

-- A report tag, then the tag of the target, then a `t` tag.
unfoldable pub extract_report_type : NostrEvent → Text → Text
unfolding first_category normalize_category is_relay_hint
extract_report_type e target_value =
    let given = first_category read_report_tag e.tags in
    let beside = first_category (read_target_tag target_value) e.tags in
    let topic = first_category read_t_tag (get_tags e (codes "t")) in
    if not (is_empty given)
    then given
    else if not (is_empty target_value) && not (is_empty beside)
    then beside
    else topic

pub record DecodedReport : Type 0 where
  pub reporter : Text
  pub target : GovernanceTarget
  pub category : Text
  pub created_at : ℕ

-- The loop over the `e` tags, and the one over the `p` tags.
unfoldable pub event_reports : NostrEvent → Text → List (List Text) → List DecodedReport
event_reports e reporter [] = []
event_reports e reporter (tag ∷ tags) =
    let id = normalize_event_id_input (at tag 1) in
    let category = extract_report_type e (at tag 1) in
    let rest = event_reports e reporter tags in
    if is_empty id || is_empty category
    then rest
    else record {
      reporter = reporter;
      target = event id none none;
      category = category;
      created_at = e.created_at;
    }
      ∷ rest

unfoldable pub user_reports : NostrEvent → Text → List (List Text) → List DecodedReport
user_reports e reporter [] = []
user_reports e reporter (tag ∷ tags) =
    let pubkey = normalize_pubkey_input (at tag 1) in
    let category = extract_report_type e (at tag 1) in
    let rest = user_reports e reporter tags in
    if is_empty pubkey || is_empty category
    then rest
    else record {
      reporter = reporter;
      target = user pubkey;
      category = category;
      created_at = e.created_at;
    }
      ∷ rest

unfoldable pub decode_report : NostrEvent → List DecodedReport
unfolding event_reports user_reports extract_report_type
decode_report e =
    let reporter = normalize_pubkey_input e.pubkey in
    let on_events = event_reports e reporter (get_tags e (codes "e")) in
    if not (nat_beq e.kind report_kind) || is_empty reporter
    then []
    else if not (is_empty on_events)
    then on_events
    else user_reports e reporter (get_tags e (codes "p"))

-- The tags of the target, each with the category.
abbrev pub report_tags : GovernanceTarget → Text → List (List Text)
report_tags (event id author kind) category =
    (codes "e" ∷ id ∷ category ∷ [])
    ∷ (if is_empty (get_or author []) then [] else pair_tag (codes "p") (get_or author []) ∷ [])
report_tags (user pubkey) category = (codes "p" ∷ pubkey ∷ category ∷ []) ∷ []
report_tags (address kind pubkey identifier) category =
    (codes "a" ∷ (kind ++ (codes ":" ++ (pubkey ++ (codes ":" ++ identifier)))) ∷ category ∷ [])
    ∷ []

unfoldable pub encode_report : GovernanceTarget → Text → Text → Result Template
unfolding normalize_category
encode_report target category content = do
  guard (not (is_empty (normalize_category category))) category_required
  ok (record {
    kind = report_kind;
    content = content;
    tags =
        pair_tag (codes "report") (normalize_category category)
        ∷ report_tags target (normalize_category category);
  })
