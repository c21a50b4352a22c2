-- ===== src/Nostr/Replaceable.antt =====
-- packages/nostr/src/replaceable.js: which event counts for a replaceable coordinate.
pub mod Latest
pub mod Arrival
use bitgate.Base.{
  ℕ, ◌==◌, Bool, true, false, ◌&&◌, ◌||◌, Option, none, some, List, [], ◌∷◌, ◌++◌, filter, ltb,
  nat_beq, if◌then◌else◌,
}
use bitgate.Base.Text.{Text, codes, text_eq, text_ltb}
use bitgate.Base.Map.{Map, get, put}
use bitgate.Base.Decimal.{decimal}

pub record NostrEvent : Type 0 where
  pub id : Text
  pub pubkey : Text
  pub kind : ℕ
  pub created_at : ℕ
  pub tags : List (List Text)
  pub content : Text
  pub sig : Option Text

unfoldable pub first_value : List (List Text) → Text → Text
first_value [] name = []
first_value ((label ∷ value ∷ rest) ∷ tags) name =
    if label == name then value else first_value tags name
first_value (tag ∷ tags) name = first_value tags name

unfoldable pub get_tag_value : NostrEvent → Text → Text
unfolding first_value
get_tag_value event name = first_value event.tags name

abbrev pub has_label : Text → List Text → Bool
has_label name [] = false
has_label name (label ∷ rest) = label == name

unfoldable pub get_tags : NostrEvent → Text → List (List Text)
get_tags event name = filter (has_label name) event.tags

unfoldable pub coordinate_of : NostrEvent → Text
unfolding decimal get_tag_value
coordinate_of event =
    decimal event.kind
    ++ (codes ":" ++ (event.pubkey ++ (codes ":" ++ get_tag_value event (codes "d"))))

-- The newer event, or of two events of one time the one with the smaller identifier.
abbrev pub is_newer : NostrEvent → NostrEvent → Bool
is_newer event current =
    ltb current.created_at event.created_at
    || (nat_beq event.created_at current.created_at && text_ltb event.id current.id)

-- One round of the loop of `selectReplaceable`.
unfoldable pub select_step : Map Text NostrEvent → NostrEvent → Map Text NostrEvent
select_step winners event = elim (get winners (coordinate_of event)) [
  | none ↦ put winners (coordinate_of event) event
  | some current ↦
      if ltb current.created_at event.created_at
      then put winners (coordinate_of event) event
      else if nat_beq event.created_at current.created_at && text_ltb event.id current.id
      then put winners (coordinate_of event) event
      else winners
]

unfoldable pub select_from : Map Text NostrEvent → List NostrEvent → Map Text NostrEvent
select_from winners [] = winners
select_from winners (event ∷ events) = select_from (select_step winners event) events

unfoldable pub select_replaceable : List NostrEvent → Map Text NostrEvent
unfolding select_from select_step
select_replaceable events = select_from [] events

-- One round of the loop of `selectLatest`.
unfoldable pub latest_step : Option NostrEvent → NostrEvent → Option NostrEvent
latest_step none event = some event
latest_step (some winner) event = if is_newer event winner then some event else some winner

unfoldable pub latest_from : Option NostrEvent → List NostrEvent → Option NostrEvent
latest_from winner [] = winner
latest_from winner (event ∷ events) = latest_from (latest_step winner event) events

unfoldable pub select_latest : List NostrEvent → Option NostrEvent
unfolding latest_from latest_step
select_latest events = latest_from none events

-- What an injected verifier does with an event. The verifier is the application's.
pub data Verdict : Type 0 where
  accepted rejected thrown : Verdict

abbrev pub passes : Verdict → Bool
passes accepted = true
passes rejected = false
passes thrown = false

-- The loop of `verifyEvents`; without a verifier all events are kept.
unfoldable pub verify_each : (NostrEvent → Verdict) → List NostrEvent → List NostrEvent
verify_each verify [] = []
verify_each verify (event ∷ events) =
    let rest = verify_each verify events in if passes (verify event) then event ∷ rest else rest

unfoldable pub verify_events : List NostrEvent → Option (NostrEvent → Verdict) → List NostrEvent
unfolding verify_each
verify_events events none = events
verify_events events (some verify) = verify_each verify events
