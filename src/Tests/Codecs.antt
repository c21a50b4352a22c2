-- ===== src/Tests/Codecs.antt =====
-- The codecs of events at concrete inputs.
use bitgate.Base.{
  ◌≡◌, ◌⊎◌, all, refl, none, some, true, false, List, [], ◌∷◌, ok, err, map, is_empty,
  category_required,
}
use bitgate.Base.Text.{Text, codes, is_space, trim, to_lower_case, is_hex64}
use bitgate.Base.Set.{has}
use bitgate.Core.Identifiers.{user, normalize_pubkey}
use bitgate.Core.AdminState.{Contribution, user_deny}
use bitgate.Nostr.Nip19.{normalize_pubkey_input}
use bitgate.Nostr.Nip19.Forms.{normalize_pubkey-input}
use bitgate.Nostr.Tags.{Template, signed, pair_tag}
use bitgate.Nostr.Mutes.{MuteEntry, decode_mute_list, encode_mute_list}
use bitgate.Nostr.Mutes.Entries.{decode_mute_list-encode}
use bitgate.Nostr.Canonical.{
  canonical_identifier, scope_to_kind, decode_contribution, encode_contribution,
}
use bitgate.Nostr.Canonical.Contributions.{decode_contribution-encode}
use bitgate.Nostr.Reports.{decode_report, encode_report}
use bitgate.Nostr.Reports.Decoded.{reports_on}
use bitgate.Nostr.Reports.Encoded.{encode_report_lem}
use bitgate.Nostr.Labels.{decode_labels, labels_to_contributions, contribution_to_label}
use bitgate.Nostr.Labels.Forms.{published_mapping, single}
use bitgate.Nostr.Labels.Published.{labels_to_contributions-published}
use bitgate.Nostr.Roster.{RosterSpec, resolve_authority_roster}
use bitgate.Nostr.Roster.Chain.{Granted}
use bitgate.Nostr.Roster.Granted.{resolve_authority_roster-Granted}
use bitgate.Nostr.Replaceable.{NostrEvent}
use bitgate.Tests.Data.{moderator_key, alice, bob, event_id, post}

abbrev npub : Text
npub = codes " npub10elfcs4fr0l0r8af98jlmgdh9c8tcxjvz9qkw038js35mp4dma8qzvjptg"

normalize_pubkey-input_example :
    normalize_pubkey (normalize_pubkey_input npub) ≡ normalize_pubkey_input npub
normalize_pubkey-input_example = normalize_pubkey-input npub

abbrev entries : List MuteEntry
entries =
    record { pubkey = alice; category = some (codes "spam") }
    ∷ record { pubkey = bob; category = none }
    ∷ []

decode_mute_list-encode_example :
    decode_mute_list (signed (encode_mute_list entries) moderator_key 20 event_id)
    ≡ some (record {
      owner = moderator_key;
      updated_at = 20;
      entries = entries;
      has_encrypted_entries = false;
    })
unfolding has is_hex64 to_lower_case trim bitgate.Base.Text.text_beq
decode_mute_list-encode_example =
    decode_mute_list-encode entries moderator_key event_id 20 (refl, refl)
      (((refl, refl), (refl, refl, refl)), (((refl, refl), tt), tt)) (refl, (refl, tt))

abbrev denial : Contribution
denial = record {
  actor = moderator_key;
  kind = user_deny;
  targets = user alice ∷ [];
  source = some (codes "list");
  created_at = none;
}

decode_contribution-encode_example :
    decode_contribution
      (signed (encode_contribution denial (codes "app")) moderator_key 20 event_id)
    ≡ some (record denial { created_at = some 20 })
unfolding has scope_to_kind bitgate.Base.Map.get bitgate.Base.Text.text_beq is_hex64 to_lower_case
    canonical_identifier trim
decode_contribution-encode_example =
    decode_contribution-encode denial (codes "app") event_id 20 tt (refl, refl) ((refl, refl), tt)
      refl (refl, refl) refl

encode_report_lem_example :
    ((all is_space (codes " Spam") ≡ true)
      × (encode_report post (codes " Spam") [] ≡ err category_required))
    ⊎ ((all is_space (codes " Spam") ≡ false)
        × (template : Template) × (encode_report post (codes " Spam") [] ≡ ok template)
        × (decode_report (signed template bob 20 event_id)
            ≡ reports_on post bob (to_lower_case (trim (codes " Spam"))) 20))
unfolding is_hex64 to_lower_case trim
encode_report_lem_example =
    encode_report_lem post (codes " Spam") [] bob event_id 20 (refl, refl) (refl, refl)

labels_to_contributions-published_example :
    (template : Template) × (contribution_to_label denial
        (codes "app")
        (codes "deny")
        (codes "allow")
        []
      ≡ ok template)
    × (labels_to_contributions
          (decode_labels (signed template moderator_key 20 event_id))
          (published_mapping (codes "app"))
        ≡ map (single denial (codes "app") 20) (user alice ∷ []))
unfolding trim is_hex64 to_lower_case
labels_to_contributions-published_example =
    labels_to_contributions-published denial (codes "app") [] event_id 20 refl refl (refl, refl) tt
      ((refl, refl), tt)

abbrev moderators : RosterSpec
moderators = record { identifier = codes "mods"; role = codes "moderator"; signer = none }

abbrev role_set : NostrEvent
role_set = record {
  id = event_id;
  pubkey = bob;
  kind = 30000;
  created_at = 20;
  tags = pair_tag (codes "d") (codes "mods") ∷ pair_tag (codes "p") alice ∷ [];
  content = [];
  sig = none;
}

resolve_authority_roster-Granted_example :
    Granted
      (normalize_pubkey_input bob)
      (codes "super_admin")
      (moderators ∷ [])
      (role_set ∷ [])
      alice
      (codes "moderator")
    × (is_empty (normalize_pubkey_input bob) ≡ false)
unfolding resolve_authority_roster has bitgate.Base.Text.text_beq normalize_pubkey_input is_hex64
    trim to_lower_case
resolve_authority_roster-Granted_example =
    resolve_authority_roster-Granted (role_set ∷ []) (some bob) none (moderators ∷ []) alice
      (codes "moderator") refl
