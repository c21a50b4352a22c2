-- ===== src/Nostr/Reports/Decoded.antt =====
-- packages/nostr/src/reports.js: what a report says of its targets.
use bitgate.Base.{
  ℕ, ◌≡◌, refl, ap, ◌∙◌, inl, inr, true, false, nat_beq, Option, none, List, [], ◌∷◌, filter,
  get_or, is_empty, Bool-cases,
}
use bitgate.Base.Text.{Text, codes, text_eq, text_beq}
use bitgate.Core.Identifiers.{GovernanceTarget, user, event, address}
use bitgate.Core.Identifiers.Normal.{IsHexKey, is_hex64-not_empty}
use bitgate.Nostr.Nip19.{normalize_pubkey_input}
use bitgate.Nostr.Nip19.Forms.{normalize_pubkey_input-IsHexKey, normalize_event_id_input-IsHexKey}
use bitgate.Nostr.Replaceable.{NostrEvent, get_tags, has_label}
use bitgate.Nostr.Tags.{Template, pair_tag, signed}
use bitgate.Nostr.Reports.{
  DecodedReport, report_kind, normalize_category, first_category, extract_report_type,
  event_reports, user_reports, decode_report, report_tags,
}

-- What is read back of a report: an event without its author and kind, a user, and nothing of an
-- address.
abbrev pub reports_on : GovernanceTarget → Text → Text → ℕ → List DecodedReport
reports_on (event id author kind) reporter category created_at =
    record {
      reporter = reporter;
      target = event id none none;
      category = category;
      created_at = created_at;
    }
    ∷ []
reports_on (user pubkey) reporter category created_at =
    record {
      reporter = reporter;
      target = user pubkey;
      category = category;
      created_at = created_at;
    }
    ∷ []
reports_on (address kind pubkey identifier) reporter category created_at = []

-- The identifier of a target is in canonical form.
abbrev pub IsCanonical : GovernanceTarget → Type 0
IsCanonical (event id author kind) = IsHexKey id
IsCanonical (user pubkey) = IsHexKey pubkey
IsCanonical (address kind pubkey identifier) = Unit

extract_report_type-report :
    (e : NostrEvent) (category target_value : Text) (tags : List (List Text))
    → e.tags ≡ pair_tag (codes "report") category ∷ tags
    → normalize_category category ≡ category
    → is_empty category ≡ false
    → extract_report_type e target_value ≡ category
unfolding extract_report_type first_category text_beq
extract_report_type-report e category target_value tags t n f = rw t (rw (n, f) (rw f refl))

abbrev pub template_of : GovernanceTarget → Text → Text → Template
template_of target category content = record {
  kind = report_kind;
  content = content;
  tags = pair_tag (codes "report") category ∷ report_tags target category;
}

user_reports-one :
    (e : NostrEvent) (reporter pubkey category label : Text)
    → extract_report_type e pubkey ≡ category
    → is_empty category ≡ false
    → IsHexKey pubkey
    → user_reports e reporter ((label ∷ pubkey ∷ category ∷ []) ∷ [])
      ≡ reports_on (user pubkey) reporter category e.created_at
unfolding user_reports
user_reports-one e reporter pubkey category label x f c =
    rw (normalize_pubkey_input-IsHexKey pubkey c, is_hex64-not_empty pubkey c.0, x) (rw f refl)

event_reports-one :
    (e : NostrEvent) (reporter i category label : Text)
    → extract_report_type e i ≡ category
    → is_empty category ≡ false
    → IsHexKey i
    → event_reports e reporter ((label ∷ i ∷ category ∷ []) ∷ [])
      ≡ reports_on (event i none none) reporter category e.created_at
unfolding event_reports
event_reports-one e reporter i category label x f c =
    rw (normalize_event_id_input-IsHexKey i c, is_hex64-not_empty i c.0, x) (rw f refl)

decode_report-events :
    (e : NostrEvent) (reporter : Text) (found : List DecodedReport)
    → nat_beq e.kind report_kind ≡ true
    → normalize_pubkey_input e.pubkey ≡ reporter
    → is_empty reporter ≡ false
    → event_reports e reporter (get_tags e (codes "e")) ≡ found
    → is_empty found ≡ false
    → decode_report e ≡ found
unfolding decode_report
decode_report-events e reporter found k p r h f = rw (k, p, r) (rw h (rw f refl))

-- The tags of an event's report by their labels.
event_tags :
    (i category : Text) (author : Option Text)
    → filter
        (has_label (codes "e"))
        (pair_tag (codes "report") category ∷ report_tags (event i author none) category)
      ≡ (codes "e" ∷ i ∷ category ∷ []) ∷ []
unfolding text_beq
event_tags i category author = elim (Bool-cases (is_empty (get_or author []))) [
  | inl a ↦ rw a refl
  | inr a ↦ rw a refl
]

pub decode-template :
    (target : GovernanceTarget) (category content reporter id : Text) (created_at : ℕ)
    → normalize_category category ≡ category
    → is_empty category ≡ false
    → IsHexKey reporter
    → IsCanonical target
    → decode_report (signed (template_of target category content) reporter created_at id)
      ≡ reports_on target reporter category created_at
unfolding decode_report get_tags text_beq
decode-template (event i author k) category content reporter id created_at n f r c =
    let e = signed (template_of (event i author k) category content) reporter created_at id in
    let one =
      event_reports-one e reporter i category (codes "e")
        (extract_report_type-report e category i (report_tags (event i author k) category) refl n f)
        f c in
    decode_report-events e reporter (reports_on (event i none none) reporter category created_at)
      refl (normalize_pubkey_input-IsHexKey reporter r) (is_hex64-not_empty reporter r.0)
      (ap (event_reports e reporter) (event_tags i category author) ∙ one) refl
decode-template (user pubkey) category content reporter id created_at n f r c =
    let e = signed (template_of (user pubkey) category content) reporter created_at id in
    rw (normalize_pubkey_input-IsHexKey reporter r, is_hex64-not_empty reporter r.0)
      (user_reports-one e reporter pubkey category (codes "p")
        (extract_report_type-report e category pubkey (report_tags (user pubkey) category) refl n f)
        f c)
decode-template (address k p i) category content reporter id created_at n f r c =
    rw (normalize_pubkey_input-IsHexKey reporter r, is_hex64-not_empty reporter r.0) refl
