-- ===== src/Nostr/Reports/Encoded.antt =====
-- packages/nostr/src/reports.js: `encodeReport` for every category.
use bitgate.Base.{
  ℕ, ◌≡◌, ◌⊎◌, refl, ◌∙◌, ap, inl, inr, true, false, all, is_empty, Bool-cases, ok, err,
  category_required,
}
use bitgate.Base.Text.{Text, is_space, trim, to_lower_case}
use bitgate.Base.Text.Blank.{is_empty-trim, is_empty-lower, lower-trim_idem}
use bitgate.Core.Identifiers.{GovernanceTarget}
use bitgate.Core.Identifiers.Normal.{IsHexKey}
use bitgate.Nostr.Tags.{Template, signed}
use bitgate.Nostr.Reports.{normalize_category, decode_report, encode_report}
use bitgate.Nostr.Reports.Decoded.{reports_on, IsCanonical, template_of, decode-template}

-- A category is normalized to nothing exactly if it has no unit but spaces.
is_empty-category :
    (category : Text) → is_empty (normalize_category category) ≡ all is_space category
unfolding normalize_category
is_empty-category category = is_empty-lower (trim category) ∙ is_empty-trim category

normalize_category_idem :
    (category : Text)
    → normalize_category (normalize_category category) ≡ normalize_category category
unfolding normalize_category
normalize_category_idem category = lower-trim_idem category

encode_blank :
    (target : GovernanceTarget) (category content : Text)
    → is_empty (normalize_category category) ≡ true
    → encode_report target category content ≡ err category_required
unfolding encode_report
encode_blank target category content e = rw e refl

encode_named :
    (target : GovernanceTarget) (category content : Text)
    → is_empty (normalize_category category) ≡ false
    → encode_report target category content
      ≡ ok (template_of target (normalize_category category) content)
unfolding encode_report
encode_named target category content e = rw e refl

category_lem : (category : Text) → normalize_category category ≡ to_lower_case (trim category)
unfolding normalize_category
category_lem category = refl

-- A report of a canonical target by a canonical key: if the category has no unit but spaces,
-- encoding it throws; otherwise it gives an event that, once signed, is decoded to the report of
-- the event or the user under the trimmed category in lower case, and for an address to nothing.
pub encode_report_lem :
    (target : GovernanceTarget) (category content reporter id : Text) (created_at : ℕ)
    → IsHexKey reporter
    → IsCanonical target
    → ((all is_space category ≡ true)
        × (encode_report target category content ≡ err category_required))
      ⊎ ((all is_space category ≡ false)
          × (template : Template) × (encode_report target category content ≡ ok template)
          × (decode_report (signed template reporter created_at id)
              ≡ reports_on target reporter (to_lower_case (trim category)) created_at))
encode_report_lem target category content reporter id created_at r c =
    elim (Bool-cases (all is_space category)) [
      | inl blank ↦
          inl (blank, encode_blank target category content (is_empty-category category ∙ blank))
      | inr named ↦
          let e = is_empty-category category ∙ named in
          inr (
            named,
            template_of target (normalize_category category) content,
            encode_named target category content e,
            decode-template target (normalize_category category) content reporter id created_at
                  (normalize_category_idem category) e r c
                ∙ ap (λ x. reports_on target reporter x created_at) (category_lem category),
          )
    ]
