-- ===== src/Nostr/Tags.antt =====
-- packages/nostr/src: what the codecs read off the tags of an event.
use bitgate.Base.{none, ℕ, zero, suc, ◌&&◌, Bool, true, false, List, [], ◌∷◌, nat_beq}
use bitgate.Nostr.Replaceable.{NostrEvent}
use bitgate.Base.Text.{Text}

-- `tag[n]`; a missing element counts as an empty one, as the readers' type tests make it.
abbrev pub at : List Text → ℕ → Text
at [] n = []
at (s ∷ tag) zero = s
at (s ∷ tag) (suc n) = at tag n

-- `text.startsWith(prefix)`
unfoldable pub starts_with : Text → Text → Bool
starts_with s [] = true
starts_with [] (d ∷ prefix) = false
starts_with (c ∷ s) (d ∷ prefix) = nat_beq c d && starts_with s prefix

-- A tag of two elements.
abbrev pub pair_tag : Text → Text → List Text
pair_tag label value = label ∷ value ∷ []

-- An unsigned event.
pub record Template : Type 0 where
  pub kind : ℕ
  pub content : Text
  pub tags : List (List Text)

-- The event that a signer makes of a template.
abbrev pub signed : Template → Text → ℕ → Text → NostrEvent
signed template pubkey created_at id = record {
  id = id;
  pubkey = pubkey;
  kind = template.kind;
  created_at = created_at;
  tags = template.tags;
  content = template.content;
  sig = none;
}
