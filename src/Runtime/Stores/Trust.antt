-- ===== src/Runtime/Stores/Trust.antt =====
-- packages/runtime/src/stores.js: `TrustGraphStore`.
pub mod Keys
use bitgate.Base.{◌==◌, not, Bool, List, [], ◌∷◌, is_empty, if◌then◌else◌}
use bitgate.Base.Text.{Text, codes, text_eq}
use bitgate.Base.Set.{add}
use bitgate.Core.Identifiers.{normalize_pubkey}
use bitgate.Core.Fingerprint.Canonical.{Value, set, dict, end, field, fingerprint}
use bitgate.Runtime.Stores.{Outcome}

pub record TrustStore : Type 0 where
  pub contacts : List Text
  pub seeds : List Text
  pub blocks : List Text
  pub mutes : List Text
  pub fingerprint : Text

unfoldable pub compute_fingerprint : List Text → List Text → List Text → List Text → Text
compute_fingerprint contacts seeds blocks mutes = fingerprint (
    dict (
      field (codes "contacts") (set contacts) (
        field (codes "seeds") (set seeds)
          (field (codes "blocks") (set blocks) (field (codes "mutes") (set mutes) end)))))

abbrev pub empty_trust_store : TrustStore
empty_trust_store = record {
  contacts = [];
  seeds = [];
  blocks = [];
  mutes = [];
  fingerprint = compute_fingerprint [] [] [] [];
}

unfoldable pub normalize_from : List Text → List Text → List Text
normalize_from normalized [] = normalized
normalize_from normalized (pubkey ∷ pubkeys) =
    normalize_from
      (if is_empty (normalize_pubkey pubkey)
        then normalized
        else add normalized (normalize_pubkey pubkey))
      pubkeys

-- `#normalizeSet`
unfoldable pub normalize_set : List Text → List Text
unfolding normalize_from
normalize_set pubkeys = normalize_from [] pubkeys

-- `#emitIfChanged`, after the sets were assigned; the detail is the new fingerprint.
unfoldable pub emit_if_changed : TrustStore → Outcome TrustStore Text
unfolding compute_fingerprint
emit_if_changed store =
    let next = compute_fingerprint store.contacts store.seeds store.blocks store.mutes in
    record {
      store = record store { fingerprint = next };
      changes = if not (next == store.fingerprint) then next ∷ [] else [];
    }

unfoldable pub set_contacts : TrustStore → List Text → Outcome TrustStore Text
unfolding emit_if_changed normalize_set
set_contacts store pubkeys = emit_if_changed (record store { contacts = normalize_set pubkeys })

unfoldable pub set_seeds : TrustStore → List Text → Outcome TrustStore Text
unfolding emit_if_changed normalize_set
set_seeds store pubkeys = emit_if_changed (record store { seeds = normalize_set pubkeys })

unfoldable pub set_blocks : TrustStore → List Text → Outcome TrustStore Text
unfolding emit_if_changed normalize_set
set_blocks store pubkeys = emit_if_changed (record store { blocks = normalize_set pubkeys })

unfoldable pub set_mutes : TrustStore → List Text → Outcome TrustStore Text
unfolding emit_if_changed normalize_set
set_mutes store pubkeys = emit_if_changed (record store { mutes = normalize_set pubkeys })

unfoldable pub clear_viewer_state : TrustStore → Outcome TrustStore Text
unfolding emit_if_changed
clear_viewer_state store = emit_if_changed (record store { contacts = []; blocks = []; mutes = [] })

-- Contacts, or the seeds while there are none.
unfoldable pub trust_set : TrustStore → List Text
trust_set store = if is_empty store.contacts then store.seeds else store.contacts
