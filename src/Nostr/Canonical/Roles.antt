-- ===== src/Nostr/Canonical/Roles.antt =====
-- packages/nostr/src/canonical.js: rosters and policy documents. `JSON.parse` reads the content of
-- a policy document; what it gives is left to the caller.
use bitgate.Base.{
  ℕ, ◌*◌, ◌==◌, not, ◌||◌, Option, none, some, List, [], ◌∷◌, ◌++◌, map, get_or, is_empty, length,
  ltb, if◌then◌else◌,
}
use bitgate.Base.Options.{◌>>=◌}
use bitgate.Base.Text.{Text, codes, text_eq, trim}
use bitgate.Base.Set.{add}
use bitgate.Base.Map.{Map, get, put}
use bitgate.Nostr.Nip19.{normalize_pubkey_input}
use bitgate.Nostr.Replaceable.{NostrEvent, get_tags}
use bitgate.Nostr.Tags.{at, Template, pair_tag}
use bitgate.Nostr.Canonical.{canonical_kind, canonical_identifier, document_of, header_tags}

pub record DecodedRoles : Type 0 where
  pub root : Text
  pub actors : Map Text (List Text)
  pub capabilities : Map Text (List Text)
  pub protected_actors : List Text

-- The loops over the `p` and the `cap` tags.
unfoldable pub read_grants : Map Text (List Text) → List (List Text) → Map Text (List Text)
read_grants grants [] = grants
read_grants grants (tag ∷ tags) =
    let pubkey = normalize_pubkey_input (at tag 1) in
    let name = trim (at tag 2) in
    read_grants
      (if is_empty pubkey || is_empty name
        then grants
        else put grants pubkey (add (get_or (get grants pubkey) []) name))
      tags

unfoldable pub read_protected : List Text → List (List Text) → List Text
read_protected keys [] = keys
read_protected keys (tag ∷ tags) =
    let pubkey = normalize_pubkey_input (at tag 1) in
    read_protected (if is_empty pubkey then keys else add keys pubkey) tags

unfoldable pub decode_roles : NostrEvent → Option DecodedRoles
unfolding document_of read_grants read_protected
decode_roles e = do
  parsed ← document_of e
  let root = normalize_pubkey_input e.pubkey
  if not (parsed.scope == codes "roles") || is_empty root
      then none
      else some (record {
        root = root;
        actors = read_grants [] (get_tags e (codes "p"));
        capabilities = read_grants [] (get_tags e (codes "cap"));
        protected_actors = read_protected (root ∷ []) (get_tags e (codes "protected"));
      })

abbrev pub max_policy_bytes : ℕ
max_policy_bytes = 64 * 1024

-- The content of a policy document, before `JSON.parse`.
unfoldable pub policy_content : NostrEvent → Option Text
unfolding document_of
policy_content e = do
  parsed ← document_of e
  if not (parsed.scope == codes "policy")
        || (is_empty e.content || ltb max_policy_bytes (length e.content))
      then none
      else some e.content

unfoldable pub grant_tags : Text → Map Text (List Text) → List (List Text)
grant_tags label [] = []
grant_tags label ((pubkey, names) ∷ rest) =
    map (λ name. label ∷ pubkey ∷ name ∷ []) names ++ grant_tags label rest

unfoldable pub encode_roles : DecodedRoles → Text → Template
unfolding canonical_identifier grant_tags
encode_roles roster namespace = record {
  kind = canonical_kind;
  content = [];
  tags =
      header_tags namespace (codes "roles") (codes "roles")
      ++ (grant_tags (codes "p") roster.actors
          ++ (grant_tags (codes "cap") roster.capabilities
              ++ map (pair_tag (codes "protected")) roster.protected_actors));
}
