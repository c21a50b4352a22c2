-- ===== src/Core/Fingerprint/Canonical/Order.antt =====
-- packages/core/src/fingerprint.js: `canonicalStringify` and the order of an object's entries.
use mathlib.Core.List.{Permᴰ}
use bitgate.Base.{◌≡◌, ◌==◌, refl, sym, ap, ◌∙◌, false, List, [], ◌∷◌, ◌++◌, map, arith}
use bitgate.Base.Text.{codes, Text, text_beq_iff, text_eq}
use bitgate.Base.Set.{has, IsUnique}
use bitgate.Base.Map.{Map, keys}
use bitgate.Base.Sort.{sort_perm, ltb_asymm, ltb_total, ltb_trans}
use bitgate.Core.Fingerprint.{hash_string}
use bitgate.Core.Fingerprint.Canonical.{
  Value, dict, set, quote, join_commas, part_of, fingerprint, Fields, field, insert_entry,
  sort_entries, canonical_stringify, render_fields, of_map,
}

abbrev render_entry : Text × Value → Text × Text
render_entry (key, value) = (key, canonical_stringify value)

has-perm : {xs ys : List Text} (a : Text) → Permᴰ xs ys → has xs a ≡ has ys a
unfolding has
has-perm a Permᴰ.nil = refl
has-perm a (Permᴰ.cons e p) = cc (e, has-perm a p)
has-perm a (Permᴰ.swap {a = b} {b = c} {a' = d} {b' = g} {l} e f) = rw (e, f) (ground arith)
has-perm a (Permᴰ.trans p q) = has-perm a p ∙ has-perm a q

insert_entry_comm {ℓ} :
    {V : Type ℓ} (a b : Text) (v w : V) (m : Map Text V)
    → (a == b) ≡ false
    → insert_entry a v (insert_entry b w m) ≡ insert_entry b w (insert_entry a v m)
unfolding insert_entry
insert_entry_comm {V = V} a b v w [] h =
    ground (arith, ltb_asymm a b, ltb_total a b, text_beq_iff a b)
insert_entry_comm {V = V} a b v w ((j, u) ∷ m) h = ground (
  arith,
  insert_entry_comm a b v w m h,
  text_beq_iff a b,
  ltb_asymm a b,
  ltb_total a b,
  ltb_trans j a b,
  ltb_trans j b a,
  ltb_asymm j a,
  ltb_asymm j b,
  ltb_total j a,
  ltb_total j b,
  ltb_trans a b j,
  ltb_trans b a j,
)

IsUnique-perm : {xs ys : List Text} → Permᴰ xs ys → IsUnique xs → IsUnique ys
unfolding has
IsUnique-perm Permᴰ.nil u = tt
IsUnique-perm (Permᴰ.cons {a} {b} e p) (n, u) = (ground (arith, e, has-perm a p), IsUnique-perm p u)
IsUnique-perm (Permᴰ.swap {a = b} {b = c} {a' = d} {b' = g} {l} e f) (n, m) =
    ground (arith, e, f, text_beq_iff b c, text_beq_iff c b)
IsUnique-perm (Permᴰ.trans p q) u = IsUnique-perm q (IsUnique-perm p u)

keys-perm {ℓ} : {V : Type ℓ} {m n : Map Text V} → Permᴰ m n → Permᴰ (keys m) (keys n)
unfolding keys
keys-perm Permᴰ.nil = Permᴰ.nil
keys-perm (Permᴰ.cons e p) = Permᴰ.cons (ap (λ entry. entry.0) e) (keys-perm p)
keys-perm (Permᴰ.swap e f) = Permᴰ.swap (ap (λ entry. entry.0) e) (ap (λ entry. entry.0) f)
keys-perm (Permᴰ.trans p q) = Permᴰ.trans (keys-perm p) (keys-perm q)

pub sort_entries_perm {ℓ} :
    {V : Type ℓ} {m n : Map Text V}
    → Permᴰ m n
    → IsUnique (keys m)
    → sort_entries m ≡ sort_entries n
unfolding sort_entries keys has
sort_entries_perm Permᴰ.nil u = refl
sort_entries_perm (Permᴰ.cons {a = (j, v)} {b = (k, w)} e p) u =
    cc (ap (λ entry. entry.0) e, ap (λ entry. entry.1) e, sort_entries_perm p u.1)
sort_entries_perm (Permᴰ.swap {a = (j, v)} {b = (k, w)} {a' = (g, x)} {b' = (h, y)} {l} e f) u =
    rw
      (
        sym (ap (λ entry. entry.0) e),
        sym (ap (λ entry. entry.1) e),
        sym (ap (λ entry. entry.0) f),
        sym (ap (λ entry. entry.1) f),
      )
      (insert_entry_comm j k v w (sort_entries l)
        (ground (arith, u.0, text_beq_iff j k, text_beq_iff k j)))
sort_entries_perm (Permᴰ.trans p q) u =
    sort_entries_perm p u ∙ sort_entries_perm q (IsUnique-perm (keys-perm p) u)

render_fields-of_map : (m : Map Text Value) → render_fields (of_map m) ≡ map render_entry m
unfolding render_fields
render_fields-of_map [] = refl
render_fields-of_map ((key, value) ∷ m) =
    ap (λ t. (key, canonical_stringify value) ∷ t) (render_fields-of_map m)

keys-render : (m : Map Text Value) → keys (map render_entry m) ≡ keys m
unfolding keys
keys-render [] = refl
keys-render ((key, value) ∷ m) = ap (λ t. key ∷ t) (keys-render m)

render-perm : {m n : Map Text Value} → Permᴰ m n → Permᴰ (map render_entry m) (map render_entry n)
render-perm Permᴰ.nil = Permᴰ.nil
render-perm (Permᴰ.cons e p) = Permᴰ.cons (ap render_entry e) (render-perm p)
render-perm (Permᴰ.swap e f) = Permᴰ.swap (ap render_entry e) (ap render_entry f)
render-perm (Permᴰ.trans p q) = Permᴰ.trans (render-perm p) (render-perm q)

-- Two objects with the same entries, whatever the order, are written as the same text, if no key
-- is there twice.
pub canonical_stringify-perm :
    (m n : Map Text Value)
    → Permᴰ m n
    → IsUnique (keys m)
    → canonical_stringify (dict (of_map m)) ≡ canonical_stringify (dict (of_map n))
unfolding canonical_stringify
canonical_stringify-perm m n p u =
    rw
      (
        render_fields-of_map m,
        render_fields-of_map n,
        sort_entries_perm (render-perm p) (rw (keys-render m) u),
      )
      refl

-- Two objects that differ in their first field have the same fingerprint, if the two values are
-- written as the same text.
pub fingerprint-field :
    (key : Text) (v w : Value) (fields : Fields)
    → canonical_stringify v ≡ canonical_stringify w
    → fingerprint (dict (field key v fields)) ≡ fingerprint (dict (field key w fields))
unfolding fingerprint canonical_stringify render_fields
fingerprint-field key v w fields h =
    ap
      (λ written. hash_string (
        123 ∷ join_commas (map part_of (sort_entries ((key, written) ∷ render_fields fields)))
        ++ 125 ∷ []))
      h

-- Two sets with the same elements are written as the same text, whatever the order.
pub canonical_stringify-set :
    (before after : List Text)
    → Permᴰ before after
    → canonical_stringify (set before) ≡ canonical_stringify (set after)
unfolding canonical_stringify
canonical_stringify-set before after p =
    ap (λ t. codes "[" ++ (join_commas (map quote t) ++ codes "]")) (sort_perm p)
