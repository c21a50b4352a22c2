-- ===== src/Core/Fingerprint/Canonical.antt =====
-- packages/core/src/fingerprint.js: `canonicalStringify` and `fingerprint`, on values in which no
-- object occurs twice; for a repeated object the code writes a marker. Numbers are natural.
pub mod Order
pub mod States
use bitgate.Base.{
  ℕ, ◌+◌, ◌-◌, ◌==◌, Bool, true, false, ◌&&◌, List, [], ◌∷◌, ◌++◌, map, leb, ltb, nat_beq,
  if◌then◌else◌,
}
use bitgate.Base.Text.{Text, codes, text_ltb}
use bitgate.Base.Map.{Map}
use bitgate.Base.Sort.{sort}
use bitgate.Base.Decimal.{decimal}
use bitgate.Core.Fingerprint.{hash_string, hex_digits, zeros}

-- A plain object and a `Map` are both `dict`: their entries, less those that are undefined.
mutual
  pub data Value : Type 0 where
    null : Value
    bool : Bool → Value
    num : ℕ → Value
    text : Text → Value
    array : Values → Value
    set : List Text → Value
    dict : Fields → Value

  pub data Values : Type 0 where
    nil : Values
    cons : Value → Values → Values

  pub data Fields : Type 0 where
    end : Fields
    field : Text → Value → Fields → Fields

-- The entries of an object or of a `Map`.
abbrev pub of_map : Map Text Value → Fields
of_map [] = end
of_map ((key, value) ∷ m) = field key value (of_map m)

-- An array of strings.
abbrev pub texts : List Text → Value
texts list = array (items list)
  where
    items : List Text → Values
    items [] = nil
    items (s ∷ rest) = cons (text s) (items rest)

-- `\uXXXX`
unfoldable pub escape_unit : ℕ → Text
unfolding hex_digits zeros
escape_unit c =
    codes "\\u"
    ++ ((if ltb c 16 then codes "000" else if ltb c 0x100 then codes "00" else [])
        ++ hex_digits 4 c)

-- One code unit inside a JSON string, where it is not half of a surrogate pair.
unfoldable pub escape : ℕ → Text
unfolding escape_unit
escape c =
    if nat_beq c 34
    then 92 ∷ 34 ∷ []
    else if nat_beq c 92
    then 92 ∷ 92 ∷ []
    else if nat_beq c 8
    then codes "\\b"
    else if nat_beq c 9
    then codes "\\t"
    else if nat_beq c 10
    then codes "\\n"
    else if nat_beq c 12
    then codes "\\f"
    else if nat_beq c 13
    then codes "\\r"
    else if ltb c 32
    then escape_unit c
    else if leb 0xd800 c && leb c 0xdfff
    then escape_unit c
    else c ∷ []

abbrev is_pair : ℕ → ℕ → Bool
is_pair c d = (leb 0xd800 c && leb c 0xdbff) && (leb 0xdc00 d && leb d 0xdfff)

unfoldable pub escape_all : Text → Text
escape_all [] = []
escape_all (c ∷ []) = escape c
escape_all (c ∷ d ∷ cs) =
    let next = escape_all (d ∷ cs) in
    let skipped = escape_all cs in if is_pair c d then c ∷ d ∷ skipped else escape c ++ next

-- `JSON.stringify` of a string
unfoldable pub quote : Text → Text
unfolding escape_all escape
quote s = 34 ∷ escape_all s ++ 34 ∷ []

-- `parts.join(",")`
unfoldable pub join_commas : List Text → Text
join_commas [] = []
join_commas (part ∷ []) = part
join_commas (part ∷ next ∷ parts) = part ++ (codes "," ++ join_commas (next ∷ parts))

-- The entries in the order of their keys.
unfoldable pub insert_entry {ℓ} : {V : Type ℓ} → Text → V → Map Text V → Map Text V
insert_entry k v [] = (k, v) ∷ []
insert_entry k v ((j, w) ∷ m) =
    let rest = insert_entry k v m in if text_ltb j k then (j, w) ∷ rest else (k, v) ∷ (j, w) ∷ m

unfoldable pub sort_entries {ℓ} : {V : Type ℓ} → Map Text V → Map Text V
unfolding insert_entry
sort_entries [] = []
sort_entries ((key, value) ∷ m) = insert_entry key value (sort_entries m)

-- "key":value
abbrev pub part_of : Text × Text → Text
part_of (key, rendered) = quote key ++ (codes ":" ++ rendered)

unfoldable mutual
  unfolding quote join_commas sort_entries

  pub canonical_stringify : Value → Text
  canonical_stringify null = codes "null"
  canonical_stringify (bool true) = codes "true"
  canonical_stringify (bool false) = codes "false"
  canonical_stringify (num n) = decimal n
  canonical_stringify (text s) = quote s
  canonical_stringify (array values) =
      codes "[" ++ (join_commas (render_values values) ++ codes "]")
  canonical_stringify (set texts) = codes "[" ++ (join_commas (map quote (sort texts)) ++ codes "]")
  canonical_stringify (dict fields) =
      123 ∷ join_commas (map part_of (sort_entries (render_fields fields))) ++ 125 ∷ []

  pub render_values : Values → List Text
  render_values nil = []
  render_values (cons value values) = canonical_stringify value ∷ render_values values

  pub render_fields : Fields → Map Text Text
  render_fields end = []
  render_fields (field key value fields) = (key, canonical_stringify value) ∷ render_fields fields

unfoldable pub fingerprint : Value → Text
unfolding canonical_stringify hash_string
fingerprint value = hash_string (canonical_stringify value)
