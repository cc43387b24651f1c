-- ===== src/Infer/Accepts.antt =====
-- The schemas of crates/specforge-core/src/infer.rs accept the values that are like the sample.
use specforge_openapi_sdk_co.Prelude.{
  ◌≡◌, refl, ap, String, Bool, ◌&&◌, ◌||◌, Option, none, some, List, [], ◌∷◌, ◌==◌, if◌then◌else◌,
  map_list, lookup, Option-cases, Bool-cases, inl, inr, codes, Chars, nat_eq, eq_iff,
}
use specforge_openapi_sdk_co.Json.{Json, Elems, Fields, elems, fields, of_elems, get}
use specforge_openapi_sdk_co.Infer.{
  has_char, byte_len, infer_string_schema, field_keys, infer_schema, infer_entries,
}
use specforge_openapi_sdk_co.Infer.Alike.{
  is_true, texts, null_like, bool_like, number_like, text_like, accepts, accepts_each,
  accepts_values, alike, alike_each, alike_values,
}

module _ {N : Type 0} (is_i64 is_u64 : N → Bool) where
  -- The type that a sample is given.
  abbrev kind : Json N → String
  kind Json.null = "string"
  kind (Json.bool b) = "boolean"
  kind (Json.number n) = if is_i64 n || is_u64 n then "integer" else "number"
  kind (Json.string s) = "string"
  kind (Json.array vs) = "array"
  kind (Json.object fs) = "object"

  abbrev infer : Json N → String → Json N
  infer a name = infer_schema is_i64 is_u64 a name

  type-string :
      (s : Chars) → get {N = N} (infer_string_schema s) "type" ≡ some (Json.string "string")
  unfolding infer_string_schema get lookup
  type-string s = elim (Bool-cases (has_char b'T' s && has_char b'Z' s)) [
    | inl date ↦ rw date refl
    | inr other ↦ rw other (elim (Bool-cases (nat_eq (byte_len s) 36 && has_char b'-' s)) [
      | inl uuid ↦ rw uuid refl
      | inr plain ↦ rw plain refl
    ])
  ]

  nullable-string : (s : Chars) → get {N = N} (infer_string_schema s) "nullable" ≡ none
  unfolding infer_string_schema get lookup
  nullable-string s = elim (Bool-cases (has_char b'T' s && has_char b'Z' s)) [
    | inl date ↦ rw date refl
    | inr other ↦ rw other (elim (Bool-cases (nat_eq (byte_len s) 36 && has_char b'-' s)) [
      | inl uuid ↦ rw uuid refl
      | inr plain ↦ rw plain refl
    ])
  ]

  type-infer :
      (a : Json N) (name : String) → get (infer a name) "type" ≡ some (Json.string (kind a))
  unfolding infer_schema get lookup
  type-infer Json.null name = refl
  type-infer (Json.bool b) name = refl
  type-infer (Json.number n) name = elim (Bool-cases (is_i64 n || is_u64 n)) [
    | inl whole ↦ rw whole refl
    | inr part ↦ rw part refl
  ]
  type-infer (Json.string s) name = type-string (codes s)
  type-infer (Json.array Elems.nil) name = refl
  type-infer (Json.array (Elems.cons v vs)) name = refl
  type-infer (Json.object fs) name = refl

  nullable-infer :
      (a : Json N) (name : String) → is_true (get (infer a name) "nullable") ≡ null_like a
  unfolding infer_schema get lookup
  nullable-infer Json.null name = refl
  nullable-infer (Json.bool b) name = refl
  nullable-infer (Json.number n) name = elim (Bool-cases (is_i64 n || is_u64 n)) [
    | inl whole ↦ rw whole refl
    | inr part ↦ rw part refl
  ]
  nullable-infer (Json.string s) name = rw (nullable-string (codes s)) refl
  nullable-infer (Json.array Elems.nil) name = refl
  nullable-infer (Json.array (Elems.cons v vs)) name = refl
  nullable-infer (Json.object fs) name = refl

  bool-kind : (a : Json N) → (kind a == "boolean") ≡ bool_like a
  bool-kind Json.null = refl
  bool-kind (Json.bool b) = refl
  bool-kind (Json.number n) = elim (Bool-cases (is_i64 n || is_u64 n)) [
    | inl whole ↦ rw whole refl
    | inr part ↦ rw part refl
  ]
  bool-kind (Json.string s) = refl
  bool-kind (Json.array vs) = refl
  bool-kind (Json.object fs) = refl

  text-kind : (a : Json N) → (kind a == "string") ≡ text_like a
  text-kind Json.null = refl
  text-kind (Json.bool b) = refl
  text-kind (Json.number n) = elim (Bool-cases (is_i64 n || is_u64 n)) [
    | inl whole ↦ rw whole refl
    | inr part ↦ rw part refl
  ]
  text-kind (Json.string s) = refl
  text-kind (Json.array vs) = refl
  text-kind (Json.object fs) = refl

  number-kind :
      (a : Json N) (n : N)
      → ((kind a == "number") || (kind a == "integer") && (is_i64 n || is_u64 n))
        ≡ number_like is_i64 is_u64 a n
  number-kind Json.null n = refl
  number-kind (Json.bool b) n = refl
  number-kind (Json.number m) n = elim (Bool-cases (is_i64 m || is_u64 m)) [
    | inl whole ↦ rw whole refl
    | inr part ↦ rw part refl
  ]
  number-kind (Json.string s) n = refl
  number-kind (Json.array vs) n = refl
  number-kind (Json.object fs) n = refl

  texts-text_array :
      (ks : List String) → texts {N = N} (elems (of_elems (map_list Json.string ks))) ≡ ks
  texts-text_array [] = refl
  texts-text_array (k ∷ ks) = ap (λ t. k ∷ t) (texts-text_array ks)

  abbrev infer_some : String → Option (Json N) → Option (Json N)
  infer_some k none = none
  infer_some k (some v) = some (infer v k)

  lookup-infer_entries :
      (k : String) (fs : Fields N)
      → lookup k (fields (infer_entries is_i64 is_u64 fs)) ≡ infer_some k (lookup k (fields fs))
  unfolding lookup infer_schema
  lookup-infer_entries k Fields.end = refl
  lookup-infer_entries k (Fields.field j v fs) = elim (Bool-cases (j == k)) [
    | inl same ↦ rw same (ap (λ i. some (infer v i)) ((eq_iff j k).0 same))
    | inr other ↦ rw other (lookup-infer_entries k fs)
  ]

  mutual
    unfolding accepts alike infer_schema get lookup

    accepts-alike :
        (b a : Json N) (name : String)
        → accepts is_i64 is_u64 (infer a name) b ≡ alike is_i64 is_u64 a b
    accepts-alike Json.null a name = nullable-infer a name
    accepts-alike (Json.bool b) a name = rw (type-infer a name) (bool-kind a)
    accepts-alike (Json.number n) a name = rw (type-infer a name) (number-kind a n)
    accepts-alike (Json.string s) a name = rw (type-infer a name) (text-kind a)
    accepts-alike (Json.array ws) (Json.array Elems.nil) name = each-alike ws (Json.string "") name
    accepts-alike (Json.array ws) (Json.array (Elems.cons v vs)) name = each-alike ws v _
    accepts-alike (Json.array ws) Json.null name = refl
    accepts-alike (Json.array ws) (Json.bool b) name = refl
    accepts-alike (Json.array ws) (Json.number n) name = elim (Bool-cases (is_i64 n || is_u64 n)) [
      | inl whole ↦ rw whole refl
      | inr part ↦ rw part refl
    ]
    accepts-alike (Json.array ws) (Json.string s) name = rw (type-string (codes s)) refl
    accepts-alike (Json.array ws) (Json.object fs) name = refl
    accepts-alike (Json.object gs) (Json.object fs) name =
        rw (texts-text_array (field_keys fs), values-alike gs fs) refl
    accepts-alike (Json.object gs) Json.null name = refl
    accepts-alike (Json.object gs) (Json.bool b) name = refl
    accepts-alike (Json.object gs) (Json.number n) name = elim (Bool-cases (is_i64 n || is_u64 n)) [
      | inl whole ↦ rw whole refl
      | inr part ↦ rw part refl
    ]
    accepts-alike (Json.object gs) (Json.string s) name = rw (type-string (codes s)) refl
    accepts-alike (Json.object gs) (Json.array Elems.nil) name = refl
    accepts-alike (Json.object gs) (Json.array (Elems.cons v vs)) name = refl

    each-alike :
        (ws : Elems N) (a : Json N) (name : String)
        → accepts_each is_i64 is_u64 (some (infer a name)) ws ≡ alike_each is_i64 is_u64 a ws
    each-alike Elems.nil a name = refl
    each-alike (Elems.cons w ws) a name = rw (accepts-alike w a name, each-alike ws a name) refl

    values-alike :
        (gs fs : Fields N)
        → accepts_values is_i64 is_u64 (fields (infer_entries is_i64 is_u64 fs)) gs
          ≡ alike_values is_i64 is_u64 (fields fs) gs
    values-alike Fields.end fs = refl
    values-alike (Fields.field k w gs) fs =
        rw (lookup-infer_entries k fs, values-alike gs fs)
          (elim (Option-cases (lookup k (fields fs))) [
            | inl missing ↦ rw missing refl
            | inr (v, found) ↦ rw (found, accepts-alike w v k) refl
          ])

-- The schema inferred from a sample accepts a value exactly if the value is like the sample: of the
-- same kind, where a null sample stands for null and texts and an integer for integers; each element
-- of an array like the first of the sample's, or a text if the sample has none; and an object with
-- all the keys of the sample, and with values like the sample's at them.
pub infer_schema-accepts :
    {N : Type 0} (is_i64 is_u64 : N → Bool) (sample value : Json N) (name : String)
    → accepts is_i64 is_u64 (infer_schema is_i64 is_u64 sample name) value
      ≡ alike is_i64 is_u64 sample value
infer_schema-accepts is_i64 is_u64 sample value name = accepts-alike is_i64 is_u64 value sample name
