-- ===== src/Webhooks/Described.antt =====
-- What the resolver of crates/specforge-core/src/resolve.rs has to make of a webhook's JSON.
use specforge_openapi_sdk_co.Prelude.{
  ◌≡◌, ◌≢◌, refl, String, true, false, Option, none, some, List, lookup, unwrap_or, ◌==◌, eq_iff,
  Bool-cases, inl, inr, sym, subst,
}
use specforge_openapi_sdk_co.Json.{Json, Fields, fields, as_str, as_object}
use specforge_openapi_sdk_co.Ir.{Scalar, IrType}
use specforge_openapi_sdk_co.Webhooks.{
  ref_name, and_then, inline_type, type_of, text_at, webhook_json_to_type, items_type,
}

-- The types by their names.
pub data TypeNamed : String → IrType → Type 0 where
  string : TypeNamed "string" (IrType.scalar Scalar.string)
  integer : TypeNamed "integer" (IrType.scalar Scalar.integer)
  number : TypeNamed "number" (IrType.scalar Scalar.float)
  boolean : TypeNamed "boolean" (IrType.scalar Scalar.boolean)
  object : TypeNamed "object" IrType.any

not_named :
    (t : String) (ty : IrType)
    → (t == "string") ≡ false
    → (t == "integer") ≡ false
    → (t == "number") ≡ false
    → (t == "boolean") ≡ false
    → (t == "object") ≡ false
    → ¬ TypeNamed t ty
not_named _ _ a b c d e TypeNamed.string = absurd (cc a)
not_named _ _ a b c d e TypeNamed.integer = absurd (cc b)
not_named _ _ a b c d e TypeNamed.number = absurd (cc c)
not_named _ _ a b c d e TypeNamed.boolean = absurd (cc d)
not_named _ _ a b c d e TypeNamed.object = absurd (cc e)

by_name : (t name : String) (ty : IrType) → (t == name) ≡ true → TypeNamed name ty → TypeNamed t ty
by_name t name ty e h = subst (λ n. TypeNamed n ty) (sym ((eq_iff t name).0 e)) h

module _ {N : Type 0} where
  -- The text at a key, if there is one.
  pub data TextAt (key : String) (es : List (String × Json N)) : Option String → Type 0 where
    a_text : {s : String} → lookup key es ≡ some (Json.string s) → TextAt key es (some s)
    no_text : ((s : String) → lookup key es ≢ some (Json.string s)) → TextAt key es none

  -- The type that a schema stands for: the name in a reference before all else, then the name of a
  -- type, with the type of the items for an array, and nothing known for the rest.
  pub data TypeOf : Json N → IrType → Type 0 where
    reference :
        {fs : Fields N} {s : String}
        → TextAt "$ref" (fields fs) (some s)
        → TypeOf (Json.object fs) (IrType.reference (ref_name s) false none)
    named :
        {fs : Fields N} {ty : IrType} (t : String)
        → TextAt "$ref" (fields fs) none
        → TextAt "type" (fields fs) (some t)
        → TypeNamed t ty
        → TypeOf (Json.object fs) ty
    array :
        {fs : Fields N} {item : IrType} (v : Json N)
        → TextAt "$ref" (fields fs) none
        → TextAt "type" (fields fs) (some "array")
        → lookup "items" (fields fs) ≡ some v
        → TypeOf v item
        → TypeOf (Json.object fs) (IrType.array item false)
    bare_array :
        {fs : Fields N}
        → TextAt "$ref" (fields fs) none
        → TextAt "type" (fields fs) (some "array")
        → lookup "items" (fields fs) ≡ none
        → TypeOf (Json.object fs) (IrType.array IrType.unknown false)
    other :
        {fs : Fields N} (t : String)
        → TextAt "$ref" (fields fs) none
        → TextAt "type" (fields fs) (some t)
        → t ≢ "array"
        → ((ty : IrType) → ¬ TypeNamed t ty)
        → TypeOf (Json.object fs) IrType.unknown
    untyped :
        {fs : Fields N}
        → TextAt "$ref" (fields fs) none
        → TextAt "type" (fields fs) none
        → TypeOf (Json.object fs) IrType.unknown
    no_schema : {v : Json N} → as_object v ≡ none → TypeOf v IrType.unknown

  pub text_at-TextAt : (key : String) (es : List (String × Json N)) → TextAt key es (text_at key es)
  text_at-TextAt key es = found (lookup key es) refl
    where
      found : (o : Option (Json N)) → lookup key es ≡ o → TextAt key es (and_then o as_str)
      found none e = TextAt.no_text (λ s h. cc)
      found (some (Json.string s)) e = TextAt.a_text e
      found (some Json.null) e = TextAt.no_text (λ s h. cc)
      found (some (Json.bool b)) e = TextAt.no_text (λ s h. cc)
      found (some (Json.number n)) e = TextAt.no_text (λ s h. cc)
      found (some (Json.array vs)) e = TextAt.no_text (λ s h. cc)
      found (some (Json.object fs)) e = TextAt.no_text (λ s h. cc)

  -- The type of the items, if there are any.
  data ItemsOf (fs : Fields N) : Option IrType → Type 0 where
    an_item :
        {ty : IrType} (v : Json N)
        → lookup "items" (fields fs) ≡ some v
        → TypeOf v ty
        → ItemsOf fs (some ty)
    no_item : lookup "items" (fields fs) ≡ none → ItemsOf fs none

  array_type :
      (fs : Fields N) (item : Option IrType)
      → TextAt "$ref" (fields fs) none
      → ItemsOf fs item
      → TextAt "type" (fields fs) (some "array")
      → TypeOf (Json.object fs) (IrType.array (unwrap_or item IrType.unknown) false)
  array_type fs _ r (ItemsOf.an_item v found i) t = TypeOf.array v r t found i
  array_type fs _ r (ItemsOf.no_item missing) t = TypeOf.bare_array r t missing

  with_type :
      (fs : Fields N) (item : Option IrType) (ty : Option String)
      → TextAt "$ref" (fields fs) none
      → ItemsOf fs item
      → TextAt "type" (fields fs) ty
      → TypeOf (Json.object fs) (inline_type item ty)
  with_type fs item none r i t = TypeOf.untyped r t
  with_type fs item (some t) r i h = elim (Bool-cases (t == "string")) [
    | inl e ↦ rw e (TypeOf.named t r h (by_name t _ _ e TypeNamed.string))
    | inr a ↦ rw a (elim (Bool-cases (t == "integer")) [
      | inl e ↦ rw e (TypeOf.named t r h (by_name t _ _ e TypeNamed.integer))
      | inr b ↦ rw b (elim (Bool-cases (t == "number")) [
        | inl e ↦ rw e (TypeOf.named t r h (by_name t _ _ e TypeNamed.number))
        | inr c ↦ rw c (elim (Bool-cases (t == "boolean")) [
          | inl e ↦ rw e (TypeOf.named t r h (by_name t _ _ e TypeNamed.boolean))
          | inr d ↦ rw d (elim (Bool-cases (t == "array")) [
            | inl e ↦ rw e (
                array_type fs item r i
                  (subst (λ n. TextAt "type" (fields fs) (some n)) ((eq_iff t "array").0 e) h))
            | inr g ↦ rw g (elim (Bool-cases (t == "object")) [
              | inl e ↦ rw e (TypeOf.named t r h (by_name t _ _ e TypeNamed.object))
              | inr f ↦ rw f (
                  TypeOf.other t r h (λ same. absurd (cc ((eq_iff t "array").1 same, g)))
                    (λ ty. not_named t ty a b c d f))
            ])
          ])
        ])
      ])
    ])
  ]

  with_reference :
      (fs : Fields N) (item : Option IrType) (ref ty : Option String)
      → TextAt "$ref" (fields fs) ref
      → ItemsOf fs item
      → TextAt "type" (fields fs) ty
      → TypeOf (Json.object fs) (type_of ref item ty)
  with_reference fs item none ty r i t = with_type fs item ty r i t
  with_reference fs item (some s) ty r i t = TypeOf.reference r

  later_item :
      (k : String) (v : Json N) (fs : Fields N)
      → (k == "items") ≡ false
      → (item : Option IrType) → ItemsOf fs item
      → ItemsOf (Fields.field k v fs) item
  unfolding lookup
  later_item k v fs e _ (ItemsOf.an_item w found h) = ItemsOf.an_item w (rw e found) h
  later_item k v fs e _ (ItemsOf.no_item missing) = ItemsOf.no_item (rw e missing)

  mutual
    unfolding webhook_json_to_type lookup

    pub webhook_json_to_type-TypeOf : (v : Json N) → TypeOf v (webhook_json_to_type v)
    webhook_json_to_type-TypeOf (Json.object fs) =
        with_reference fs (items_type fs) (text_at "$ref" (fields fs)) (text_at "type" (fields fs))
          (text_at-TextAt "$ref" (fields fs)) (items_type-ItemsOf fs)
          (text_at-TextAt "type" (fields fs))
    webhook_json_to_type-TypeOf Json.null = TypeOf.no_schema refl
    webhook_json_to_type-TypeOf (Json.bool b) = TypeOf.no_schema refl
    webhook_json_to_type-TypeOf (Json.number n) = TypeOf.no_schema refl
    webhook_json_to_type-TypeOf (Json.string s) = TypeOf.no_schema refl
    webhook_json_to_type-TypeOf (Json.array vs) = TypeOf.no_schema refl

    items_type-ItemsOf : (fs : Fields N) → ItemsOf fs (items_type fs)
    items_type-ItemsOf Fields.end = ItemsOf.no_item refl
    items_type-ItemsOf (Fields.field k v fs) = elim (Bool-cases (k == "items")) [
      | inl e ↦ rw e (ItemsOf.an_item v (rw e refl) (webhook_json_to_type-TypeOf v))
      | inr e ↦ rw e (later_item k v fs e (items_type fs) (items_type-ItemsOf fs))
    ]
