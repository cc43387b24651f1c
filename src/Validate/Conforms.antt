-- ===== src/Validate/Conforms.antt =====
-- When a value conforms to a type, as a relation: what `validate` of
-- crates/specforge-core/src/validate.rs is to decide.
use specforge_openapi_sdk_co.Prelude.{
  String, ◌≡◌, ◌≢◌, Bool, true, false, Option, none, some, List, [], ◌∷◌, In, Any, lookup,
}
use specforge_openapi_sdk_co.Json
use specforge_openapi_sdk_co.Json.{Json, Elems, Fields}
use specforge_openapi_sdk_co.Ir.{
  Scalar, CompositionKind, Discriminator, IrType, IrTypes, members, Property, ObjectModel,
  EnumModel, Model, SchemaRegistry, get_model,
}
use specforge_openapi_sdk_co.Validate.{Host, Value, is_integer, is_number, is_string, is_boolean}

-- The values of a scalar type: every textual one takes any text.
abbrev pub ScalarOk : (host : Host) → Value host → Scalar → Type 0
ScalarOk host v Scalar.integer = is_integer host v ≡ true
ScalarOk host v Scalar.integer64 = is_integer host v ≡ true
ScalarOk host v Scalar.float = is_number host v ≡ true
ScalarOk host v Scalar.boolean = is_boolean host v ≡ true
ScalarOk host v _ = is_string host v ≡ true

module _ (host : Host) (registry : SchemaRegistry) where
  mutual
    pub data Conforms : Value host → IrType → Type 0 where
      scalar : {v : Value host} {s : Scalar} → ScalarOk host v s → Conforms v (IrType.scalar s)
      null_enum : {vs : List String} → Conforms Json.null (IrType.string_enum vs true)
      variant :
          {s : String} {vs : List String} {nullable : Bool}
          → In s vs
          → Conforms (Json.string s) (IrType.string_enum vs nullable)
      null_array : {item : IrType} → Conforms Json.null (IrType.array item true)
      array :
          {xs : Elems host.Number} {item : IrType} {nullable : Bool}
          → EachConforms (Json.elems xs) item
          → Conforms (Json.array xs) (IrType.array item nullable)
      map :
          {fs : Fields host.Number} {ty : IrType}
          → EntriesConform (Json.fields fs) ty
          → Conforms (Json.object fs) (IrType.map ty)
      -- The code asks nothing of a value that is no object.
      no_map : {v : Value host} {ty : IrType} → Json.as_object v ≡ none → Conforms v (IrType.map ty)
      null_reference :
          {name : String} {d : Option String} → Conforms Json.null (IrType.reference name true d)
      -- Nor of a reference to a schema that is not in the registry.
      dangling :
          {v : Value host} {name : String} {nullable : Bool} {d : Option String}
          → get_model registry name ≡ none
          → Conforms v (IrType.reference name nullable d)
      shape :
          {v : Value host} {name : String} {nullable : Bool} {d : Option String} {o : ObjectModel}
          {ty : IrType}
          → get_model registry name ≡ some (Model.object o)
          → o.shape_type ≡ some ty
          → Conforms v ty
          → Conforms v (IrType.reference name nullable d)
      object :
          {fs : Fields host.Number} {name : String} {nullable : Bool} {d : Option String}
          {o : ObjectModel}
          → get_model registry name ≡ some (Model.object o)
          → o.shape_type ≡ none
          → PropertiesConform (Json.fields fs) o.properties
          → Conforms (Json.object fs) (IrType.reference name nullable d)
      enumeration :
          {s : String} {name : String} {nullable : Bool} {d : Option String} {e : EnumModel}
          → get_model registry name ≡ some (Model.enumeration e)
          → Any (λ v. v.value ≡ s) e.variants
          → Conforms (Json.string s) (IrType.reference name nullable d)
      all_of :
          {v : Value host} {ts : IrTypes} {d : Option Discriminator}
          → AllConform v (members ts)
          → Conforms v (IrType.composition CompositionKind.all_of ts d)
      -- `oneOf` is read as `anyOf`, and without members asks nothing.
      no_members :
          {v : Value host} {k : CompositionKind} {ts : IrTypes} {d : Option Discriminator}
          → k ≢ CompositionKind.all_of
          → members ts ≡ []
          → Conforms v (IrType.composition k ts d)
      any_of :
          {v : Value host} {k : CompositionKind} {ts : IrTypes} {d : Option Discriminator}
          → k ≢ CompositionKind.all_of
          → SomeConforms v (members ts)
          → Conforms v (IrType.composition k ts d)
      any : {v : Value host} → Conforms v IrType.any
      unknown : {v : Value host} → Conforms v IrType.unknown

    pub data EachConforms : List (Value host) → IrType → Type 0 where
      done : {item : IrType} → EachConforms [] item
      more :
          {v : Value host} {vs : List (Value host)} {item : IrType}
          → Conforms v item
          → EachConforms vs item
          → EachConforms (v ∷ vs) item

    pub data EntriesConform : List (String × Value host) → IrType → Type 0 where
      end : {ty : IrType} → EntriesConform [] ty
      entry :
          {k : String} {v : Value host} {fs : List (String × Value host)} {ty : IrType}
          → Conforms v ty
          → EntriesConform fs ty
          → EntriesConform ((k, v) ∷ fs) ty

    pub data AllConform : Value host → List IrType → Type 0 where
      all_done : {v : Value host} → AllConform v []
      both :
          {v : Value host} {t : IrType} {ts : List IrType}
          → Conforms v t
          → AllConform v ts
          → AllConform v (t ∷ ts)

    pub data SomeConforms : Value host → List IrType → Type 0 where
      this :
          {v : Value host} {t : IrType} {ts : List IrType} → Conforms v t → SomeConforms v (t ∷ ts)
      that :
          {v : Value host} {t : IrType} {ts : List IrType}
          → SomeConforms v ts
          → SomeConforms v (t ∷ ts)

    pub data PropertiesConform : List (String × Value host) → List Property → Type 0 where
      enough : {obj : List (String × Value host)} → PropertiesConform obj []
      absent :
          {obj : List (String × Value host)} {p : Property} {ps : List Property}
          → lookup p.name obj ≡ none
          → p.required ≡ false
          → PropertiesConform obj ps
          → PropertiesConform obj (p ∷ ps)
      present :
          {obj : List (String × Value host)} {p : Property} {ps : List Property} {v : Value host}
          → lookup p.name obj ≡ some v
          → Conforms v p.ty
          → PropertiesConform obj ps
          → PropertiesConform obj (p ∷ ps)
