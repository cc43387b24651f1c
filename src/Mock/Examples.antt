-- ===== src/Mock/Examples.antt =====
-- The examples of crates/specforge-core/src/mock.rs against the validation of
-- crates/specforge-core/src/validate.rs.
use specforge_openapi_sdk_co.Prelude.{
  ℕ, suc, ◌+◌, arith, ◌≡◌, ◌≢◌, refl, sym, subst, ◌∙◌, String, Bool, true, false, Option, none,
  some, List, [], ◌∷◌, All, Any, inl, insert, lookup, lookup-insert, ◌==◌, eq_refl,
}
use specforge_openapi_sdk_co.Json.{Json, Elems, Fields, of_fields}
use specforge_openapi_sdk_co.Merge.Laws.{fields-of_fields}
use specforge_openapi_sdk_co.Ir.{
  Scalar, CompositionKind, Discriminator, IrType, IrTypes, Property, EnumVariant, EnumModel,
  ObjectModel, Model, SchemaRegistry, get_model,
}
use specforge_openapi_sdk_co.Validate.{Host}
use specforge_openapi_sdk_co.Validate.Conforms.{
  ScalarOk, Conforms, EachConforms, EntriesConform, AllConform, SomeConforms, PropertiesConform,
}
use specforge_openapi_sdk_co.Mock.{
  Printer, scalar_example, insert_examples, object_example, generate_example_from_model,
  generate_step, generate_example_json,
}
use specforge_openapi_sdk_co.Mock.Fuel.{generate-at_least, insert_examples-at_least}

-- No later property has the name.
abbrev pub NewName : String → List Property → Type 0
NewName name props = All (λ p. (p.name == name) ≡ false) props

module _ (schemas : SchemaRegistry) where
  -- The types of which the mock server gives a conforming example: a type that requires an example
  -- of itself is none of them, nor is an `allOf` of several members, nor an enumeration of nothing.
  mutual
    pub data Exemplary : IrType → Type 0 where
      scalar : {s : Scalar} → Exemplary (IrType.scalar s)
      variants :
          {v : String} {vs : List String} {n : Bool} → Exemplary (IrType.string_enum (v ∷ vs) n)
      array : {item : IrType} {n : Bool} → Exemplary item → Exemplary (IrType.array item n)
      map : {value : IrType} → Exemplary value → Exemplary (IrType.map value)
      dangling :
          {name : String} {n : Bool} {d : Option String}
          → get_model schemas name ≡ none
          → Exemplary (IrType.reference name n d)
      shapeless :
          {name : String} {n : Bool} {d : Option String} {o : ObjectModel}
          → get_model schemas name ≡ some (Model.object o)
          → o.shape_type ≡ none
          → EachExemplary o.properties
          → Exemplary (IrType.reference name n d)
      any_shape :
          {name : String} {n : Bool} {d : Option String} {o : ObjectModel}
          → get_model schemas name ≡ some (Model.object o)
          → o.shape_type ≡ some IrType.any
          → EachExemplary o.properties
          → Exemplary (IrType.reference name n d)
      enumeration :
          {name : String} {n : Bool} {d : Option String} {e : EnumModel} {v : EnumVariant}
          {vs : List EnumVariant}
          → get_model schemas name ≡ some (Model.enumeration e)
          → e.variants ≡ v ∷ vs
          → Exemplary (IrType.reference name n d)
      no_members :
          {k : CompositionKind} {d : Option Discriminator}
          → Exemplary (IrType.composition k IrTypes.nil d)
      single :
          {m : IrType} {d : Option Discriminator}
          → Exemplary m
          → Exemplary (IrType.composition CompositionKind.all_of (IrTypes.cons m IrTypes.nil) d)
      first_of :
          {k : CompositionKind} {m : IrType} {ms : IrTypes} {d : Option Discriminator}
          → k ≢ CompositionKind.all_of
          → Exemplary m
          → Exemplary (IrType.composition k (IrTypes.cons m ms) d)
      any : Exemplary IrType.any
      unknown : Exemplary IrType.unknown

    pub data EachExemplary : List Property → Type 0 where
      done : EachExemplary []
      more :
          {p : Property} {ps : List Property}
          → NewName p.name ps
          → Exemplary p.ty
          → EachExemplary ps
          → EachExemplary (p ∷ ps)

module _ (host : Host) (printer : Printer host.Number)
    (zero_is_integer : host.is_i64 printer.zero_integer ≡ true) (schemas : SchemaRegistry) where
  abbrev Gives : ℕ → IrType → Json host.Number → Type 0
  Gives fuel ty v = generate_example_json printer schemas fuel ty ≡ some v

  -- With some fuel the generator gives an example, and it conforms.
  abbrev HasExample : IrType → Type 0
  HasExample ty = (fuel : ℕ) × (v : Json host.Number) × Gives fuel ty v × Conforms host schemas v ty

  scalar_example-ScalarOk : (s : Scalar) → ScalarOk host (scalar_example printer s) s
  unfolding scalar_example
  scalar_example-ScalarOk Scalar.string = refl
  scalar_example-ScalarOk Scalar.date_time = refl
  scalar_example-ScalarOk Scalar.uuid = refl
  scalar_example-ScalarOk Scalar.integer = rw zero_is_integer refl
  scalar_example-ScalarOk Scalar.integer64 = rw zero_is_integer refl
  scalar_example-ScalarOk Scalar.float = refl
  scalar_example-ScalarOk Scalar.boolean = refl
  scalar_example-ScalarOk Scalar.base64 = refl
  scalar_example-ScalarOk Scalar.binary = refl

  -- The examples of the properties, one after another, from any map.
  record Filled (fuel : ℕ) (start : List (String × Json host.Number)) (props : List Property)
      : Type 0 where
    out : List (String × Json host.Number)
    fills :
        insert_examples printer (generate_example_json printer schemas fuel) start props ≡ some out
    keeps : (name : String) → NewName name props → lookup name out ≡ lookup name start
    conforms : PropertiesConform host schemas out props

  Filled-cons :
      (f g : ℕ) (p : Property) (ps : List Property) (v : Json host.Number)
      (start : List (String × Json host.Number))
      → NewName p.name ps
      → Gives f p.ty v
      → Conforms host schemas v p.ty
      → Filled g (insert p.name v start) ps
      → Filled (f + g) start (p ∷ ps)
  unfolding insert_examples
  Filled-cons f g p ps v start new gives conf rest = record {
    out = rest.out;
    fills =
        rw (generate-at_least printer schemas f (f + g) p.ty v (omega arith) gives, insert_examples)
          (insert_examples-at_least printer schemas g (f + g) (insert p.name v start) rest.out ps
            (omega arith) rest.fills);
    keeps = λ name h. rest.keeps name h.1 ∙ lookup-insert p.name name v start ∙ rw (h.0) refl;
    conforms =
        PropertiesConform.present
          (rest.keeps p.name new ∙ lookup-insert p.name p.name v start ∙ rw (eq_refl p.name) refl)
          conf rest.conforms;
  }

  object-HasExample :
      (fuel : ℕ) (name : String) (n : Bool) (d : Option String) (o : ObjectModel)
      → get_model schemas name ≡ some (Model.object o)
      → (filled : Filled fuel [] o.properties)
      → Gives (suc fuel) (IrType.reference name n d) (Json.object (of_fields filled.out))
  unfolding generate_example_json generate_step generate_example_from_model object_example
  object-HasExample fuel name n d o found filled = rw (found, filled.fills) refl

  mutual
    unfolding generate_example_json generate_step generate_example_from_model insert_examples

    has_example : (ty : IrType) → Exemplary schemas ty → HasExample ty
    has_example _ (Exemplary.scalar {s}) =
        (1, scalar_example printer s, refl, Conforms.scalar (scalar_example-ScalarOk s))
    has_example _ (Exemplary.variants {v}) = (1, Json.string v, refl, Conforms.variant (inl refl))
    has_example _ (Exemplary.array {item} h) =
        let (f, v, gives, conf) = has_example item h in
        (
          suc f,
          Json.array (Elems.cons v Elems.nil),
          rw gives refl,
          Conforms.array (EachConforms.more conf EachConforms.done),
        )
    has_example _ (Exemplary.map {value} h) =
        let (f, v, gives, conf) = has_example value h in
        (
          suc f,
          Json.object (Fields.field "key" v Fields.end),
          rw gives refl,
          Conforms.map (EntriesConform.entry conf EntriesConform.end),
        )
    has_example _ (Exemplary.dangling missing) =
        (1, Json.null, rw missing refl, Conforms.dangling missing)
    has_example _ (Exemplary.shapeless {name} {n} {d} {o} found bare h) =
        let (f, fill) = fill_each o.properties h in
        let filled = fill [] in
        (
          suc f,
          Json.object (of_fields filled.out),
          object-HasExample f name n d o found filled,
          Conforms.object found bare (
              subst (λ es. PropertiesConform host schemas es o.properties)
                (sym (fields-of_fields filled.out)) filled.conforms),
        )
    has_example _ (Exemplary.any_shape {name} {n} {d} {o} found shape h) =
        let (f, fill) = fill_each o.properties h in
        let filled = fill [] in
        (
          suc f,
          Json.object (of_fields filled.out),
          object-HasExample f name n d o found filled,
          Conforms.shape found shape Conforms.any,
        )
    has_example _ (Exemplary.enumeration {e = e} {v = v} {vs = vs} found listed) = (
      1,
      Json.string v.value,
      rw (found, listed) refl,
      Conforms.enumeration found (subst (Any (λ w. w.value ≡ v.value)) (sym listed) (inl refl)),
    )
    has_example _ (Exemplary.no_members {k = CompositionKind.all_of}) =
        (1, Json.null, refl, Conforms.all_of AllConform.all_done)
    has_example _ (Exemplary.no_members {k = CompositionKind.one_of}) =
        (1, Json.null, refl, Conforms.no_members (λ e. cc) refl)
    has_example _ (Exemplary.no_members {k = CompositionKind.any_of}) =
        (1, Json.null, refl, Conforms.no_members (λ e. cc) refl)
    has_example _ (Exemplary.single {m} h) =
        let (f, v, gives, conf) = has_example m h in
        (suc f, v, gives, Conforms.all_of (AllConform.both conf AllConform.all_done))
    has_example _ (Exemplary.first_of {m = m} other h) =
        let (f, v, gives, conf) = has_example m h in
        (suc f, v, gives, Conforms.any_of other (SomeConforms.this conf))
    has_example _ Exemplary.any = (1, Json.object Fields.end, refl, Conforms.any)
    has_example _ Exemplary.unknown = (1, Json.null, refl, Conforms.unknown)

    fill_each :
        (ps : List Property)
        → EachExemplary schemas ps
        → (fuel : ℕ) × ((start : List (String × Json host.Number)) → Filled fuel start ps)
    fill_each _ EachExemplary.done = (
      0,
      λ start. record {
        out = start;
        fills = refl;
        keeps = λ name h. refl;
        conforms = PropertiesConform.enough;
      },
    )
    fill_each _ (EachExemplary.more {p} {ps} new h hs) =
        let (f, v, gives, conf) = has_example p.ty h in
        let (g, fill) = fill_each ps hs in
        (f + g, λ start. Filled-cons f g p ps v start new gives conf (fill (insert p.name v start)))

  -- If zero counts as an integer, then generating an example ends with some fuel, and the example
  -- conforms to the type, for every exemplary type: one whose references are not circular and whose
  -- objects have distinct property names and no shape but `any`, without enumerations of nothing and
  -- without an `allOf` of several members; of an `anyOf` or `oneOf` the first member counts.
  pub generate_example_json-Conforms :
      (ty : IrType)
      → Exemplary schemas ty
      → (fuel : ℕ) × (v : Json host.Number) × (generate_example_json printer schemas fuel ty
          ≡ some v)
        × Conforms host schemas v ty
  generate_example_json-Conforms ty h = has_example ty h
