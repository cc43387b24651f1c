-- ===== src/Validate/Decides/Sound.antt =====
-- No error from `validate_inner` (crates/specforge-core/src/validate.rs) means that the value
-- conforms, if that is so of the calls that it makes.
use specforge_openapi_sdk_co.Prelude.{
  ℕ, suc, String, ◌≡◌, ◌≢◌, refl, Bool, true, false, ◌&&◌, ◌||◌, Option, none, some, List, [], ◌∷◌,
  ◌⊎◌, inl, inr, In, Any, Any-mono, lookup, any_iff, is_empty, Bool-cases, Option-cases, eq_iff,
  ◌==◌, if◌then◌else◌, arith,
}
use specforge_openapi_sdk_co.Json
use specforge_openapi_sdk_co.Json.{Json}
use specforge_openapi_sdk_co.Ir.{
  Scalar, CompositionKind, Discriminator, IrType, IrTypes, ObjectModel, EnumModel, members,
  Property, EnumVariant, Model, SchemaRegistry, get_model,
}
use specforge_openapi_sdk_co.Validate.{
  Host, Value, ValidationError, Errors, and_then, validate_scalar, validate_variants, validate_enum,
  validate_items, validate_entries, validate_all, some_valid, validate_properties, validate_object,
  validate_model, validate_array, validate_map, one_or_more, validate_step,
}
use specforge_openapi_sdk_co.Validate.Conforms.{
  ScalarOk, Conforms, EachConforms, EntriesConform, AllConform, SomeConforms, PropertiesConform,
}

and_then-nil : (a b : Errors) → and_then a b ≡ some [] → (a ≡ some []) × (b ≡ some [])
and_then-nil none b h = (cc, cc)
and_then-nil (some es) none h = (cc, cc)
and_then-nil (some []) (some fs) h = (refl, h)
and_then-nil (some (e ∷ es)) (some fs) h = (cc, cc)

validate_scalar_sound :
    (host : Host) (v : Value host) (s : Scalar) (path : String)
    → validate_scalar host v s path ≡ []
    → ScalarOk host v s
unfolding validate_scalar
validate_scalar_sound host v Scalar.integer path h = ground arith
validate_scalar_sound host v Scalar.integer64 path h = ground arith
validate_scalar_sound host v Scalar.float path h = ground arith
validate_scalar_sound host v Scalar.boolean path h = ground arith
validate_scalar_sound host v _ path h = ground arith

empty_cases :
    (es : List ValidationError) (b : Bool) → (is_empty es || b) ≡ true → (es ≡ []) ⊎ (b ≡ true)
empty_cases [] b h = inl refl
empty_cases (e ∷ es) b h = inr h

validate_variants_sound :
    (host : Host) (s : String) (vs : List String) (path : String)
    → validate_variants host (Json.string s) vs path ≡ []
    → In s vs
unfolding validate_variants
validate_variants_sound host s vs path h =
    Any-mono vs (λ v. (eq_iff v s).0) ((any_iff (λ v. v == s) vs).0 (ground arith))

validate_enum_sound :
    (host : Host) (s name : String) (vs : List EnumVariant) (path : String)
    → validate_enum host (Json.string s) name vs path ≡ []
    → Any (λ v. v.value ≡ s) vs
unfolding validate_enum
validate_enum_sound host s name vs path h =
    Any-mono vs (λ v. (eq_iff v.value s).0) ((any_iff (λ v. v.value == s) vs).0 (ground arith))

module _ (host : Host) (registry : SchemaRegistry) (inner : Value host → IrType → String → Errors)
    (sound : (v : Value host) (ty : IrType) (path : String)
      → inner v ty path ≡ some []
      → Conforms host registry v ty) where
  items_sound :
      (item : IrType) (path : String) (i : ℕ) (vs : List (Value host))
      → validate_items host inner item path i vs ≡ some []
      → EachConforms host registry vs item
  unfolding validate_items
  items_sound item path i [] h = EachConforms.done
  items_sound item path i (v ∷ vs) h =
      let (here, later) = and_then-nil _ _ h in
      EachConforms.more (sound v item _ here) (items_sound item path (suc i) vs later)

  entries_sound :
      (ty : IrType) (path : String) (fs : List (String × Value host))
      → validate_entries host inner ty path fs ≡ some []
      → EntriesConform host registry fs ty
  unfolding validate_entries
  entries_sound ty path [] h = EntriesConform.end
  entries_sound ty path ((k, v) ∷ fs) h =
      let (here, later) = and_then-nil _ _ h in
      EntriesConform.entry (sound v ty _ here) (entries_sound ty path fs later)

  all_sound :
      (v : Value host) (path : String) (ms : List IrType)
      → validate_all host inner v path ms ≡ some []
      → AllConform host registry v ms
  unfolding validate_all
  all_sound v path [] h = AllConform.all_done
  all_sound v path (m ∷ ms) h =
      let (here, later) = and_then-nil _ _ h in
      AllConform.both (sound v m _ here) (all_sound v path ms later)

  some_sound :
      (v : Value host) (path : String) (ms : List IrType) (b : Bool)
      → some_valid host inner v path ms b ≡ some true
      → (b ≡ true) ⊎ SomeConforms host registry v ms
  unfolding some_valid
  some_sound v path [] b h = inl (ground arith)
  some_sound v path (m ∷ ms) b h = elim (Option-cases (inner v m path)) [
    | inl out ↦ absurd (cc (rw (out, some_valid) at h))
    | inr (es, found) ↦
        elim (some_sound v path ms (is_empty es || b) (rw (found, some_valid) at h)) [
          | inl valid ↦ elim (empty_cases es b valid) [
            | inl nothing ↦ inr (SomeConforms.this (sound v m path (rw nothing at found)))
            | inr before ↦ inl before
          ]
          | inr later ↦ inr (SomeConforms.that later)
        ]
  ]

  properties_sound :
      (obj : List (String × Value host)) (path : String) (ps : List Property)
      → validate_properties host inner obj path ps ≡ some []
      → PropertiesConform host registry obj ps
  unfolding validate_properties
  properties_sound obj path [] h = PropertiesConform.enough
  properties_sound obj path (p ∷ ps) h =
      let (here, later) = and_then-nil _ _ h in
      elim (Option-cases (lookup p.name obj)) [
        | inl missing ↦
            PropertiesConform.absent missing (ground (arith, missing, here))
              (properties_sound obj path ps later)
        | inr (v, found) ↦
            PropertiesConform.present found (sound v p.ty _ (rw found at here))
              (properties_sound obj path ps later)
      ]

  variants_sound :
      (v : Value host) (vs : List String) (nullable : Bool) (path : String)
      → (if nullable && Json.is_null v then [] else validate_variants host v vs path) ≡ []
      → Conforms host registry v (IrType.string_enum vs nullable)
  variants_sound Json.null vs true path h = Conforms.null_enum
  variants_sound (Json.string s) vs true path h =
      Conforms.variant (validate_variants_sound host s vs path h)
  variants_sound (Json.string s) vs false path h =
      Conforms.variant (validate_variants_sound host s vs path h)
  variants_sound v vs true path h = absurd (unfold validate_variants in cc)
  variants_sound v vs false path h = absurd (unfold validate_variants in cc)

  array_sound :
      (v : Value host) (item : IrType) (nullable : Bool) (path : String)
      → (if nullable && Json.is_null v then some [] else validate_array host inner v item path)
        ≡ some []
      → Conforms host registry v (IrType.array item nullable)
  array_sound Json.null item true path h = Conforms.null_array
  array_sound (Json.array vs) item true path h =
      Conforms.array (items_sound item path 0 (Json.elems vs) h)
  array_sound (Json.array vs) item false path h =
      Conforms.array (items_sound item path 0 (Json.elems vs) h)
  array_sound v item true path h = cc
  array_sound v item false path h = cc

  map_sound :
      (v : Value host) (ty : IrType) (path : String)
      → validate_map host inner v ty path ≡ some []
      → Conforms host registry v (IrType.map ty)
  map_sound (Json.object fs) ty path h = Conforms.map (entries_sound ty path (Json.fields fs) h)
  map_sound v ty path h = Conforms.no_map refl

  object_sound :
      (v : Value host) (name : String) (nullable : Bool) (d : Option String) (o : ObjectModel)
      (path : String)
      → get_model registry name ≡ some (Model.object o)
      → o.shape_type ≡ none
      → validate_object host inner v o.properties path ≡ some []
      → Conforms host registry v (IrType.reference name nullable d)
  unfolding validate_object
  object_sound (Json.object fs) name nullable d o path found plain h =
      Conforms.object found plain (properties_sound (Json.fields fs) path o.properties h)
  object_sound v name nullable d o path found plain h = cc

  enum_sound :
      (v : Value host) (name : String) (nullable : Bool) (d : Option String) (e : EnumModel)
      (path : String)
      → get_model registry name ≡ some (Model.enumeration e)
      → validate_enum host v name e.variants path ≡ []
      → Conforms host registry v (IrType.reference name nullable d)
  enum_sound (Json.string s) name nullable d e path found h =
      Conforms.enumeration found (validate_enum_sound host s name e.variants path h)
  enum_sound v name nullable d e path found h = absurd (unfold validate_enum in cc)

  model_sound :
      (v : Value host) (name : String) (nullable : Bool) (d : Option String) (path : String)
      (m : Option Model)
      → get_model registry name ≡ m
      → validate_model host inner v name m path ≡ some []
      → Conforms host registry v (IrType.reference name nullable d)
  model_sound v name nullable d path none found h = Conforms.dangling found
  model_sound v name nullable d path (some (Model.object o)) found h =
      elim (Option-cases o.shape_type) [
        | inl plain ↦
            object_sound v name nullable d o path found plain (rw (plain, validate_model) at h)
        | inr (ty, shaped) ↦
            Conforms.shape found shaped (sound v ty path (rw (shaped, validate_model) at h))
      ]
  model_sound v name nullable d path (some (Model.enumeration e)) found h =
      enum_sound v name nullable d e path found (cc)

  reference_sound :
      (v : Value host) (name : String) (nullable : Bool) (d : Option String) (path : String)
      → (if nullable && Json.is_null v
          then some []
          else validate_model host inner v name (get_model registry name) path)
        ≡ some []
      → Conforms host registry v (IrType.reference name nullable d)
  reference_sound Json.null name true d path h = Conforms.null_reference
  reference_sound v name true d path h = model_sound v name true d path _ refl h
  reference_sound v name false d path h = model_sound v name false d path _ refl h

  any_of_sound :
      (v : Value host) (k : CompositionKind) (ts : IrTypes) (d : Option Discriminator)
      (path : String)
      → k ≢ CompositionKind.all_of
      → one_or_more host inner (members ts) path (some_valid host inner v path (members ts) false)
        ≡ some []
      → Conforms host registry v (IrType.composition k ts d)
  any_of_sound v k IrTypes.nil d path other h = Conforms.no_members other refl
  any_of_sound v k (IrTypes.cons t ts) d path other h =
      elim (Option-cases (some_valid host inner v path (t ∷ members ts) false)) [
        | inl out ↦ absurd (cc (rw out at h))
        | inr (b, found) ↦ elim (Bool-cases b) [
          | inl valid ↦ elim (some_sound v path (t ∷ members ts) false (rw valid at found)) [
            | inl wrong ↦ absurd (cc)
            | inr good ↦ Conforms.any_of other good
          ]
          | inr invalid ↦ absurd (cc (rw (found, invalid) at h))
        ]
      ]

  pub validate_step-sound :
      (v : Value host) (ty : IrType) (path : String)
      → validate_step host inner registry v ty path ≡ some []
      → Conforms host registry v ty
  unfolding validate_step
  validate_step-sound v (IrType.scalar s) path h =
      Conforms.scalar (validate_scalar_sound host v s path (cc))
  validate_step-sound v (IrType.string_enum vs n) path h = variants_sound v vs n path (cc)
  validate_step-sound v (IrType.array item n) path h = array_sound v item n path h
  validate_step-sound v (IrType.map ty) path h = map_sound v ty path h
  validate_step-sound v (IrType.reference name n d) path h = reference_sound v name n d path h
  validate_step-sound v (IrType.composition CompositionKind.all_of ms d) path h =
      Conforms.all_of (all_sound v path (members ms) h)
  validate_step-sound v (IrType.composition CompositionKind.one_of ms d) path h =
      any_of_sound v _ ms d path (λ e. cc) h
  validate_step-sound v (IrType.composition CompositionKind.any_of ms d) path h =
      any_of_sound v _ ms d path (λ e. cc) h
  validate_step-sound v IrType.any path h = Conforms.any
  validate_step-sound v IrType.unknown path h = Conforms.unknown
