-- ===== src/Validate/Decides/Complete.antt =====
-- A conforming value gives no error in `validate_inner` (crates/specforge-core/src/validate.rs),
-- if that is so of the calls that it makes.
use specforge_openapi_sdk_co.Prelude.{
  ℕ, suc, String, ◌≡◌, refl, ap, Bool, true, false, ◌&&◌, ◌||◌, Option, none, some, List, [], ◌∷◌,
  ◌++◌, inl, inr, In, Any, Any-mono, any, any_iff, is_empty, Option-cases, eq_iff, ◌==◌,
  if◌then◌else◌, arith,
}
use specforge_openapi_sdk_co.Json
use specforge_openapi_sdk_co.Json.{Json, Fields}
use specforge_openapi_sdk_co.Ir.{
  Scalar, CompositionKind, IrType, IrTypes, ObjectModel, members, Property, EnumVariant, Model,
  SchemaRegistry,
}
use specforge_openapi_sdk_co.Validate.{
  Host, Value, ValidationError, Errors, and_then, validate_scalar, validate_variants, validate_enum,
  validate_items, validate_entries, validate_all, some_valid, validate_properties, validate_object,
  validate_model, validate_map, one_or_more, validate_step,
}
use specforge_openapi_sdk_co.Validate.Conforms.{
  ScalarOk, Conforms, EachConforms, EntriesConform, AllConform, SomeConforms, PropertiesConform,
}

or_null_complete :
    (null : Bool) (out : Errors) (es : List ValidationError)
    → (out ≡ some es → es ≡ [])
    → (if null then some [] else out) ≡ some es
    → es ≡ []
or_null_complete true out es f h = cc
or_null_complete false out es f h = f h

-- If two stretches push nothing where they end, neither does their sequence.
and_then_complete :
    (a b : Errors) (es : List ValidationError)
    → ((fs : List ValidationError) → a ≡ some fs → fs ≡ [])
    → ((fs : List ValidationError) → b ≡ some fs → fs ≡ [])
    → and_then a b ≡ some es
    → es ≡ []
and_then_complete none b es f g h = absurd (cc)
and_then_complete (some xs) none es f g h = absurd (cc)
and_then_complete (some xs) (some ys) es f g h =
    cc (f xs refl, g ys refl, ap (λ t. t ++ ys) (f xs refl))

validate_scalar_complete :
    (host : Host) (v : Value host) (s : Scalar) (path : String)
    → ScalarOk host v s
    → validate_scalar host v s path ≡ []
unfolding validate_scalar
validate_scalar_complete host v Scalar.integer path h = rw h
validate_scalar_complete host v Scalar.integer64 path h = rw h
validate_scalar_complete host v Scalar.float path h = rw h
validate_scalar_complete host v Scalar.boolean path h = rw h
validate_scalar_complete host v _ path h = rw h

any_complete :
    {A : Type 0} (name : A → String) (s : String) (vs : List A)
    → Any (λ v. name v ≡ s) vs
    → any (λ v. name v == s) vs ≡ true
any_complete name s vs h = (any_iff _ vs).1 (Any-mono vs (λ v. (eq_iff (name v) s).1) h)

validate_variants_complete :
    (host : Host) (s : String) (vs : List String) (path : String)
    → In s vs
    → validate_variants host (Json.string s) vs path ≡ []
unfolding validate_variants
validate_variants_complete host s vs path h = rw (any_complete (λ v. v) s vs h)

validate_enum_complete :
    (host : Host) (s name : String) (vs : List EnumVariant) (path : String)
    → Any (λ v. v.value ≡ s) vs
    → validate_enum host (Json.string s) name vs path ≡ []
unfolding validate_enum
validate_enum_complete host s name vs path h = rw (any_complete (λ v. v.value) s vs h)

module _ (host : Host) (registry : SchemaRegistry) (inner : Value host → IrType → String → Errors)
    (complete : (v : Value host) (ty : IrType) (path : String) (es : List ValidationError)
      → Conforms host registry v ty
      → inner v ty path ≡ some es
      → es ≡ []) where
  items_complete :
      {item : IrType} {vs : List (Value host)} (path : String) (i : ℕ) (es : List ValidationError)
      → EachConforms host registry vs item
      → validate_items host inner item path i vs ≡ some es
      → es ≡ []
  unfolding validate_items
  items_complete path i es EachConforms.done h = cc
  items_complete path i es (EachConforms.more {v} {vs} {item} c cs) h =
      and_then_complete _ _ es (λ fs. complete v item _ fs c)
        (λ fs. items_complete path (suc i) fs cs) h

  entries_complete :
      {ty : IrType} {fs : List (String × Value host)} (path : String) (es : List ValidationError)
      → EntriesConform host registry fs ty
      → validate_entries host inner ty path fs ≡ some es
      → es ≡ []
  unfolding validate_entries
  entries_complete path es EntriesConform.end h = cc
  entries_complete path es (EntriesConform.entry {v} {ty} c cs) h =
      and_then_complete _ _ es (λ fs. complete v ty _ fs c) (λ fs. entries_complete path fs cs) h

  all_complete :
      {v : Value host} {ms : List IrType} (path : String) (es : List ValidationError)
      → AllConform host registry v ms
      → validate_all host inner v path ms ≡ some es
      → es ≡ []
  unfolding validate_all
  all_complete path es AllConform.all_done h = cc
  all_complete path es (AllConform.both {v} {t} c cs) h =
      and_then_complete _ _ es (λ fs. complete v t path fs c) (λ fs. all_complete path fs cs) h

  -- The flag stays up once it is.
  some_valid-true :
      (v : Value host) (path : String) (ms : List IrType) (r b : Bool)
      → b ≡ true
      → some_valid host inner v path ms b ≡ some r
      → r ≡ true
  unfolding some_valid
  some_valid-true v path [] r b e h = cc
  some_valid-true v path (m ∷ ms) r b e h = elim (Option-cases (inner v m path)) [
    | inl out ↦ absurd (cc (rw (out, some_valid) at h))
    | inr (es, found) ↦
        some_valid-true v path ms r (is_empty es || b) (ground arith) (rw (found, some_valid) at h)
  ]

  some_complete :
      {v : Value host} {ms : List IrType} (path : String) (r b : Bool)
      → SomeConforms host registry v ms
      → some_valid host inner v path ms b ≡ some r
      → r ≡ true
  unfolding some_valid
  some_complete path r b (SomeConforms.this {v} {t} {ts} c) h =
      elim (Option-cases (inner v t path)) [
        | inl out ↦ absurd (cc (rw (out, some_valid) at h))
        | inr (es, found) ↦
            some_valid-true v path ts r (is_empty es || b) (rw (complete v t path es c found))
              (rw (found, some_valid) at h)
      ]
  some_complete path r b (SomeConforms.that {v} {t} {ts} c) h =
      elim (Option-cases (inner v t path)) [
        | inl out ↦ absurd (cc (rw (out, some_valid) at h))
        | inr (es, found) ↦ some_complete path r (is_empty es || b) c (rw (found, some_valid) at h)
      ]

  properties_complete :
      {obj : List (String × Value host)} {ps : List Property} (path : String)
      (es : List ValidationError)
      → PropertiesConform host registry obj ps
      → validate_properties host inner obj path ps ≡ some es
      → es ≡ []
  unfolding validate_properties
  properties_complete path es PropertiesConform.enough h = cc
  properties_complete path es (PropertiesConform.absent {obj} {p} missing optional cs) h =
      and_then_complete _ _ es (λ fs e. ground (arith, missing, optional, e))
        (λ fs. properties_complete path fs cs) h
  properties_complete path es (PropertiesConform.present {p} {v} found c cs) h =
      and_then_complete _ _ es (λ fs e. complete v p.ty _ fs c (rw found at e))
        (λ fs. properties_complete path fs cs) h

  one_or_more-true :
      (ms : List IrType) (path : String) (es : List ValidationError) (answer : Option Bool)
      → ((r : Bool) → answer ≡ some r → r ≡ true)
      → one_or_more host inner ms path answer ≡ some es
      → es ≡ []
  one_or_more-true ms path es none f h = absurd (cc)
  one_or_more-true ms path es (some r) f h = let yes_valid = f r refl in ground (arith, yes_valid)

  any_of_complete :
      (v : Value host) (ts : IrTypes) (path : String) (es : List ValidationError)
      → SomeConforms host registry v (members ts)
      → one_or_more host inner (members ts) path (some_valid host inner v path (members ts) false)
        ≡ some es
      → es ≡ []
  any_of_complete v ts path es c h =
      one_or_more-true (members ts) path es (some_valid host inner v path (members ts) false)
        (λ r e. some_complete path r false c e) h

  no_members_complete :
      (v : Value host) (ts : IrTypes) (path : String) (es : List ValidationError)
      → members ts ≡ []
      → one_or_more host inner (members ts) path (some_valid host inner v path (members ts) false)
        ≡ some es
      → es ≡ []
  unfolding some_valid
  no_members_complete v IrTypes.nil path es e h = cc
  no_members_complete v (IrTypes.cons t ts) path es e h = absurd (cc)

  map_complete :
      (v : Value host) (ty : IrType) (path : String) (es : List ValidationError)
      → Json.as_object v ≡ none
      → validate_map host inner v ty path ≡ some es
      → es ≡ []
  map_complete (Json.object fs) ty path es e h = absurd (cc)
  map_complete _ ty path es e h = cc

  model_shape :
      (v : Value host) (name path : String) (o : ObjectModel) (ty : IrType)
      {es : List ValidationError}
      → validate_model host inner v name (some (Model.object o)) path ≡ some es
      → o.shape_type ≡ some ty
      → inner v ty path ≡ some es
  model_shape v name path o ty h shaped = rw (shaped, validate_model) at h

  model_object :
      (fs : Fields host.Number) (name path : String) (o : ObjectModel) {es : List ValidationError}
      → validate_model host inner (Json.object fs) name (some (Model.object o)) path ≡ some es
      → o.shape_type ≡ none
      → validate_properties host inner (Json.fields fs) path o.properties ≡ some es
  unfolding validate_object
  model_object fs name path o h plain = rw (plain, validate_model) at h

  pub validate_step_complete :
      (v : Value host) (ty : IrType) (path : String) (es : List ValidationError)
      → Conforms host registry v ty
      → validate_step host inner registry v ty path ≡ some es
      → es ≡ []
  unfolding validate_step
  validate_step_complete v ty path es (Conforms.scalar {s} ok) h =
      cc (validate_scalar_complete host v s path ok)
  validate_step_complete v ty path es Conforms.null_enum h = cc
  validate_step_complete v ty path es (Conforms.variant {s} {vs} {nullable} m) h =
      ground (arith, validate_variants_complete host s vs path m)
  validate_step_complete v ty path es Conforms.null_array h = cc
  validate_step_complete v ty path es (Conforms.array {xs} {item} {nullable} c) h =
      items_complete path 0 es c (ground arith)
  validate_step_complete v ty path es (Conforms.map c) h = entries_complete path es c h
  validate_step_complete v ty path es (Conforms.no_map {v = w} {ty = t} e) h =
      map_complete w t path es e h
  validate_step_complete v ty path es Conforms.null_reference h = cc
  validate_step_complete v ty path es (Conforms.dangling {v = w} {nullable} missing) h =
      ground (arith, missing)
  validate_step_complete v ty path es
        (Conforms.shape {v = w} {name} {nullable} {o} {ty = t} found shaped c) h =
      or_null_complete (nullable && Json.is_null w) _ es
        (λ e. complete w t path es c (model_shape w name path o t (rw found at e) shaped)) h
  validate_step_complete v ty path es (Conforms.object {fs} {name} {nullable} {o} found plain c) h =
      or_null_complete (nullable && false) _ es
        (λ e. properties_complete path es c (model_object fs name path o (rw found at e) plain)) h
  validate_step_complete v ty path es (Conforms.enumeration {s} {name} {nullable} {e} found m) h =
      ground (arith, found, validate_enum_complete host s name e.variants path m)
  validate_step_complete v ty path es (Conforms.all_of c) h = all_complete path es c h
  validate_step_complete v ty path es (Conforms.no_members {k = CompositionKind.all_of} other empty)
        h =
      absurd (other refl)
  validate_step_complete v ty path es (Conforms.no_members {v = w} {k = k} {ts} other empty) h =
      no_members_complete w ts path es empty h
  validate_step_complete v ty path es (Conforms.any_of {k = CompositionKind.all_of} other c) h =
      absurd (other refl)
  validate_step_complete v ty path es (Conforms.any_of {v = w} {k = k} {ts} other c) h =
      any_of_complete w ts path es c h
  validate_step_complete v ty path es Conforms.any h = cc
  validate_step_complete v ty path es Conforms.unknown h = cc
