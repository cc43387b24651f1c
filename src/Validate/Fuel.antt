-- ===== src/Validate/Fuel.antt =====
-- More fuel changes no answer of `validate_inner` (crates/specforge-core/src/validate.rs).
use native.Mathlib.Nat.{zero-add, suc-add}
use specforge_openapi_sdk_co.Prelude.{
  ℕ, zero, suc, ◌+◌, String, ◌≡◌, refl, Bool, true, false, ◌&&◌, ◌||◌, Option, none, some, List, [],
  ◌∷◌, inl, inr, lookup, is_empty, Option-cases, if◌then◌else◌,
}
use specforge_openapi_sdk_co.Json
use specforge_openapi_sdk_co.Json.{Json}
use specforge_openapi_sdk_co.Ir.{
  CompositionKind, IrType, members, Property, Model, SchemaRegistry, get_model,
}
use specforge_openapi_sdk_co.Validate.{
  Host, Value, Errors, and_then, validate_items, validate_entries, validate_all, some_valid,
  validate_property, validate_properties, validate_object, validate_model, validate_array,
  validate_map, one_or_more, validate_step, validate_inner,
}

-- `b` has the answer of `a`, where `a` has one.
abbrev pub Extends : {A : Type 0} → Option A → Option A → Type 0
Extends {A} a b = (x : A) → a ≡ some x → b ≡ some x

Extends-refl : {A : Type 0} (a : Option A) → Extends a a
Extends-refl a x h = h

and_then-Extends :
    (a a' b b' : Errors) → Extends a a' → Extends b b' → Extends (and_then a b) (and_then a' b')
and_then-Extends none a' b b' f g x h = absurd (cc)
and_then-Extends (some es) a' none b' f g x h = absurd (cc)
and_then-Extends (some es) a' (some fs) b' f g x h = rw (f es refl, g fs refl) h

module _ (host : Host) (registry : SchemaRegistry)
    (inner inner' : Value host → IrType → String → Errors)
    (more : (v : Value host) (ty : IrType) (path : String)
      → Extends (inner v ty path) (inner' v ty path)) where
  items-Extends :
      (item : IrType) (path : String) (i : ℕ) (vs : List (Value host))
      → Extends
          (validate_items host inner item path i vs)
          (validate_items host inner' item path i vs)
  unfolding validate_items
  items-Extends item path i [] = Extends-refl _
  items-Extends item path i (v ∷ vs) =
      and_then-Extends _ _ _ _ (more v item _) (items-Extends item path (suc i) vs)

  entries-Extends :
      (ty : IrType) (path : String) (fs : List (String × Value host))
      → Extends (validate_entries host inner ty path fs) (validate_entries host inner' ty path fs)
  unfolding validate_entries
  entries-Extends ty path [] = Extends-refl _
  entries-Extends ty path ((k, v) ∷ fs) =
      and_then-Extends _ _ _ _ (more v ty _) (entries-Extends ty path fs)

  all-Extends :
      (v : Value host) (path : String) (ms : List IrType)
      → Extends (validate_all host inner v path ms) (validate_all host inner' v path ms)
  unfolding validate_all
  all-Extends v path [] = Extends-refl _
  all-Extends v path (m ∷ ms) = and_then-Extends _ _ _ _ (more v m path) (all-Extends v path ms)

  some-Extends :
      (v : Value host) (path : String) (ms : List IrType) (b : Bool)
      → Extends (some_valid host inner v path ms b) (some_valid host inner' v path ms b)
  unfolding some_valid
  some-Extends v path [] b x h = h
  some-Extends v path (m ∷ ms) b x h = elim (Option-cases (inner v m path)) [
    | inl out ↦ absurd (cc (rw (out, some_valid) at h))
    | inr (es, found) ↦
        rw (more v m path es found, some_valid)
          (some-Extends v path ms (is_empty es || b) x (rw (found, some_valid) at h))
  ]

  property-Extends :
      (p : Property) (path : String) (found : Option (Value host))
      → Extends
          (validate_property host inner p path found)
          (validate_property host inner' p path found)
  property-Extends p path none = Extends-refl _
  property-Extends p path (some v) = more v p.ty path

  properties-Extends :
      (obj : List (String × Value host)) (path : String) (ps : List Property)
      → Extends
          (validate_properties host inner obj path ps)
          (validate_properties host inner' obj path ps)
  unfolding validate_properties
  properties-Extends obj path [] = Extends-refl _
  properties-Extends obj path (p ∷ ps) =
      and_then-Extends _ _ _ _ (property-Extends p _ (lookup p.name obj))
        (properties-Extends obj path ps)

  object-Extends :
      (v : Value host) (ps : List Property) (path : String)
      → Extends (validate_object host inner v ps path) (validate_object host inner' v ps path)
  unfolding validate_object
  object-Extends (Json.object fs) ps path = properties-Extends (Json.fields fs) path ps
  object-Extends v ps path = Extends-refl _

  model-Extends :
      (v : Value host) (name : String) (m : Option Model) (path : String)
      → Extends (validate_model host inner v name m path) (validate_model host inner' v name m path)
  model-Extends v name none path = Extends-refl _
  model-Extends v name (some (Model.object o)) path = elim (Option-cases o.shape_type) [
    | inl plain ↦ rw (plain, validate_model) (object-Extends v o.properties path)
    | inr (ty, shaped) ↦ rw (shaped, validate_model) (more v ty path)
  ]
  model-Extends v name (some (Model.enumeration e)) path = Extends-refl _

  or_null-Extends :
      (null : Bool) (a b : Errors)
      → Extends a b
      → Extends (if null then some [] else a) (if null then some [] else b)
  or_null-Extends true a b f = Extends-refl _
  or_null-Extends false a b f = f

  array-Extends :
      (v : Value host) (item : IrType) (path : String)
      → Extends (validate_array host inner v item path) (validate_array host inner' v item path)
  array-Extends (Json.array vs) item path = items-Extends item path 0 (Json.elems vs)
  array-Extends v item path = Extends-refl _

  map-Extends :
      (v : Value host) (ty : IrType) (path : String)
      → Extends (validate_map host inner v ty path) (validate_map host inner' v ty path)
  map-Extends (Json.object fs) ty path = entries-Extends ty path (Json.fields fs)
  map-Extends v ty path = Extends-refl _

  one_or_more-Extends :
      (ms : List IrType) (path : String) (a b : Option Bool)
      → Extends a b
      → Extends (one_or_more host inner ms path a) (one_or_more host inner' ms path b)
  one_or_more-Extends ms path none b f x h = absurd (cc)
  one_or_more-Extends ms path (some r) b f x h = rw (f r refl) h

  step-Extends :
      (v : Value host) (ty : IrType) (path : String)
      → Extends
          (validate_step host inner registry v ty path)
          (validate_step host inner' registry v ty path)
  unfolding validate_step
  step-Extends v (IrType.scalar s) path = Extends-refl _
  step-Extends v (IrType.string_enum vs n) path = Extends-refl _
  step-Extends v (IrType.array item n) path =
      or_null-Extends (n && Json.is_null v) _ _ (array-Extends v item path)
  step-Extends v (IrType.map ty) path = map-Extends v ty path
  step-Extends v (IrType.reference name n d) path =
      or_null-Extends (n && Json.is_null v) _ _
        (model-Extends v name (get_model registry name) path)
  step-Extends v (IrType.composition CompositionKind.all_of ms d) path =
      all-Extends v path (members ms)
  step-Extends v (IrType.composition CompositionKind.one_of ms d) path =
      one_or_more-Extends (members ms) path _ _ (some-Extends v path (members ms) false)
  step-Extends v (IrType.composition CompositionKind.any_of ms d) path =
      one_or_more-Extends (members ms) path _ _ (some-Extends v path (members ms) false)
  step-Extends v IrType.any path = Extends-refl _
  step-Extends v IrType.unknown path = Extends-refl _

module _ (host : Host) (registry : SchemaRegistry) where
  one_more :
      (fuel : ℕ) (v : Value host) (ty : IrType) (path : String)
      → Extends
          (validate_inner host registry fuel v ty path)
          (validate_inner host registry (suc fuel) v ty path)
  unfolding validate_inner
  one_more zero v ty path x h = absurd (cc)
  one_more (suc fuel) v ty path x h =
      step-Extends host registry (validate_inner host registry fuel)
        (validate_inner host registry (suc fuel)) (one_more fuel) v ty path x h

  -- An answer that some fuel gives, any more fuel gives.
  pub validate_inner-Extends :
      (fuel extra : ℕ) (v : Value host) (ty : IrType) (path : String)
      → Extends
          (validate_inner host registry fuel v ty path)
          (validate_inner host registry (extra + fuel) v ty path)
  validate_inner-Extends fuel zero v ty path x h = rw (zero-add fuel) h
  validate_inner-Extends fuel (suc extra) v ty path x h =
      rw (suc-add extra fuel)
        (one_more (extra + fuel) v ty path x (validate_inner-Extends fuel extra v ty path x h))
