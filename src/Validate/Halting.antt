-- ===== src/Validate/Halting.antt =====
-- `validate` (crates/specforge-core/src/validate.rs) ends, where no chain of shapes and
-- compositions leads from a reference back to itself.
mod Loops
mod Parts
pub mod Rank
use native.Mathlib.Nat.{add_comm}
use specforge_openapi_sdk_co.Prelude.{
  ℕ, zero, suc, ◌+◌, ◌-◌, ◌<◌, ◌≤◌, String, ◌≡◌, ◌↔◌, refl, Bool, true, false, ◌&&◌, Option, none,
  some, List, [], ◌∷◌, ◌++◌, All, Option-cases, Bool-cases, if◌then◌else◌, lookup, inl, inr, arith,
  All-mono, subst, ◌==◌,
}
use specforge_openapi_sdk_co.Json
use specforge_openapi_sdk_co.Json.{Json, Elems, Fields}
use specforge_openapi_sdk_co.Ir.{
  Discriminator, CompositionKind, IrType, IrTypes, members, Property, ObjectModel, Model,
  SchemaRegistry, get_model,
}
use specforge_openapi_sdk_co.Validate.{
  validate_all, Host, Value, ValidationError, Errors, validate_object, validate_array, validate_map,
  validate_model, validate_step, validate_inner, validate,
}
use specforge_openapi_sdk_co.Validate.Fuel.{validate_inner-Extends}
use Loops.{
  Ended, Answers, items-Ended, entries-Ended, all-Ended, some-Ended, one_or_more-Ended,
  properties-Ended,
}
use Rank.{Below, MembersBelow, Guarded, Below-more, Below-some}
use specforge_openapi_sdk_co.Validate.Conforms.{Conforms}
use specforge_openapi_sdk_co.Validate.Decides.{validate-Conforms_iff}
use Parts.{
  Halts, Everywhere, Inside, inner, Enough, gather, or_null-Ended, array-Enough, map-Enough,
  object-Enough, members-Enough,
}

module _ (host : Host) (registry : SchemaRegistry) (rank : String → ℕ)
    (guarded : Guarded registry rank) where
  shape-Below :
      (n : ℕ) (name : String) (o : ObjectModel) (ty : IrType)
      → rank name < suc n
      → get_model registry name ≡ some (Model.object o)
      → o.shape_type ≡ some ty
      → Below rank n ty
  shape-Below n name o ty low found shaped =
      subst (λ k. Below rank k ty) (omega arith)
        (Below-more rank (n - rank name) (rank name) ty (guarded name o ty found shaped))

  module _ (v : Value host) (inside : Inside host registry v) where
    model-Enough :
        (name : String)
        → ((o : ObjectModel) (ty : IrType)
            → get_model registry name ≡ some (Model.object o)
            → o.shape_type ≡ some ty
            → Halts host registry v ty)
        → (m : Option Model) → get_model registry name ≡ m
        → Enough host registry (λ f. validate_model host f v name m)
    model-Enough name shape none e = (0, λ path. (_, refl))
    model-Enough name shape (some (Model.enumeration m)) e = (0, λ path. (_, refl))
    model-Enough name shape (some (Model.object o)) e = elim (Option-cases o.shape_type) [
      | inl plain ↦
          let (n, h) = object-Enough host registry v inside o.properties in
          (n, λ path. rw (plain, validate_model) (h path))
      | inr (ty, shaped) ↦
          let (n, h) = shape o ty e shaped in (n, λ path. rw (shaped, validate_model) (h path))
    ]

    -- The shapes of the references of rank below `n` can be checked.
    abbrev Shapes : ℕ → Type 0
    Shapes n =
        (name : String) (o : ObjectModel) (ty : IrType)
        → rank name < n
        → get_model registry name ≡ some (Model.object o)
        → o.shape_type ≡ some ty
        → Halts host registry v ty

    reference-Halts :
        (n : ℕ)
        → Shapes n
        → (name : String) (nullable : Bool) (d : Option String) → rank name < n
        → Halts host registry v (IrType.reference name nullable d)
    unfolding validate_inner validate_step
    reference-Halts n shapes name nullable d low =
        let (m, h) =
          model-Enough name (λ o ty. shapes name o ty low) (get_model registry name) refl in
        (suc m, λ path. or_null-Ended host registry (nullable && Json.is_null v) _ (h path))

    mutual
      unfolding validate_inner validate_step

      type-Halts : (n : ℕ) → Shapes n → (ty : IrType) → Below rank n ty → Halts host registry v ty
      type-Halts n shapes (IrType.scalar s) low = (1, λ path. (_, refl))
      type-Halts n shapes (IrType.string_enum vs b) low = (1, λ path. (_, refl))
      type-Halts n shapes (IrType.array item b) low =
          let (m, h) = array-Enough host registry v inside item in
          (suc m, λ path. or_null-Ended host registry (b && Json.is_null v) _ (h path))
      type-Halts n shapes (IrType.map ty) low =
          let (m, h) = map-Enough host registry v inside ty in (suc m, h)
      type-Halts n shapes (IrType.reference name b d) low = reference-Halts n shapes name b d low
      type-Halts n shapes (IrType.composition CompositionKind.all_of ts d) low =
          let (m, h) = members-Enough host registry v _ (types-Halt n shapes ts low) in
          (suc m, λ path. all-Ended host (inner host registry m) v path _ h)
      type-Halts n shapes (IrType.composition CompositionKind.one_of ts d) low =
          let (m, h) = members-Enough host registry v _ (types-Halt n shapes ts low) in
          (
            suc m,
            λ path.
                one_or_more-Ended host (inner host registry m) _ path _
                  (some-Ended host (inner host registry m) v path _ false h),
          )
      type-Halts n shapes (IrType.composition CompositionKind.any_of ts d) low =
          let (m, h) = members-Enough host registry v _ (types-Halt n shapes ts low) in
          (
            suc m,
            λ path.
                one_or_more-Ended host (inner host registry m) _ path _
                  (some-Ended host (inner host registry m) v path _ false h),
          )
      type-Halts n shapes IrType.any low = (1, λ path. (_, refl))
      type-Halts n shapes IrType.unknown low = (1, λ path. (_, refl))

      types-Halt :
          (n : ℕ)
          → Shapes n
          → (ts : IrTypes) → MembersBelow rank n ts
          → All (Halts host registry v) (members ts)
      types-Halt n shapes IrTypes.nil low = tt
      types-Halt n shapes (IrTypes.cons t ts) low =
          (type-Halts n shapes t low.0, types-Halt n shapes ts low.1)

    level-Halts : (n : ℕ) (ty : IrType) → Below rank n ty → Halts host registry v ty
    level-Halts zero = type-Halts zero (λ name o ty low. absurd (omega (arith, low)))
    level-Halts (suc n) =
        type-Halts (suc n) (λ name o ty low e s. level-Halts n ty (shape-Below n name o ty low e s))

    -- A value whose parts can all be checked can be checked.
    one_level : Everywhere host registry v
    one_level ty = let (n, low) = Below-some rank ty in level-Halts n ty low

  mutual
    value-Halts : (v : Value host) → Everywhere host registry v
    value-Halts (Json.array xs) = one_level (Json.array xs) (elems-Halt xs)
    value-Halts (Json.object fs) = one_level (Json.object fs) (fields-Halt fs)
    value-Halts Json.null = one_level Json.null tt
    value-Halts (Json.bool b) = one_level (Json.bool b) tt
    value-Halts (Json.number n) = one_level (Json.number n) tt
    value-Halts (Json.string s) = one_level (Json.string s) tt

    elems-Halt : (xs : Elems host.Number) → All (Everywhere host registry) (Json.elems xs)
    elems-Halt Elems.nil = tt
    elems-Halt (Elems.cons v vs) = (value-Halts v, elems-Halt vs)

    fields-Halt :
        (fs : Fields host.Number) → All (λ kv. Everywhere host registry kv.1) (Json.fields fs)
    fields-Halt Fields.end = tt
    fields-Halt (Fields.field k v fs) = (value-Halts v, fields-Halt fs)

  -- `validate` ends on every value and type: some fuel gives an answer, and any more fuel gives the
  -- same one.
  validate-ends :
      (v : Value host) (ty : IrType)
      → (fuel : ℕ) × (es : List ValidationError) × ((extra : ℕ)
          → validate host (extra + fuel) v ty registry ≡ some es)
  unfolding validate
  validate-ends v ty =
      let (fuel, h) = value-Halts v ty in
      let (es, e) = h "" in
      (fuel, es, λ extra. validate_inner-Extends host registry fuel extra v ty "" es e)

  -- If no chain of shapes and compositions leads from a reference of the registry back to itself,
  -- then on every value and type `validate` gives, from some fuel on, one list of errors, and the
  -- list is empty exactly if the value conforms to the type.
  pub validate-decides :
      (v : Value host) (ty : IrType)
      → (fuel : ℕ) × (es : List ValidationError) × ((extra : ℕ)
          → validate host (extra + fuel) v ty registry ≡ some es)
        × ((es ≡ []) ↔ Conforms host registry v ty)
  validate-decides v ty =
      let (fuel, es, h) = validate-ends v ty in
      (fuel, es, h, validate-Conforms_iff host registry (zero + fuel) v ty es (h zero))

module _ (host : Host) (registry : SchemaRegistry) (name : String) (o : ObjectModel) (ts : IrTypes)
    (d : Option Discriminator) (v : Value host) where
  -- The shape of the schema is an `allOf` whose first member refers to the schema.
  abbrev pub RefersToItself : Type 0
  RefersToItself =
      (get_model registry name ≡ some (Model.object o))
      × (o.shape_type
          ≡ some (
              IrType.composition CompositionKind.all_of
                (IrTypes.cons (IrType.reference name false none) ts) d))

  all_of_loops :
      (fuel : ℕ) (path : String)
      → RefersToItself
      → validate_inner host registry fuel v (IrType.reference name false none) path ≡ none
  unfolding validate_inner validate_step validate_all
  all_of_loops zero path h = refl
  all_of_loops (suc zero) path (found, shaped) = rw (found, shaped, validate_model) refl
  all_of_loops (suc (suc fuel)) path (found, shaped) =
      rw (found, shaped, validate_model, all_of_loops fuel path (found, shaped)) refl

  -- If the shape of a schema is an `allOf` whose first member refers to the schema itself, then
  -- `validate` of a reference to it never ends: no fuel gives an answer.
  pub validate-all_of_loops :
      (fuel : ℕ)
      → RefersToItself
      → validate host fuel v (IrType.reference name false none) registry ≡ none
  unfolding validate
  validate-all_of_loops fuel = all_of_loops fuel ""
