-- ===== src/Mock/Fuel.antt =====
-- More fuel changes no example that `generate_example_json` of crates/specforge-core/src/mock.rs
-- gives.
use specforge_openapi_sdk_co.Prelude.{
  ℕ, zero, suc, ◌+◌, ◌-◌, ◌≤◌, arith, ◌≡◌, subst, String, Option, none, some, List, [], ◌∷◌,
  Option-cases, inl, inr, insert,
}
use specforge_openapi_sdk_co.Json.{Json}
use specforge_openapi_sdk_co.Ir.{
  IrType, IrTypes, Property, ObjectModel, Model, SchemaRegistry, get_model,
}
use specforge_openapi_sdk_co.Mock.{
  Printer, insert_examples, object_example, generate_example_from_model, generate_step,
  generate_example_json,
}

module _ {Number : Type 0} (printer : Printer Number) where
  module _ (inner less : IrType → Option (Json Number))
      (more : (ty : IrType) (v : Json Number) → less ty ≡ some v → inner ty ≡ some v) where
    insert_examples-more :
        (map out : List (String × Json Number)) (props : List Property)
        → insert_examples printer less map props ≡ some out
        → insert_examples printer inner map props ≡ some out
    unfolding insert_examples
    insert_examples-more map out [] e = e
    insert_examples-more map out (p ∷ ps) e = elim (Option-cases (less p.ty)) [
      | inl stuck ↦ absurd (let f = rw (stuck, insert_examples) at e in cc)
      | inr (v, here) ↦
          rw (more p.ty v here, insert_examples)
            (insert_examples-more (insert p.name v map) out ps (rw (here, insert_examples) at e))
    ]

    object_example-more :
        (o : ObjectModel) (out : Json Number)
        → object_example printer less o ≡ some out
        → object_example printer inner o ≡ some out
    unfolding object_example
    object_example-more o out e =
        elim (Option-cases (insert_examples printer less [] o.properties)) [
          | inl stuck ↦ absurd (let f = rw stuck at e in cc)
          | inr (map, done) ↦
              rw (insert_examples-more [] map o.properties done) (let f = rw done at e in f)
        ]

    generate_step-more :
        (schemas : SchemaRegistry) (ty : IrType) (out : Json Number)
        → generate_step printer less schemas ty ≡ some out
        → generate_step printer inner schemas ty ≡ some out
    unfolding generate_step generate_example_from_model
    generate_step-more schemas (IrType.scalar s) out e = e
    generate_step-more schemas (IrType.string_enum vs n) out e = e
    generate_step-more schemas (IrType.array item n) out e = elim (Option-cases (less item)) [
      | inl stuck ↦ absurd (let f = rw stuck at e in cc)
      | inr (v, here) ↦ rw (more item v here) (let f = rw here at e in f)
    ]
    generate_step-more schemas (IrType.map item) out e = elim (Option-cases (less item)) [
      | inl stuck ↦ absurd (let f = rw stuck at e in cc)
      | inr (v, here) ↦ rw (more item v here) (let f = rw here at e in f)
    ]
    generate_step-more schemas (IrType.reference name n d) out e =
        model-more (get_model schemas name) out e
      where
        model-more :
            (m : Option Model) (out : Json Number)
            → generate_example_from_model printer less m ≡ some out
            → generate_example_from_model printer inner m ≡ some out
        model-more none out e = e
        model-more (some (Model.object o)) out e = object_example-more o out e
        model-more (some (Model.enumeration m)) out e = e
    generate_step-more schemas (IrType.composition k IrTypes.nil d) out e = e
    generate_step-more schemas (IrType.composition k (IrTypes.cons m ms) d) out e = more m out e
    generate_step-more schemas IrType.any out e = e
    generate_step-more schemas IrType.unknown out e = e

  module _ (schemas : SchemaRegistry) where
    generate-suc :
        (fuel : ℕ) (ty : IrType) (v : Json Number)
        → generate_example_json printer schemas fuel ty ≡ some v
        → generate_example_json printer schemas (suc fuel) ty ≡ some v
    unfolding generate_example_json
    generate-suc zero ty v e = absurd (cc)
    generate-suc (suc fuel) ty v e =
        generate_step-more (generate_example_json printer schemas (suc fuel))
          (generate_example_json printer schemas fuel) (generate-suc fuel) schemas ty v e

    generate-more :
        (extra fuel : ℕ) (ty : IrType) (v : Json Number)
        → generate_example_json printer schemas fuel ty ≡ some v
        → generate_example_json printer schemas (extra + fuel) ty ≡ some v
    generate-more zero fuel ty v e =
        subst (λ n. generate_example_json printer schemas n ty ≡ some v) (omega arith) e
    generate-more (suc extra) fuel ty v e =
        subst (λ n. generate_example_json printer schemas n ty ≡ some v) (omega arith)
          (generate-suc (extra + fuel) ty v (generate-more extra fuel ty v e))

    pub generate-at_least :
        (fuel enough : ℕ) (ty : IrType) (v : Json Number)
        → fuel ≤ enough
        → generate_example_json printer schemas fuel ty ≡ some v
        → generate_example_json printer schemas enough ty ≡ some v
    generate-at_least fuel enough ty v le e =
        subst (λ n. generate_example_json printer schemas n ty ≡ some v) (omega arith)
          (generate-more (enough - fuel) fuel ty v e)

    pub insert_examples-at_least :
        (fuel enough : ℕ) (map out : List (String × Json Number)) (props : List Property)
        → fuel ≤ enough
        → insert_examples printer (generate_example_json printer schemas fuel) map props ≡ some out
        → insert_examples printer (generate_example_json printer schemas enough) map props
          ≡ some out
    insert_examples-at_least fuel enough map out props le e =
        insert_examples-more (generate_example_json printer schemas enough)
          (generate_example_json printer schemas fuel)
          (λ ty v h. generate-at_least fuel enough ty v le h) map out props e
