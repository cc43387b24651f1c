-- ===== src/Mock/Routes.antt =====
-- The routes of crates/specforge-core/src/mock.rs: that they are built, what a server with them
-- answers, and the schemas for which there is no example.
use specforge_openapi_sdk_co.Prelude.{
  ℕ, zero, suc, ◌≤◌, ◌<◌, arith, ◌≡◌, refl, String, Bool, Option, none, some, List, [], ◌∷◌, All,
  In, Option-cases, inl, inr, insert, length,
}
use specforge_openapi_sdk_co.Json.{Json}
use specforge_openapi_sdk_co.Ir.{
  IrType, Property, ObjectModel, Model, SchemaRegistry, get_model, Document,
}
use specforge_openapi_sdk_co.Mock.{
  Printer, Route, insert_examples, object_example, generate_example_from_model, generate_step,
  generate_example_json, from_doc,
}
use specforge_openapi_sdk_co.Mock.Answers.{AllExemplary, routes_of-EachServes, EachServes-status}

module _ {Number : Type 0} (printer : Printer Number) (schemas : SchemaRegistry) where
  -- A property whose example does not end stops the whole object.
  insert_examples-stuck :
      (fuel : ℕ) (p : Property) (map : List (String × Json Number)) (props : List Property)
      → generate_example_json printer schemas fuel p.ty ≡ none
      → In p props
      → insert_examples printer (generate_example_json printer schemas fuel) map props ≡ none
  unfolding insert_examples
  insert_examples-stuck fuel p map [] stuck m = absurd m
  insert_examples-stuck fuel p map (q ∷ qs) stuck (inl e) = rw (e, stuck, insert_examples) refl
  insert_examples-stuck fuel p map (q ∷ qs) stuck (inr m) =
      elim (Option-cases (generate_example_json printer schemas fuel q.ty)) [
        | inl here ↦ rw (here, insert_examples) refl
        | inr (v, here) ↦
            rw (here, insert_examples)
              (insert_examples-stuck fuel p (insert q.name v map) qs stuck m)
      ]

  -- If a schema has a property whose type is a reference to the schema itself, optional or not, no
  -- fuel is enough for an example of it: the recursion does not end.
  pub generate_example_json-loops :
      (name : String) (n m : Bool) (d c : Option String) (o : ObjectModel) (p : Property) (fuel : ℕ)
      → get_model schemas name ≡ some (Model.object o)
      → In p o.properties
      → p.ty ≡ IrType.reference name m c
      → generate_example_json printer schemas fuel (IrType.reference name n d) ≡ none
  unfolding generate_example_json generate_step generate_example_from_model object_example
  generate_example_json-loops name n m d c o p zero found listed self = refl
  generate_example_json-loops name n m d c o p (suc fuel) found listed self =
      rw
        (
          found,
          insert_examples-stuck fuel p [] o.properties
              (rw self (generate_example_json-loops name m m c c o p fuel found listed self))
              listed,
        )
        refl

module _ {Number : Type 0} (printer : Printer Number) (doc : Document)
    (exemplary : AllExemplary doc.schemas doc.operations) where
  -- If the types of all responses' bodies are exemplary, `from_doc` ends with some fuel, and gives
  -- one route for each operation, which answers with a success status.
  pub from_doc-status :
      (fuel : ℕ) × (routes : List Route) × (from_doc printer fuel doc ≡ some routes)
      × (length routes ≡ length doc.operations)
      × All (λ r. (200 ≤ r.status) × (r.status < 300)) routes
  unfolding from_doc
  from_doc-status =
      let (fuel, routes, built, served) =
        routes_of-EachServes printer doc.schemas doc.operations exemplary in
      let (many, success) = EachServes-status printer doc.schemas doc.operations routes served in
      (fuel, routes, built fuel (omega arith), many, success)
