-- ===== src/Diff/Unchanged.antt =====
-- `diff` (crates/specforge-core/src/diff.rs) of a document with itself.
use specforge_openapi_sdk_co.Prelude.{
  String, ◌≡◌, ◌≢◌, refl, sym, Bool, true, false, not, ◌&&◌, none, some, List, [], ◌∷◌, Option,
  lookup, keys, Order, In, All, when, for_each, any, any_iff, Any-of_In, is_some, is_none, ◌⊕◌,
  All-In, eq_iff, eq_refl, ◌==◌, arith, inl, inr, Bool-cases,
}
use specforge_openapi_sdk_co.Ir.{Property, Model, RequestBody, Operation, Document}
use specforge_openapi_sdk_co.Diff.{
  new_required_param, removed_param, removed_response, body_required, has_param, has_status,
  diff_ir_version, diff_operation, removed_operation, added_operation, changed_operation,
  diff_operations, find_property, Pushed, nothing, push_each, new_required, new_optional,
  removed_property, shared_property, diff_properties, diff_schema, removed_schema, added_schema,
  changed_schema, both_models, to_list, shared_names, diff_schemas, diff_detailed, by_id,
}
use specforge_openapi_sdk_co.Diff.Compatible.Loops.{arrange-keys_iff}
use specforge_openapi_sdk_co.Diff.Compatible.Schemas.{shared_names_iff}
use specforge_openapi_sdk_co.Diff.Shape.{type_changed_iff, SameShape-refl}

-- A loop whose rounds push nothing pushes nothing.
for_each-nil :
    {A : Type 0} {B : Type 0} (f : A → List B) (xs : List A)
    → ((x : A) → In x xs → f x ≡ [])
    → for_each f xs ≡ []
for_each-nil f [] h = refl
for_each-nil f (x ∷ xs) h = rw (h x (inl refl)) (for_each-nil f xs (λ y m. h y (inr m)))

-- Whatever is in a list passes a test by name.
any_self :
    {A : Type 0} (name : A → String) (xs : List A) (x : A)
    → In x xs
    → any (λ y. name y == name x) xs ≡ true
any_self name xs x m =
    (any_iff _ xs).1 (Any-of_In (λ y. (name y == name x) ≡ true) xs x m (eq_refl (name x)))

when-nil : {A : Type 0} (b : Bool) (a : A) → b ≡ false → when b a ≡ []
when-nil b a h = rw h

body-nil : (b : Option RequestBody) → (is_some b && is_none b && body_required b) ≡ false
body-nil none = refl
body-nil (some rb) = refl

diff_operation_self : (op : Operation) → diff_operation op op ≡ []
unfolding diff_operation
diff_operation_self op =
    let path = "operations." ⊕ op.operation_id in
    rw (
      for_each-nil (new_required_param path op) op.parameters (λ p m.
          when-nil (p.required && not (has_param p.name op.parameters)) _
            (ground (arith, any_self (λ x. x.name) op.parameters p m))),
      for_each-nil (removed_param path op) op.parameters (λ p m.
          when-nil (not (has_param p.name op.parameters)) _
            (ground (arith, any_self (λ x. x.name) op.parameters p m))),
      body-nil op.request_body,
      for_each-nil (removed_response path op) op.responses (λ r m.
          when-nil (not (has_status r.status op.responses)) _
            (ground (arith, any_self (λ x. x.status) op.responses r m))),
    )

-- Each property of an object has a name of its own, as the keys of an `IndexMap` do.
abbrev pub DistinctNames : List Property → Type 0
DistinctNames [] = Unit
DistinctNames (p ∷ ps) = All (λ q. q.name ≢ p.name) ps × DistinctNames ps

abbrev pub ModelDistinct : Model → Type 0
ModelDistinct (Model.object o) = DistinctNames o.properties
ModelDistinct (Model.enumeration e) = Unit

find_property_self :
    (ps : List Property) (p : Property)
    → DistinctNames ps
    → In p ps
    → find_property p.name ps ≡ some p
unfolding find_property
find_property_self [] p d m = absurd m
find_property_self (q ∷ ps) p d (inl same) = rw (← same) (rw (eq_refl q.name) refl)
find_property_self (q ∷ ps) p d (inr later) =
    let other = All-In (λ r. r.name ≢ q.name) ps d.0 p later in
    elim (Bool-cases (q.name == p.name)) [
      | inl e ↦ absurd (other (sym ((eq_iff q.name p.name).0 e)))
      | inr e ↦ rw e (find_property_self ps p d.1 later)
    ]

push_each-nothing :
    (f : Property → Pushed) (ps : List Property)
    → ((p : Property) → In p ps → f p ≡ nothing)
    → push_each f ps ≡ nothing
unfolding push_each
push_each-nothing f [] h = refl
push_each-nothing f (p ∷ ps) h = rw (h p (inl refl), push_each-nothing f ps (λ q m. h q (inr m)))

shared_property_self : (path : String) (p : Property) → shared_property path p (some p) ≡ nothing
unfolding shared_property
shared_property_self path p = ground (arith, (type_changed_iff p.ty p.ty).1 (SameShape-refl p.ty))

diff_properties_self :
    (path : String) (ps : List Property) → DistinctNames ps → diff_properties path ps ps ≡ nothing
unfolding diff_properties
diff_properties_self path ps d = rw (
  push_each-nothing (new_required path ps) ps
      (λ p m. ground (arith, any_self (λ x. x.name) ps p m)),
  push_each-nothing (new_optional path ps) ps
      (λ p m. ground (arith, any_self (λ x. x.name) ps p m)),
  push_each-nothing (removed_property path ps) ps
      (λ p m. ground (arith, any_self (λ x. x.name) ps p m)),
  push_each-nothing (λ p. shared_property path p (find_property p.name ps)) ps
      (λ p m. rw (find_property_self ps p d m) (shared_property_self path p)),
)

diff_schema_self : (name : String) (m : Model) → ModelDistinct m → diff_schema name m m ≡ ([], none)
unfolding diff_schema
diff_schema_self name (Model.object o) d =
    rw (diff_properties_self ("schemas." ⊕ name) o.properties d)
diff_schema_self name (Model.enumeration e) d = refl

module _ {V : Type 0} (order : Order) (m : List (String × V)) where
  -- What a loop over the keys of a map does on each is all that it does.
  keys_loop-nil :
      {B : Type 0} (f : String → List B)
      → ((k : String) (v : V) → lookup k m ≡ some v → f k ≡ [])
      → for_each f (order.arrange (keys m)) ≡ []
  keys_loop-nil f h =
      for_each-nil f _ (λ k mem. let (v, found) = (arrange-keys_iff order m k).0 mem in h k v found)

diff_operations_self : (order : Order) (d : Document) → diff_operations order d d ≡ []
unfolding diff_operations removed_operation added_operation changed_operation
diff_operations_self order d =
    let ops = by_id d.operations in
    rw (
      keys_loop-nil order ops (removed_operation ops) (λ k v found. rw found),
      keys_loop-nil order ops (added_operation ops) (λ k v found. rw found),
      keys_loop-nil order ops (changed_operation ops ops)
          (λ k v found. rw found (diff_operation_self v)),
    )

changed_schema_self :
    (models : List (String × Model)) (name : String) (m : Model)
    → lookup name models ≡ some m
    → ModelDistinct m
    → changed_schema models models name ≡ ([], none)
unfolding changed_schema both_models
changed_schema_self models name m found d = rw found (diff_schema_self name m d)

module _ (order : Order) (models : List (String × Model))
    (distinct : (name : String) (m : Model) → lookup name models ≡ some m → ModelDistinct m) where
  shared_names-nil :
      {B : Type 0} (f : String → List B)
      → ((name : String) → changed_schema models models name ≡ ([], none) → f name ≡ [])
      → for_each f (shared_names order models models) ≡ []
  shared_names-nil f h = for_each-nil f _ (λ name mem.
      let (m, found) = ((shared_names_iff models models order name).0 mem).0 in
      h name (changed_schema_self models name m found (distinct name m found)))

diff_schemas_self :
    (order : Order) (d : Document)
    → ((name : String) (m : Model) → lookup name d.schemas.models ≡ some m → ModelDistinct m)
    → diff_schemas order d d ≡ ([], [])
unfolding diff_schemas removed_schema added_schema
diff_schemas_self order d distinct =
    let models = d.schemas.models in
    rw (
      keys_loop-nil order models (removed_schema models) (λ k v found. rw found),
      keys_loop-nil order models (added_schema models) (λ k v found. rw found),
      shared_names-nil order models distinct (λ n. (changed_schema models models n).0)
          (λ name e. rw e),
      shared_names-nil order models distinct (λ n. to_list (changed_schema models models n).1)
          (λ name e. rw e),
    )

-- A document differs in nothing from itself: if the properties of each of its objects have
-- distinct names, `diff_detailed` reports no finding and no schema change.
pub diff_detailed_self :
    (order : Order) (d : Document)
    → ((name : String) (m : Model) → lookup name d.schemas.models ≡ some m → ModelDistinct m)
    → diff_detailed order d d ≡ record { findings = []; schema_diffs = [] }
unfolding diff_detailed diff_ir_version
diff_detailed_self order d distinct =
    rw (diff_operations_self order d, diff_schemas_self order d distinct, eq_refl d.ir_version)
