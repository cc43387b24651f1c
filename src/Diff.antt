-- ===== src/Diff.antt =====
-- crates/specforge-core/src/diff.rs: what `diff_detailed` reports between two documents. Each
-- function that pushes on `findings` is the list of what it pushes, and the caller appends. A
-- `HashMap` or `HashSet` is read in the order that the parameter `order` gives.
pub mod Findings
pub mod Types
pub mod Version
pub mod Shape
pub mod Compatible
pub mod Unchanged
pub mod Tests
use specforge_openapi_sdk_co.Prelude.{
  ℕ, String, Bool, true, false, not, ◌&&◌, Option, none, some, List, [], ◌∷◌, ◌++◌, ◌⊕◌, ◌==◌,
  nat_eq, if◌then◌else◌, when, any, find, for_each, map_list, is_some, is_none, is_empty, lookup,
  collect, keys, Order, select, bool_eq,
}
use specforge_openapi_sdk_co.Ir.{
  IrType, Property, Model, Parameter, RequestBody, Response, Operation, Document,
}
pub use Findings.*
use Types.{type_to_string, type_changed}
use Version.{ir_major_version}

abbrev finding : DiffSeverity → String → String → DiffFinding
finding s m p = record { severity = s; message = m; path = p }

unfoldable pub diff_ir_version : Document → Document → List DiffFinding
unfolding ir_major_version
diff_ir_version old new = when (not (old.ir_version == new.ir_version)) (
    if nat_eq (ir_major_version old.ir_version) (ir_major_version new.ir_version)
    then finding info ("IR version changed: " ⊕ old.ir_version ⊕ " → " ⊕ new.ir_version)
        "ir_version"
    else finding breaking
        ("IR version changed: " ⊕ old.ir_version ⊕ " → " ⊕ new.ir_version
          ⊕ " (major version bump indicates breaking IR schema changes)")
        "ir_version")

-- The three lookups by name and status.
abbrev pub has_param : String → List Parameter → Bool
has_param n ps = any (λ x. x.name == n) ps

abbrev pub has_property : String → List Property → Bool
has_property n ps = any (λ x. x.name == n) ps

abbrev pub has_status : String → List Response → Bool
has_status s rs = any (λ x. x.status == s) rs

-- `.as_ref().map(|rb| rb.required).unwrap_or(false)`
abbrev body_required : Option RequestBody → Bool
body_required none = false
body_required (some rb) = rb.required

-- The bodies of the three loops of `diff_operation`.
abbrev new_required_param : String → Operation → Parameter → List DiffFinding
new_required_param path old p =
    when (p.required && not (has_param p.name old.parameters))
      (finding breaking ("new required parameter: " ⊕ p.name) (path ⊕ ".params." ⊕ p.name))

abbrev removed_param : String → Operation → Parameter → List DiffFinding
removed_param path new p =
    when (not (has_param p.name new.parameters))
      (finding breaking ("parameter removed: " ⊕ p.name) (path ⊕ ".params." ⊕ p.name))

abbrev removed_response : String → Operation → Response → List DiffFinding
removed_response path new r =
    when (not (has_status r.status new.responses))
      (finding breaking ("response removed: " ⊕ r.status) (path ⊕ ".responses." ⊕ r.status))

unfoldable pub diff_operation : Operation → Operation → List DiffFinding
diff_operation old new =
    let path = "operations." ⊕ old.operation_id in
    for_each (new_required_param path old) new.parameters
    ++ (for_each (removed_param path new) old.parameters
        ++ (when
              (is_some new.request_body
                && is_none old.request_body
                && body_required new.request_body)
              (finding breaking "new required request body" (path ⊕ ".requestBody"))
            ++ for_each (removed_response path new) old.responses))

-- `.map(|op| (op.operation_id.clone(), op)).collect()`
unfoldable pub by_id : List Operation → List (String × Operation)
unfolding collect
by_id ops = collect (map_list (λ op. (op.operation_id, op)) ops)

-- `contains_key`, and the test of a `HashSet` of keys
abbrev pub has_key {ℓ} : {V : Type ℓ} → String → List (String × V) → Bool
has_key k m = is_some (lookup k m)

abbrev both_operations : Option Operation → Option Operation → List DiffFinding
both_operations (some o) (some n) = diff_operation o n
both_operations _ _ = []

-- The three loops of `diff_operations`.
unfoldable pub removed_operation : List (String × Operation) → String → List DiffFinding
removed_operation new_ops id =
    when (not (has_key id new_ops))
      (finding breaking ("operation removed: " ⊕ id) ("operations." ⊕ id))

unfoldable pub added_operation : List (String × Operation) → String → List DiffFinding
added_operation old_ops id =
    when (not (has_key id old_ops)) (finding info ("operation added: " ⊕ id) ("operations." ⊕ id))

unfoldable pub changed_operation :
    List (String × Operation) → List (String × Operation) → String → List DiffFinding
changed_operation old_ops new_ops id = both_operations (lookup id old_ops) (lookup id new_ops)

unfoldable pub diff_operations : Order → Document → Document → List DiffFinding
diff_operations order old new =
    let old_ops = by_id old.operations in
    let new_ops = by_id new.operations in
    for_each (removed_operation new_ops) (order.arrange (keys old_ops))
    ++ (for_each (added_operation old_ops) (order.arrange (keys new_ops))
        ++ for_each (changed_operation old_ops new_ops) (order.arrange (keys old_ops)))

-- What a stretch of `diff_schema` pushes on `findings` and on `changes`.
pub record Pushed : Type 0 where
  pub findings : List DiffFinding
  pub changes : List PropertyChange

abbrev nothing : Pushed
nothing = record { findings = []; changes = [] }

abbrev push : DiffFinding → String → PropertyChangeKind → Pushed
push f name kind = record {
  findings = f ∷ [];
  changes = record { property = name; change = kind } ∷ [];
}

infixr 65 ◌⊞◌
abbrev ◌⊞◌ : Pushed → Pushed → Pushed
a ⊞ b = record { findings = a.findings ++ b.findings; changes = a.changes ++ b.changes }

unfoldable pub push_each : (Property → Pushed) → List Property → Pushed
push_each f [] = nothing
push_each f (p ∷ ps) = f p ⊞ push_each f ps

abbrev optionality : Bool → String
optionality required = if required then "required" else "optional"

unfoldable pub new_required : String → List Property → Property → Pushed
new_required path op p =
    if p.required && not (has_property p.name op)
    then push (finding breaking ("new required property: " ⊕ p.name) (path ⊕ "." ⊕ p.name)) p.name
        (PropertyChangeKind.added_required (type_to_string p.ty))
    else nothing

unfoldable pub new_optional : String → List Property → Property → Pushed
new_optional path op p =
    if not p.required && not (has_property p.name op)
    then push (finding info ("new optional property: " ⊕ p.name) (path ⊕ "." ⊕ p.name)) p.name
        (PropertyChangeKind.added (type_to_string p.ty))
    else nothing

unfoldable pub removed_property : String → List Property → Property → Pushed
removed_property path np p =
    if not (has_property p.name np)
    then push (finding breaking ("property removed: " ⊕ p.name) (path ⊕ "." ⊕ p.name)) p.name
        (PropertyChangeKind.removed (type_to_string p.ty))
    else nothing

-- The body of the last loop once `find` has answered.
unfoldable pub shared_property : String → Property → Option Property → Pushed
shared_property path p none = nothing
shared_property path p (some n) =
    if type_changed p.ty n.ty
    then push (finding breaking ("type changed for property: " ⊕ p.name) (path ⊕ "." ⊕ p.name))
        p.name (PropertyChangeKind.type_change (type_to_string p.ty) (type_to_string n.ty))
    else if not (bool_eq p.required n.required)
    then push
        (finding (if n.required then breaking else info)
          ("required changed for property: "
            ⊕ p.name
            ⊕ " ("
            ⊕ optionality p.required
            ⊕ " → "
            ⊕ optionality n.required
            ⊕ ")")
          (path ⊕ "." ⊕ p.name))
        p.name (PropertyChangeKind.required_change p.required n.required)
    else nothing

unfoldable pub find_property : String → List Property → Option Property
find_property n ps = find (λ x. x.name == n) ps

unfoldable pub diff_properties : String → List Property → List Property → Pushed
unfolding push_each new_required new_optional removed_property shared_property find_property
diff_properties path op np =
    push_each (new_required path op) np
    ⊞ push_each (new_optional path op) np
    ⊞ push_each (removed_property path np) op
    ⊞ push_each (λ p. shared_property path p (find_property p.name np)) op

-- The findings of `diff_schema`, and its result.
unfoldable pub diff_schema : String → Model → Model → List DiffFinding × Option SchemaDiffDetail
diff_schema name (Model.object o) (Model.object n) =
    let out = diff_properties ("schemas." ⊕ name) o.properties n.properties in
    (
      out.findings,
      if is_empty out.changes then none else some (record { name = name; changes = out.changes }),
    )
diff_schema name _ _ = ([], none)

-- `get(n).unwrap()` on names that both registries have.
unfoldable pub both_models :
    String → Option Model → Option Model → List DiffFinding × Option SchemaDiffDetail
both_models name (some o) (some n) = diff_schema name o n
both_models name _ _ = ([], none)

abbrev to_list {ℓ} : {A : Type ℓ} → Option A → List A
to_list none = []
to_list (some a) = a ∷ []

-- The three loops of `diff_schemas`.
unfoldable pub removed_schema : List (String × Model) → String → List DiffFinding
removed_schema new_s n =
    when (not (has_key n new_s)) (finding breaking ("schema removed: " ⊕ n) ("schemas." ⊕ n))

unfoldable pub added_schema : List (String × Model) → String → List DiffFinding
added_schema old_s n =
    when (not (has_key n old_s)) (finding info ("schema added: " ⊕ n) ("schemas." ⊕ n))

unfoldable pub changed_schema :
    List (String × Model)
    → List (String × Model)
    → String
    → List DiffFinding × Option SchemaDiffDetail
changed_schema old_s new_s n = both_models n (lookup n old_s) (lookup n new_s)

-- `old_s.intersection(&new_s)`
abbrev pub shared_names : Order → List (String × Model) → List (String × Model) → List String
shared_names order old_s new_s = order.arrange (select (λ n. has_key n new_s) (keys old_s))

unfoldable pub diff_schemas : Order → Document → Document → List DiffFinding × List SchemaDiffDetail
diff_schemas order old new =
    let old_s = old.schemas.models in
    let new_s = new.schemas.models in
    (
      for_each (removed_schema new_s) (order.arrange (keys old_s))
          ++ (for_each (added_schema old_s) (order.arrange (keys new_s))
              ++ for_each (λ n. (changed_schema old_s new_s n).0) (shared_names order old_s new_s)),
      for_each (λ n. to_list (changed_schema old_s new_s n).1) (shared_names order old_s new_s),
    )

unfoldable pub diff_detailed : Order → Document → Document → DiffResult
diff_detailed order old new = record {
  findings =
      diff_ir_version old new ++ (diff_operations order old new ++ (diff_schemas order old new).0);
  schema_diffs = (diff_schemas order old new).1;
}

unfoldable pub diff : Order → Document → Document → List DiffFinding
diff order old new = (diff_detailed order old new).findings
