-- ===== src/Analyzer.antt =====
-- crates/specforge-core/src/analyzer.rs: which schemas a document never uses. A `HashSet` is a
-- list without repetition, read in the order of the parameter `order`; the loop takes fuel. The
-- other parts of the report, and the final sort of the names, are left out.
pub mod Depth
pub mod Mentions
pub mod Rounds
pub mod Unused
mod Tests
use specforge_openapi_sdk_co.Prelude.{
  ℕ, zero, suc, String, Bool, true, false, not, Option, none, some, List, [], ◌∷◌, ◌++◌, ◌==◌,
  if◌then◌else◌, any, select, keys, Order,
}
use specforge_openapi_sdk_co.Ir.{
  IrType, IrTypes, Property, Model, SchemaRegistry, get_model, RequestBody, Response, Operation,
  Webhook, Document,
}

abbrev pub contains : List String → String → Bool
contains s x = any (λ y. y == x) s

-- `HashSet::insert`
abbrev pub add : String → List String → List String
add x s = if contains s x then s else x ∷ s

-- A loop that hands a set on.
abbrev pub loop :
    {A : Type 0} → (A → List String → List String) → List A → List String → List String
loop f [] s = s
loop f (a ∷ xs) s = loop f xs (f a s)

abbrev pub if_some :
    {A : Type 0} → (A → List String → List String) → Option A → List String → List String
if_some f none s = s
if_some f (some a) s = f a s

unfoldable mutual
  pub collect_refs_from_type : IrType → List String → List String
  collect_refs_from_type (IrType.reference name _ _) refs = add name refs
  collect_refs_from_type (IrType.array item _) refs = collect_refs_from_type item refs
  collect_refs_from_type (IrType.map value) refs = collect_refs_from_type value refs
  collect_refs_from_type (IrType.composition _ ms _) refs = collect_refs_from_members ms refs
  collect_refs_from_type _ refs = refs

  pub collect_refs_from_members : IrTypes → List String → List String
  collect_refs_from_members IrTypes.nil refs = refs
  collect_refs_from_members (IrTypes.cons m ms) refs =
      collect_refs_from_members ms (collect_refs_from_type m refs)

abbrev pub collect_property : Property → List String → List String
collect_property p = collect_refs_from_type p.ty

unfoldable pub collect_refs_from_model : Model → List String → List String
collect_refs_from_model (Model.object obj) refs = if_some collect_refs_from_type obj.base_type (
    if_some collect_refs_from_type obj.shape_type (
      if_some collect_refs_from_type obj.additional_properties
        (loop collect_property obj.properties refs)))
collect_refs_from_model (Model.enumeration _) refs = refs

abbrev pub collect_body : RequestBody → List String → List String
collect_body body = collect_refs_from_type body.ty

abbrev pub collect_response : Response → List String → List String
collect_response resp = if_some collect_refs_from_type resp.body

abbrev pub collect_operation : Operation → List String → List String
collect_operation op s = loop collect_response op.responses (if_some collect_body op.request_body s)

abbrev pub collect_webhook : Webhook → List String → List String
collect_webhook wh s = loop collect_response wh.responses (if_some collect_body wh.request_body s)

-- `referenced` before the loop
unfoldable pub referenced_directly : Document → List String
referenced_directly doc =
    loop collect_webhook doc.webhooks (loop collect_operation doc.operations [])

-- `referenced`, and whether a round has changed it.
abbrev pub State : Type 0
State = List String × Bool

unfoldable pub insert_each : List String → State → State
insert_each [] st = st
insert_each (r ∷ rs) (s, changed) =
    insert_each rs (if contains s r then (s, changed) else (r ∷ s, true))

module _ (order : Order) (registry : SchemaRegistry) where
  abbrev pub visit_model : Option Model → State → State
  visit_model none st = st
  visit_model (some model) st = insert_each (order.arrange (collect_refs_from_model model [])) st

  unfoldable pub visit_each : List String → State → State
  visit_each [] st = st
  visit_each (name ∷ names) st = visit_each names (visit_model (get_model registry name) st)

  -- The `while` loop: none if the fuel ran out.
  unfoldable pub close : ℕ → List String → Option (List String)
  close zero s = none
  close (suc fuel) s =
      let out = visit_each (order.arrange s) (s, false) in
      let more = close fuel out.0 in if out.1 then more else some out.0

-- `unused_schemas` before it is sorted
abbrev pub unused_of : SchemaRegistry → Option (List String) → Option (List String)
unused_of registry none = none
unused_of registry (some referenced) =
    some (select (λ name. not (contains referenced name)) (keys registry.models))

unfoldable pub unused_schemas : Order → ℕ → Document → Option (List String)
unused_schemas order fuel doc =
    unused_of doc.schemas (close order doc.schemas fuel (referenced_directly doc))
