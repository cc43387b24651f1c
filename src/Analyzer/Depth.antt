-- ===== src/Analyzer/Depth.antt =====
-- The depth of the references between schemas in crates/specforge-core/src/analyzer.rs: a search
-- that remembers what it has seen. `ref_depth` takes fuel, one unit for each nested call, and `none`
-- says that it ran out.
pub mod Ends
use specforge_openapi_sdk_co.Prelude.{
  ℕ, zero, suc, ◌≤◌, ◌<◌, arith, ◌≡◌, refl, ap, sym, ◌∙◌, String, Bool, true, false, Option, none,
  some, List, [], ◌∷◌, In, ltb, if◌then◌else◌, is_none, length, select, lookup, insert,
  lookup-insert, lookup-insert_self, keys, keys-In_iff, ◌==◌, eq_iff, eq_refl, Order, Bool-cases,
  Option-cases, inl, inr,
}
use specforge_openapi_sdk_co.Ir.{Model, Document}
use specforge_openapi_sdk_co.Analyzer.{collect_refs_from_model}

abbrev pub Graph : Type 0
Graph = List (String × List String)

abbrev pub Memo : Type 0
Memo = List (String × ℕ)

abbrev graph_of : Order → Graph → List (String × Model) → Graph
graph_of order graph [] = graph
graph_of order graph ((name, model) ∷ models) =
    graph_of order (insert name (order.arrange (collect_refs_from_model model [])) graph) models

-- `build_ref_graph`; the set of a schema's references is read in the given order.
unfoldable pub build_ref_graph : Order → Document → Graph
unfolding insert collect_refs_from_model
build_ref_graph order doc = graph_of order [] doc.schemas.models

module _ (visit : String → Memo → Option (ℕ × Memo)) where
  -- `targets.iter().map(…).max()`, from the greatest so far.
  unfoldable pub deepest : ℕ → List String → Memo → Option (ℕ × Memo)
  deepest best [] memo = some (best, memo)
  deepest best (t ∷ ts) memo = elim (visit t memo) [
    | none ↦ none
    | some (depth, memo') ↦ deepest (if ltb best depth then depth else best) ts memo'
  ]

  abbrev pub one_more : Option (ℕ × Memo) → Option (ℕ × Memo)
  one_more none = none
  one_more (some (depth, memo)) = some (suc depth, memo)

  abbrev pub depth_below : Option (List String) → Memo → Option (ℕ × Memo)
  depth_below none memo = some (0, memo)
  depth_below (some []) memo = some (0, memo)
  depth_below (some (t ∷ ts)) memo = one_more (deepest 0 (t ∷ ts) memo)

abbrev pub remember : String → Option (ℕ × Memo) → Option (ℕ × Memo)
remember name none = none
remember name (some (depth, memo)) = some (depth, insert name depth memo)

unfoldable pub ref_depth : ℕ → Graph → String → Memo → Option (ℕ × Memo)
unfolding deepest insert lookup
ref_depth zero graph name memo = none
ref_depth (suc fuel) graph name memo = elim (lookup name memo) [
  | some cached ↦ some (cached, memo)
  | none ↦
      remember name (depth_below (ref_depth fuel graph) (lookup name graph) (insert name 0 memo))
]
