-- ===== src/Analyzer/Tests.antt =====
-- Runs of crates/specforge-core/src/analyzer.rs: a document whose one schema nothing refers to, and
-- a circle of references.
use native.Mathlib.Omega.{arith}
use specforge_openapi_sdk_co.Prelude.{
  ℕ, ◌<◌, ◌≤◌, String, ◌≡◌, refl, ◌↔◌, some, List, [], ◌∷◌, In, HasKey, length, keys, lookup,
  insert,
}
use specforge_openapi_sdk_co.Ir.{get_model}
use specforge_openapi_sdk_co.Diff.Tests.{in_order, old_document}
use specforge_openapi_sdk_co.Analyzer.{
  unused_schemas, close, visit_each, referenced_directly, collect_refs_from_type,
  collect_refs_from_model,
}
use specforge_openapi_sdk_co.Analyzer.Depth.{Graph, Memo, build_ref_graph, deepest, ref_depth}
use specforge_openapi_sdk_co.Analyzer.Depth.Ends.{unseen, ref_depth-ends}
use specforge_openapi_sdk_co.Analyzer.Unused.{Reachable, all_refs, unused_schemas-Reachable_iff}

unused_run : unused_schemas in_order 5 old_document ≡ some ("Pet" ∷ [])
unfolding unused_schemas close visit_each referenced_directly collect_refs_from_type
    collect_refs_from_model get_model keys
unused_run = refl

old_document-enough : length (all_refs old_document.schemas.models) < 5
unfolding collect_refs_from_model collect_refs_from_type
old_document-enough = omega arith

unused_schemas-Reachable_iff_example :
    (unused : List String) × (unused_schemas in_order 5 old_document ≡ some unused)
    × ((name : String)
        → In name unused
          ↔ (HasKey name old_document.schemas.models × (¬ Reachable in_order old_document name)))
unused_schemas-Reachable_iff_example =
    unused_schemas-Reachable_iff in_order old_document 5 old_document-enough

-- Two schemas that refer to each other, and a third that refers to the first.
abbrev circular : Graph
circular = ("A", "B" ∷ []) ∷ ("B", "A" ∷ []) ∷ ("C", "A" ∷ []) ∷ []

-- The schema of a circle that is visited first is the deeper.
depth_run : ref_depth 4 circular "C" [] ≡ some (3, ("C", 3) ∷ ("A", 2) ∷ ("B", 1) ∷ [])
unfolding ref_depth deepest lookup insert
depth_run = refl

none_remembered : unseen circular [] ≡ 3
unfolding keys lookup
none_remembered = refl

ref_depth-ends_example :
    (depth : ℕ) × (memo : Memo) × (ref_depth 4 circular "A" [] ≡ some (depth, memo))
    × (unseen circular memo ≤ unseen circular [])
ref_depth-ends_example = ref_depth-ends 4 circular "A" [] (rw none_remembered (omega arith))

graph_run : build_ref_graph in_order old_document ≡ ("Pet", []) ∷ []
unfolding build_ref_graph collect_refs_from_model collect_refs_from_type insert
graph_run = refl
