-- ===== src/Diff/Compatible/Schemas.antt =====
-- The findings of `diff_schema` and `diff_schemas` (crates/specforge-core/src/diff.rs).
use specforge_openapi_sdk_co.Prelude.{
  In-select_iff, String, ◌≡◌, refl, ◌↔◌, some, List, lookup, HasKey, keys, Order, In, All,
  iff_trans, iff_and, keys-In_iff, ◌⊕◌,
}
use specforge_openapi_sdk_co.Ir.{Model, Document}
use specforge_openapi_sdk_co.Diff.{
  diff_schema, removed_schema, added_schema, changed_schema, both_models, shared_names,
  diff_schemas,
}
use specforge_openapi_sdk_co.Diff.Compatible.{ModelCompatible, SchemasCompatible}
use specforge_openapi_sdk_co.Diff.Compatible.Loops.{
  IsInfo, when-breaking_iff, when_info, not-eq-false_iff, has_key_iff, kept_iff,
}
use specforge_openapi_sdk_co.Diff.Compatible.Properties.{diff_properties_iff}

diff_schema_iff :
    (name : String) (o n : Model) → All IsInfo (diff_schema name o n).0 ↔ ModelCompatible o n
unfolding diff_schema
diff_schema_iff name (Model.object o) (Model.object n) =
    diff_properties_iff ("schemas." ⊕ name) o.properties n.properties
diff_schema_iff name (Model.object o) (Model.enumeration n) = (λ h. tt, λ h. tt)
diff_schema_iff name (Model.enumeration o) n = (λ h. tt, λ h. tt)

module _ (old_s new_s : List (String × Model)) where
  removed_iff : (n : String) → All IsInfo (removed_schema new_s n) ↔ HasKey n new_s
  unfolding removed_schema
  removed_iff n =
      iff_trans (when-breaking_iff _ _ refl) (iff_trans (not-eq-false_iff _) (has_key_iff n new_s))

  added-IsInfo : (n : String) → All IsInfo (added_schema old_s n)
  unfolding added_schema
  added-IsInfo n = when_info _ _ refl

  changed_iff :
      (name : String) (o n : Model)
      → lookup name old_s ≡ some o
      → lookup name new_s ≡ some n
      → All IsInfo (changed_schema old_s new_s name).0 ↔ ModelCompatible o n
  unfolding changed_schema both_models
  changed_iff name o n found here = rw (found, here) (diff_schema_iff name o n)

  pub shared_names_iff :
      (order : Order) (k : String)
      → In k (shared_names order old_s new_s) ↔ (HasKey k old_s × HasKey k new_s)
  shared_names_iff order k = iff_trans (order.arrange-In k _) (
      iff_trans (In-select_iff _ k (keys old_s))
        (iff_and (keys-In_iff k old_s) (has_key_iff k new_s)))

-- The schemas break nothing exactly when each old one is there and is compatible.
pub diff_schemas_iff :
    (order : Order) (old new : Document)
    → All IsInfo (diff_schemas order old new).0 ↔ SchemasCompatible old new
unfolding diff_schemas
diff_schemas_iff order old new =
    let old_s = old.schemas.models in
    let new_s = new.schemas.models in
    kept_iff ModelCompatible order _ _ _ old_s new_s (removed_iff old_s new_s)
      (added-IsInfo old_s new_s) (changed_iff old_s new_s) _
      (λ k mem. ((shared_names_iff old_s new_s order k).0 mem).0)
      (λ k a b. (shared_names_iff old_s new_s order k).1 (a, b))
