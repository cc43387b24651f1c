-- ===== src/Diff/Compatible/Operations.antt =====
-- The findings of `diff_operation` and `diff_operations` (crates/specforge-core/src/diff.rs).
use specforge_openapi_sdk_co.Prelude.{
  String, ◌≡◌, refl, ◌↔◌, true, false, ◌&&◌, Option, none, some, List, is_some, is_none, lookup,
  HasKey, keys, ◌++◌, Order, Any-iff, any_iff, eq_iff, iff_trans, All, for_each, for_each,
}
use specforge_openapi_sdk_co.Ir.{Parameter, Response, RequestBody, Operation, Document}
use specforge_openapi_sdk_co.Diff.{
  has_param, has_status, body_required, diff_operation, diff_operations, by_id, removed_operation,
  added_operation, changed_operation,
}
use specforge_openapi_sdk_co.Diff.Compatible.{
  HasParam, HasStatus, BodyCompatible, OperationCompatible, OperationsCompatible,
}
use specforge_openapi_sdk_co.Diff.Compatible.Kept.{KeptWith}
use specforge_openapi_sdk_co.Diff.Compatible.Loops.{
  IsInfo, when-breaking_iff, when_info, not-eq-false_iff, guarded_iff, loop_iff, All-append_four,
  has_key_iff, kept_iff, arrange-keys_iff,
}

has_param_iff : (n : String) (ps : List Parameter) → (has_param n ps ≡ true) ↔ HasParam n ps
has_param_iff n ps = iff_trans (any_iff _ ps) (Any-iff ps (λ x. eq_iff x.name n))

has_status_iff : (s : String) (rs : List Response) → (has_status s rs ≡ true) ↔ HasStatus s rs
has_status_iff s rs = iff_trans (any_iff _ rs) (Any-iff rs (λ x. eq_iff x.status s))

body_iff :
    (old new : Option RequestBody)
    → ((is_some new && is_none old && body_required new) ≡ false) ↔ BodyCompatible old new
body_iff none none = (λ h. tt, λ h. refl)
body_iff none (some rb) = (λ h. h, λ h. h)
body_iff (some b) none = (λ h. tt, λ h. refl)
body_iff (some b) (some rb) = (λ h. tt, λ h. refl)

-- An operation breaks nothing exactly when it is compatible.
pub diff_operation_iff :
    (old new : Operation) → All IsInfo (diff_operation old new) ↔ OperationCompatible old new
unfolding diff_operation
diff_operation_iff old new =
    iff_trans
      (All-append_four IsInfo _ _ _ _
        (loop_iff _ _ new.parameters (λ p. refl)
          (λ p. guarded_iff p.required _ (has_param_iff p.name old.parameters)))
        (loop_iff _ _ old.parameters (λ p. refl)
          (λ p. iff_trans (not-eq-false_iff _) (has_param_iff p.name new.parameters)))
        (iff_trans (when-breaking_iff _ _ refl) (body_iff old.request_body new.request_body))
        (loop_iff _ _ old.responses (λ r. refl)
          (λ r. iff_trans (not-eq-false_iff _) (has_status_iff r.status new.responses))))
      (
        λ h. record {
          no_new_required = h.0;
          params_kept = h.1.0;
          body = h.1.1.0;
          responses_kept = h.1.1.1;
        },
        λ c. (c.no_new_required, (c.params_kept, (c.body, c.responses_kept))),
      )

module _ (old_ops new_ops : List (String × Operation)) where
  removed_iff : (id : String) → All IsInfo (removed_operation new_ops id) ↔ HasKey id new_ops
  unfolding removed_operation
  removed_iff id =
      iff_trans (when-breaking_iff _ _ refl)
        (iff_trans (not-eq-false_iff _) (has_key_iff id new_ops))

  added-IsInfo : (id : String) → All IsInfo (added_operation old_ops id)
  unfolding added_operation
  added-IsInfo id = when_info _ _ refl

  changed_iff :
      (id : String) (o n : Operation)
      → lookup id old_ops ≡ some o
      → lookup id new_ops ≡ some n
      → All IsInfo (changed_operation old_ops new_ops id) ↔ OperationCompatible o n
  unfolding changed_operation
  changed_iff id o n found here = rw (found, here) (diff_operation_iff o n)

  loops_iff :
      (order : Order)
      → All IsInfo (
          for_each (removed_operation new_ops) (order.arrange (keys old_ops))
          ++ (for_each (added_operation old_ops) (order.arrange (keys new_ops))
              ++ for_each (changed_operation old_ops new_ops) (order.arrange (keys old_ops))))
        ↔ KeptWith OperationCompatible old_ops new_ops
  loops_iff order =
      kept_iff OperationCompatible order _ _ _ old_ops new_ops removed_iff added-IsInfo changed_iff
        _ (λ k. (arrange-keys_iff order old_ops k).0)
        (λ k has _. (arrange-keys_iff order old_ops k).1 has)

-- The operations break nothing exactly when each old one is there and is compatible.
pub diff_operations_iff :
    (order : Order) (old new : Document)
    → All IsInfo (diff_operations order old new) ↔ OperationsCompatible old new
unfolding diff_operations
diff_operations_iff order old new = loops_iff (by_id old.operations) (by_id new.operations) order
