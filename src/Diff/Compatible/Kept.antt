-- ===== src/Diff/Compatible/Kept.antt =====
-- Entries of one map that another keeps, up to a relation on their values.
use specforge_openapi_sdk_co.Prelude.{String, ◌≡◌, some, List, lookup}

abbrev pub KeptWith :
    {V : Type 0} → (V → V → Type 0) → List (String × V) → List (String × V) → Type 0
KeptWith {V} P old new =
    (k : String) (o : V) → lookup k old ≡ some o → (n : V) × (lookup k new ≡ some n) × P o n
