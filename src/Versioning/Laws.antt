-- ===== src/Versioning/Laws.antt =====
-- `apply_versioning` (crates/specforge-core/src/versioning.rs) is idempotent, and its result is
-- versioned.
use specforge_openapi_sdk_co.Prelude.{
  String, ◌≡◌, refl, ◌↔◌, Bool, true, false, not, Option, List, [], ◌∷◌, ◌++◌, ◌⊕◌, eq_iff, eq_refl,
  if◌then◌else◌, any, map_list, unwrap_or, All, Any, arith, Bool-cases, inl, inr, any_iff,
  Any-append, Any-mono,
}
use text.Mathlib.Text.{starts_with}
use specforge_openapi_sdk_co.Ir.{ParamLocation, Parameter, Operation, Document}
use specforge_openapi_sdk_co.Versioning.{
  VersionStrategy, VersioningConfig, is_header, is_query, prefix_operation, version_param,
  is_version_header, header_operation, is_version_query, query_operation, version_operation,
  apply_versioning,
}
use text.Mathlib.TextPositions.{starts_with-append}
use text.Mathlib.TextBridge.{IsPrefix}
use text.Mathlib.TextEquality.{starts_with_iff}
use mathlib.Core.Bool.{and-eq-true_iff}

-- `if !test { add }`: afterwards the test holds, and a second round changes nothing.
abbrev ensure : (Operation → Bool) → (Operation → Operation) → Operation → Operation
ensure test add op = if not (test op) then add op else op

module _ (test : Operation → Bool) (add : Operation → Operation)
    (added : (op : Operation) → test (add op) ≡ true) where
  ensured : (op : Operation) → test (ensure test add op) ≡ true
  ensured op = elim (Bool-cases (test op)) [ inl e ↦ rw e e | inr e ↦ rw e (added op) ]

  ensure_idem : (op : Operation) → ensure test add (ensure test add op) ≡ ensure test add op
  ensure_idem op = rw (ensured op)

module _ (prefix : String) where
  abbrev has_prefix : Operation → Bool
  has_prefix op = starts_with op.path ("/" ⊕ prefix)

  abbrev add_prefix : Operation → Operation
  add_prefix op = record op { path = ("/" ⊕ prefix) ⊕ op.path }

  prefix_added : (op : Operation) → has_prefix (add_prefix op) ≡ true
  prefix_added op = starts_with-append ("/" ⊕ prefix) op.path

-- An operation with one more parameter has a parameter that passes a test which that one passes.
any-append_last :
    (test : Parameter → Bool) (p : Parameter) (ps : List Parameter)
    → test p ≡ true
    → any test (ps ++ p ∷ []) ≡ true
any-append_last test p ps h =
    (any_iff test (ps ++ p ∷ [])).1 ((Any-append _ ps (p ∷ [])).1 (inr (inl h)))

module _ (to_lowercase : String → String) (name : String) where
  abbrev has_header : Operation → Bool
  has_header op = any (is_version_header to_lowercase name) op.parameters

  abbrev add_header : Operation → Operation
  add_header op = record op {
    parameters = op.parameters ++ version_param name ParamLocation.header true ∷ [];
  }

  header_added : (op : Operation) → has_header (add_header op) ≡ true
  header_added op =
      any-append_last (is_version_header to_lowercase name) _ op.parameters
        (rw (eq_refl (to_lowercase name)))

module _ (name : String) where
  abbrev has_query : Operation → Bool
  has_query op = any (is_version_query name) op.parameters

  abbrev add_query : Operation → Operation
  add_query op = record op {
    parameters = op.parameters ++ version_param name ParamLocation.query false ∷ [];
  }

  query_added : (op : Operation) → has_query (add_query op) ≡ true
  query_added op = any-append_last (is_version_query name) _ op.parameters (rw (eq_refl name))

-- What each strategy asks of an operation.
abbrev pub IsVersioned : (String → String) → VersioningConfig → Operation → Type 0
IsVersioned to_lowercase config op = elim (config.strategy) [
  | VersionStrategy.url_path ↦ elim (config.prefix) [
    | Option.none ↦ Unit
    | Option.some prefix ↦ IsPrefix ("/" ⊕ prefix) op.path
  ]
  | VersionStrategy.header ↦
      Any
        (λ p.
          (to_lowercase p.name ≡ to_lowercase (unwrap_or config.header_name "API-Version"))
          × (p.location ≡ ParamLocation.header))
        op.parameters
  | VersionStrategy.query_param ↦
      Any (λ p. (p.name ≡ unwrap_or config.prefix "version") × (p.location ≡ ParamLocation.query))
        op.parameters
  | VersionStrategy.none ↦ Unit
]

is_header_iff : (l : ParamLocation) → (is_header l ≡ true) ↔ (l ≡ ParamLocation.header)
is_header_iff l = ground arith

is_query_iff : (l : ParamLocation) → (is_query l ≡ true) ↔ (l ≡ ParamLocation.query)
is_query_iff l = ground arith

module _ (to_lowercase : String → String) where
  -- One operation, by the strategy and the optional prefix.
  version_operation-IsVersioned :
      (s : VersionStrategy) (prefix header_name : Option String) (op : Operation)
      → let config : VersioningConfig = record {
        strategy = s;
        prefix = prefix;
        header_name = header_name;
      } in
        IsVersioned to_lowercase config (version_operation to_lowercase config op)
        × (version_operation to_lowercase config (version_operation to_lowercase config op)
            ≡ version_operation to_lowercase config op)
  unfolding version_operation prefix_operation header_operation query_operation
  version_operation-IsVersioned VersionStrategy.url_path Option.none h op = (tt, refl)
  version_operation-IsVersioned VersionStrategy.url_path (Option.some prefix) h op = (
    (starts_with_iff _ _).0
        (ensured (has_prefix prefix) (add_prefix prefix) (prefix_added prefix) op),
    ensure_idem (has_prefix prefix) (add_prefix prefix) (prefix_added prefix) op,
  )
  version_operation-IsVersioned VersionStrategy.header prefix h op =
      let name = unwrap_or h "API-Version" in
      let test = has_header to_lowercase name in
      let add = add_header to_lowercase name in
      let added = header_added to_lowercase name in
      (
        Any-mono _
            (λ p e.
              let (named, placed) = (and-eq-true_iff _ _).0 e in
              ((eq_iff _ _).0 named, (is_header_iff p.location).0 placed))
            ((any_iff _ _).0 (ensured test add added op)),
        ensure_idem test add added op,
      )
  version_operation-IsVersioned VersionStrategy.query_param prefix h op =
      let name = unwrap_or prefix "version" in
      (
        Any-mono _
            (λ p e.
              let (named, placed) = (and-eq-true_iff _ _).0 e in
              ((eq_iff _ _).0 named, (is_query_iff p.location).0 placed))
            ((any_iff _ _).0 (ensured (has_query name) (add_query name) (query_added name) op)),
        ensure_idem (has_query name) (add_query name) (query_added name) op,
      )
  version_operation-IsVersioned VersionStrategy.none prefix h op = (tt, refl)

-- An operation without what a version may change.
abbrev pub core : Operation → Operation
core op = record op { path = ""; parameters = [] }

module _ (to_lowercase : String → String) where
  version_operation-core :
      (s : VersionStrategy) (prefix header_name : Option String) (op : Operation)
      → let config : VersioningConfig = record {
        strategy = s;
        prefix = prefix;
        header_name = header_name;
      } in
        core (version_operation to_lowercase config op) ≡ core op
  unfolding version_operation prefix_operation header_operation query_operation
  version_operation-core VersionStrategy.url_path Option.none h op = refl
  version_operation-core VersionStrategy.url_path (Option.some prefix) h op =
      elim (Bool-cases (has_prefix prefix op)) [ inl e ↦ rw e | inr e ↦ rw e ]
  version_operation-core VersionStrategy.header prefix h op =
      let name = unwrap_or h "API-Version" in
      elim (Bool-cases (has_header to_lowercase name op)) [ inl e ↦ rw e | inr e ↦ rw e ]
  version_operation-core VersionStrategy.query_param prefix h op =
      let name = unwrap_or prefix "version" in
      elim (Bool-cases (has_query name op)) [ inl e ↦ rw e | inr e ↦ rw e ]
  version_operation-core VersionStrategy.none prefix h op = refl

  module _ (config : VersioningConfig) where
    each-IsVersioned :
        (ops : List Operation)
        → All
            (IsVersioned to_lowercase config)
            (map_list (version_operation to_lowercase config) ops)
    each-IsVersioned [] = tt
    each-IsVersioned (op ∷ ops) = (
      (version_operation-IsVersioned to_lowercase config.strategy config.prefix config.header_name
          op).0,
      each-IsVersioned ops,
    )

    each_idem :
        (ops : List Operation)
        → map_list
            (version_operation to_lowercase config)
            (map_list (version_operation to_lowercase config) ops)
          ≡ map_list (version_operation to_lowercase config) ops
    each_idem [] = refl
    each_idem (op ∷ ops) = cc (
      (version_operation-IsVersioned to_lowercase config.strategy config.prefix config.header_name
          op).1,
      each_idem ops,
    )

    each-core :
        (ops : List Operation)
        → map_list core (map_list (version_operation to_lowercase config) ops) ≡ map_list core ops
    each-core [] = refl
    each-core (op ∷ ops) =
        cc (
          version_operation-core config.strategy config.prefix config.header_name op,
          each-core ops,
        )

-- After `apply_versioning` every operation is versioned as the strategy asks (by path, its path
-- begins with "/" and the prefix, if one is given; by header or by query, it has the version
-- parameter there), and nothing of an operation but its path and its parameters has changed.
pub apply_versioning-IsVersioned :
    (to_lowercase : String → String) (doc : Document) (config : VersioningConfig)
    → All (IsVersioned to_lowercase config) (apply_versioning to_lowercase doc config).operations
      × (map_list core (apply_versioning to_lowercase doc config).operations
          ≡ map_list core doc.operations)
unfolding apply_versioning
apply_versioning-IsVersioned to_lowercase doc config = (
  each-IsVersioned to_lowercase config doc.operations,
  each-core to_lowercase config doc.operations,
)

-- Applying the same versioning a second time changes nothing.
pub apply_versioning_idem :
    (to_lowercase : String → String) (doc : Document) (config : VersioningConfig)
    → apply_versioning to_lowercase (apply_versioning to_lowercase doc config) config
      ≡ apply_versioning to_lowercase doc config
unfolding apply_versioning
apply_versioning_idem to_lowercase doc config = rw (each_idem to_lowercase config doc.operations)
