-- ===== src/Analyzer/Unused.antt =====
-- The unused schemas that crates/specforge-core/src/analyzer.rs reports are those that no chain of
-- references leads to.
use specforge_openapi_sdk_co.Prelude.{
  In-select_iff, iff_and, iff_trans, ℕ, zero, suc, ◌<◌, ◌≤◌, String, ◌≡◌, refl, ◌↔◌, ◌⊎◌, Bool,
  true, false, not, some, List, [], ◌∷◌, In, Any, ◌==◌, Order, HasKey, keys-In_iff, Bool-cases,
  arith, inl, inr, length, select, keys, for_each, subst, Any-In, Any-of_In, Any-append, lookup,
}
use specforge_openapi_sdk_co.Ir.{Model, get_model, Document}
use specforge_openapi_sdk_co.Analyzer.{
  contains, visit_each, close, referenced_directly, unused_of, unused_schemas,
  collect_refs_from_model,
}
use specforge_openapi_sdk_co.Analyzer.Mentions.{
  Some, ModelMentions, DocumentMentions, contains_iff, model-Adds, referenced_directly_iff,
}
use specforge_openapi_sdk_co.Analyzer.Rounds.{
  missing, Progress, Refers, visit_each-In_iff, visit_each-Progress,
}

-- A chain of references leads from a request or response body to the name.
pub data Reachable (order : Order) (doc : Document) : String → Type 0 where
  body : {x : String} → DocumentMentions doc x → Reachable order doc x
  schema :
      {name x : String}
      → Reachable order doc name
      → Refers order doc.schemas name x
      → Reachable order doc x

module _ (order : Order) (doc : Document) (all : List String)
    (whole : (name x : String) → Refers order doc.schemas name x → In x all) where
  abbrev Sound : List String → Type 0
  Sound s = (x : String) → In x s → Reachable order doc x

  abbrev Closed : List String → Type 0
  Closed s = (name x : String) → In name s → Refers order doc.schemas name x → In x s

  abbrev Grows : List String → List String → Type 0
  Grows s t = (x : String) → In x s → In x t

  abbrev round : List String → List String × Bool
  round s = visit_each order doc.schemas (order.arrange s) (s, false)

  round-In_iff :
      (s : List String) (x : String)
      → In x (round s).0
        ↔ (In x s ⊎ Any (λ name. Refers order doc.schemas name x) (order.arrange s))
  round-In_iff s x = visit_each-In_iff order doc.schemas (order.arrange s) (s, false) x

  round-Sound : (s : List String) → Sound s → Sound (round s).0
  round-Sound s sound x m = elim ((round-In_iff s x).0 m) [
    | inl old ↦ sound x old
    | inr new ↦
        let (name, mem, refers) = Any-In (λ name. Refers order doc.schemas name x) _ new in
        Reachable.schema (sound name ((order.arrange-In name s).0 mem)) refers
  ]

  round-Progress : (s : List String) → Progress all (s, false) (round s)
  round-Progress s = visit_each-Progress order doc.schemas all whole (order.arrange s) (s, false)

  -- A round that says that it has changed nothing has found a closed set.
  round-Closed : (s : List String) → (round s).1 ≡ false → Closed (round s).0
  round-Closed s e name x m refers =
      let (kept, unset) = (round-Progress s).same e in
      (round-In_iff s x).1 (
        inr (
          Any-of_In (λ n. Refers order doc.schemas n x) _ name
            ((order.arrange-In name s).1 (subst (λ t. In name t) kept m)) refers))

  round-less : (s : List String) → (round s).1 ≡ true → missing all (round s).0 < missing all s
  round-less s e = elim ((round-Progress s).less e) [ inl set ↦ absurd (cc) | inr less ↦ less ]

  abbrev Closure : ℕ → List String → Type 0
  Closure fuel s =
      (t : List String) × (close order doc.schemas fuel s ≡ some t)
      × Grows s t
      × Closed t
      × (Sound s → Sound t)

  close-Closure : (fuel : ℕ) (s : List String) → missing all s < fuel → Closure fuel s
  unfolding close
  close-Closure zero s h = absurd (omega (arith, h))
  close-Closure (suc fuel) s h = elim (Bool-cases (round s).1) [
    | inl e ↦
        let (t, found, grows, closed, sound) =
          close-Closure fuel (round s).0 (omega (arith, h, round-less s e)) in
        (
          t,
          rw (e, close) found,
          λ x m. grows x ((round-In_iff s x).1 (inl m)),
          closed,
          λ h. sound (round-Sound s h),
        )
    | inr e ↦ (
      (round s).0,
      rw (e, close) refl,
      λ x m. (round-In_iff s x).1 (inl m),
      round-Closed s e,
      round-Sound s,
    )
  ]

  Reachable-In :
      (t : List String)
      → Grows (referenced_directly doc) t
      → Closed t
      → {x : String} → Reachable order doc x
      → In x t
  Reachable-In t grows closed (Reachable.body {x} mentions) =
      grows x ((referenced_directly_iff doc x).1 mentions)
  Reachable-In t grows closed (Reachable.schema {name} {x} reachable refers) =
      closed name x (Reachable-In t grows closed reachable) refers

-- All references of the schemas.
abbrev pub all_refs : List (String × Model) → List String
all_refs models = for_each (λ kv. collect_refs_from_model kv.1 []) models

all_refs-whole :
    (models : List (String × Model)) (name x : String)
    → Some (ModelMentions x) (lookup name models)
    → In x (all_refs models)
unfolding lookup
all_refs-whole [] name x h = absurd h
all_refs-whole ((here, m) ∷ models) name x h =
    (Any-append (λ y. y ≡ x) (collect_refs_from_model m []) _).1 (elim (Bool-cases (here == name)) [
      | inl e ↦ inl (((model-Adds m).adds [] x).1 (inr (rw e at h)))
      | inr e ↦ inr (all_refs-whole models name x (rw e at h))
    ])

missing-bounded : (all s : List String) → missing all s ≤ length all
missing-bounded [] s = omega arith
missing-bounded (u ∷ all) s = ground (arith, missing-bounded all s)

not_contained_iff :
    {P : Type 0} (t : List String) (x : String)
    → (In x t → P)
    → (P → In x t)
    → (not (contains t x) ≡ true) ↔ (¬ P)
not_contained_iff t x f g = elim (Bool-cases (contains t x)) [
  | inl e ↦ rw e (λ h. absurd (cc), λ h. absurd (h (f ((contains_iff t x).0 e))))
  | inr e ↦ rw e (λ h q. absurd (cc (e, (contains_iff t x).1 (g q))), λ h. refl)
]

-- On more fuel than the schemas have references, the search for unused schemas ends, and the names
-- that it gives are those of the schemas to which no chain of references leads from the body of a
-- request or response, whatever the order of the hash sets.
pub unused_schemas-Reachable_iff :
    (order : Order) (doc : Document) (fuel : ℕ)
    → length (all_refs doc.schemas.models) < fuel
    → (unused : List String) × (unused_schemas order fuel doc ≡ some unused)
      × ((name : String)
          → In name unused ↔ (HasKey name doc.schemas.models × (¬ Reachable order doc name)))
unfolding unused_schemas get_model
unused_schemas-Reachable_iff order doc fuel enough =
    let all = all_refs doc.schemas.models in
    let (t, found, grows, closed, sound) =
      close-Closure order doc all (all_refs-whole doc.schemas.models) fuel (referenced_directly doc)
        (omega (arith, enough, missing-bounded all (referenced_directly doc))) in
    (
      select (λ name. not (contains t name)) (keys doc.schemas.models),
      rw (found, unused_of) refl,
      λ name. iff_trans (In-select_iff (λ x. not (contains t x)) name (keys doc.schemas.models)) (
          iff_and (keys-In_iff name doc.schemas.models) (
            not_contained_iff t name
              (sound (λ x m. Reachable.body ((referenced_directly_iff doc x).0 m)) name)
              (Reachable-In order doc all (all_refs-whole doc.schemas.models) t grows closed))),
    )
