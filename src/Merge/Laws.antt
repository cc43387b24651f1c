-- ===== src/Merge/Laws.antt =====
-- What the merging of crates/specforge-core/src/merge.rs keeps and takes over.
use specforge_openapi_sdk_co.Prelude.{
  subst, String, ◌≡◌, refl, Bool, false, Option, none, some, List, [], ◌∷◌, ◌==◌, ◌∙◌, any, lookup,
  insert, lookup-insert, Bool-cases, Option-cases, eq_iff, eq_refl, arith, inl, inr, ap, is_none,
  is_some,
}
use specforge_openapi_sdk_co.Json.{Json, Fields, fields, of_fields, get}
use specforge_openapi_sdk_co.Merge.{
  Merged, set, change_at, insert_all, merge_objects, merge_key, ensure, ensure_components,
  merge_section, merge_tags, merge_unique, merge_into, merge_each, merge_specs,
}

abbrev pub or_else : {A : Type 0} → Option A → Option A → Option A
or_else none b = b
or_else (some a) b = some a

-- No two entries have one key, as in a `serde_json::Map`.
abbrev pub DistinctKeys : {V : Type 0} → List (String × V) → Type 0
DistinctKeys [] = Unit
DistinctKeys ((k, v) ∷ m) = (lookup k m ≡ none) × DistinctKeys m

-- The keys of a spec that are merged.
abbrev pub merged_keys : List String
merged_keys = "paths" ∷ "components" ∷ "tags" ∷ "security" ∷ "servers" ∷ []

module _ {N : Type 0} where
  pub fields-of_fields : (xs : List (String × Json N)) → fields (of_fields xs) ≡ xs
  fields-of_fields [] = refl
  fields-of_fields ((k, v) ∷ xs) = ap (λ t. (k, v) ∷ t) (fields-of_fields xs)

  get-set : (k j : String) (v t : Json N) → (k == j) ≡ false → get (set k v t) j ≡ get t j
  unfolding get set
  get-set k j v (Json.object fs) e =
      rw (fields-of_fields (insert k v (fields fs)), lookup-insert k j v (fields fs), e) refl
  get-set k j v _ e = refl

  get-change_at :
      (k j : String) (f : Json N → Json N) (t : Json N)
      → (k == j) ≡ false
      → get (change_at k f t) j ≡ get t j
  unfolding change_at
  get-change_at k j f t e = elim (Option-cases (get t k)) [
    | inl missing ↦ rw missing refl
    | inr (v, found) ↦ rw found (get-set k j (f v) t e)
  ]

  -- The changed value stands at its key.
  pub change_at_here :
      (k : String) (f : Json N → Json N) (t v : Json N)
      → get t k ≡ some v
      → get (change_at k f t) k ≡ some (f v)
  unfolding change_at get set
  change_at_here k f (Json.object fs) v found =
      rw
        (
          found,
          fields-of_fields (insert k (f v) (fields fs)),
          lookup-insert k k (f v) (fields fs),
          eq_refl k,
        )
        refl
  change_at_here k f Json.null v found = absurd (cc)
  change_at_here k f (Json.bool b) v found = absurd (cc)
  change_at_here k f (Json.number n) v found = absurd (cc)
  change_at_here k f (Json.string s) v found = absurd (cc)
  change_at_here k f (Json.array vs) v found = absurd (cc)

  pub get-merge_key :
      (k j : String) (merge : Json N → Json N → Json N) (s t : Json N)
      → (k == j) ≡ false
      → get (merge_key k merge s t) j ≡ get t j
  unfolding merge_key
  get-merge_key k j merge s t e = elim (Option-cases (get s k)) [
    | inl missing ↦ rw missing refl
    | inr (v, found) ↦ rw found (get-change_at k j (merge v) t e)
  ]

  -- Where both specs have the key, the merged value stands there.
  pub merge_key_here :
      (k : String) (merge : Json N → Json N → Json N) (s t w v : Json N)
      → get s k ≡ some w
      → get t k ≡ some v
      → get (merge_key k merge s t) k ≡ some (merge w v)
  unfolding merge_key
  merge_key_here k merge s t w v in_source in_target =
      rw in_source (change_at_here k (merge w) t v in_target)

  pub get-ensure_components :
      (j : String) (s t : Json N)
      → ("components" == j) ≡ false
      → get (ensure_components s t) j ≡ get t j
  unfolding ensure_components ensure
  get-ensure_components j s t e = elim (Bool-cases (is_some (get s "components"))) [
    | inl has ↦ rw has (elim (Bool-cases (is_none (get t "components"))) [
      | inl lacks ↦ rw lacks (get-set "components" j _ t e)
      | inr kept ↦ rw kept refl
    ])
    | inr bare ↦ rw bare refl
  ]

  pub get-merge_section :
      (section j : String) (s t : Json N)
      → ("components" == j) ≡ false
      → get (merge_section section s t) j ≡ get t j
  unfolding merge_section
  get-merge_section section j s t e = elim (Option-cases (get s "components")) [
    | inl bare ↦ rw bare refl
    | inr (c, has) ↦ rw has (elim (Option-cases (get c section)) [
      | inl missing ↦ rw missing refl
      | inr (v, found) ↦ rw found (get-change_at "components" j _ t e)
    ])
  ]

  lookup-insert_all :
      (s t : List (String × Json N)) (j : String)
      → DistinctKeys s
      → lookup j (insert_all s t) ≡ or_else (lookup j s) (lookup j t)
  unfolding insert_all lookup
  lookup-insert_all [] t j d = refl
  lookup-insert_all ((k, v) ∷ s) t j (new, d) =
      lookup-insert_all s (insert k v t) j d
      ∙ rw (lookup-insert k j v t) (elim (Bool-cases (k == j)) [
        | inl e ↦ rw (e, subst (λ i. lookup i s ≡ none) ((eq_iff k j).0 e) new) refl
        | inr e ↦ rw e refl
      ])

  -- The entry at a key of the value at another, such as a path of the paths.
  abbrev pub get_in : Option (Json N) → String → Option (Json N)
  get_in none key = none
  get_in (some v) key = get v key

  get-merge_objects :
      (s t : Fields N) (j : String)
      → DistinctKeys (fields s)
      → get (merge_objects (Json.object s) (Json.object t)) j
        ≡ or_else (lookup j (fields s)) (lookup j (fields t))
  unfolding merge_objects get
  get-merge_objects s t j d =
      rw (fields-of_fields (insert_all (fields s) (fields t)))
        (lookup-insert_all (fields s) (fields t) j d)

  module _ (equal : Json N → Json N → Bool) where
    -- After the paths, no stage touches them.
    get_paths :
        (target source : Json N)
        → get (merge_into equal target source) "paths"
          ≡ get (merge_key "paths" merge_objects source target) "paths"
    unfolding merge_into
    get_paths target source =
        get-merge_key "servers" "paths" (merge_unique equal) source _ refl
        ∙ get-merge_key "security" "paths" (merge_unique equal) source _ refl
        ∙ get-merge_key "tags" "paths" merge_tags source _ refl
        ∙ get-merge_section "securitySchemes" "paths" source _ refl
        ∙ get-merge_section "schemas" "paths" source _ refl
        ∙ get-ensure_components "paths" source _ refl

    merge_into-keeps :
        (target source : Json N) (key : String)
        → any (λ k. k == key) merged_keys ≡ false
        → get (merge_into equal target source) key ≡ get target key
    unfolding merge_into
    merge_into-keeps target source key e =
        let components : ("components" == key) ≡ false = ground arith in
        get-merge_key "servers" key (merge_unique equal) source _ (ground arith)
        ∙ get-merge_key "security" key (merge_unique equal) source _ (ground arith)
        ∙ get-merge_key "tags" key merge_tags source _ (ground arith)
        ∙ get-merge_section "securitySchemes" key source _ components
        ∙ get-merge_section "schemas" key source _ components
        ∙ get-ensure_components key source _ components
        ∙ get-merge_key "paths" key merge_objects source _ (ground arith)

    merge_each-keeps :
        (merged : Json N) (specs : List (Json N)) (key : String)
        → any (λ k. k == key) merged_keys ≡ false
        → get (merge_each equal merged specs) key ≡ get merged key
    unfolding merge_each
    merge_each-keeps merged [] key e = refl
    merge_each-keeps merged (spec ∷ specs) key e =
        merge_each-keeps (merge_into equal merged spec) specs key e
        ∙ merge_into-keeps merged spec key e

-- The first spec wins outside the merged keys: merging at least one spec gives a spec that has at
-- any key but "paths", "components", "tags", "security" and "servers" what the first has there.
pub merge_specs-keeps :
    {N : Type 0} (equal : Json N → Json N → Bool) (first : Json N) (specs : List (Json N))
    (key : String)
    → any (λ k. k == key) merged_keys ≡ false
    → (merged : Json N) × (merge_specs equal (first ∷ specs) ≡ Merged.ok merged)
      × (get merged key ≡ get first key)
unfolding merge_specs
merge_specs-keeps equal first specs key e =
    (merge_each equal first specs, refl, merge_each-keeps equal first specs key e)

-- If both specs have an object of paths, the source's without repetition, then a path of the
-- merged spec is the source's, or if the source has none the target's.
pub merge_into-paths :
    {N : Type 0} (equal : Json N → Json N → Bool) (target source : Json N) (t s : Fields N)
    (path : String)
    → get target "paths" ≡ some (Json.object t)
    → get source "paths" ≡ some (Json.object s)
    → DistinctKeys (fields s)
    → get_in (get (merge_into equal target source) "paths") path
      ≡ or_else (get_in (get source "paths") path) (get_in (get target "paths") path)
unfolding merge_key get
merge_into-paths equal target source t s path in_target in_source d =
    rw
      (
        get_paths equal target source,
        in_source,
        in_target,
        change_at_here "paths" (merge_objects (Json.object s)) target (Json.object t) in_target,
      )
      (get-merge_objects s t path d)

-- If the target has no paths, the merged spec has none, whatever paths the source has.
pub merge_into-no_paths :
    {N : Type 0} (equal : Json N → Json N → Bool) (target source : Json N)
    → get target "paths" ≡ none
    → get (merge_into equal target source) "paths" ≡ none
unfolding merge_key change_at
merge_into-no_paths equal target source bare =
    rw (get_paths equal target source) (elim (Option-cases (get source "paths")) [
      | inl missing ↦ rw missing bare
      | inr (v, found) ↦ rw (found, bare) bare
    ])
