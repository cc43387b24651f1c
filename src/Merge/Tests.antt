-- ===== src/Merge/Tests.antt =====
-- Runs of crates/specforge-core/src/merge.rs on two small specs.
use specforge_openapi_sdk_co.Prelude.{
  ℕ, String, ◌≡◌, refl, Bool, true, false, List, ◌++◌, All, In, none, some, [], ◌∷◌, insert, lookup,
}
use specforge_openapi_sdk_co.Json.{Json, Elems, elems, of_elems, Fields, fields, get}
use specforge_openapi_sdk_co.Merge.{
  Merged, set, change_at, insert_all, merge_objects, merge_key, ensure, ensure_components,
  merge_section, merge_tags, merge_unique, push_new, merge_into, merge_each, merge_specs,
}
use specforge_openapi_sdk_co.Merge.Laws.{
  DistinctKeys, get_in, or_else, merge_specs-keeps, merge_into-paths, merge_into-no_paths,
}
use specforge_openapi_sdk_co.Merge.Unique.{HasEqual, AddedNew, merge_into-servers}

abbrev never_equal : Json ℕ → Json ℕ → Bool
never_equal a b = false

abbrev pets : Fields ℕ
pets = Fields.field "/pets" (Json.number 1) (Fields.field "/toys" (Json.number 2) Fields.end)

abbrev toys : Fields ℕ
toys = Fields.field "/toys" (Json.number 3) Fields.end

abbrev spec : String → Fields ℕ → Json ℕ
spec title paths =
    Json.object (
      Fields.field "info" (Json.string title) (Fields.field "paths" (Json.object paths) Fields.end))

abbrev bare : Json ℕ
bare = Json.object (Fields.field "info" (Json.string "Bare") Fields.end)

-- The later spec's path replaces the earlier one's in its place, and the first spec's title stays.
merge_run :
    merge_specs never_equal (spec "Pets" pets ∷ spec "Toys" toys ∷ [])
    ≡ Merged.ok (
        spec "Pets"
          (Fields.field "/pets" (Json.number 1) (Fields.field "/toys" (Json.number 3) Fields.end)))
unfolding merge_specs merge_each merge_into merge_key merge_section ensure_components ensure
    change_at merge_objects insert_all set merge_tags merge_unique push_new get insert lookup
merge_run = refl

merge_specs-keeps_example :
    (merged : Json ℕ) × (merge_specs never_equal (spec "Pets" pets ∷ spec "Toys" toys ∷ [])
      ≡ Merged.ok merged)
    × (get merged "info" ≡ get (spec "Pets" pets) "info")
merge_specs-keeps_example =
    merge_specs-keeps never_equal (spec "Pets" pets) (spec "Toys" toys ∷ []) "info" refl

in_spec :
    (title : String) (paths : Fields ℕ) → get (spec title paths) "paths" ≡ some (Json.object paths)
unfolding get lookup
in_spec title paths = refl

toys_distinct : DistinctKeys (fields toys)
unfolding lookup
toys_distinct = (refl, tt)

merge_into-paths_example :
    get_in (get (merge_into never_equal (spec "Pets" pets) (spec "Toys" toys)) "paths") "/toys"
    ≡ or_else
        (get_in (get (spec "Toys" toys) "paths") "/toys")
        (get_in (get (spec "Pets" pets) "paths") "/toys")
merge_into-paths_example =
    merge_into-paths never_equal (spec "Pets" pets) (spec "Toys" toys) pets toys "/toys"
      (in_spec "Pets" pets) (in_spec "Toys" toys) toys_distinct

bare_paths : get bare "paths" ≡ none
unfolding get lookup
bare_paths = refl

merge_into-no_paths_example : get (merge_into never_equal bare (spec "Toys" toys)) "paths" ≡ none
merge_into-no_paths_example = merge_into-no_paths never_equal bare (spec "Toys" toys) bare_paths

abbrev two_servers : Elems ℕ
two_servers = Elems.cons (Json.number 1) (Elems.cons (Json.number 2) Elems.nil)

abbrev served : Json ℕ
served = Json.object (Fields.field "servers" (Json.array two_servers) Fields.end)

abbrev always_equal : Json ℕ → Json ℕ → Bool
always_equal a b = true

in_served : get served "servers" ≡ some (Json.array two_servers)
unfolding get lookup
in_served = refl

merge_into-servers_example :
    (added : List (Json ℕ)) × (get (merge_into always_equal served served) "servers"
      ≡ some (Json.array (of_elems (elems two_servers ++ added))))
    × AddedNew always_equal (elems two_servers) added
    × All (λ v. In v (elems two_servers)) added
    × All (HasEqual always_equal (elems two_servers ++ added)) (elems two_servers)
merge_into-servers_example =
    merge_into-servers always_equal served served two_servers two_servers (λ v. refl) in_served
      in_served
