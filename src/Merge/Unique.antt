-- ===== src/Merge/Unique.antt =====
-- What "append unique" does to the servers in crates/specforge-core/src/merge.rs.
use specforge_openapi_sdk_co.Prelude.{
  ◌≡◌, refl, Bool, true, some, List, [], ◌∷◌, ◌++◌, list_laws, ◌∙◌, any, any_iff, if◌then◌else◌,
  All, Any, In, Any-append, Bool-cases, inl, inr,
}
use specforge_openapi_sdk_co.Json.{Json, Elems, elems, of_elems, get}
use specforge_openapi_sdk_co.Merge.{merge_objects, merge_tags, push_new, merge_unique, merge_into}
use specforge_openapi_sdk_co.Merge.Laws.{
  get-merge_key, get-merge_section, get-ensure_components, merge_key_here,
}

All-later :
    {A : Type 0} (x : A) (xs added : List A)
    → All (λ v. In v xs) added
    → All (λ v. In v (x ∷ xs)) added
All-later x xs [] h = tt
All-later x xs (v ∷ vs) h = (inr h.0, All-later x xs vs h.1)

module _ {N : Type 0} (equal : Json N → Json N → Bool) where
  -- The list has an entry that counts as equal.
  abbrev pub HasEqual : List (Json N) → Json N → Type 0
  HasEqual t entry = Any (λ v. equal v entry ≡ true) t

  -- Entries added one after another: each has no equal in the list as it is then.
  abbrev pub AddedNew : List (Json N) → List (Json N) → Type 0
  AddedNew t [] = Unit
  AddedNew t (entry ∷ added) = (¬ HasEqual t entry) × AddedNew (t ++ entry ∷ []) added

  push_new-append :
      (s t : List (Json N))
      → (added : List (Json N)) × (push_new equal s t ≡ t ++ added)
        × AddedNew t added
        × All (λ v. In v s) added
  unfolding push_new
  push_new-append [] t = ([], simp list_laws, tt, tt)
  push_new-append (entry ∷ s) t = elim (Bool-cases (any (λ v. equal v entry) t)) [
    | inl e ↦
        let (added, same, fresh, from) = push_new-append s t in
        (added, rw (e, push_new) same, fresh, All-later entry s added from)
    | inr e ↦
        let (added, same, fresh, from) = push_new-append s (t ++ entry ∷ []) in
        (
          entry ∷ added,
          rw (e, push_new) (simp (same, list_laws)),
          (λ h. absurd (cc (e, (any_iff (λ v. equal v entry) t).1 h)), fresh),
          (inl refl, All-later entry s added from),
        )
  ]

  push_new-HasEqual_more :
      (s t : List (Json N)) (entry : Json N)
      → HasEqual t entry
      → HasEqual (push_new equal s t) entry
  push_new-HasEqual_more s t entry h =
      let (added, same, fresh, from) = push_new-append s t in
      rw same ((Any-append (λ v. equal v entry ≡ true) t added).1 (inl h))

  -- One round: an entry that the list lacks is pushed.
  abbrev pushed : List (Json N) → Json N → List (Json N)
  pushed t entry = if any (λ v. equal v entry) t then t else t ++ entry ∷ []

  pushed-HasEqual :
      ((v : Json N) → equal v v ≡ true)
      → (t : List (Json N)) (entry : Json N) → HasEqual (pushed t entry) entry
  pushed-HasEqual reflexive t entry = elim (Bool-cases (any (λ v. equal v entry) t)) [
    | inl e ↦ rw e ((any_iff (λ v. equal v entry) t).0 e)
    | inr e ↦
        rw e
          ((Any-append (λ v. equal v entry ≡ true) t (entry ∷ [])).1 (inr (inl (reflexive entry))))
  ]

  push_new-HasEqual :
      ((v : Json N) → equal v v ≡ true)
      → (s t : List (Json N)) → All (HasEqual (push_new equal s t)) s
  unfolding push_new
  push_new-HasEqual reflexive [] t = tt
  push_new-HasEqual reflexive (entry ∷ s) t = (
    push_new-HasEqual_more s (pushed t entry) entry (pushed-HasEqual reflexive t entry),
    push_new-HasEqual reflexive s (pushed t entry),
  )

  get_servers :
      (target source : Json N) (t s : Elems N)
      → get target "servers" ≡ some (Json.array t)
      → get source "servers" ≡ some (Json.array s)
      → get (merge_into equal target source) "servers"
        ≡ some (Json.array (of_elems (push_new equal (elems s) (elems t))))
  unfolding merge_into merge_unique
  get_servers target source t s in_target in_source =
      let before =
        get-merge_key "security" "servers" (merge_unique equal) source _ refl
        ∙ get-merge_key "tags" "servers" merge_tags source _ refl
        ∙ get-merge_section "securitySchemes" "servers" source _ refl
        ∙ get-merge_section "schemas" "servers" source _ refl
        ∙ get-ensure_components "servers" source _ refl
        ∙ get-merge_key "paths" "servers" merge_objects source target refl
        ∙ in_target in
      merge_key_here "servers" (merge_unique equal) source _ (Json.array s) (Json.array t) in_source
        before

-- If both specs have lists of servers, those of the merged spec are the target's, in their order,
-- and then some of the source's: each of these has no equal among the servers before it, and each
-- server of the source has an equal in the merged list.
pub merge_into-servers :
    {N : Type 0} (equal : Json N → Json N → Bool) (target source : Json N) (t s : Elems N)
    → ((v : Json N) → equal v v ≡ true)
    → get target "servers" ≡ some (Json.array t)
    → get source "servers" ≡ some (Json.array s)
    → (added : List (Json N)) × (get (merge_into equal target source) "servers"
        ≡ some (Json.array (of_elems (elems t ++ added))))
      × AddedNew equal (elems t) added
      × All (λ v. In v (elems s)) added
      × All (HasEqual equal (elems t ++ added)) (elems s)
merge_into-servers equal target source t s reflexive in_target in_source =
    let (added, same, fresh, from) = push_new-append equal (elems s) (elems t) in
    (
      added,
      rw (← same) (get_servers equal target source t s in_target in_source),
      fresh,
      from,
      rw (← same) (push_new-HasEqual equal reflexive (elems s) (elems t)),
    )
