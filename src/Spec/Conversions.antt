-- ===== src/Spec/Conversions.antt =====
-- Where the conversions of crates/specforge-core/src/spec.rs write, and what they take away.
use specforge_openapi_sdk_co.Prelude.{
  ◌≡◌, refl, String, true, false, Option, none, some, List, [], ◌∷◌, ◌==◌, lookup, insert, remove,
  Option-cases, inl, inr, lookup-insert, lookup-insert_self, lookup-remove, ◌∙◌,
}
use specforge_openapi_sdk_co.Json.{Json, Elems}
use specforge_openapi_sdk_co.Spec.{
  Entries, require_in, require_all, bound_found, convert_bound, convert_const, dependent_found,
  convert_dependent, first_item, convert_prefix,
}
use specforge_openapi_sdk_co.Spec.Features.{holds_number}

module _ {N : Type 0} where
  lookup-insert_other :
      (a key : String) (v : Json N) (es : Entries N)
      → (a == key) ≡ false
      → lookup key (insert a v es) ≡ lookup key es
  lookup-insert_other a key v es e = lookup-insert a key v es ∙ rw e refl

  lookup-remove_other :
      (a key : String) (es : Entries N)
      → (a == key) ≡ false
      → lookup key (remove a es) ≡ lookup key es
  lookup-remove_other a key es e = lookup-remove a key es ∙ rw e refl

  pub convert_bound-other :
      (field : String) (es : Entries N) (key : String)
      → (field == key) ≡ false
      → (field == key) ≡ false
      → lookup key (convert_bound field es) ≡ lookup key es
  unfolding convert_bound
  convert_bound-other field es key e f = elsewhere (lookup field es)
    where
      elsewhere : (o : Option (Json N)) → lookup key (bound_found field o es) ≡ lookup key es
      elsewhere (some (Json.number n)) = lookup-insert_other field key _ es e
      elsewhere none = refl
      elsewhere (some Json.null) = refl
      elsewhere (some (Json.bool b)) = refl
      elsewhere (some (Json.string s)) = refl
      elsewhere (some (Json.array vs)) = refl
      elsewhere (some (Json.object fs)) = refl

  pub convert_const-other :
      (es : Entries N) (key : String)
      → ("enum" == key) ≡ false
      → ("const" == key) ≡ false
      → lookup key (convert_const es) ≡ lookup key es
  unfolding convert_const
  convert_const-other es key e f = elim (Option-cases (lookup "const" es)) [
    | inl missing ↦ rw missing refl
    | inr (v, found) ↦
        rw found (lookup-insert_other "enum" key _ _ e ∙ lookup-remove_other "const" key es f)
  ]

  require_all-other :
      (extra : List String) (es : Entries N) (key : String)
      → ("required" == key) ≡ false
      → lookup key (require_all extra es) ≡ lookup key es
  require_all-other [] es key e = refl
  require_all-other (dep ∷ deps) es key e = elsewhere (lookup "required" es)
    where
      elsewhere : (o : Option (Json N)) → lookup key (require_in (dep ∷ deps) o es) ≡ lookup key es
      elsewhere none = lookup-insert_other "required" key _ es e
      elsewhere (some (Json.array vs)) = lookup-insert_other "required" key _ es e
      elsewhere (some (Json.number n)) = refl
      elsewhere (some Json.null) = refl
      elsewhere (some (Json.bool b)) = refl
      elsewhere (some (Json.string s)) = refl
      elsewhere (some (Json.object fs)) = refl

  -- After it, nothing is at `dependentRequired`, and the rest but `required` is as before.
  dependent_found-lookup :
      (deps : Json N) (es : Entries N) (key : String)
      → ("required" == key) ≡ false
      → lookup key (dependent_found (some deps) es) ≡ lookup key (remove "dependentRequired" es)
  dependent_found-lookup (Json.object deps) es key e = require_all-other _ _ key e
  dependent_found-lookup Json.null es key e = refl
  dependent_found-lookup (Json.bool b) es key e = refl
  dependent_found-lookup (Json.number n) es key e = refl
  dependent_found-lookup (Json.string s) es key e = refl
  dependent_found-lookup (Json.array vs) es key e = refl

  pub convert_dependent-other :
      (es : Entries N) (key : String)
      → ("required" == key) ≡ false
      → ("dependentRequired" == key) ≡ false
      → lookup key (convert_dependent es) ≡ lookup key es
  unfolding convert_dependent
  convert_dependent-other es key e f = elim (Option-cases (lookup "dependentRequired" es)) [
    | inl missing ↦ rw missing refl
    | inr (v, found) ↦
        rw found
          (dependent_found-lookup v es key e ∙ lookup-remove_other "dependentRequired" key es f)
  ]

  first_item-other :
      (p : Json N) (es : Entries N) (key : String)
      → ("items" == key) ≡ false
      → lookup key (first_item p es) ≡ lookup key es
  first_item-other (Json.array (Elems.cons v vs)) es key e = lookup-insert_other "items" key v es e
  first_item-other (Json.array Elems.nil) es key e = refl
  first_item-other (Json.object fs) es key e = refl
  first_item-other Json.null es key e = refl
  first_item-other (Json.bool b) es key e = refl
  first_item-other (Json.number n) es key e = refl
  first_item-other (Json.string s) es key e = refl

  pub convert_prefix-other :
      (es : Entries N) (key : String)
      → ("items" == key) ≡ false
      → ("prefixItems" == key) ≡ false
      → lookup key (convert_prefix es) ≡ lookup key es
  unfolding convert_prefix
  convert_prefix-other es key e f = elim (Option-cases (lookup "prefixItems" es)) [
    | inl missing ↦ rw missing refl
    | inr (p, found) ↦
        rw found (first_item-other p _ key e ∙ lookup-remove_other "prefixItems" key es f)
  ]

  -- What each conversion leaves at its own key.
  pub convert_prefix-gone : (es : Entries N) → lookup "prefixItems" (convert_prefix es) ≡ none
  unfolding convert_prefix
  convert_prefix-gone es = elim (Option-cases (lookup "prefixItems" es)) [
    | inl missing ↦ rw missing missing
    | inr (p, found) ↦
        rw found
          (first_item-other p _ "prefixItems" refl ∙ lookup-remove "prefixItems" "prefixItems" es)
  ]

  pub convert_dependent-gone :
      (es : Entries N) → lookup "dependentRequired" (convert_dependent es) ≡ none
  unfolding convert_dependent
  convert_dependent-gone es = elim (Option-cases (lookup "dependentRequired" es)) [
    | inl missing ↦ rw missing missing
    | inr (v, found) ↦ rw found (
        dependent_found-lookup v es "dependentRequired" refl
        ∙ lookup-remove "dependentRequired" "dependentRequired" es)
  ]

  pub convert_const-gone : (es : Entries N) → lookup "const" (convert_const es) ≡ none
  unfolding convert_const
  convert_const-gone es = elim (Option-cases (lookup "const" es)) [
    | inl missing ↦ rw missing missing
    | inr (v, found) ↦ rw found (
        lookup-insert_other "enum" "const" (Json.array (Elems.cons v Elems.nil)) (remove "const" es)
          refl
        ∙ lookup-remove "const" "const" es)
  ]

  pub convert_bound-gone :
      (field : String) (es : Entries N)
      → holds_number (lookup field (convert_bound field es)) ≡ false
  unfolding convert_bound
  convert_bound-gone field es = elim (Option-cases (lookup field es)) [
    | inl missing ↦ rw (missing, missing) refl
    | inr (v, found) ↦ rw found (gone v found)
  ]
    where
      gone :
          (v : Json N)
          → lookup field es ≡ some v
          → holds_number (lookup field (bound_found field (some v) es)) ≡ false
      gone (Json.number n) found = rw (lookup-insert_self field (Json.bool true) es) refl
      gone Json.null found = rw found refl
      gone (Json.bool b) found = rw found refl
      gone (Json.string s) found = rw found refl
      gone (Json.array vs) found = rw found refl
      gone (Json.object fs) found = rw found refl
