-- ===== src/Prelude/Dict.antt =====
-- `HashMap<String, V>`, `IndexMap<String, V>` and `serde_json::Map`: a list of entries with
-- distinct keys. What the program reads in an order that the map does not fix goes through an
-- `Order`.
use Prim.Native.String.{String}
use mathlib.Core.Path.{◌≡◌, refl, subst}
use mathlib.Core.Logic.{◌↔◌, inl, inr}
use mathlib.Core.Option.{Option, none, some}
use mathlib.Core.List.{List, [], ◌∷◌, ◌++◌}
use native.Mathlib.Omega.{arith}
use text.Mathlib.Text.{◌==◌}
use text.Mathlib.TextEquality.{eq_iff}
use text.Mathlib.TextPositions.{eq_refl}
use specforge_openapi_sdk_co.Prelude.Tests.{test_laws, if◌then◌else◌, Bool-cases}
use specforge_openapi_sdk_co.Prelude.Lists.{In, All}

module _ {ℓ} {V : Type ℓ} where
  unfoldable pub lookup : String → List (String × V) → Option V
  lookup key [] = none
  lookup key ((here, value) ∷ later) = if here == key then some value else lookup key later

  -- A key that is there keeps its place.
  unfoldable pub insert : String → V → List (String × V) → List (String × V)
  insert key value [] = (key, value) ∷ []
  insert key value ((here, old) ∷ later) =
      if here == key then (here, value) ∷ later else (here, old) ∷ insert key value later

  unfoldable pub keys : List (String × V) → List String
  keys [] = []
  keys ((j, w) ∷ m) = j ∷ keys m

  -- `Map::remove`, less the value that it returns.
  unfoldable pub remove : String → List (String × V) → List (String × V)
  remove key [] = []
  remove key ((here, value) ∷ later) =
      let rest = remove key later in if here == key then rest else (here, value) ∷ rest

  pub lookup-remove :
      (key asked : String) (entries : List (String × V))
      → lookup asked (remove key entries) ≡ (if key == asked then none else lookup asked entries)
  unfolding lookup remove
  lookup-remove key asked [] = ground arith
  lookup-remove key asked ((here, value) ∷ later) = grind (test_laws, lookup-remove key asked later)

  collect_into : List (String × V) → List (String × V) → List (String × V)
  collect_into m [] = m
  collect_into m ((k, v) ∷ xs) = collect_into (insert k v m) xs

  -- `iter().collect()`: a later entry replaces an earlier one with its key.
  unfoldable pub collect : List (String × V) → List (String × V)
  unfolding collect_into insert
  collect xs = collect_into [] xs

  pub lookup-insert :
      (key asked : String) (value : V) (entries : List (String × V))
      → lookup asked (insert key value entries)
        ≡ (if key == asked then some value else lookup asked entries)
  unfolding lookup insert
  lookup-insert key asked value [] = refl
  lookup-insert key asked value ((here, old) ∷ later) =
      grind (test_laws, lookup-insert key asked value later)

  pub lookup-insert_self :
      (k : String) (v : V) (m : List (String × V)) → lookup k (insert k v m) ≡ some v
  lookup-insert_self k v m = simp (lookup-insert, eq_refl)

  collect_into-append :
      (m xs ys : List (String × V))
      → collect_into m (xs ++ ys) ≡ collect_into (collect_into m xs) ys
  unfolding collect_into
  collect_into-append m [] ys = refl
  collect_into-append m ((k, v) ∷ xs) ys = collect_into-append (insert k v m) xs ys

  collect-snoc :
      (xs : List (String × V)) (k : String) (v : V)
      → collect (xs ++ (k, v) ∷ []) ≡ insert k v (collect xs)
  unfolding collect
  collect-snoc xs k v = collect_into-append [] xs ((k, v) ∷ [])

  -- The last entry with a key is the one that stays.
  pub lookup-collect_last :
      (xs : List (String × V)) (k : String) (v : V) (j : String)
      → lookup j (collect (xs ++ (k, v) ∷ [])) ≡ (if k == j then some v else lookup j (collect xs))
  lookup-collect_last xs k v j = rw (collect-snoc xs k v) (lookup-insert k j v (collect xs))

-- `k` is a key of the map.
abbrev pub HasKey {ℓ} : {V : Type ℓ} → String → List (String × V) → Type ℓ
HasKey {V} k m = (v : V) × (lookup k m ≡ some v)

pub keys-In_iff : {V : Type 0} (k : String) (m : List (String × V)) → In k (keys m) ↔ HasKey k m
unfolding keys lookup
keys-In_iff k [] = (λ h. absurd h, λ h. cc (h.1))
keys-In_iff k ((j, w) ∷ m) = elim (Bool-cases (j == k)) [
  | inl e ↦ (λ h. (w, rw e), λ h. inl ((eq_iff j k).0 e))
  | inr e ↦ (
    elim [
      | inl same ↦ absurd (ground (arith, eq_iff j k))
      | inr later ↦ let (v, found) = (keys-In_iff k m).0 later in (v, rw e found)
    ],
    λ h. inr ((keys-In_iff k m).1 (h.0, ground (arith, h.1))),
  )
]

-- What holds of every entry holds of the one found.
pub lookup-All :
    {V : Type 0} (Q : V → Type 0) (k : String) (v : V) (m : List (String × V))
    → All (λ kv. Q kv.1) m
    → lookup k m ≡ some v
    → Q v
unfolding lookup
lookup-All Q k v [] h e = absurd (cc)
lookup-All Q k v ((j, w) ∷ m) h e = elim (Bool-cases (j == k)) [
  | inl same ↦ subst Q (ground arith) h.0
  | inr other ↦ lookup-All Q k v m h.1 (ground arith)
]

-- The order in which a hash table hands out its keys: any that loses and adds none.
pub record Order : Type 0 where
  pub arrange : List String → List String
  pub arrange-In : (k : String) (ks : List String) → In k (arrange ks) ↔ In k ks

module _ {ℓ} {V : Type ℓ} (Q : V → Type 0) where
  pub All-insert :
      (k : String) (v : V) (m : List (String × V))
      → Q v
      → All (λ kv. Q kv.1) m
      → All (λ kv. Q kv.1) (insert k v m)
  unfolding insert
  All-insert k v [] q h = (q, tt)
  All-insert k v ((j, w) ∷ m) q h = elim (Bool-cases (j == k)) [
    | inl same ↦ rw same (q, h.1)
    | inr other ↦ rw other (h.0, All-insert k v m q h.1)
  ]

  pub All-remove :
      (k : String) (m : List (String × V)) → All (λ kv. Q kv.1) m → All (λ kv. Q kv.1) (remove k m)
  unfolding remove
  All-remove k [] h = tt
  All-remove k ((j, w) ∷ m) h = elim (Bool-cases (j == k)) [
    | inl same ↦ rw same (All-remove k m h.1)
    | inr other ↦ rw other (h.0, All-remove k m h.1)
  ]
