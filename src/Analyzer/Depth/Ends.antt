-- ===== src/Analyzer/Depth/Ends.antt =====
-- The search for the depth of references in crates/specforge-core/src/analyzer.rs ends, also where
-- the references are circular.
use specforge_openapi_sdk_co.Prelude.{
  ℕ, zero, suc, ◌≤◌, ◌<◌, arith, ◌≡◌, refl, String, Bool, true, false, Option, none, some, List, [],
  ◌∷◌, In, ltb, if◌then◌else◌, is_none, length, select, lookup, insert, lookup-insert,
  lookup-insert_self, keys, keys-In_iff, ◌==◌, Bool-cases, Option-cases, inl, inr,
}
use specforge_openapi_sdk_co.Analyzer.Depth.{Graph, Memo, deepest, depth_below, ref_depth}

-- A test that passes for fewer keys selects fewer.
length-select_mono :
    (p q : String → Bool) (ks : List String)
    → ((k : String) → p k ≡ true → q k ≡ true)
    → length (select p ks) ≤ length (select q ks)
length-select_mono p q [] f = omega arith
length-select_mono p q (k ∷ ks) f =
    let rest = length-select_mono p q ks f in
    elim (Bool-cases (p k)) [
      | inl here ↦ rw (here, f k here) (omega arith)
      | inr skip ↦ elim (Bool-cases (q k)) [
        | inl there ↦ rw (skip, there) (omega arith)
        | inr neither ↦ rw (skip, neither) rest
      ]
    ]

length-select_less :
    (p q : String → Bool) (ks : List String) (key : String)
    → ((k : String) → p k ≡ true → q k ≡ true)
    → In key ks
    → p key ≡ false
    → q key ≡ true
    → length (select p ks) < length (select q ks)
length-select_less p q [] key f m out_p in_q = absurd m
length-select_less p q (k ∷ ks) key f (inl e) out_p in_q =
    let rest = length-select_mono p q ks f in rw (e, out_p, in_q) (omega arith)
length-select_less p q (k ∷ ks) key f (inr m) out_p in_q =
    let rest = length-select_less p q ks key f m out_p in_q in
    elim (Bool-cases (p k)) [
      | inl here ↦ rw (here, f k here) (omega arith)
      | inr skip ↦ elim (Bool-cases (q k)) [
        | inl there ↦ rw (skip, there) (omega arith)
        | inr neither ↦ rw (skip, neither) rest
      ]
    ]

module _ (graph : Graph) where
  -- The schemas of the graph that are not remembered.
  abbrev pub unseen : Memo → ℕ
  unseen memo = length (select (λ k. is_none (lookup k memo)) (keys graph))

  -- What is not remembered later was not before.
  abbrev Grows : Memo → Memo → Type 0
  Grows memo memo' = (k : String) → is_none (lookup k memo') ≡ true → is_none (lookup k memo) ≡ true

  Grows-unseen : (memo memo' : Memo) → Grows memo memo' → unseen memo' ≤ unseen memo
  Grows-unseen memo memo' g =
      length-select_mono (λ k. is_none (lookup k memo')) (λ k. is_none (lookup k memo)) (keys graph)
        g

  insert-Grows : (name : String) (d : ℕ) (memo : Memo) → Grows memo (insert name d memo)
  insert-Grows name d memo k h = elim (Bool-cases (name == k)) [
    | inl same ↦ absurd (let f = rw (lookup-insert name k d memo, same) at h in cc)
    | inr other ↦ rw (lookup-insert name k d memo, other) at h
  ]

  insert-unseen :
      (name : String) (d : ℕ) (memo : Memo)
      → In name (keys graph)
      → lookup name memo ≡ none
      → unseen (insert name d memo) < unseen memo
  insert-unseen name d memo listed new =
      length-select_less (λ k. is_none (lookup k (insert name d memo)))
        (λ k. is_none (lookup k memo)) (keys graph) name (insert-Grows name d memo) listed
        (rw (lookup-insert_self name d memo) refl) (rw new refl)

  -- A visit gives a depth and remembers more, if fewer than `bound` schemas are not remembered.
  abbrev Ends : ℕ → (String → Memo → Option (ℕ × Memo)) → Type 0
  Ends bound visit =
      (name : String) (memo : Memo)
      → unseen memo < bound
      → (depth : ℕ) × (memo' : Memo) × (visit name memo ≡ some (depth, memo')) × Grows memo memo'

  deepest-Ends :
      (bound : ℕ) (visit : String → Memo → Option (ℕ × Memo)) (best : ℕ) (targets : List String)
      (memo : Memo)
      → Ends bound visit
      → unseen memo < bound
      → (depth : ℕ) × (memo' : Memo) × (deepest visit best targets memo ≡ some (depth, memo'))
        × Grows memo memo'
  unfolding deepest
  deepest-Ends bound visit best [] memo ends small = (best, memo, refl, λ k h. h)
  deepest-Ends bound visit best (t ∷ ts) memo ends small =
      let (depth, memo', found, grows) = ends t memo small in
      let fewer = Grows-unseen memo memo' grows in
      let (most, memo'', rest, more) =
        deepest-Ends bound visit (if ltb best depth then depth else best) ts memo' ends
          (omega arith) in
      (most, memo'', rw (found, deepest) rest, λ k h. grows k (more k h))

  depth_below-Ends :
      (bound : ℕ) (visit : String → Memo → Option (ℕ × Memo)) (targets : Option (List String))
      (memo : Memo)
      → Ends bound visit
      → ((ts : List String) → targets ≡ some ts → unseen memo < bound)
      → (depth : ℕ) × (memo' : Memo) × (depth_below visit targets memo ≡ some (depth, memo'))
        × Grows memo memo'
  depth_below-Ends bound visit none memo ends small = (0, memo, refl, λ k h. h)
  depth_below-Ends bound visit (some []) memo ends small = (0, memo, refl, λ k h. h)
  depth_below-Ends bound visit (some (t ∷ ts)) memo ends small =
      let (depth, memo', found, grows) =
        deepest-Ends bound visit 0 (t ∷ ts) memo ends (small (t ∷ ts) refl) in
      (suc depth, memo', rw found refl, grows)

  ref_depth-Ends : (fuel : ℕ) → Ends fuel (ref_depth fuel graph)
  unfolding ref_depth
  ref_depth-Ends zero name memo small = absurd (omega arith)
  ref_depth-Ends (suc fuel) name memo small = elim (Option-cases (lookup name memo)) [
    | inr (cached, seen) ↦ (cached, memo, rw (seen, ref_depth) refl, λ k h. h)
    | inl new ↦
        let marked = insert name 0 memo in
        let (depth, memo', found, grows) =
          depth_below-Ends fuel (ref_depth fuel graph) (lookup name graph) marked
            (ref_depth-Ends fuel)
            (λ ts there.
              let fewer = insert-unseen name 0 memo ((keys-In_iff name graph).1 (ts, there)) new in
              omega arith) in
        (
          depth,
          insert name depth memo',
          rw (new, ref_depth, found) refl,
          λ k h. insert-Grows name 0 memo k (grows k (insert-Grows name depth memo' k h)),
        )
  ]

-- With more fuel than the graph has schemas that are not remembered, `ref_depth` gives a depth for
-- any name, whatever is remembered and however the references are circular, and then no more schemas
-- are not remembered than before.
pub ref_depth-ends :
    (fuel : ℕ) (graph : Graph) (name : String) (memo : Memo)
    → unseen graph memo < fuel
    → (depth : ℕ) × (memo' : Memo) × (ref_depth fuel graph name memo ≡ some (depth, memo'))
      × (unseen graph memo' ≤ unseen graph memo)
ref_depth-ends fuel graph name memo enough =
    let (depth, memo', found, grows) = ref_depth-Ends graph fuel name memo enough in
    (depth, memo', found, Grows-unseen graph memo memo' grows)
