-- ===== src/Analyzer/Rounds.antt =====
-- A round of the loop in `analyze_spec` (crates/specforge-core/src/analyzer.rs): what it adds, and
-- that it adds something if it says so.
use specforge_openapi_sdk_co.Prelude.{
  test_laws, ◌∙◌, ℕ, ◌<◌, ◌≤◌, String, ◌≡◌, refl, ◌↔◌, ◌⊎◌, Bool, true, false, not, Option, none,
  some, List, [], ◌∷◌, In, Any, Order, Bool-cases, arith, inl, inr, if◌then◌else◌, length, select,
  any, iff_trans, subst,
}
use specforge_openapi_sdk_co.Ir.{Model, SchemaRegistry, get_model}
use specforge_openapi_sdk_co.Analyzer.{
  contains, State, insert_each, visit_model, visit_each, collect_refs_from_model,
}
use specforge_openapi_sdk_co.Analyzer.Mentions.{Some, ModelMentions, contains_iff, model-Adds}

-- The names of `all` that are not in the set.
abbrev pub missing : List String → List String → ℕ
missing all s = length (select (λ u. not (contains s u)) all)

missing-more : (all s : List String) (r : String) → missing all (r ∷ s) ≤ missing all s
missing-more [] s r = omega arith
missing-more (u ∷ all) s r = ground (arith, missing-more all s r)

missing-new :
    (all s : List String) (r : String)
    → In r all
    → contains s r ≡ false
    → missing all (r ∷ s) < missing all s
missing-new [] s r m new = absurd m
missing-new (u ∷ all) s r (inl same) new = grind (test_laws, missing-more all s r, same)
missing-new (u ∷ all) s r (inr m) new = ground (arith, missing-new all s r m new)

module _ (all : List String) where
  -- From one state to a later one the set misses no more; it misses less if `changed` was set on
  -- the way, and is the same if `changed` is not set at the end.
  pub record Progress (st later : State) : Type 0 where
    pub no_more : missing all later.0 ≤ missing all st.0
    pub less : later.1 ≡ true → (st.1 ≡ true) ⊎ (missing all later.0 < missing all st.0)
    pub same : later.1 ≡ false → (later.0 ≡ st.0) × (st.1 ≡ false)

  Progress-refl : (st : State) → Progress st st
  Progress-refl st = record { no_more = omega arith; less = inl; same = λ h. (refl, h) }

  Progress-trans : (a b c : State) → Progress a b → Progress b c → Progress a c
  Progress-trans a b c h k = record {
    no_more = omega (arith, h.no_more, k.no_more);
    less = λ e. elim (k.less e) [
      | inl before ↦ elim (h.less before) [
        | inl earlier ↦ inl earlier
        | inr fewer ↦ inr (omega (arith, fewer, k.no_more))
      ]
      | inr fewer ↦ inr (omega (arith, fewer, h.no_more))
    ];
    same = λ e.
        let (kept, unset) = k.same e in
        let (kept_before, unset_before) = h.same unset in (kept ∙ kept_before, unset_before);
  }

  insert-Progress :
      (r : String) (s : List String) (changed : Bool)
      → In r all
      → Progress (s, changed) (if contains s r then (s, changed) else (r ∷ s, true))
  insert-Progress r s changed m = elim (Bool-cases (contains s r)) [
    | inl e ↦ rw e (Progress-refl (s, changed))
    | inr e ↦ rw e (record {
      no_more = missing-more all s r;
      less = λ h. inr (missing-new all s r m e);
      same = λ h. absurd (cc);
    })
  ]

  insert_each-Progress :
      (rs : List String) (st : State)
      → ((r : String) → In r rs → In r all)
      → Progress st (insert_each rs st)
  unfolding insert_each
  insert_each-Progress [] st h = Progress-refl st
  insert_each-Progress (r ∷ rs) (s, changed) h =
      Progress-trans _ _ _ (insert-Progress r s changed (h r (inl refl)))
        (insert_each-Progress rs _ (λ q m. h q (inr m)))

insert_each-In_iff :
    (rs : List String) (st : State) (x : String)
    → In x (insert_each rs st).0 ↔ (In x st.0 ⊎ In x rs)
unfolding insert_each
insert_each-In_iff [] st x = (inl, elim [ inl m ↦ m | inr n ↦ absurd n ])
insert_each-In_iff (r ∷ rs) (s, changed) x = elim (Bool-cases (contains s r)) [
  | inl e ↦
      let ih = insert_each-In_iff rs (s, changed) x in
      rw (e, insert_each)
        (
          λ m. elim (ih.0 m) [ inl old ↦ inl old | inr new ↦ inr (inr new) ],
          elim [
            | inl old ↦ ih.1 (inl old)
            | inr new ↦ elim new [
              | inl same ↦ ih.1 (inl (subst (λ y. In y s) same ((contains_iff s r).0 e)))
              | inr later ↦ ih.1 (inr later)
            ]
          ],
        )
  | inr e ↦
      let ih = insert_each-In_iff rs (r ∷ s, true) x in
      rw (e, insert_each)
        (
          λ m. elim (ih.0 m) [
            | inl old ↦ elim old [ inl same ↦ inr (inl same) | inr older ↦ inl older ]
            | inr new ↦ inr (inr new)
          ],
          elim [
            | inl old ↦ ih.1 (inl (inr old))
            | inr new ↦ elim new [ inl same ↦ ih.1 (inl (inl same)) | inr later ↦ ih.1 (inr later) ]
          ],
        )
]

module _ (order : Order) (registry : SchemaRegistry) where
  -- The schema `name` refers to `x`.
  abbrev pub Refers : String → String → Type 0
  Refers name x = Some (ModelMentions x) (get_model registry name)

  refs_iff :
      (m : Model) (x : String)
      → In x (order.arrange (collect_refs_from_model m [])) ↔ ModelMentions x m
  refs_iff m x = iff_trans (order.arrange-In x _) (
      iff_trans ((model-Adds m).adds [] x)
        (elim [ inl n ↦ absurd n | inr mentions ↦ mentions ], inr))

  visit_model-In_iff :
      (m : Option Model) (st : State) (x : String)
      → In x (visit_model order registry m st).0 ↔ (In x st.0 ⊎ Some (ModelMentions x) m)
  visit_model-In_iff none st x = (inl, elim [ inl m ↦ m | inr n ↦ absurd n ])
  visit_model-In_iff (some model) st x = iff_trans (insert_each-In_iff _ st x) (
    elim [ inl m ↦ inl m | inr n ↦ inr ((refs_iff model x).0 n) ],
    elim [ inl m ↦ inl m | inr n ↦ inr ((refs_iff model x).1 n) ],
  )

  pub visit_each-In_iff :
      (names : List String) (st : State) (x : String)
      → In x (visit_each order registry names st).0
        ↔ (In x st.0 ⊎ Any (λ name. Refers name x) names)
  unfolding visit_each
  visit_each-In_iff [] st x = (inl, elim [ inl m ↦ m | inr n ↦ absurd n ])
  visit_each-In_iff (name ∷ names) st x =
      let ih =
        visit_each-In_iff names (visit_model order registry (get_model registry name) st) x in
      let here = visit_model-In_iff (get_model registry name) st x in
      (
        λ m. elim (ih.0 m) [
          | inl now ↦ elim (here.0 now) [ inl old ↦ inl old | inr refers ↦ inr (inl refers) ]
          | inr later ↦ inr (inr later)
        ],
        elim [
          | inl old ↦ ih.1 (inl (here.1 (inl old)))
          | inr any ↦ elim any [
            | inl refers ↦ ih.1 (inl (here.1 (inr refers)))
            | inr later ↦ ih.1 (inr later)
          ]
        ],
      )

  module _ (all : List String) (whole : (name x : String) → Refers name x → In x all) where
    visit_model-Progress :
        (m : Option Model) (st : State)
        → ((x : String) → Some (ModelMentions x) m → In x all)
        → Progress all st (visit_model order registry m st)
    visit_model-Progress none st h = Progress-refl all st
    visit_model-Progress (some model) st h =
        insert_each-Progress all _ st (λ r m. h r ((refs_iff model r).0 m))

    pub visit_each-Progress :
        (names : List String) (st : State) → Progress all st (visit_each order registry names st)
    unfolding visit_each
    visit_each-Progress [] st = Progress-refl all st
    visit_each-Progress (name ∷ names) st =
        Progress-trans all _ _ _ (visit_model-Progress (get_model registry name) st (whole name))
          (visit_each-Progress names _)
