-- ===== src/FieldNames/Suffixed.antt =====
-- What the emitters' `unique_field_name` makes of a name: the name, or the name and a number.
use specforge_openapi_sdk_co.Prelude.{
  ℕ, zero, suc, ◌≡◌, refl, some, List, [], ◌∷◌, ◌++◌, Bool-cases, Option-cases, inl, inr, Chars,
}
use specforge_openapi_sdk_co.FieldNames.{contains, unique_loop, unique_field_name, field_names}

module _ (suffix : ℕ → Chars) where
  -- The name as it is, or with a number after it.
  pub data Stem (base name : Chars) : Type 0 where
    as_it_is : name ≡ base → Stem base name
    numbered : (m : ℕ) → name ≡ base ++ suffix m → Stem base name

  pub data EachStem : List Chars → List Chars → Type 0 where
    done : EachStem [] []
    more :
        {base name : Chars} {bases names : List Chars}
        → Stem base name
        → EachStem bases names
        → EachStem (base ∷ bases) (name ∷ names)

  unique_loop-Stem :
      (fuel n : ℕ) (base candidate : Chars) (used : List Chars) (name : Chars) (after : List Chars)
      → Stem base candidate
      → unique_loop suffix fuel base n candidate used ≡ some (name, after)
      → Stem base name
  unfolding unique_loop
  unique_loop-Stem zero n base candidate used name after h e = absurd (cc)
  unique_loop-Stem (suc fuel) n base candidate used name after h e =
      elim (Bool-cases (contains used candidate)) [
        | inl taken ↦
            unique_loop-Stem fuel (suc n) base (base ++ suffix n) used name after
              (Stem.numbered n refl) (rw (taken, unique_loop) at e)
        | inr free ↦ same_name h (let f = rw (free, unique_loop) at e in cc)
      ]
    where
      same_name : Stem base candidate → candidate ≡ name → Stem base name
      same_name (Stem.as_it_is f) g = Stem.as_it_is (cc)
      same_name (Stem.numbered m f) g = Stem.numbered m (cc)

  pub field_names-EachStem :
      (fuel : ℕ) (bases used names : List Chars)
      → field_names suffix fuel bases used ≡ some names
      → EachStem bases names
  unfolding field_names unique_field_name
  field_names-EachStem fuel [] used [] e = EachStem.done
  field_names-EachStem fuel [] used (name ∷ names) e = absurd (cc)
  field_names-EachStem fuel (base ∷ bases) used names e =
      elim (Option-cases (unique_field_name suffix fuel base used)) [
        | inl stuck ↦ absurd (let f = rw (stuck, field_names) at e in cc)
        | inr ((name, used'), found) ↦ elim (Option-cases (field_names suffix fuel bases used')) [
          | inl stuck ↦ absurd (let f = rw (found, stuck, field_names) at e in cc)
          | inr (rest, named) ↦
              split name rest
                (unique_loop-Stem fuel 2 base base used name used' (Stem.as_it_is refl) found)
                (field_names-EachStem fuel bases used' rest named)
                (let f = rw (found, named, field_names) at e in cc)
        ]
      ]
    where
      split :
          (name : Chars) (rest : List Chars)
          → Stem base name
          → EachStem bases rest
          → name ∷ rest ≡ names
          → EachStem (base ∷ bases) names
      split name rest here later same = rw (← same) (EachStem.more here later)
