-- ===== src/Tools/Typed.antt =====
-- What `_validate_object` lets through (backend/career_harness/core/tools/registry.py).
use career_agent_harness.Base.{
  String, Bool, true, false, not, ◌&&◌, List, [], ◌∷◌, map, str_eq, any, is_some, ◌≡◌, refl, ◌∙◌,
  ap, arith, inl, inr, Bool-cases, Option-cases,
}
use career_agent_harness.Base.Result.{ok, steps_of_ok, after_raise, ok_injective}
use career_agent_harness.Base.Table.{Table, lookup}
use career_agent_harness.Base.Json.{Json}
use career_agent_harness.Tools.Schema.{
  Python, schema_type, has_type, coerce, InputSchema, expected_type, coerce_arguments,
  validate_object,
}
use career_agent_harness.Tools.Coerce.{coerce-typed, coerce_fixed}

-- Each argument has the type that the schema gives its name.
abbrev pub IsTyped : InputSchema → Table Json → Type 0
IsTyped schema [] = Unit
IsTyped schema ((name, value) ∷ rest) =
    (has_type (schema_type (expected_type name schema)) value ≡ true) × IsTyped schema rest

abbrev pub names_of : Table Json → List String
names_of = map (λ (entry : String × Json). entry.0)

any-names :
    (p : String → Bool) (a b : Table Json)
    → names_of a ≡ names_of b
    → any (λ (entry : String × Json). p entry.0) a ≡ any (λ (entry : String × Json). p entry.0) b
any-names p [] [] h = refl
any-names p [] (y ∷ b) h = absurd cc
any-names p (x ∷ a) [] h = absurd cc
any-names p (x ∷ a) (y ∷ b) h =
    let rest : names_of a ≡ names_of b = cc in
    let same : x.0 ≡ y.0 = cc in rw (same, any-names p a b rest) refl

lookup-names :
    (name : String) (a b : Table Json)
    → names_of a ≡ names_of b
    → is_some (lookup name a) ≡ is_some (lookup name b)
unfolding lookup
lookup-names name [] [] h = refl
lookup-names name [] (y ∷ b) h = absurd cc
lookup-names name (x ∷ a) [] h = absurd cc
lookup-names name (x ∷ a) (y ∷ b) h =
    let rest : names_of a ≡ names_of b = cc in
    let same : x.0 ≡ y.0 = cc in
    elim (Bool-cases (str_eq y.0 name)) [
      | inl e ↦ rw (same, e) refl
      | inr e ↦ rw (same, e) (lookup-names name a b rest)
    ]

any_missing :
    (a b : Table Json) (names : List String)
    → names_of a ≡ names_of b
    → any (λ name. not (is_some (lookup name a))) names
      ≡ any (λ name. not (is_some (lookup name b))) names
any_missing a b [] h = refl
any_missing a b (name ∷ names) h = rw (lookup-names name a b h, any_missing a b names h) refl

module _ (py : Python) (schema : InputSchema) where
  coerce_arguments_ok :
      (arguments normalized : Table Json)
      → coerce_arguments py schema arguments ≡ ok normalized
      → (names_of normalized ≡ names_of arguments) × IsTyped schema normalized
  unfolding coerce_arguments
  coerce_arguments_ok [] normalized h = rw (← ok_injective h) (refl, tt)
  coerce_arguments_ok ((name, value) ∷ arguments) normalized h =
      elim (Option-cases (coerce py value (schema_type (expected_type name schema)))) [
        | inl e ↦ absurd (ground (arith, rw (e, coerce_arguments) at h))
        | inr (v, e) ↦
            let (rest, step, done) =
              steps_of_ok (coerce_arguments py schema arguments) _ normalized
                (rw (e, coerce_arguments) at h) in
            let (names, typed) = coerce_arguments_ok arguments rest step in
            rw (← ok_injective done)
              (ap (λ l. name ∷ l) names, (coerce-typed py value v _ e, typed))
      ]

  coerce_arguments_fixed :
      (normalized : Table Json)
      → IsTyped schema normalized
      → coerce_arguments py schema normalized ≡ ok normalized
  unfolding coerce_arguments
  coerce_arguments_fixed [] t = refl
  coerce_arguments_fixed ((name, value) ∷ rest) t =
      rw (coerce_arguments, coerce_fixed py value _ t.0, coerce_arguments_fixed rest t.1) refl

  -- The arguments that a handler gets have the names of those that were given, every one the type
  -- that the schema gives its name; no required name is missing, none is unknown to a closed schema;
  -- and they pass the validation again unchanged.
  pub validate_object-IsTyped :
      (arguments normalized : Table Json)
      → validate_object py arguments schema ≡ ok normalized
      → (names_of normalized ≡ names_of arguments)
        × IsTyped schema normalized
        × (any (λ name. not (is_some (lookup name normalized))) schema.required ≡ false)
        × (schema.closed ≡ true
            → any
                (λ (entry : String × Json). not (is_some (lookup entry.0 schema.properties)))
                normalized
              ≡ false)
        × (validate_object py normalized schema ≡ ok normalized)
  unfolding validate_object
  validate_object-IsTyped arguments normalized h =
      let (known, next) =
        after_raise
          (any (λ (entry : String × Json). not (is_some (lookup entry.0 schema.properties)))
              arguments
            && schema.closed)
          _ _ normalized h in
      let (present, last) =
        after_raise (any (λ name. not (is_some (lookup name arguments))) schema.required) _ _
          normalized next in
      let (names, typed) = coerce_arguments_ok arguments normalized last in
      let same_unknown =
        any-names (λ k. not (is_some (lookup k schema.properties))) normalized arguments names in
      let present' = any_missing normalized arguments schema.required names ∙ present in
      let known' = ap (λ b. b && schema.closed) same_unknown ∙ known in
      (
        names,
        typed,
        present',
        λ closed. ground (arith, known', closed),
        rw (known', present') (coerce_arguments_fixed normalized typed),
      )
