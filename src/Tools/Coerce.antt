-- ===== src/Tools/Coerce.antt =====
-- What `_coerce` lets through (backend/career_harness/core/tools/registry.py).
use career_agent_harness.Base.{
  ℕ, String, Bool, true, ◌||◌, Option, none, some, str_eq, ◌≡◌, refl, arith, inl, inr, Bool-cases,
}
use career_agent_harness.Base.Json.{Json}
use career_agent_harness.Tools.Schema.{
  Python, SchemaType, integer_of, number_of, boolean_of, has_type, if_typed, coerce,
}

if_typed-typed : (t : SchemaType) (v w : Json) → if_typed t v ≡ some w → has_type t w ≡ true
if_typed-typed t v w h = elim (Bool-cases (has_type t v)) [
  | inl e ↦ let same : v ≡ w = ground (arith, h, e) in rw (← same) e
  | inr e ↦ absurd (ground (arith, h, e))
]

if_typed_fixed : (t : SchemaType) (v : Json) → has_type t v ≡ true → if_typed t v ≡ some v
if_typed_fixed t v h = rw h refl

integer_typed :
    (n : Option (Bool × ℕ)) (w : Json)
    → integer_of n ≡ some w
    → has_type SchemaType.integer w ≡ true
unfolding has_type
integer_typed none w h = absurd cc
integer_typed (some (negative, n)) w h = let same : Json.int negative n ≡ w = cc in rw (← same) refl

number_typed :
    (n : Option String) (w : Json) → number_of n ≡ some w → has_type SchemaType.number w ≡ true
unfolding has_type
number_typed none w h = absurd cc
number_typed (some s) w h = let same : Json.float s ≡ w = cc in rw (← same) refl

boolean_typed :
    (s : String) (w : Json) → boolean_of s ≡ some w → has_type SchemaType.boolean w ≡ true
unfolding has_type boolean_of
boolean_typed s w h = elim (Bool-cases (str_eq s "true" || str_eq s "false")) [
  | inl e ↦
      let same : Json.bool (str_eq s "true") ≡ w = ground (arith, rw e at h) in rw (← same) refl
  | inr e ↦ absurd (ground (arith, rw e at h))
]

-- A coerced value has the type, and a value of the type is coerced to itself.
pub coerce-typed :
    (py : Python) (v w : Json) (t : SchemaType) → coerce py v t ≡ some w → has_type t w ≡ true
unfolding coerce
coerce-typed py v w SchemaType.string h = if_typed-typed _ v w h
coerce-typed py (Json.text s) w SchemaType.integer h = elim (Bool-cases (py.is_decimal s)) [
  | inl e ↦ integer_typed (py.int s) w (rw e at h)
  | inr e ↦ if_typed-typed SchemaType.integer (Json.text s) w (rw e at h)
]
coerce-typed py Json.null w SchemaType.integer h = if_typed-typed _ _ w h
coerce-typed py (Json.bool b) w SchemaType.integer h = if_typed-typed _ _ w h
coerce-typed py (Json.int b n) w SchemaType.integer h = if_typed-typed _ _ w h
coerce-typed py (Json.float s) w SchemaType.integer h = if_typed-typed _ _ w h
coerce-typed py (Json.arr xs) w SchemaType.integer h = if_typed-typed _ _ w h
coerce-typed py (Json.obj fs) w SchemaType.integer h = if_typed-typed _ _ w h
coerce-typed py (Json.text s) w SchemaType.number h = number_typed (py.float s) w h
coerce-typed py Json.null w SchemaType.number h = if_typed-typed _ _ w h
coerce-typed py (Json.bool b) w SchemaType.number h = if_typed-typed _ _ w h
coerce-typed py (Json.int b n) w SchemaType.number h = if_typed-typed _ _ w h
coerce-typed py (Json.float s) w SchemaType.number h = if_typed-typed _ _ w h
coerce-typed py (Json.arr xs) w SchemaType.number h = if_typed-typed _ _ w h
coerce-typed py (Json.obj fs) w SchemaType.number h = if_typed-typed _ _ w h
coerce-typed py (Json.text s) w SchemaType.boolean h = boolean_typed (py.casefold s) w h
coerce-typed py Json.null w SchemaType.boolean h = if_typed-typed _ _ w h
coerce-typed py (Json.bool b) w SchemaType.boolean h = if_typed-typed _ _ w h
coerce-typed py (Json.int b n) w SchemaType.boolean h = if_typed-typed _ _ w h
coerce-typed py (Json.float s) w SchemaType.boolean h = if_typed-typed _ _ w h
coerce-typed py (Json.arr xs) w SchemaType.boolean h = if_typed-typed _ _ w h
coerce-typed py (Json.obj fs) w SchemaType.boolean h = if_typed-typed _ _ w h
coerce-typed py v w SchemaType.array h = if_typed-typed _ v w h
coerce-typed py v w SchemaType.object h = if_typed-typed _ v w h
coerce-typed py v w SchemaType.anything h = if_typed-typed _ v w h

pub coerce_fixed :
    (py : Python) (v : Json) (t : SchemaType) → has_type t v ≡ true → coerce py v t ≡ some v
unfolding coerce has_type
coerce_fixed py v SchemaType.string h = if_typed_fixed SchemaType.string v h
coerce_fixed py (Json.int b n) SchemaType.integer h = refl
coerce_fixed py (Json.int b n) SchemaType.number h = refl
coerce_fixed py (Json.float s) SchemaType.number h = refl
coerce_fixed py (Json.bool b) SchemaType.boolean h = refl
coerce_fixed py v SchemaType.array h = if_typed_fixed SchemaType.array v h
coerce_fixed py v SchemaType.object h = if_typed_fixed SchemaType.object v h
coerce_fixed py v SchemaType.anything h = refl
coerce_fixed py Json.null SchemaType.integer h = absurd cc
coerce_fixed py (Json.bool b) SchemaType.integer h = absurd cc
coerce_fixed py (Json.float s) SchemaType.integer h = absurd cc
coerce_fixed py (Json.text s) SchemaType.integer h = absurd cc
coerce_fixed py (Json.arr xs) SchemaType.integer h = absurd cc
coerce_fixed py (Json.obj fs) SchemaType.integer h = absurd cc
coerce_fixed py Json.null SchemaType.number h = absurd cc
coerce_fixed py (Json.bool b) SchemaType.number h = absurd cc
coerce_fixed py (Json.text s) SchemaType.number h = absurd cc
coerce_fixed py (Json.arr xs) SchemaType.number h = absurd cc
coerce_fixed py (Json.obj fs) SchemaType.number h = absurd cc
coerce_fixed py Json.null SchemaType.boolean h = absurd cc
coerce_fixed py (Json.int b n) SchemaType.boolean h = absurd cc
coerce_fixed py (Json.float s) SchemaType.boolean h = absurd cc
coerce_fixed py (Json.text s) SchemaType.boolean h = absurd cc
coerce_fixed py (Json.arr xs) SchemaType.boolean h = absurd cc
coerce_fixed py (Json.obj fs) SchemaType.boolean h = absurd cc
