-- ===== src/Base/Table.antt =====
-- A table of the database, or a Python `dict`, keyed by text: at most one row for each key, in
-- insertion order.
use Prim.Native.String.{String}
use mathlib.Core.Path.{◌≡◌, refl}
use mathlib.Core.Logic.{inl, inr}
use mathlib.Core.Option.{Option, none, some}
use mathlib.Core.List.{List, [], ◌∷◌}
use native.Mathlib.Omega.{arith}
use text.Mathlib.Text.{◌==◌ as str_eq}
use text.Mathlib.TextEquality.{eq_iff}
use text.Mathlib.TextPositions.{eq_refl}
use career_agent_harness.Base.Tests.{Bool-cases, if◌then◌else◌}

abbrev pub Table {ℓ} : Type ℓ → Type ℓ
Table V = List (String × V)

module _ {ℓ} {V : Type ℓ} where
  unfoldable pub lookup : String → Table V → Option V
  lookup k [] = none
  lookup k ((j, v) ∷ t) = if str_eq j k then some v else lookup k t

  unfoldable pub insert : String → V → Table V → Table V
  insert k v [] = (k, v) ∷ []
  insert k v ((j, w) ∷ t) = if str_eq j k then (k, v) ∷ t else (j, w) ∷ insert k v t

  pub lookup-insert :
      (k j : String) (v : V) (t : Table V)
      → lookup j (insert k v t) ≡ (if str_eq k j then some v else lookup j t)
  unfolding lookup insert
  lookup-insert k j v [] = refl
  lookup-insert k j v ((i, w) ∷ t) =
      ground (arith, eq_iff k j, eq_iff i k, eq_iff i j, lookup-insert k j v t)

  pub lookup-insert_self : (k : String) (v : V) (t : Table V) → lookup k (insert k v t) ≡ some v
  lookup-insert_self k v t = simp (lookup-insert, eq_refl)

  -- No key stands twice.
  abbrev pub Distinct : Table V → Type ℓ
  Distinct [] = Unit
  Distinct ((k, v) ∷ t) = (lookup k t ≡ none) × Distinct t

  pub Distinct-insert : (k : String) (v : V) (t : Table V) → Distinct t → Distinct (insert k v t)
  unfolding insert lookup
  Distinct-insert k v [] d = (refl, tt)
  Distinct-insert k v ((j, w) ∷ t) d = elim (Bool-cases (str_eq j k)) [
    | inl same ↦ rw (same, insert) (rw (← (eq_iff j k).0 same) d.0, d.1)
    | inr other ↦
        rw (other, insert)
          (
            ground (arith, lookup-insert k j v t, eq_iff j k, eq_iff k j, d.0),
            Distinct-insert k v t d.1,
          )
  ]
