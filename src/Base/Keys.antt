-- ===== src/Base/Keys.antt =====
-- Membership and duplicates by a Boolean equality, as Python's sets give them for texts, pairs of
-- texts and exact revisions `(id, revision)`.
use career_agent_harness.Base.Tests.{◌==◌, if◌then◌else◌}
use career_agent_harness.Base.Lists.{any, all}
use Prim.Native.Nat.{ℕ}
use Prim.Native.String.{String}
use mathlib.Core.Bool.{Bool, false, ◌&&◌, ◌||◌}
use mathlib.Core.List.{List, [], ◌∷◌}
use mathlib.Core.Option.{Option, none, some}
use text.Mathlib.Text.{◌==◌ as str_eq}

abbrev pub ref_eq : String × ℕ → String × ℕ → Bool
ref_eq (a, m) (b, n) = str_eq a b && m == n

abbrev pub pair_eq : String × String → String × String → Bool
pair_eq (a, s) (b, t) = str_eq a b && str_eq s t

module _ {ℓ} {A : Type ℓ} (same : A → A → Bool) where
  -- `x in xs`
  abbrev pub member : A → List A → Bool
  member x = any (λ y. same y x)

  -- `len(xs) != len(set(xs))`
  abbrev pub has_duplicates : List A → Bool
  has_duplicates [] = false
  has_duplicates (x ∷ xs) = member x xs || has_duplicates xs

  -- `set(xs) <= set(ys)`, `set(xs) == set(ys)`
  abbrev pub is_subset : List A → List A → Bool
  is_subset xs ys = all (λ x. member x ys) xs

  abbrev pub same_set : List A → List A → Bool
  same_set xs ys = is_subset xs ys && is_subset ys xs

module _ {ℓ} {A : Type ℓ} (test : A → Bool) where
  -- `[x for x in xs if test(x)]`, and the first such `x`.
  abbrev pub keep : List A → List A
  keep [] = []
  keep (x ∷ xs) = if test x then x ∷ keep xs else keep xs

  abbrev pub find : List A → Option A
  find [] = none
  find (x ∷ xs) = if test x then some x else find xs
