-- ===== src/Base/Sorted.antt =====
-- Tests over a list and its sorted version.
use Prim.Native.Nat.{Ordering}
use mathlib.Core.Path.{◌≡◌, refl, ◌∙◌}
use mathlib.Core.Logic.{inl, inr}
use mathlib.Core.Bool.{Bool, ◌||◌, ◌&&◌}
use mathlib.Core.List.{List, [], ◌∷◌, map}
use native.Mathlib.Omega.{arith}
use career_agent_harness.Base.Tests.{Bool-cases}
use career_agent_harness.Base.Lists.{all}
use career_agent_harness.Base.Keys.{member, has_duplicates}
use career_agent_harness.Base.Compare.{at_most}
use career_agent_harness.Base.Sort.{insert_by, sort_by}

module _ {ℓ} {A : Type ℓ} (cmp : A → A → Ordering) (p : A → Bool) where
  all-insert_by : (x : A) (xs : List A) → all p (insert_by cmp x xs) ≡ p x && all p xs
  unfolding insert_by
  all-insert_by x [] = refl
  all-insert_by x (y ∷ ys) = elim (Bool-cases (at_most (cmp x y))) [
    | inl e ↦ rw (e, insert_by) refl
    | inr e ↦ rw (e, insert_by) (ground (arith, all-insert_by x ys))
  ]

  pub all-sort_by : (xs : List A) → all p (sort_by cmp xs) ≡ all p xs
  unfolding sort_by
  all-sort_by [] = refl
  all-sort_by (x ∷ xs) = all-insert_by x (sort_by cmp xs) ∙ ground (arith, all-sort_by xs)

module _ {ℓ κ} {A : Type ℓ} {B : Type κ} (cmp : A → A → Ordering) (key : A → B) where
  module _ (same : B → B → Bool) (same_sym : (a b : B) → same a b ≡ same b a) where
    member-insert_by :
        (k : B) (x : A) (xs : List A)
        → member same k (map key (insert_by cmp x xs))
          ≡ same (key x) k || member same k (map key xs)
    unfolding insert_by
    member-insert_by k x [] = refl
    member-insert_by k x (y ∷ ys) = elim (Bool-cases (at_most (cmp x y))) [
      | inl e ↦ rw (e, insert_by) refl
      | inr e ↦ rw (e, insert_by) (ground (arith, member-insert_by k x ys))
    ]

    pub member-sort_by :
        (k : B) (xs : List A)
        → member same k (map key (sort_by cmp xs)) ≡ member same k (map key xs)
    unfolding sort_by
    member-sort_by k [] = refl
    member-sort_by k (x ∷ xs) =
        member-insert_by k x (sort_by cmp xs) ∙ ground (arith, member-sort_by k xs)

    has_duplicates-insert_by :
        (x : A) (xs : List A)
        → has_duplicates same (map key (insert_by cmp x xs))
          ≡ member same (key x) (map key xs) || has_duplicates same (map key xs)
    unfolding insert_by
    has_duplicates-insert_by x [] = refl
    has_duplicates-insert_by x (y ∷ ys) = elim (Bool-cases (at_most (cmp x y))) [
      | inl e ↦ rw (e, insert_by) refl
      | inr e ↦
          rw (e, insert_by)
            (ground (
              arith,
              member-insert_by (key y) x ys,
              has_duplicates-insert_by x ys,
              same_sym (key x) (key y),
            ))
    ]

    pub has_duplicates-sort_by :
        (xs : List A)
        → has_duplicates same (map key (sort_by cmp xs)) ≡ has_duplicates same (map key xs)
    unfolding sort_by
    has_duplicates-sort_by [] = refl
    has_duplicates-sort_by (x ∷ xs) =
        has_duplicates-insert_by x (sort_by cmp xs)
        ∙ ground (arith, member-sort_by (key x) xs, has_duplicates-sort_by xs)
