-- ===== src/Base/KeyLaws.antt =====
-- The Boolean equalities of keys are equalities, and what they give for membership.
use Prim.Native.Nat.{ℕ}
use Prim.Native.String.{String}
use mathlib.Core.Path.{◌≡◌, refl, ◌∙◌, sym}
use mathlib.Core.Logic.{inl, inr}
use mathlib.Core.Bool.{Bool, true}
use mathlib.Core.List.{List, [], ◌∷◌}
use native.Mathlib.Omega.{arith}
use text.Mathlib.Text.{◌==◌ as str_eq}
use text.Mathlib.TextEquality.{eq_iff}
use text.Mathlib.TextPositions.{eq_refl}
use career_agent_harness.Base.Tests.{Bool-cases}
use career_agent_harness.Base.Keys.{ref_eq, is_subset, same_set}

pub str_eq-sym : (s t : String) → str_eq s t ≡ str_eq t s
str_eq-sym s t = elim (Bool-cases (str_eq s t)) [
  | inl e ↦ rw ((eq_iff s t).0 e) refl
  | inr e ↦ elim (Bool-cases (str_eq t s)) [
    | inl f ↦ rw ((eq_iff t s).0 f) refl
    | inr f ↦ e ∙ sym f
  ]
]

pub ref_eq-sym : (a b : String × ℕ) → ref_eq a b ≡ ref_eq b a
ref_eq-sym (s, m) (t, n) = ground (arith, str_eq-sym s t)

pub ref_eq_refl : (a : String × ℕ) → ref_eq a a ≡ true
ref_eq_refl (s, m) = ground (arith, eq_refl s)

module _ {ℓ} {A : Type ℓ} (same : A → A → Bool) (same_refl : (a : A) → same a a ≡ true) where
  is_subset-cons :
      (y : A) (xs ys : List A) → is_subset same xs ys ≡ true → is_subset same xs (y ∷ ys) ≡ true
  is_subset-cons y [] ys h = refl
  is_subset-cons y (x ∷ xs) ys h = ground (arith, is_subset-cons y xs ys)

  is_subset_self : (xs : List A) → is_subset same xs xs ≡ true
  is_subset_self [] = refl
  is_subset_self (x ∷ xs) = ground (arith, same_refl x, is_subset-cons x xs xs (is_subset_self xs))

  pub same_set_self : (xs : List A) → same_set same xs xs ≡ true
  same_set_self xs = rw (is_subset_self xs) refl
