-- ===== src/Today/Made.antt =====
-- Tests that all items of `build_today_queue` (backend/career_harness/core/today/policy.py) pass.

use career_agent_harness.Base.{
  Bool, true, false, ◌&&◌, List, [], ◌∷◌, ◌++◌, none, some, all, ◌≡◌, refl, ◌∙◌, arith,
  if◌then◌else◌,
}
use career_agent_harness.Base.Keys.{keep}
use career_agent_harness.Base.Orders.{concat_map}
use career_agent_harness.Today.Model.{TodayItem}
use career_agent_harness.Today.Queue.{list_of}

module _ {ℓ} {A : Type ℓ} (p : A → Bool) where
  pub all-append : (xs ys : List A) → all p (xs ++ ys) ≡ all p xs && all p ys
  all-append [] ys = refl
  all-append (x ∷ xs) ys = ground (arith, all-append xs ys)

  pub all_kept : (q : A → Bool) (xs : List A) → all p xs ≡ true → all p (keep q xs) ≡ true
  all_kept q [] h = refl
  all_kept q (x ∷ xs) h = ground (arith, all_kept q xs)

  pub all_of_four :
      (a b c d : List A)
      → all p a ≡ true
      → all p b ≡ true
      → all p c ≡ true
      → all p d ≡ true
      → all p (a ++ b ++ c ++ d) ≡ true
  all_of_four a b c d h k l m =
      all-append (a ++ b ++ c) d ∙ rw (all-append (a ++ b) c, all-append a b, h, k, l, m) refl

module _ {ℓ κ} {A : Type ℓ} {B : Type κ} (p : B → Bool) (f : A → List B) where
  all-concat_map : ((x : A) → all p (f x) ≡ true) → (xs : List A) → all p (concat_map f xs) ≡ true
  all-concat_map h [] = refl
  all-concat_map h (x ∷ xs) =
      all-append p (f x) (concat_map f xs) ∙ rw (h x, all-concat_map h xs) refl

module _ (p : TodayItem → Bool) where
  pub gated :
      (b : Bool) (x : TodayItem) → p x ≡ true → all p (list_of (if b then some x else none)) ≡ true
  gated true x h = rw h refl
  gated false x h = refl

  pub gated_twice :
      (b c : Bool) (x y : TodayItem)
      → p x ≡ true
      → p y ≡ true
      → all p (list_of (if b then some x else if c then some y else none)) ≡ true
  gated_twice true c x y h k = rw h refl
  gated_twice false c x y h k = gated c y k
