-- ===== src/Base/Orders.antt =====
-- What does not depend on the order of a list: duplicates, and lists put together item by item.
use mathlib.Core.Path.{◌≡◌, refl, ◌∙◌, sym}
use mathlib.Core.Bool.{Bool, Bool-set}
use mathlib.Core.List.{List, [], ◌∷◌, ◌++◌, Perm, Permᴰ, append_assoc}
use mathlib.Core.List.Permᴰ
use mathlib.Core.Logic.{∥∥₁_elim, ∥∥₁_map}
use native.Mathlib.Omega.{arith}
use career_agent_harness.Base.Keys.{member, has_duplicates}

module _ {ℓ} {A : Type ℓ} (same : A → A → Bool) (same_sym : (a b : A) → same a b ≡ same b a) where
  member-perm : (k : A) {xs ys : List A} → Permᴰ xs ys → member same k xs ≡ member same k ys
  member-perm k Permᴰ.nil = refl
  member-perm k (Permᴰ.cons e p) = rw (e, member-perm k p) refl
  member-perm k (Permᴰ.swap e f) = rw (e, f) (ground arith)
  member-perm k (Permᴰ.trans p q) = member-perm k p ∙ member-perm k q

  has_duplicates-go :
      {xs ys : List A} → Permᴰ xs ys → has_duplicates same xs ≡ has_duplicates same ys
  has_duplicates-go Permᴰ.nil = refl
  has_duplicates-go (Permᴰ.cons {b = b} e p) = rw (e, has_duplicates-go p, member-perm b p) refl
  has_duplicates-go (Permᴰ.swap {a' = a} {b' = b} {l = l} e f) =
      (λ i. has_duplicates same (e i ∷ f i ∷ l)) ∙ ground (arith, same_sym a b)
  has_duplicates-go (Permᴰ.trans p q) = has_duplicates-go p ∙ has_duplicates-go q

  pub has_duplicates-perm :
      {xs ys : List A} → Perm xs ys → has_duplicates same xs ≡ has_duplicates same ys
  has_duplicates-perm p = ∥∥₁_elim p (Bool-set _ _) has_duplicates-go

module _ {ℓ κ} {A : Type ℓ} {B : Type κ} where
  -- The results of `f` one after the other.
  abbrev pub concat_map : (A → List B) → List A → List B
  concat_map f [] = []
  concat_map f (x ∷ xs) = f x ++ concat_map f xs

  concat_map-go :
      (f : A → List B) {xs ys : List A} → Permᴰ xs ys → Permᴰ (concat_map f xs) (concat_map f ys)
  concat_map-go f Permᴰ.nil = Permᴰ.nil
  concat_map-go f (Permᴰ.cons {b = b} e p) = rw e (Permᴰ.append_left (f b) (concat_map-go f p))
  concat_map-go f (Permᴰ.swap {a' = a} {b' = b} {l = l} e g) =
      let rest = concat_map f l in
      rw (e, g, sym (append_assoc (f a) (f b) rest), sym (append_assoc (f b) (f a) rest))
        (Permᴰ.append_right rest (Permᴰ.append_comm (f b) (f a)))
  concat_map-go f (Permᴰ.trans p q) = Permᴰ.trans (concat_map-go f p) (concat_map-go f q)

  pub concat_map-perm :
      (f : A → List B) {xs ys : List A} → Perm xs ys → Perm (concat_map f xs) (concat_map f ys)
  concat_map-perm f p = ∥∥₁_map p (concat_map-go f)
