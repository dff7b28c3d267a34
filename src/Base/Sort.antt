-- ===== src/Base/Sort.antt =====
-- Python's `sorted` and `list.sort`: a stable sort by the comparison of the keys. The result is a
-- rearrangement of the list, is in order, and depends on the list only up to the order of its items
-- where no two items compare equal.
use Prim.Native.Nat.{Ordering}
use Prim.Native.Nat.Ordering.{eq}
use mathlib.Core.Path.{◌≡◌, ap₂}
use mathlib.Core.Logic.{inl, inr}
use mathlib.Core.Bool.{true}
use mathlib.Core.List.{List, [], ◌∷◌, Mem, Perm, mem-cons_self, mem-cons, not-mem-nil}
use mathlib.Core.List.Perm
use mathlib.Core.Logic.Or
use native.Mathlib.Omega.{arith}
use career_agent_harness.Base.Tests.{if◌then◌else◌, Bool-cases}
use career_agent_harness.Base.Compare.{Lawful, at_most}

module _ {ℓ} {A : Type ℓ} (cmp : A → A → Ordering) where
  unfoldable pub insert_by : A → List A → List A
  insert_by x [] = x ∷ []
  insert_by x (y ∷ ys) = if at_most (cmp x y) then x ∷ y ∷ ys else y ∷ insert_by x ys

  unfoldable pub sort_by : List A → List A
  unfolding insert_by
  sort_by [] = []
  sort_by (x ∷ xs) = insert_by x (sort_by xs)

  abbrev pub AtMost : A → List A → Type 0
  AtMost x [] = Unit
  AtMost x (y ∷ ys) = (at_most (cmp x y) ≡ true) × AtMost x ys

  abbrev pub IsSorted : List A → Type 0
  IsSorted [] = Unit
  IsSorted (x ∷ xs) = AtMost x xs × IsSorted xs

module _ {ℓ} {A : Type ℓ} (cmp : A → A → Ordering) where
  insert_by-perm : (x : A) (xs : List A) → Perm (insert_by cmp x xs) (x ∷ xs)
  unfolding insert_by
  insert_by-perm x [] = Perm.rfl
  insert_by-perm x (y ∷ ys) = elim (Bool-cases (at_most (cmp x y))) [
    | inl e ↦ rw (e, insert_by) Perm.rfl
    | inr e ↦ rw (e, insert_by) (Perm.trans (Perm.cons y (insert_by-perm x ys)) (Perm.swap x y ys))
  ]

  pub sort_by-perm : (xs : List A) → Perm (sort_by cmp xs) xs
  unfolding sort_by
  sort_by-perm [] = Perm.rfl
  sort_by-perm (x ∷ xs) =
      Perm.trans (insert_by-perm x (sort_by cmp xs)) (Perm.cons x (sort_by-perm xs))

module _ {ℓ} {A : Type ℓ} {cmp : A → A → Ordering} (l : Lawful cmp) where
  at_most_trans :
      (x y z : A) → at_most (cmp x y) ≡ true → at_most (cmp y z) ≡ true → at_most (cmp x z) ≡ true
  at_most_trans x y z h k =
      ground (arith, l.trans x y z, l.same x y z, l.same z y x, l.swap y z, l.swap x z, l.swap x y)

  AtMost-trans :
      (x y : A) (ys : List A) → at_most (cmp x y) ≡ true → AtMost cmp y ys → AtMost cmp x ys
  AtMost-trans x y [] h k = tt
  AtMost-trans x y (z ∷ zs) h k = (at_most_trans x y z h k.0, AtMost-trans x y zs h k.1)

  AtMost-insert_by :
      (y x : A) (ys : List A)
      → at_most (cmp y x) ≡ true
      → AtMost cmp y ys
      → AtMost cmp y (insert_by cmp x ys)
  unfolding insert_by
  AtMost-insert_by y x [] h k = (h, tt)
  AtMost-insert_by y x (z ∷ zs) h k = elim (Bool-cases (at_most (cmp x z))) [
    | inl e ↦ rw (e, insert_by) (h, k)
    | inr e ↦ rw (e, insert_by) (k.0, AtMost-insert_by y x zs h k.1)
  ]

  insert_by-IsSorted : (x : A) (xs : List A) → IsSorted cmp xs → IsSorted cmp (insert_by cmp x xs)
  unfolding insert_by
  insert_by-IsSorted x [] s = (tt, tt)
  insert_by-IsSorted x (y ∷ ys) s = elim (Bool-cases (at_most (cmp x y))) [
    | inl e ↦ rw (e, insert_by) ((e, AtMost-trans x y ys e s.0), s)
    | inr e ↦
        let back : at_most (cmp y x) ≡ true = ground (arith, l.swap x y) in
        rw (e, insert_by) (AtMost-insert_by y x ys back s.0, insert_by-IsSorted x ys s.1)
  ]

  pub sort_by-IsSorted : (xs : List A) → IsSorted cmp (sort_by cmp xs)
  unfolding sort_by
  sort_by-IsSorted [] = tt
  sort_by-IsSorted (x ∷ xs) = insert_by-IsSorted x (sort_by cmp xs) (sort_by-IsSorted xs)

  at_most_self : (x : A) → at_most (cmp x x) ≡ true
  at_most_self x = ground (arith, l.swap x x)

  AtMost-mem : (x y : A) (xs : List A) → AtMost cmp x xs → Mem y xs → at_most (cmp x y) ≡ true
  AtMost-mem x y [] h m = absurd (not-mem-nil m)
  AtMost-mem x y (z ∷ zs) h m =
      Or.elim (hlevel) (mem-cons.0 m) (λ e. rw e h.0) (AtMost-mem x y zs h.1)

  head_at_most :
      (x y : A) (xs : List A) → AtMost cmp x xs → Mem y (x ∷ xs) → at_most (cmp x y) ≡ true
  head_at_most x y xs h m = AtMost-mem x y (x ∷ xs) (at_most_self x, h) m

  -- A list in which no two items compare equal has one rearrangement that is in order.
  pub IsSorted-eq_of_perm :
      (xs ys : List A)
      → ((a b : A) → Mem a xs → Mem b xs → cmp a b ≡ eq → a ≡ b)
      → IsSorted cmp xs
      → IsSorted cmp ys
      → Perm xs ys
      → xs ≡ ys
  IsSorted-eq_of_perm [] ys u s t p = Perm.nil-eq p
  IsSorted-eq_of_perm (x ∷ xs) [] u s t p = Perm.eq-nil p
  IsSorted-eq_of_perm (x ∷ xs) (y ∷ ys) u s t p =
      let y_in : Mem y (x ∷ xs) = (Perm.mem_iff p).1 mem-cons_self in
      let x_in : Mem x (y ∷ ys) = (Perm.mem_iff p).0 mem-cons_self in
      let low = head_at_most x y xs s.0 y_in in
      let high = head_at_most y x ys t.0 x_in in
      let heads : x ≡ y = u x y mem-cons_self y_in (ground (arith, l.swap x y)) in
      let tails = Perm.cons_inv (Perm.trans p (Perm.symm (Perm.cons' heads Perm.rfl))) in
      ap₂ ◌∷◌ heads (
        IsSorted-eq_of_perm xs ys
          (λ a b ma mb. u a b (mem-cons.1 (Or.inr ma)) (mem-cons.1 (Or.inr mb))) s.1 t.1 tails)

  -- Sorting forgets the order in which distinct keys were given.
  pub sort_by-eq_of_perm :
      (xs ys : List A)
      → ((a b : A) → Mem a xs → Mem b xs → cmp a b ≡ eq → a ≡ b)
      → Perm xs ys
      → sort_by cmp xs ≡ sort_by cmp ys
  sort_by-eq_of_perm xs ys u p =
      IsSorted-eq_of_perm (sort_by cmp xs) (sort_by cmp ys)
        (λ a b ma mb.
          u a b ((Perm.mem_iff (sort_by-perm cmp xs)).0 ma)
            ((Perm.mem_iff (sort_by-perm cmp xs)).0 mb))
        (sort_by-IsSorted xs) (sort_by-IsSorted ys)
        (Perm.trans (sort_by-perm cmp xs) (Perm.trans p (Perm.symm (sort_by-perm cmp ys))))
