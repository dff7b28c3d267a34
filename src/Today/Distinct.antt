-- ===== src/Today/Distinct.antt =====
-- The dictionary of references (`used_refs` of backend/career_harness/core/today/policy.py) holds
-- every reference once.
use mathlib.Core.Path.{◌≡◌, refl, sym}
use mathlib.Core.Logic.{inl, inr, ◌↔◌}
use mathlib.Core.Logic.Or
use mathlib.Core.Bool.{Bool, true, not}
use mathlib.Core.List.{List, [], ◌∷◌, Mem, Nodup, Nodup-cons, Nodup-nil, mem-cons, not-mem-nil}
use native.Mathlib.Omega.{arith}
use career_agent_harness.Base.{Bool-cases}
use career_agent_harness.Base.Keys.{keep}
use career_agent_harness.Today.Refs.{TodaySourceRef, same_ref, same_ref-eq, same_ref_refl, distinct}

module _ {ℓ} {A : Type ℓ} (p : A → Bool) where
  pub mem-keep : (a : A) (xs : List A) → Mem a (keep p xs) → Mem a xs × (p a ≡ true)
  mem-keep a [] m = absurd (not-mem-nil m)
  mem-keep a (x ∷ xs) m = elim (Bool-cases (p x)) [
    | inl e ↦
        Or.elim (hlevel) (mem-cons.0 (rw e at m)) (λ h. (mem-cons.1 (Or.inl h), rw h e))
          (λ h. let k = mem-keep a xs h in (mem-cons.1 (Or.inr k.0), k.1))
    | inr e ↦ let k = mem-keep a xs (rw e at m) in (mem-cons.1 (Or.inr k.0), k.1)
  ]

  pub keep-mem : (a : A) (xs : List A) → Mem a xs → p a ≡ true → Mem a (keep p xs)
  keep-mem a [] m h = absurd (not-mem-nil m)
  keep-mem a (x ∷ xs) m h = elim (Bool-cases (p x)) [
    | inl e ↦ rw e (
        Or.elim (hlevel) (mem-cons.0 m) (λ k. mem-cons.1 (Or.inl k))
          (λ k. mem-cons.1 (Or.inr (keep-mem a xs k h))))
    | inr e ↦ rw e (Or.elim (hlevel) (mem-cons.0 m) (λ k. absurd (cc)) (λ k. keep-mem a xs k h))
  ]

  pub Nodup-keep : (xs : List A) → Nodup xs → Nodup (keep p xs)
  Nodup-keep [] n = n
  Nodup-keep (x ∷ xs) n =
      let parts = Nodup-cons.0 n in
      elim (Bool-cases (p x)) [
        | inl e ↦ rw e (Nodup-cons.1 (λ m. parts.0 (mem-keep x xs m).0, Nodup-keep xs parts.1))
        | inr e ↦ rw e (Nodup-keep xs parts.1)
      ]

pub mem-distinct : (a : TodaySourceRef) (xs : List TodaySourceRef) → Mem a (distinct xs) ↔ Mem a xs
unfolding distinct
mem-distinct a [] = (λ m. m, λ m. m)
mem-distinct a (x ∷ xs) = (
  λ m.
      Or.elim (hlevel) (mem-cons.0 m) (λ h. mem-cons.1 (Or.inl h))
        (λ h. mem-cons.1 (Or.inr ((mem-distinct a xs).0 (mem-keep _ a (distinct xs) h).0))),
  λ m.
      Or.elim (hlevel) (mem-cons.0 m) (λ h. mem-cons.1 (Or.inl h))
        (λ h. elim (Bool-cases (same_ref x a)) [
          | inl e ↦ mem-cons.1 (Or.inl (sym (same_ref-eq x a e)))
          | inr e ↦
              mem-cons.1 (Or.inr (keep-mem _ a (distinct xs) ((mem-distinct a xs).1 h) (rw e refl)))
        ]),
)

pub distinct-Nodup : (xs : List TodaySourceRef) → Nodup (distinct xs)
unfolding distinct
distinct-Nodup [] = Nodup-nil
distinct-Nodup (x ∷ xs) = Nodup-cons.1 (
  λ m.
      let k = (mem-keep (λ y. not (same_ref x y)) x (distinct xs) m).1 in
      absurd (ground (arith, same_ref_refl x, k)),
  Nodup-keep _ (distinct xs) (distinct-Nodup xs),
)
