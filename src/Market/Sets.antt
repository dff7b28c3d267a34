-- ===== src/Market/Sets.antt =====
-- A sorted set of texts, and a sorted list, do not depend on the order of the texts
-- (backend/career_harness/core/market/trend.py).

use mathlib.Core.Logic.Or
use mathlib.Core.List.{Mem, Nodup, Nodup-cons, Nodup-nil, mem-cons, perm_ext_iff_of_Nodup, Perm}
use mathlib.Core.List.Perm
use career_agent_harness.Base.{
  String, not, List, [], ◌∷◌, str_eq, eq_iff, eq_refl, ◌≡◌, ◌↔◌, refl, sym, arith, inl, inr,
  Bool-cases,
}
use career_agent_harness.Base.Compare.{compare_text-Lawful, compare_text-eq}
use career_agent_harness.Base.Sort.{sort_by-eq_of_perm}
use career_agent_harness.Today.Distinct.{mem-keep, keep-mem, Nodup-keep}
use career_agent_harness.Market.Trend.{distinct_texts, sorted_set, sorted_texts}

pub mem-distinct_texts : (a : String) (xs : List String) → Mem a (distinct_texts xs) ↔ Mem a xs
unfolding distinct_texts
mem-distinct_texts a [] = (λ m. m, λ m. m)
mem-distinct_texts a (x ∷ xs) = (
  λ m.
      Or.elim (hlevel) (mem-cons.0 m) (λ h. mem-cons.1 (Or.inl h))
        (λ h.
          mem-cons.1 (Or.inr ((mem-distinct_texts a xs).0 (mem-keep _ a (distinct_texts xs) h).0))),
  λ m.
      Or.elim (hlevel) (mem-cons.0 m) (λ h. mem-cons.1 (Or.inl h))
        (λ h. elim (Bool-cases (str_eq x a)) [
          | inl e ↦ mem-cons.1 (Or.inl (sym ((eq_iff x a).0 e)))
          | inr e ↦ mem-cons.1 (
              Or.inr (keep-mem _ a (distinct_texts xs) ((mem-distinct_texts a xs).1 h) (rw e refl)))
        ]),
)

pub distinct_texts-Nodup : (xs : List String) → Nodup (distinct_texts xs)
unfolding distinct_texts
distinct_texts-Nodup [] = Nodup-nil
distinct_texts-Nodup (x ∷ xs) = Nodup-cons.1 (
  λ m.
      let k = (mem-keep (λ y. not (str_eq x y)) x (distinct_texts xs) m).1 in
      absurd (ground (arith, eq_refl x, k)),
  Nodup-keep _ (distinct_texts xs) (distinct_texts-Nodup xs),
)

pub sorted_texts-perm : (xs ys : List String) → Perm xs ys → sorted_texts xs ≡ sorted_texts ys
sorted_texts-perm xs ys p =
    sort_by-eq_of_perm compare_text-Lawful xs ys (λ a b m n e. compare_text-eq a b e) p

pub sorted_set-perm : (xs ys : List String) → Perm xs ys → sorted_set xs ≡ sorted_set ys
sorted_set-perm xs ys p = sorted_texts-perm (distinct_texts xs) (distinct_texts ys) (
    (perm_ext_iff_of_Nodup (distinct_texts-Nodup xs) (distinct_texts-Nodup ys)).1 (λ a. (
      λ m. (mem-distinct_texts a ys).1 ((Perm.mem_iff p).0 ((mem-distinct_texts a xs).0 m)),
      λ m. (mem-distinct_texts a xs).1 ((Perm.mem_iff p).1 ((mem-distinct_texts a ys).0 m)),
    )))
