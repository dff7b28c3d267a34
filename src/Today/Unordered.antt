-- ===== src/Today/Unordered.antt =====
-- `build_today_queue` (backend/career_harness/core/today/policy.py) on inputs in another order.
use mathlib.Core.List.{Mem, Perm, perm_ext_iff_of_Nodup, mem-cons, not-mem-nil}
use mathlib.Core.Logic.Or
use mathlib.Core.List.Perm
use Prim.Native.Nat.{compare}
use Prim.Native.Nat.Ordering.{eq}
use career_agent_harness.Base.{
  String, true, false, List, [], ◌∷◌, map, str_eq, ◌≡◌, refl, sym, ◌∙◌, arith, ap, eq_refl,
}
use text.Mathlib.TextEquality.{IsScalar-prop}
use career_agent_harness.Base.Keys.{member, has_duplicates}
use career_agent_harness.Base.Orders.{concat_map-perm}
use career_agent_harness.Base.Compare.{compare_text-eq, or_else-eq}
use career_agent_harness.Base.Sort.{sort_by, sort_by-eq_of_perm}
use career_agent_harness.Today.Refs.{TodaySourceRef, by_ref, by_ref-Lawful, by_ref-eq, distinct}
use career_agent_harness.Today.Model.{
  OpportunityInput, EnhancementTaskInput, ReviewRequestInput, TodayInputs, TodayItem, by_key,
  priority_rank, item_time,
}
use career_agent_harness.Today.Policy.{refs_of_option}
use career_agent_harness.Today.Queue.{items_of, refs_of, interview_refs}
use career_agent_harness.Today.Distinct.{mem-distinct, distinct-Nodup}

-- The same inputs in another order.
abbrev pub Rearranged : TodayInputs → TodayInputs → Type 0
Rearranged i j =
    Perm i.opportunities j.opportunities
    × Perm i.applications j.applications
    × Perm i.enhancement_tasks j.enhancement_tasks
    × Perm i.review_requests j.review_requests

pub items_of-perm : (i j : TodayInputs) → Rearranged i j → Perm (items_of i) (items_of j)
unfolding items_of
items_of-perm i j (o, a, t, r) =
    Perm.append
      (Perm.append (Perm.append (concat_map-perm _ o) (concat_map-perm _ a)) (concat_map-perm _ t))
      (concat_map-perm _ r)

pub refs_of-perm : (i j : TodayInputs) → Rearranged i j → Perm (refs_of i) (refs_of j)
unfolding refs_of
refs_of-perm i j (o, a, t, r) =
    Perm.append
      (Perm.append
        (Perm.append
          (Perm.append (Perm.map (λ (x : OpportunityInput). x.source) o)
            (concat_map-perm (λ x. x.source ∷ refs_of_option x.opportunity) a))
          (Perm.map (λ (x : EnhancementTaskInput). x.source) t))
        (Perm.map (λ (x : ReviewRequestInput). x.source) r))
      (concat_map-perm interview_refs a)

-- The revisions listed depend on the references only.
pub revisions-same :
    (xs ys : List TodaySourceRef)
    → Perm xs ys
    → sort_by by_ref (distinct xs) ≡ sort_by by_ref (distinct ys)
revisions-same xs ys p =
    sort_by-eq_of_perm by_ref-Lawful (distinct xs) (distinct ys) (λ a b _ _. by_ref-eq a b)
      ((perm_ext_iff_of_Nodup (distinct-Nodup xs) (distinct-Nodup ys)).1 (λ a. (
        λ m. (mem-distinct a ys).1 ((Perm.mem_iff p).0 ((mem-distinct a xs).0 m)),
        λ m. (mem-distinct a xs).1 ((Perm.mem_iff p).1 ((mem-distinct a ys).0 m)),
      )))

abbrev pub ids_of : List TodayItem → List String
ids_of = map (λ (i : TodayItem). i.item_id)

mem-ids_of :
    (a : TodayItem) (xs : List TodayItem) → Mem a xs → member str_eq a.item_id (ids_of xs) ≡ true
mem-ids_of a [] m = absurd (not-mem-nil m)
mem-ids_of a (x ∷ xs) m =
    Or.elim (hlevel) (mem-cons.0 m)
      (λ h. let same : str_eq x.item_id a.item_id ≡ true = rw h (eq_refl x.item_id) in rw same refl)
      (λ h. ground (arith, mem-ids_of a xs h))

twice :
    (x b : TodayItem) (xs : List TodayItem)
    → member str_eq x.item_id (ids_of xs) ≡ false
    → Mem b xs
    → x.item_id ≡ b.item_id
    → ⊥
twice x b xs h m e =
    let found : member str_eq x.item_id (ids_of xs) ≡ true = rw e (mem-ids_of b xs m) in
    ground (arith, found)

pub same_id : (a b : TodayItem) → by_key a b ≡ eq → a.item_id ≡ b.item_id
same_id a b e =
    let first =
      or_else-eq (compare (priority_rank a.user_priority) (priority_rank b.user_priority)) _ e in
    let second =
      or_else-eq (compare (priority_rank a.suggested_priority) (priority_rank b.suggested_priority))
        _ first.1 in
    let third = or_else-eq (compare (item_time a).0 (item_time b).0) _ second.1 in
    let fourth = or_else-eq (compare (item_time a).1 (item_time b).1) _ third.1 in
    compare_text-eq a.item_id b.item_id fourth.1

-- Where no identifier is used twice, items of one identifier are the same.
pub unique_ids :
    (xs : List TodayItem)
    → has_duplicates str_eq (ids_of xs) ≡ false
    → (a b : TodayItem) → Mem a xs
    → Mem b xs
    → a.item_id ≡ b.item_id
    → a ≡ b
unique_ids [] h a b m n e = absurd (not-mem-nil m)
unique_ids (x ∷ xs) h a b m n e =
    let fresh : member str_eq x.item_id (ids_of xs) ≡ false = ground arith in
    Or.elim (hlevel (IsScalar-prop)) (mem-cons.0 m)
      (λ p.
        Or.elim (hlevel (IsScalar-prop)) (mem-cons.0 n) (λ q. p ∙ sym q)
          (λ q. absurd (twice x b xs fresh q (sym (ap (λ i. i.item_id) p) ∙ e))))
      (λ p.
        Or.elim (hlevel (IsScalar-prop)) (mem-cons.0 n)
          (λ q. absurd (twice x a xs fresh p (sym (ap (λ i. i.item_id) q) ∙ sym e)))
          (λ q. unique_ids xs (ground arith) a b p q e))
