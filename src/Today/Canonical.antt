-- ===== src/Today/Canonical.antt =====
-- What `build_today_queue` (backend/career_harness/core/today/policy.py) gives, and when.
use mathlib.Core.List.{Mem, Nodup, Nodup-cons, mem-cons}
use mathlib.Core.List.Perm
use mathlib.Core.Logic.Or
use career_agent_harness.Base.{
  ℕ, true, false, List, [], ◌∷◌, str_eq, Bool-cases, ◌≡◌, refl, sym, ◌∙◌, inl, inr, arith,
  if◌then◌else◌,
}
use career_agent_harness.Base.Result.{ok, err}
use career_agent_harness.Base.Keys.{member, has_duplicates}
use career_agent_harness.Base.KeyLaws.{str_eq-sym}
use career_agent_harness.Base.Orders.{has_duplicates-perm}
use career_agent_harness.Base.Sort.{
  sort_by, IsSorted, sort_by-IsSorted, sort_by-perm, sort_by-eq_of_perm,
}
use career_agent_harness.Base.Sorted.{has_duplicates-sort_by}
use career_agent_harness.Today.Refs.{TodaySourceRef, same_ref, same_ref-eq, by_ref, distinct}
use career_agent_harness.Today.Model.{TodayInputs, TodayItem, by_key, by_key-Lawful}
use career_agent_harness.Today.Policy.{repeated_items}
use career_agent_harness.Today.Queue.{
  items_of, refs_of, in_order, queue_of, queue_is_canonical, build_today_queue,
}
use career_agent_harness.Today.Distinct.{distinct-Nodup}
use career_agent_harness.Today.Unordered.{
  Rearranged, ids_of, items_of-perm, refs_of-perm, revisions-same, same_id, unique_ids,
}

in_order-IsSorted : (xs : List TodayItem) → IsSorted by_key xs → in_order xs ≡ true
unfolding in_order
in_order-IsSorted [] s = refl
in_order-IsSorted (x ∷ []) s = refl
in_order-IsSorted (x ∷ y ∷ rest) s = rw (s.0.0, in_order-IsSorted (y ∷ rest) s.1) refl

Mem-member :
    (a : TodaySourceRef) (xs : List TodaySourceRef) → member same_ref a xs ≡ true → Mem a xs
Mem-member a [] h = absurd (cc)
Mem-member a (x ∷ xs) h = elim (Bool-cases (same_ref x a)) [
  | inl e ↦ mem-cons.1 (Or.inl (sym (same_ref-eq x a e)))
  | inr e ↦ mem-cons.1 (Or.inr (Mem-member a xs (ground (arith, e))))
]

no_duplicates : (xs : List TodaySourceRef) → Nodup xs → has_duplicates same_ref xs ≡ false
no_duplicates [] n = refl
no_duplicates (x ∷ xs) n =
    let parts = Nodup-cons.0 n in
    elim (Bool-cases (member same_ref x xs)) [
      | inl e ↦ absurd (parts.0 (Mem-member x xs e))
      | inr e ↦ rw (e, no_duplicates xs parts.1) refl
    ]

sorted_ids :
    (xs : List TodayItem)
    → has_duplicates str_eq (ids_of (sort_by by_key xs)) ≡ has_duplicates str_eq (ids_of xs)
sorted_ids = has_duplicates-sort_by by_key (λ (i : TodayItem). i.item_id) str_eq str_eq-sym

-- Where two items have one identifier, the queue is refused; else it is given: its items sorted by
-- the contract's order, and every reference of the inputs once, sorted.
pub build_today_queue_lem :
    (i : TodayInputs) (generated_at : ℕ)
    → build_today_queue i generated_at ≡ (
        if has_duplicates str_eq (ids_of (items_of i))
        then err repeated_items
        else ok (queue_of i generated_at))
unfolding build_today_queue queue_is_canonical
build_today_queue_lem i generated_at =
    let items = items_of i in
    let refs = distinct (refs_of i) in
    let listed =
      no_duplicates (sort_by by_ref refs)
        (Perm.nodup (Perm.symm (sort_by-perm by_ref refs)) (distinct-Nodup (refs_of i))) in
    let ordered = in_order-IsSorted (sort_by by_key items) (sort_by-IsSorted by_key-Lawful items) in
    elim (Bool-cases (has_duplicates str_eq (ids_of items))) [
      | inl e ↦ rw (sorted_ids items, e) refl
      | inr e ↦ rw (sorted_ids items, e, ordered, listed) refl
    ]

-- The items of a queue in the order of the contract do not depend on the order of the inputs.
items-same :
    (i j : TodayInputs)
    → Rearranged i j
    → has_duplicates str_eq (ids_of (items_of i)) ≡ false
    → sort_by by_key (items_of i) ≡ sort_by by_key (items_of j)
items-same i j p h =
    sort_by-eq_of_perm by_key-Lawful (items_of i) (items_of j)
      (λ a b m n e. unique_ids (items_of i) h a b m n (same_id a b e)) (items_of-perm i j p)

-- The answer, be it a queue or an error, does not depend on the order in which the opportunities,
-- the applications, the tasks and the review requests are given.
pub build_today_queue-Rearranged :
    (i j : TodayInputs) (generated_at : ℕ)
    → Rearranged i j
    → build_today_queue i generated_at ≡ build_today_queue j generated_at
build_today_queue-Rearranged i j generated_at p =
    let alike : has_duplicates str_eq (ids_of (items_of i))
        ≡ has_duplicates str_eq (ids_of (items_of j)) =
      has_duplicates-perm str_eq str_eq-sym
        (Perm.map (λ (x : TodayItem). x.item_id) (items_of-perm i j p)) in
    build_today_queue_lem i generated_at
    ∙ elim (Bool-cases (has_duplicates str_eq (ids_of (items_of i)))) [
      | inl e ↦ rw (e) (sym (build_today_queue_lem j generated_at ∙ rw (sym alike, e) refl))
      | inr e ↦ rw e (
          rw (items-same i j p e, revisions-same (refs_of i) (refs_of j) (refs_of-perm i j p))
            (sym (build_today_queue_lem j generated_at ∙ rw (sym alike, e) refl)))
    ]
