-- ===== src/Today/Sources.antt =====
-- The queue of `build_today_queue` (backend/career_harness/core/today/policy.py) and the references that
-- its items name.
use mathlib.Core.List.{Mem, mem-cons, mem-cons_self, not-mem-nil}
use mathlib.Core.List.Perm
use mathlib.Core.Logic.Or
use career_agent_harness.Base.{
  ℕ, Bool, true, false, List, [], ◌∷◌, all, str_eq, ◌≡◌, refl, sym, ◌∙◌, arith, if◌then◌else◌,
}
use career_agent_harness.Base.Result.{ok, err}
use career_agent_harness.Base.Keys.{member, has_duplicates}
use career_agent_harness.Base.Sort.{sort_by, sort_by-perm}
use career_agent_harness.Base.Sorted.{all-sort_by}
use career_agent_harness.Today.Refs.{TodaySourceRef, same_ref, same_ref_refl, by_ref, distinct}
use career_agent_harness.Today.Model.{TodayInputs, TodayItem, TodayQueue, by_key}
use career_agent_harness.Today.Policy.{repeated_items}
use career_agent_harness.Today.Queue.{items_of, refs_of, queue_of, build_today_queue}
use career_agent_harness.Today.Distinct.{mem-distinct}
use career_agent_harness.Today.Unordered.{ids_of}
use career_agent_harness.Today.Canonical.{build_today_queue_lem}
use career_agent_harness.Today.Provenance.{refs_pass, items_of-pass}

member-Mem :
    (a : TodaySourceRef) (xs : List TodaySourceRef) → Mem a xs → member same_ref a xs ≡ true
member-Mem a [] m = absurd (not-mem-nil m)
member-Mem a (x ∷ xs) m =
    Or.elim (hlevel) (mem-cons.0 m)
      (λ h. let same : same_ref x a ≡ true = rw h (same_ref_refl x) in rw same refl)
      (λ h. ground (arith, member-Mem a xs h))

all-Mem :
    (p : TodaySourceRef → Bool) (xs : List TodaySourceRef)
    → ((a : TodaySourceRef) → Mem a xs → p a ≡ true)
    → all p xs ≡ true
all-Mem p [] h = refl
all-Mem p (x ∷ xs) h =
    rw (h x mem-cons_self, all-Mem p xs (λ a m. h a (mem-cons.1 (Or.inr m)))) refl

refs_of-listed :
    (i : TodayInputs)
    → all (λ r. member same_ref r (sort_by by_ref (distinct (refs_of i)))) (refs_of i) ≡ true
refs_of-listed i = all-Mem _ (refs_of i) (λ a m.
    member-Mem a (sort_by by_ref (distinct (refs_of i))) (
      (Perm.mem_iff (sort_by-perm by_ref (distinct (refs_of i)))).1
        ((mem-distinct a (refs_of i)).1 m)))

ok_is : (b : Bool) (q r : TodayQueue) → (if b then err repeated_items else ok q) ≡ ok r → q ≡ r
ok_is true q r h = absurd (cc)
ok_is false q r h = cc

-- Every reference that an item of a queue names, of its source, its opportunity or its interview, is
-- among the input revisions that the queue lists.
pub build_today_queue-sourced :
    (i : TodayInputs) (generated_at : ℕ) (q : TodayQueue)
    → build_today_queue i generated_at ≡ ok q
    → all
        (λ (item : TodayItem). all (λ r. member same_ref r q.input_revisions) item.source_refs)
        q.items
      ≡ true
build_today_queue-sourced i generated_at q h =
    let listed =
      λ (r : TodaySourceRef). member same_ref r (sort_by by_ref (distinct (refs_of i))) in
    let same : queue_of i generated_at ≡ q =
      ok_is (has_duplicates str_eq (ids_of (items_of i))) (queue_of i generated_at) q
        (sym (build_today_queue_lem i generated_at) ∙ h) in
    rw (sym same) (
      all-sort_by by_key (refs_pass listed) (items_of i)
      ∙ items_of-pass listed i (refs_of-listed i))
