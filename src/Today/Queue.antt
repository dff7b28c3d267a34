-- ===== src/Today/Queue.antt =====
-- `build_today_queue` of backend/career_harness/core/today/policy.py, and the validator of
-- `TodayQueue` in core/today/models.py.

use career_agent_harness.Base.{
  ℕ, Bool, true, not, ◌&&◌, List, [], ◌∷◌, ◌++◌, Option, none, some, map, str_eq,
}
use career_agent_harness.Base.Result.{Result, ok, ◌>>◌, raise_if}
use career_agent_harness.Base.Keys.{has_duplicates}
use career_agent_harness.Base.Orders.{concat_map}
use career_agent_harness.Base.Compare.{at_most}
use career_agent_harness.Base.Sort.{sort_by}
use career_agent_harness.Today.Refs.{TodaySourceRef, same_ref, by_ref, distinct}
use career_agent_harness.Today.Model.{
  OpportunityInput, InterviewInput, ApplicationInput, EnhancementTaskInput, ReviewRequestInput,
  TodayInputs, TodayItem, TodayQueue, by_key,
}
use career_agent_harness.Today.Policy.{
  TodayError, repeated_items, out_of_order, repeated_inputs, refs_of_option, opportunity_item,
  application_item, enhancement_task_item, review_request_item,
}

abbrev pub list_of {ℓ} : {A : Type ℓ} → Option A → List A
list_of none = []
list_of (some a) = a ∷ []

-- The results of `f` that are not None.
abbrev pub collect {ℓ κ} : {A : Type ℓ} {B : Type κ} → (A → Option B) → List A → List B
collect f = concat_map (λ x. list_of (f x))

-- The four loops that make the items.
unfoldable pub items_of : TodayInputs → List TodayItem
items_of i =
    collect opportunity_item i.opportunities
    ++ collect application_item i.applications
    ++ collect enhancement_task_item i.enhancement_tasks
    ++ collect review_request_item i.review_requests

abbrev pub interview_refs : ApplicationInput → List TodaySourceRef
interview_refs a = elim a.interviews [
  | none ↦ []
  | some interviews ↦ concat_map (λ (i : InterviewInput). i.source ∷ i.application ∷ []) interviews
]

-- The references that go into `used_refs`, in the order of the code.
unfoldable pub refs_of : TodayInputs → List TodaySourceRef
refs_of i =
    map (λ (x : OpportunityInput). x.source) i.opportunities
    ++ concat_map (λ (x : ApplicationInput). x.source ∷ refs_of_option x.opportunity) i.applications
    ++ map (λ (x : EnhancementTaskInput). x.source) i.enhancement_tasks
    ++ map (λ (x : ReviewRequestInput). x.source) i.review_requests
    ++ concat_map interview_refs i.applications

-- `keys == sorted(keys)`: no key is above its successor.
unfoldable pub in_order : List TodayItem → Bool
in_order [] = true
in_order (x ∷ []) = true
in_order (x ∷ y ∷ rest) = at_most (by_key x y) && in_order (y ∷ rest)

-- `queue_is_canonical`
unfoldable pub queue_is_canonical : TodayQueue → Result TodayError (Unit {0})
queue_is_canonical q = do
  raise_if (has_duplicates str_eq (map (λ (i : TodayItem). i.item_id) q.items)) repeated_items
  raise_if (not (in_order q.items)) out_of_order
  raise_if (has_duplicates same_ref q.input_revisions) repeated_inputs
  ok tt

abbrev pub queue_of : TodayInputs → ℕ → TodayQueue
queue_of i generated_at = record {
  items = sort_by by_key (items_of i);
  input_revisions = sort_by by_ref (distinct (refs_of i));
  generated_at = generated_at;
}

-- `build_today_queue`
unfoldable pub build_today_queue : TodayInputs → ℕ → Result TodayError TodayQueue
unfolding queue_is_canonical
build_today_queue i generated_at = do
  queue_is_canonical (queue_of i generated_at)
  ok (queue_of i generated_at)
