-- ===== src/Today/Provenance.antt =====
-- Where the items of `build_today_queue` (backend/career_harness/core/today/policy.py) come from.

use career_agent_harness.Base.{
  Bool, true, false, ◌&&◌, List, [], ◌∷◌, ◌++◌, Option, none, some, map, all, Bool-cases, ◌≡◌, refl,
  sym, ◌∙◌, inl, inr, arith, if◌then◌else◌, Option-cases,
}
use career_agent_harness.Base.Orders.{concat_map}
use career_agent_harness.Base.Compare.{at_most}
use career_agent_harness.Today.Refs.{TodaySourceRef, distinct}
use career_agent_harness.Today.Model.{ApplicationInput, InterviewInput, TodayInputs, TodayItem}
use career_agent_harness.Today.Policy.{
  is_active, is_step, is_interview, is_open, is_proposed, is_scheduled, by_schedule,
  opportunity_item, first_scheduled, selected_interview, refs_of_option, application_refs,
  application_item_of, application_item, simple_item, enhancement_task_item, review_request_item,
}
use career_agent_harness.Today.Queue.{items_of, refs_of, interview_refs, list_of, collect}
use career_agent_harness.Today.Made.{gated, gated_twice, all-append, all_kept, all_of_four}

five_bools :
    (a b c d e : Bool)
    → a && b && c && d && e ≡ true
    → (a ≡ true) × (b ≡ true) × (c ≡ true) × (d ≡ true) × (e ≡ true)
five_bools a b c d e h = ground arith

choice-all :
    (q : InterviewInput → Bool) (b : Bool) (x : InterviewInput) (rest : Option InterviewInput)
    → q x ≡ true
    → all q (list_of rest) ≡ true
    → all q (
        list_of (
          if b
          then elim rest [
            | none ↦ some x
            | some other ↦ if at_most (by_schedule x other) then some x else some other
          ]
          else rest))
      ≡ true
choice-all q false x rest h k = k
choice-all q true x none h k = rw h refl
choice-all q true x (some other) h k = elim (Bool-cases (at_most (by_schedule x other))) [
  | inl e ↦ rw (e, h) refl
  | inr e ↦ rw e k
]

-- The interview that is selected is one of those given.
first_scheduled-all :
    (q : InterviewInput → Bool) (xs : List InterviewInput)
    → all q xs ≡ true
    → all q (list_of (first_scheduled xs)) ≡ true
unfolding first_scheduled
first_scheduled-all q [] h = refl
first_scheduled-all q (x ∷ xs) h =
    choice-all q (is_scheduled x.status) x (first_scheduled xs) (ground arith)
      (first_scheduled-all q xs (ground arith))

-- In this section `p` is any test of references.
module _ (p : TodaySourceRef → Bool) where
  all-distinct : (xs : List TodaySourceRef) → all p xs ≡ true → all p (distinct xs) ≡ true
  unfolding distinct
  all-distinct [] h = refl
  all-distinct (x ∷ xs) h =
      let here : p x ≡ true = ground arith in
      rw (here, all_kept p _ (distinct xs) (all-distinct xs (ground arith))) refl

  abbrev pub refs_pass : TodayItem → Bool
  refs_pass item = all p item.source_refs

  interviews_pass :
      (xs : List InterviewInput)
      → all p (concat_map (λ (i : InterviewInput). i.source ∷ i.application ∷ []) xs) ≡ true
      → all (λ (i : InterviewInput). p i.source && p i.application) xs ≡ true
  interviews_pass [] h = refl
  interviews_pass (x ∷ xs) h = ground (arith, interviews_pass xs)

  selected-pass :
      (x : ApplicationInput)
      → all p (interview_refs x) ≡ true
      → all (λ (i : InterviewInput). p i.source && p i.application) (list_of (selected_interview x))
        ≡ true
  unfolding selected_interview
  selected-pass x h = elim (Option-cases x.interviews) [
    | inl e ↦ rw e refl
    | inr (xs, e) ↦ rw e (first_scheduled-all _ xs (interviews_pass xs (rw e at h)))
  ]

  application_refs-pass :
      (x : ApplicationInput) (selected : Option InterviewInput)
      → all p (x.source ∷ refs_of_option x.opportunity) ≡ true
      → all (λ (i : InterviewInput). p i.source && p i.application) (list_of selected) ≡ true
      → all p (application_refs x.source x.opportunity selected) ≡ true
  unfolding application_refs
  application_refs-pass x none h k = h
  application_refs-pass x (some i) h k =
      all-distinct (x.source ∷ refs_of_option x.opportunity ++ i.source ∷ i.application ∷ []) (
        all-append p (x.source ∷ refs_of_option x.opportunity) (i.source ∷ i.application ∷ [])
        ∙ rw h (ground arith))

  module _ {A : Type 0} (r : A → Bool) (f : A → List TodayItem) where
    concat_pass :
        ((x : A) → r x ≡ true → all refs_pass (f x) ≡ true)
        → (xs : List A) → all r xs ≡ true
        → all refs_pass (concat_map f xs) ≡ true
    concat_pass h [] k = refl
    concat_pass h (x ∷ xs) k =
        all-append refs_pass (f x) (concat_map f xs)
        ∙ rw (h x (ground arith), concat_pass h xs (ground arith)) refl

  module _ {A : Type 0} where
    all-map : (g : A → TodaySourceRef) (xs : List A) → all p (map g xs) ≡ all (λ x. p (g x)) xs
    all-map g [] = refl
    all-map g (x ∷ xs) = rw (all-map g xs) refl

    all-concat :
        (g : A → List TodaySourceRef) (xs : List A)
        → all p (concat_map g xs) ≡ all (λ x. all p (g x)) xs
    all-concat g [] = refl
    all-concat g (x ∷ xs) = all-append p (g x) (concat_map g xs) ∙ rw (all-concat g xs) refl

    all_both :
        (a b : A → Bool) (xs : List A)
        → all a xs ≡ true
        → all b xs ≡ true
        → all (λ x. a x && b x) xs ≡ true
    all_both a b [] h k = refl
    all_both a b (x ∷ xs) h k = ground (arith, all_both a b xs)

  five_parts :
      (a b c d e : List TodaySourceRef)
      → all p (a ++ b ++ c ++ d ++ e) ≡ true
      → (all p a ≡ true) × (all p b ≡ true) × (all p c ≡ true) × (all p d ≡ true) × (all p e ≡ true)
  five_parts a b c d e h = five_bools (all p a) (all p b) (all p c) (all p d) (all p e) (
      sym (
        all-append p (a ++ b ++ c ++ d) e
        ∙ rw (all-append p (a ++ b ++ c) d, all-append p (a ++ b) c, all-append p a b) refl)
      ∙ h)

  one_source : (r : TodaySourceRef) → p r ≡ true → all p (r ∷ []) ≡ true
  one_source r h = rw h refl

  application_item-pass :
      (x : ApplicationInput)
      → all p (x.source ∷ refs_of_option x.opportunity) && all p (interview_refs x) ≡ true
      → all refs_pass (list_of (application_item x)) ≡ true
  unfolding application_item application_item_of
  application_item-pass x h =
      let direct : all p (x.source ∷ refs_of_option x.opportunity) ≡ true = ground arith in
      let listed : all p (interview_refs x) ≡ true = ground arith in
      gated_twice refs_pass (is_step x.state) (is_interview x.state) _ _
        (application_refs-pass x none direct refl)
        (application_refs-pass x (selected_interview x) direct (selected-pass x listed))

  pub items_of-pass :
      (i : TodayInputs) → all p (refs_of i) ≡ true → all refs_pass (items_of i) ≡ true
  unfolding items_of refs_of opportunity_item enhancement_task_item review_request_item simple_item
  items_of-pass i h =
      let (o, a, t, r, n) = five_parts _ _ _ _ _ h in
      all_of_four refs_pass (collect opportunity_item i.opportunities)
        (collect application_item i.applications)
        (collect enhancement_task_item i.enhancement_tasks)
        (collect review_request_item i.review_requests)
        (concat_pass (λ x. p x.source) (λ x. list_of (opportunity_item x))
          (λ x k. gated refs_pass (is_active x.state) _ (one_source x.source k)) i.opportunities
          (sym (all-map (λ x. x.source) i.opportunities) ∙ o))
        (concat_pass
          (λ x. all p (x.source ∷ refs_of_option x.opportunity) && all p (interview_refs x))
          (λ x. list_of (application_item x)) application_item-pass i.applications
          (all_both _ _ i.applications
            (sym (all-concat (λ x. x.source ∷ refs_of_option x.opportunity) i.applications) ∙ a)
            (sym (all-concat interview_refs i.applications) ∙ n)))
        (concat_pass (λ x. p x.source) (λ x. list_of (enhancement_task_item x))
          (λ x k. gated refs_pass (is_open x.status) _ (one_source x.source k)) i.enhancement_tasks
          (sym (all-map (λ x. x.source) i.enhancement_tasks) ∙ t))
        (concat_pass (λ x. p x.source) (λ x. list_of (review_request_item x))
          (λ x k. gated refs_pass (is_proposed x.status) _ (one_source x.source k))
          i.review_requests (sym (all-map (λ x. x.source) i.review_requests) ∙ r))
