-- ===== src/Today/Policy.antt =====
-- `build_today_queue` of backend/career_harness/core/today/policy.py with the items it makes, and the
-- validator of `TodayQueue` in core/today/models.py.
use Prim.Native.Nat.{compare, Ordering}
use career_agent_harness.Base.{
  ℕ, Bool, true, false, List, [], ◌∷◌, ◌++◌, Option, none, some, if◌then◌else◌,
}
use career_agent_harness.Base.Compare.{compare_text, or_else, at_most}
use career_agent_harness.Today.Refs.{TodaySourceRef, distinct}
use career_agent_harness.Today.Model.{
  OpportunityState, ApplicationState, InterviewStatus, PriorityLevel, ProjectEnhancementTaskStatus,
  ReviewRequestStatus, OpportunityInput, InterviewInput, ApplicationInput, EnhancementTaskInput,
  ReviewRequestInput, TodayItemKind, TodayReasonCode, user_priority_urgent, user_priority_high,
  user_priority_medium, user_priority_low, suggested_priority_urgent, suggested_priority_high,
  suggested_priority_medium, suggested_priority_low, missing_user_priority,
  missing_suggested_priority, deadline_approaching, interview_upcoming, opportunity_active,
  application_step_pending, interview_prep_due, gap_linked_task, pending_user_review, TodayItem,
  today_item_id,
}

pub data TodayError : Type 0 where
  repeated_items out_of_order repeated_inputs : TodayError

-- `ACTIVE_OPPORTUNITY_STATES`, `APPLICATION_STEP_STATES`, `OPEN_ENHANCEMENT_STATUSES`
abbrev pub is_active : OpportunityState → Bool
is_active OpportunityState.discovered = true
is_active OpportunityState.watching = true
is_active OpportunityState.qualified = true
is_active OpportunityState.preparing = true
is_active _ = false

abbrev pub is_step : ApplicationState → Bool
is_step ApplicationState.preparing = true
is_step ApplicationState.ready_for_review = true
is_step ApplicationState.screen = true
is_step ApplicationState.oa = true
is_step _ = false

abbrev pub is_interview : ApplicationState → Bool
is_interview ApplicationState.interview = true
is_interview _ = false

abbrev pub is_open : ProjectEnhancementTaskStatus → Bool
is_open ProjectEnhancementTaskStatus.completed = false
is_open ProjectEnhancementTaskStatus.cancelled = false
is_open _ = true

abbrev pub is_proposed : ReviewRequestStatus → Bool
is_proposed ReviewRequestStatus.proposed = true
is_proposed _ = false

abbrev pub is_scheduled : InterviewStatus → Bool
is_scheduled InterviewStatus.scheduled = true
is_scheduled _ = false

abbrev user_reason : Option PriorityLevel → TodayReasonCode
user_reason none = missing_user_priority
user_reason (some PriorityLevel.urgent) = user_priority_urgent
user_reason (some PriorityLevel.high) = user_priority_high
user_reason (some PriorityLevel.medium) = user_priority_medium
user_reason (some PriorityLevel.low) = user_priority_low

abbrev suggested_reason : Option PriorityLevel → TodayReasonCode
suggested_reason none = missing_suggested_priority
suggested_reason (some PriorityLevel.urgent) = suggested_priority_urgent
suggested_reason (some PriorityLevel.high) = suggested_priority_high
suggested_reason (some PriorityLevel.medium) = suggested_priority_medium
suggested_reason (some PriorityLevel.low) = suggested_priority_low

-- `_priority_reasons`
abbrev pub priority_reasons : Option PriorityLevel → Option PriorityLevel → List TodayReasonCode
priority_reasons user suggested = user_reason user ∷ suggested_reason suggested ∷ []

abbrev pub reason_if : Option ℕ → TodayReasonCode → List TodayReasonCode
reason_if none code = []
reason_if (some t) code = code ∷ []

-- `_opportunity_item`
unfoldable pub opportunity_item : OpportunityInput → Option TodayItem
opportunity_item i =
    if is_active i.state
    then some (record {
      item_id = today_item_id TodayItemKind.opportunity_action i.source.entity_id;
      kind = TodayItemKind.opportunity_action;
      source_refs = i.source ∷ [];
      reasons =
          opportunity_active ∷ reason_if i.deadline_at deadline_approaching
          ++ priority_reasons i.user_priority i.suggested_priority;
      user_priority = i.user_priority;
      suggested_priority = i.suggested_priority;
      deadline_at = i.deadline_at;
      interview_at = none;
    })
    else none

-- The key `(scheduled_at, entity_id)`; `min` keeps the first of equal ones.
abbrev pub by_schedule : InterviewInput → InterviewInput → Ordering
by_schedule a b =
    or_else (compare a.scheduled_at b.scheduled_at)
      (compare_text a.source.entity_id b.source.entity_id)

unfoldable pub first_scheduled : List InterviewInput → Option InterviewInput
first_scheduled [] = none
first_scheduled (i ∷ rest) =
    if is_scheduled i.status
    then elim (first_scheduled rest) [
      | none ↦ some i
      | some other ↦ if at_most (by_schedule i other) then some i else some other
    ]
    else first_scheduled rest

unfoldable pub selected_interview : ApplicationInput → Option InterviewInput
selected_interview i = elim i.interviews [
  | none ↦ none
  | some interviews ↦ first_scheduled interviews
]

unfoldable pub interview_time : ApplicationInput → Option ℕ
interview_time i = elim i.interviews [
  | none ↦ i.interview_at
  | some interviews ↦ elim (first_scheduled interviews) [
    | none ↦ none
    | some selected ↦ some selected.scheduled_at
  ]
]

abbrev pub refs_of_option : Option TodaySourceRef → List TodaySourceRef
refs_of_option none = []
refs_of_option (some r) = r ∷ []

unfoldable pub application_refs :
    TodaySourceRef → Option TodaySourceRef → Option InterviewInput → List TodaySourceRef
application_refs source opportunity none = source ∷ refs_of_option opportunity
application_refs source opportunity (some i) =
    distinct (source ∷ refs_of_option opportunity ++ i.source ∷ i.application ∷ [])

unfoldable pub application_item_of :
    ApplicationInput
    → TodayItemKind
    → List TodayReasonCode
    → Option InterviewInput
    → Option ℕ
    → TodayItem
unfolding application_refs
application_item_of i kind reasons selected interview_at = record {
  item_id = today_item_id kind i.source.entity_id;
  kind = kind;
  source_refs = application_refs i.source i.opportunity selected;
  reasons = reasons ++ priority_reasons i.user_priority i.suggested_priority;
  user_priority = i.user_priority;
  suggested_priority = i.suggested_priority;
  deadline_at = none;
  interview_at = interview_at;
}

-- `_application_item`
unfoldable pub application_item : ApplicationInput → Option TodayItem
unfolding application_item_of
application_item i =
    if is_step i.state
    then some (
        application_item_of i TodayItemKind.application_step (application_step_pending ∷ []) none
          none)
    else if is_interview i.state
    then some (
        application_item_of i TodayItemKind.interview_prep
          (interview_prep_due ∷ reason_if (interview_time i) interview_upcoming)
          (selected_interview i) (interview_time i))
    else none

unfoldable pub simple_item : TodayItemKind → TodayReasonCode → TodaySourceRef → TodayItem
simple_item kind code source = record {
  item_id = today_item_id kind source.entity_id;
  kind = kind;
  source_refs = source ∷ [];
  reasons = code ∷ priority_reasons none none;
  user_priority = none;
  suggested_priority = none;
  deadline_at = none;
  interview_at = none;
}

-- `_enhancement_task_item`
unfoldable pub enhancement_task_item : EnhancementTaskInput → Option TodayItem
unfolding simple_item
enhancement_task_item i =
    if is_open i.status
    then some (simple_item TodayItemKind.enhancement_task gap_linked_task i.source)
    else none

-- `_review_request_item`
unfoldable pub review_request_item : ReviewRequestInput → Option TodayItem
unfolding simple_item
review_request_item i =
    if is_proposed i.status
    then some (simple_item TodayItemKind.review_request pending_user_review i.source)
    else none
