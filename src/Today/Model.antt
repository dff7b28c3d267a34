-- ===== src/Today/Model.antt =====
-- The inputs of the Today policy (backend/career_harness/core/today/policy.py), and its items with
-- their order (core/today/models.py). Times are microseconds; of a reason only its code is kept.
use Prim.Native.Nat.{compare, Ordering}
use career_agent_harness.Base.{ℕ, String, List, Option, none, some, min}
use career_agent_harness.Base.Compare.{
  compare_text, compare_text-Lawful, compare-Lawful, Lawful, on-Lawful, or_else, or_else-Lawful,
}
use career_agent_harness.Today.Refs.{TodaySourceRef}

pub data OpportunityState : Type 0 where
  discovered watching qualified preparing declined expired archived : OpportunityState

pub data ApplicationState : Type 0 where
  preparing ready_for_review submitted_by_user screen oa interview offer : ApplicationState
  rejected withdrawn closed : ApplicationState

pub data InterviewStatus : Type 0 where
  scheduled completed cancelled : InterviewStatus

pub data PriorityLevel : Type 0 where
  low medium high urgent : PriorityLevel

pub data ProjectEnhancementTaskStatus : Type 0 where
  proposed ready in_progress awaiting_validation completed cancelled : ProjectEnhancementTaskStatus

pub data ReviewRequestStatus : Type 0 where
  proposed accepted rejected superseded : ReviewRequestStatus

pub record OpportunityInput : Type 0 where
  pub source : TodaySourceRef
  pub state : OpportunityState
  pub user_priority : Option PriorityLevel
  pub suggested_priority : Option PriorityLevel
  pub deadline_at : Option ℕ

pub record InterviewInput : Type 0 where
  pub source : TodaySourceRef
  pub application : TodaySourceRef
  pub status : InterviewStatus
  pub scheduled_at : ℕ

pub record ApplicationInput : Type 0 where
  pub source : TodaySourceRef
  pub opportunity : Option TodaySourceRef
  pub state : ApplicationState
  pub user_priority : Option PriorityLevel
  pub suggested_priority : Option PriorityLevel
  pub interview_at : Option ℕ
  pub interviews : Option (List InterviewInput)

pub record EnhancementTaskInput : Type 0 where
  pub source : TodaySourceRef
  pub status : ProjectEnhancementTaskStatus

pub record ReviewRequestInput : Type 0 where
  pub source : TodaySourceRef
  pub status : ReviewRequestStatus

pub record TodayInputs : Type 0 where
  pub opportunities : List OpportunityInput
  pub applications : List ApplicationInput
  pub enhancement_tasks : List EnhancementTaskInput
  pub review_requests : List ReviewRequestInput

pub data TodayItemKind : Type 0 where
  opportunity_action application_step interview_prep enhancement_task review_request : TodayItemKind

pub data TodayReasonCode : Type 0 where
  user_priority_urgent user_priority_high user_priority_medium user_priority_low : TodayReasonCode
  suggested_priority_urgent suggested_priority_high : TodayReasonCode
  suggested_priority_medium suggested_priority_low : TodayReasonCode
  missing_user_priority missing_suggested_priority : TodayReasonCode
  deadline_approaching interview_upcoming opportunity_active : TodayReasonCode
  application_step_pending interview_prep_due gap_linked_task pending_user_review : TodayReasonCode

pub record TodayItem : Type 0 where
  pub item_id : String
  pub kind : TodayItemKind
  pub source_refs : List TodaySourceRef
  pub reasons : List TodayReasonCode
  pub user_priority : Option PriorityLevel
  pub suggested_priority : Option PriorityLevel
  pub deadline_at : Option ℕ
  pub interview_at : Option ℕ

pub record TodayQueue : Type 0 where
  pub items : List TodayItem
  pub input_revisions : List TodaySourceRef
  pub generated_at : ℕ

abbrev pub item_kind_value : TodayItemKind → String
item_kind_value TodayItemKind.opportunity_action = "opportunity_action"
item_kind_value TodayItemKind.application_step = "application_step"
item_kind_value TodayItemKind.interview_prep = "interview_prep"
item_kind_value TodayItemKind.enhancement_task = "enhancement_task"
item_kind_value TodayItemKind.review_request = "review_request"

abbrev pub join : String → String → String
join String.[] t = t
join (String.◌∷◌ c s) t = String.◌∷◌ c (join s t)

-- `today_item_id`
unfoldable pub today_item_id : TodayItemKind → String → String
today_item_id kind entity_id = join "today:" (join (item_kind_value kind) (join ":" entity_id))

-- `_priority_rank`
unfoldable pub priority_rank : Option PriorityLevel → ℕ
priority_rank none = 4
priority_rank (some PriorityLevel.urgent) = 0
priority_rank (some PriorityLevel.high) = 1
priority_rank (some PriorityLevel.medium) = 2
priority_rank (some PriorityLevel.low) = 3

-- `min(timed) if timed else None`
unfoldable pub earliest : Option ℕ → Option ℕ → Option ℕ
earliest none b = b
earliest (some a) none = some a
earliest (some a) (some b) = some (min a b)

-- `(earliest is None, earliest if earliest is not None else _FAR_FUTURE)`: no time is last, and two
-- items without a time do not differ in it.
unfoldable pub time_key : Option ℕ → ℕ × ℕ
time_key none = (1, 0)
time_key (some t) = (0, t)

abbrev pub item_time : TodayItem → ℕ × ℕ
item_time item = time_key (earliest item.deadline_at item.interview_at)

-- The order of `today_item_sort_key`.
abbrev pub by_key : TodayItem → TodayItem → Ordering
by_key a b = or_else (compare (priority_rank a.user_priority) (priority_rank b.user_priority)) (
    or_else (compare (priority_rank a.suggested_priority) (priority_rank b.suggested_priority)) (
      or_else (compare (item_time a).0 (item_time b).0)
        (or_else (compare (item_time a).1 (item_time b).1) (compare_text a.item_id b.item_id))))

pub by_key-Lawful : Lawful by_key
by_key-Lawful =
    or_else-Lawful (on-Lawful (λ (i : TodayItem). priority_rank i.user_priority) compare-Lawful) (
      or_else-Lawful
        (on-Lawful (λ (i : TodayItem). priority_rank i.suggested_priority) compare-Lawful)
        (or_else-Lawful (on-Lawful (λ (i : TodayItem). (item_time i).0) compare-Lawful) (
          or_else-Lawful (on-Lawful (λ (i : TodayItem). (item_time i).1) compare-Lawful)
            (on-Lawful (λ (i : TodayItem). i.item_id) compare_text-Lawful))))
