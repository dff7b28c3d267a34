-- ===== src/Today/Examples.antt =====
-- Two opportunities and an application with an interview, in two orders.
use mathlib.Core.List.Perm
use career_agent_harness.Base.{
  String, true, List, [], ◌∷◌, none, some, str_eq, ◌≡◌, if◌then◌else◌, all,
}
use career_agent_harness.Base.Result.{ok, err}
use career_agent_harness.Base.Keys.{has_duplicates, member}
use career_agent_harness.Today.Refs.{EntityKind, TodaySourceRef, same_ref}
use career_agent_harness.Today.Model.{
  OpportunityState, ApplicationState, InterviewStatus, PriorityLevel, OpportunityInput,
  ApplicationInput, TodayInputs, TodayItem, today_item_id,
}
use career_agent_harness.Today.Policy.{repeated_items, opportunity_item, application_item}
use career_agent_harness.Today.Queue.{items_of, queue_of, build_today_queue}
use career_agent_harness.Today.Unordered.{ids_of}
use career_agent_harness.Today.Sources.{build_today_queue-sourced}
use career_agent_harness.Today.Canonical.{build_today_queue_lem, build_today_queue-Rearranged}

abbrev reference : String → EntityKind → TodaySourceRef
reference id kind = record { entity_id = id; kind = kind; revision = 1 }

abbrev relaxed : OpportunityInput
relaxed = record {
  source = reference "opp_a" EntityKind.opportunity;
  state = OpportunityState.watching;
  user_priority = none;
  suggested_priority = some PriorityLevel.high;
  deadline_at = none;
}

abbrev pressing : OpportunityInput
pressing = record {
  source = reference "opp_b" EntityKind.opportunity;
  state = OpportunityState.preparing;
  user_priority = some PriorityLevel.urgent;
  suggested_priority = none;
  deadline_at = some 7;
}

abbrev application : ApplicationInput
application = record {
  source = reference "app_1" EntityKind.application;
  opportunity = some (reference "opp_b" EntityKind.opportunity);
  state = ApplicationState.interview;
  user_priority = none;
  suggested_priority = none;
  interview_at = none;
  interviews = some (
      record {
        source = reference "int_1" EntityKind.interview;
        application = reference "app_1" EntityKind.application;
        status = InterviewStatus.scheduled;
        scheduled_at = 9;
      }
      ∷ []);
}

abbrev inputs : List OpportunityInput → TodayInputs
inputs opportunities = record {
  opportunities = opportunities;
  applications = application ∷ [];
  enhancement_tasks = [];
  review_requests = [];
}

abbrev given : TodayInputs
given = inputs (relaxed ∷ pressing ∷ [])

build_today_queue_lem_example : build_today_queue given 5 ≡ (
    if has_duplicates str_eq (ids_of (items_of given))
    then err repeated_items
    else ok (queue_of given 5))
build_today_queue_lem_example = build_today_queue_lem given 5

build_today_queue-Rearranged_example :
    build_today_queue given 5 ≡ build_today_queue (inputs (pressing ∷ relaxed ∷ [])) 5
build_today_queue-Rearranged_example =
    build_today_queue-Rearranged given (inputs (pressing ∷ relaxed ∷ [])) 5
      (Perm.swap pressing relaxed [], Perm.rfl, Perm.rfl, Perm.rfl)

build_today_queue-sourced_example :
    all
      (λ (item : TodayItem).
        all (λ r. member same_ref r (queue_of given 5).input_revisions) item.source_refs)
      (queue_of given 5).items
    ≡ true
unfolding items_of opportunity_item today_item_id application_item
build_today_queue-sourced_example =
    build_today_queue-sourced given 5 (queue_of given 5) (build_today_queue_lem given 5)
