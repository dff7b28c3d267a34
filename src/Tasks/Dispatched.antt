-- ===== src/Tasks/Dispatched.antt =====
-- A dispatch over two stages, one of which has a task.
use career_agent_harness.Base.{◌+◌, ◌≤◌, String, List, [], ◌∷◌, length, ◌≡◌}
use career_agent_harness.Base.Result.{ok}
use career_agent_harness.Base.Json.{end}
use career_agent_harness.Tasks.Model.{Db, TaskRecord}
use career_agent_harness.Tasks.Outcomes.{new_row}
use career_agent_harness.Tasks.Service.{TaskService, error_name, run_one}
use career_agent_harness.Tasks.Dispatch.{Calls, check_dispatch, if_checked, dispatch_stages}
use career_agent_harness.Tasks.Cycle.{Gives, rounds_all, dispatch_stages-rounds_all}

abbrev one_waiting : Db
one_waiting = record {
  rows = ("task_a", new_row "test.echo" "evaluation" end 2 0 0) ∷ [];
  attempts = [];
  events = [];
}

abbrev echo : TaskService
echo = record {
  handlers = ("test.echo", record { stage = "evaluation"; handler = λ payload. ok payload }) ∷ [];
  stage_limits = ("evaluation", 3) ∷ [];
}

abbrev calls : Calls
calls = record {
  claimed_at = λ k. k + 5;
  done_at = λ k. k + 6;
  failed_at = λ k. k + 7;
  meanwhile = λ k db. db;
}

abbrev stages : List String
stages = "sourcing" ∷ "evaluation" ∷ []

dispatch_stages-rounds_all_example :
    (dispatch_stages error_name echo calls stages 2 1 one_waiting
      ≡ if_checked
          (check_dispatch stages 2 1)
          (rounds_all echo
            (λ stage k d.
              run_one error_name echo stage
                (calls.claimed_at k)
                (calls.done_at k)
                (calls.failed_at k)
                (calls.meanwhile k)
                d)
            1
            stages
            2
            []
            0
            one_waiting)
          0
          one_waiting)
    × Gives
        (λ (l : List TaskRecord). length l ≤ 1)
        (dispatch_stages error_name echo calls stages 2 1 one_waiting)
dispatch_stages-rounds_all_example =
    dispatch_stages-rounds_all error_name echo calls stages 2 1 one_waiting
