-- ===== src/Tasks/Examples.antt =====
-- A task of two attempts: its life as concrete transactions, and each theorem at one of them.
use career_agent_harness.Base.{
  true, false, [], ◌∷◌, Option, none, some, ◌≡◌, refl, ◌⊎◌, arith, ◌≢◌, ap,
}
use career_agent_harness.Base.Result.{Result, ok, err}
use career_agent_harness.Base.Json.{Fields, end, encoded_size}
use career_agent_harness.Base.Table.{lookup, insert}
use career_agent_harness.Base.Text.{is_opaque_id, has_length}
use career_agent_harness.Tasks.Model.{
  TaskStatus, Row, AttemptStatus, of_stage, of_attempt, empty, Db, TaskLease, has_attempt,
  log_event, update_where, insert_attempt, valid_record,
}
use career_agent_harness.Tasks.Payload.{valid_task_json, any_field_secret}
use career_agent_harness.Tasks.Enqueue.{enqueue_tx, insert_row, locked_row}
use career_agent_harness.Tasks.Lease.{
  claim_tx, claim_selected, claim_row, holds, complete_tx, fail_tx, delay_overflows, can_retry,
  retry_delay,
}
use career_agent_harness.Tasks.Control.{cancel_tx, cancel_selected, cancelled_row, manual_retry}
use career_agent_harness.Tasks.Writes.{Wrote}
use career_agent_harness.Tasks.Effects.{
  completed_row, completed_attempt, failed_attempt, completed_events, failed_events,
}
use career_agent_harness.Tasks.Outcomes.{new_row}
use career_agent_harness.Tasks.Machine.{Step, Reach, empty_db}
use career_agent_harness.Tasks.Refinement.{Moved, Step-Moved}
use career_agent_harness.Tasks.Invariant.{Inv, empty_db-Inv, Step-Inv, Reach-Inv}
use career_agent_harness.Tasks.Fencing.{IsStale}
use career_agent_harness.Tasks.Leases.{
  after_failure, completed_once, cancelled-IsStale, complete_commits, fail_commits,
}
use career_agent_harness.Tasks.Races.{IsStuck, claim_selected-IsStuck, cancel_selected-overtaken}
use career_agent_harness.Tasks.Overtaken.{Race, Raced, After, IsSpent, Raced-IsStale}
use career_agent_harness.Tasks.Claims.{IsIdle, Claimed, claim_tx_lem}
use career_agent_harness.Tasks.Service.{
  TaskService, RegisteredTaskHandler, Raised, stale, exception, error_name, run_lease,
}
use career_agent_harness.Tasks.Release.{run_lease-IsStale}
use career_agent_harness.Tasks.Retries.{Retried, manual_retry_limit}

abbrev waiting : Row
waiting = new_row "test.echo" "evaluation" end 2 0 0

abbrev enqueued : Db
enqueued = record {
  rows = ("task_a", waiting) ∷ [];
  attempts = [];
  events =
      record {
        event_type = "task.enqueued";
        entity_id = "task_a";
        entity_revision = 1;
        payload = of_stage "evaluation";
        occurred_at = 0;
      }
      ∷ [];
}

enqueue_step : Step empty_db enqueued
unfolding enqueue_tx insert_row insert lookup log_event
enqueue_step =
    Step.enqueue "task_a" "test.echo" "evaluation" end 2 0 0 (omega arith) (omega arith) refl

abbrev working : Row
working = record waiting {
  status = TaskStatus.processing;
  progress = 10000;
  current_attempt = 1;
  claimed_at = some 5;
  updated_at = 5;
}

abbrev claimed : Db
claimed = record enqueued {
  rows = ("task_a", working) ∷ [];
  events =
      record {
        event_type = "task.enqueued";
        entity_id = "task_a";
        entity_revision = 1;
        payload = of_stage "evaluation";
        occurred_at = 0;
      }
      ∷ record {
        event_type = "task.started";
        entity_id = "task_a";
        entity_revision = 1;
        payload = of_attempt 1;
        occurred_at = 5;
      }
      ∷ [];
}

claim_step : Step enqueued claimed
unfolding claim_selected claim_row update_where insert lookup log_event
claim_step = Step.claim "task_a" waiting 5 refl refl

to_claimed : Reach empty_db claimed
to_claimed = Reach.next (Reach.next Reach.here enqueue_step) claim_step

Reach-Inv_example : Inv claimed
Reach-Inv_example = Reach-Inv empty_db-Inv to_claimed

claimed-Inv : Inv claimed
claimed-Inv = Step-Inv (Step-Inv empty_db-Inv enqueue_step) claim_step

Step-Moved_example : Moved enqueued claimed ⊎ (claimed ≡ enqueued)
unfolding lookup
Step-Moved_example = Step-Moved claim_step

abbrev lease : TaskLease
lease = record { task = record { task_id = "task_a"; row = working }; version = 1; attempt = 1 }

claimed_row : lookup "task_a" claimed.rows ≡ some working
unfolding lookup
claimed_row = refl

lease-holds : holds lease working ≡ true
unfolding holds
lease-holds = refl

empty_valid : valid_task_json end ≡ true
unfolding valid_task_json encoded_size any_field_secret
empty_valid = refl

complete_commits_example :
    (db' : Db) × (complete_tx lease end 9 claimed ≡ ok db')
    × Wrote "task_a" (completed_row end 9 working) (some (completed_attempt lease 9)) claimed db'
    × (db'.events ≡ completed_events lease 9 claimed)
complete_commits_example =
    complete_commits lease 9 working claimed claimed-Inv claimed_row lease-holds end empty_valid

in_time : delay_overflows 1 lease 9 ≡ false
unfolding delay_overflows can_retry retry_delay
in_time = refl

fail_commits_example :
    (db' : Db) × (fail_tx lease "RuntimeError" "no" 1 9 claimed ≡ ok db')
    × Wrote "task_a"
        (after_failure lease "no" 1 9 working)
        (some (failed_attempt lease "RuntimeError" "no" 9))
        claimed
        db'
    × (db'.events ≡ failed_events lease 1 9 claimed)
fail_commits_example =
    fail_commits lease 9 working claimed claimed-Inv claimed_row lease-holds "RuntimeError" "no" 1
      in_time

-- A failed first attempt of a task that may have two is retried a second later.
backoff_example : (after_failure lease "no" 1 9 working).available_at ≡ 1000009
backoff_example = refl

-- The databases that these transactions leave.
abbrev completed : Db
completed =
    (complete_commits lease 9 working claimed claimed-Inv claimed_row lease-holds end empty_valid).0

completed_once_example : IsStale lease completed
completed_once_example =
    completed_once lease lease 9 claimed completed completed end claimed-Inv
      (complete_commits lease 9 working claimed claimed-Inv claimed_row lease-holds end
        empty_valid).1
      refl refl Reach.here

abbrev failed : Db
failed =
    (fail_commits lease 9 working claimed claimed-Inv claimed_row lease-holds "RuntimeError" "no" 1
      in_time).0

abbrev cancelled : Db
cancelled = record {
  rows =
      ("task_a", record working { status = TaskStatus.cancelled; version = 2; updated_at = 7 })
      ∷ [];
  attempts =
      record {
        task_id = "task_a";
        attempt = 1;
        task_version = 1;
        status = AttemptStatus.cancelled;
        error_type = none;
        error_message = none;
        started_at = 5;
        finished_at = 7;
      }
      ∷ [];
  events = (log_event "task.cancelled" "task_a" 2 empty 7 claimed).events;
}

cancel_step : cancel_tx "task_a" 7 claimed ≡ ok cancelled
unfolding cancel_tx cancel_selected locked_row insert_attempt has_attempt update_where insert lookup
    log_event cancelled_row
cancel_step = refl

cancelled-IsStale_example : IsStale lease cancelled
cancelled-IsStale_example =
    cancelled-IsStale "task_a" lease 7 working claimed cancelled cancelled claimed-Inv claimed_row
      refl (omega arith) cancel_step Reach.here

claim_tx_lem_example :
    (IsIdle "evaluation" 5 enqueued × (claim_tx "evaluation" 5 enqueued ≡ (none, enqueued)))
    ⊎ Claimed "evaluation" 5 enqueued (claim_tx "evaluation" 5 enqueued)
unfolding lookup
claim_tx_lem_example = claim_tx_lem "evaluation" 5 enqueued (refl, tt)

abbrev exhausted : Row
exhausted = record working {
  status = TaskStatus.dead_letter;
  current_attempt = 20;
  max_attempts = 20;
}

abbrev dead : Db
dead = record { rows = ("task_a", exhausted) ∷ []; attempts = []; events = [] }

manual_retry_limit_example : Retried "task_a" 9 exhausted (manual_retry "task_a" 9 dead)
unfolding lookup valid_record is_opaque_id has_length
manual_retry_limit_example = manual_retry_limit "task_a" 9 exhausted dead refl refl refl

abbrev service : TaskService
service = record {
  handlers =
      ("test.echo", record { stage = "evaluation"; handler = λ payload. err (exception "E" "no") })
      ∷ [];
  stage_limits = [];
}

abbrev reply_of : Option RegisteredTaskHandler → Result Raised Fields
reply_of none = err stale
reply_of (some registration) = registration.handler end

not_stale :
    (registration : RegisteredTaskHandler)
    → lookup "test.echo" service.handlers ≡ some registration
    → registration.handler end ≢ err stale
unfolding lookup
not_stale registration found e = cc (ap (λ (o : Option RegisteredTaskHandler). reply_of o) found, e)

run_lease-IsStale_example :
    IsStale lease (run_lease error_name service "evaluation" lease 9 9 (λ db. db) claimed).1
run_lease-IsStale_example =
    run_lease-IsStale error_name service "evaluation" lease 9 9 (λ db. db) claimed claimed-Inv
      in_time not_stale

-- The task waits again after a first attempt that failed; another worker has read it before that.
abbrev retrying : Row
retrying = record working { status = TaskStatus.retrying; last_error = some "no"; available_at = 9 }

abbrev requeued : Db
requeued = record {
  rows = ("task_a", retrying) ∷ [];
  attempts = failed_attempt lease "RuntimeError" "no" 9 ∷ [];
  events = [];
}

claim_selected-IsStuck_example :
    ((claim_selected ("task_a", waiting) 10 requeued).0 ≡ some ("task_a", 1))
    × (lookup "task_a" (claim_selected ("task_a", waiting) 10 requeued).1.rows
        ≡ some (claim_row 1 10 retrying))
    × ((l : TaskLease)
        → l.task.task_id ≡ "task_a"
        → l.version ≡ 1
        → l.attempt ≡ 1
        → IsStuck l (claim_selected ("task_a", waiting) 10 requeued).1)
unfolding lookup has_attempt
claim_selected-IsStuck_example =
    claim_selected-IsStuck "task_a" waiting retrying 10 requeued refl refl refl refl

-- The task is completed; the cancellation has read it while it waited.
abbrev done_row : Row
done_row = record working { status = TaskStatus.completed }

abbrev done : Db
done = record {
  rows = ("task_a", done_row) ∷ [];
  attempts = completed_attempt lease 9 ∷ [];
  events = [];
}

-- The database that this cancellation leaves.
abbrev overtaken : Db
unfolding lookup
overtaken = (cancel_selected-overtaken "task_a" waiting done_row 10 done refl refl).0

race : Raced done overtaken
unfolding lookup overtaken
race = Raced.next Raced.here (
    Race.cancel "task_a" waiting done_row 10 refl
      (cancel_selected-overtaken "task_a" waiting done_row 10 done refl refl).1)

Raced-IsStale_example :
    After "task_a" done_row done overtaken
    × ((l : TaskLease) → l.task.task_id ≡ "task_a" → IsSpent l done_row → IsStale l overtaken)
unfolding lookup
Raced-IsStale_example = Raced-IsStale "task_a" done_row refl race
