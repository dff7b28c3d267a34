-- ===== src/Tasks/Effects.antt =====
-- What a transaction of a worker has done where it commits, and when it is refused.
use career_agent_harness.Base.{
  ℕ, String, true, false, List, [], ◌∷◌, ◌++◌, none, some, ◌-◌, ◌^◌, ltb, ◌≡◌, ◌+◌, ◌*◌, ◌<◌, arith,
  eq_refl, if◌then◌else◌,
}
use mathlib.Core.List.{append-nil}
use career_agent_harness.Base.Result.{ok}
use career_agent_harness.Base.Json.{Fields}
use career_agent_harness.Base.Table.{lookup, lookup-insert}
use career_agent_harness.Tasks.Model.{
  TaskStatus, Row, Attempt, AttemptStatus, TaskLease, Db, has_attempt, insert_attempt, update_where,
  log_event, progress_one, Event, EventPayload, of_attempt, of_delay,
}
use career_agent_harness.Tasks.Enqueue.{or_time}
use career_agent_harness.Tasks.Lease.{
  holds, complete_tx, finish, fail_tx, failed_row, can_retry, retry_delay, set_progress_tx,
}
use career_agent_harness.Tasks.Writes.{Wrote, Wrote-insert, Wrote-insert_twice}

abbrev pub finalizing_row : ℕ → Row → Row
finalizing_row now r = record r {
  status = TaskStatus.finalizing;
  progress = 950000;
  updated_at = now;
}

abbrev pub completed_row : Fields → ℕ → Row → Row
completed_row result now r = record r {
  status = TaskStatus.completed;
  progress = progress_one;
  result = some result;
  last_error = none;
  updated_at = now;
}

abbrev pub completed_attempt : TaskLease → ℕ → Attempt
completed_attempt lease now = record {
  task_id = lease.task.task_id;
  attempt = lease.attempt;
  task_version = lease.version;
  status = AttemptStatus.completed;
  error_type = none;
  error_message = none;
  started_at = or_time lease.task.claimed_at now;
  finished_at = now;
}

abbrev pub failed_attempt : TaskLease → String → String → ℕ → Attempt
failed_attempt lease error_type message now = record {
  task_id = lease.task.task_id;
  attempt = lease.attempt;
  task_version = lease.version;
  status = AttemptStatus.failed;
  error_type = some error_type;
  error_message = some message;
  started_at = or_time lease.task.claimed_at now;
  finished_at = now;
}

-- The time from which a failed task is available.
abbrev pub next_time : TaskLease → ℕ → ℕ → ℕ
next_time lease base now = if can_retry lease then now + retry_delay base lease * 1000000 else now

abbrev event_of : String → TaskLease → EventPayload → ℕ → Event
event_of kind lease payload now = record {
  event_type = kind;
  entity_id = lease.task.task_id;
  entity_revision = lease.version;
  payload = payload;
  occurred_at = now;
}

-- The events behind those of before.
abbrev pub completed_events : TaskLease → ℕ → Db → List Event
completed_events lease now db =
    (db.events ++ event_of "task.finalizing" lease (of_attempt lease.attempt) now ∷ [])
    ++ event_of "task.completed" lease (of_attempt lease.attempt) now ∷ []

abbrev pub failed_events : TaskLease → ℕ → ℕ → Db → List Event
failed_events lease base now db =
    db.events
    ++ (if ltb lease.attempt lease.task.max_attempts
        then event_of "task.retry_scheduled" lease
            (of_delay lease.attempt (some (base * 2 ^ (lease.attempt - 1)))) now
        else event_of "task.dead_lettered" lease (of_delay lease.attempt none) now)
      ∷ []

module _ (lease : TaskLease) (now : ℕ) (db : Db) (r : Row) where
  pub complete_ok :
      (result : Fields) {db' : Db}
      → lookup lease.task.task_id db.rows ≡ some r
      → complete_tx lease result now db ≡ ok db'
      → (holds lease r ≡ true)
        × (has_attempt lease.task.task_id lease.attempt db.attempts ≡ false)
        × Wrote lease.task.task_id
            (completed_row result now r)
            (some (completed_attempt lease now))
            db
            db'
  unfolding complete_tx finish insert_attempt update_where log_event holds
  complete_ok result found done = (
    ground arith,
    ground arith,
    Wrote-insert_twice _ _ _ db _ (ground arith) (finalizing_row now r) (
        ground (
          arith,
          lookup-insert lease.task.task_id lease.task.task_id (finalizing_row now r) db.rows,
          eq_refl lease.task.task_id,
        )),
  )

  pub fail_ok :
      (kind message : String) (base : ℕ) {db' : Db}
      → lookup lease.task.task_id db.rows ≡ some r
      → fail_tx lease kind message base now db ≡ ok db'
      → (holds lease r ≡ true)
        × (has_attempt lease.task.task_id lease.attempt db.attempts ≡ false)
        × Wrote lease.task.task_id
            (failed_row (can_retry lease) message (next_time lease base now) now r)
            (some (failed_attempt lease kind message now))
            db
            db'
  unfolding fail_tx insert_attempt update_where log_event holds
  fail_ok kind message base found done =
      (ground arith, ground arith, Wrote-insert _ _ _ db _ (ground arith) (ground arith))

  -- The events that `complete` and `fail` leave.
  pub complete_events :
      (result : Fields) {db' : Db}
      → lookup lease.task.task_id db.rows ≡ some r
      → complete_tx lease result now db ≡ ok db'
      → db'.events ≡ completed_events lease now db
  unfolding complete_tx finish insert_attempt update_where log_event
  complete_events result found done = ground arith

  pub fail_events :
      (kind message : String) (base : ℕ) {db' : Db}
      → lookup lease.task.task_id db.rows ≡ some r
      → fail_tx lease kind message base now db ≡ ok db'
      → db'.events ≡ failed_events lease base now db
  unfolding fail_tx insert_attempt update_where log_event can_retry retry_delay
  fail_events kind message base found done = ground arith

  pub set_progress_ok :
      (progress : ℕ) {db' : Db}
      → lookup lease.task.task_id db.rows ≡ some r
      → set_progress_tx lease progress now db ≡ ok db'
      → (holds lease r ≡ true)
        × (progress < progress_one)
        × Wrote lease.task.task_id (record r { progress = progress; updated_at = now }) none db db'
  unfolding set_progress_tx update_where holds
  set_progress_ok progress found done = (
    ground arith,
    ground arith,
    Wrote-insert _ _ _ db _ (rw append-nil (ground arith)) (ground arith),
  )

-- A lease on a task that does not exist is refused.
module _ (lease : TaskLease) (now : ℕ) (db : Db) {db' : Db}
    (missing : lookup lease.task.task_id db.rows ≡ none) where
  pub complete_missing : (result : Fields) → complete_tx lease result now db ≡ ok db' → ⊥
  unfolding complete_tx update_where
  complete_missing result h = ground arith

  pub fail_missing :
      (kind message : String) (base : ℕ) → fail_tx lease kind message base now db ≡ ok db' → ⊥
  unfolding fail_tx update_where
  fail_missing kind message base h = ground arith

  pub set_progress_missing : (progress : ℕ) → set_progress_tx lease progress now db ≡ ok db' → ⊥
  unfolding set_progress_tx update_where
  set_progress_missing progress h = ground arith
