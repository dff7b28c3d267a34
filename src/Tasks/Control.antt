-- ===== src/Tasks/Control.antt =====
-- `TaskRepository` of backend/career_harness/db/task_repository.py: what the user calls, `cancel`,
-- `resume` and `manual_retry`.
use career_agent_harness.Base.{ℕ, String, Bool, true, false, not, none, ◌+◌, max, if◌then◌else◌}
use career_agent_harness.Base.Result.{Result, ok, ◌>>=◌, ◌>>◌, raise_if}
use career_agent_harness.Tasks.Model.{
  TaskStatus, pending, dead_letter, Error, value_error, Row, AttemptStatus, empty, Db, TaskRecord,
  is_busy, log_event, insert_attempt, update_where,
}
use career_agent_harness.Tasks.Enqueue.{and_get, get, locked_row, or_time}

abbrev pub is_closed : TaskStatus → Bool
is_closed TaskStatus.completed = true
is_closed TaskStatus.cancelled = true
is_closed dead_letter = true
is_closed _ = false

-- The attempt that `cancel` records for a task that is being worked on.
record_cancelled : String → Row → ℕ → Db → Result Error Db
record_cancelled id r now db =
    if is_busy r.status
    then insert_attempt
        (record {
          task_id = id;
          attempt = r.current_attempt;
          task_version = r.version;
          status = AttemptStatus.cancelled;
          error_type = none;
          error_message = none;
          started_at = or_time r.claimed_at now;
          finished_at = now;
        })
        db
    else ok db

unfoldable pub cancelled_row : ℕ → Row → Row
cancelled_row now r = record r {
  status = TaskStatus.cancelled;
  version = r.version + 1;
  updated_at = now;
}

-- What follows the `SELECT` of `cancel`, which has read the row `r`. The driver begins the transaction
-- at the first write, so others may have written in between; the `UPDATE` has no guard.
unfoldable pub cancel_selected : String → Row → ℕ → Db → Result Error Db
unfolding record_cancelled
cancel_selected id r now db = do
  raise_if (is_closed r.status) value_error
  db' ← record_cancelled id r now db
  ok (
      log_event "task.cancelled" id (r.version + 1) empty now
        (update_where id (λ _. true) (cancelled_row now) db').1)

-- `cancel` where nothing is written between its `SELECT` and its writes.
unfoldable pub cancel_tx : String → ℕ → Db → Result Error Db
cancel_tx id now db = do r ← locked_row id db; cancel_selected id r now db

unfoldable pub cancel : String → ℕ → Db → Result Error TaskRecord × Db
cancel id now db = and_get (get id) db (cancel_tx id now db)

-- The row that `_requeue` writes.
unfoldable pub requeued_row : ℕ → ℕ → Row → Row
requeued_row max_attempts now r = record r {
  status = pending;
  progress = 0;
  result = none;
  last_error = none;
  version = r.version + 1;
  max_attempts = max_attempts;
  available_at = now;
  claimed_at = none;
  updated_at = now;
}

-- What follows the `SELECT` of `_requeue`, which has read the row `r`; the `UPDATE` has no guard.
unfoldable pub requeue_selected :
    String → Row → (TaskStatus → Bool) → String → Bool → ℕ → Db → Result Error Db
requeue_selected id r allowed event extend_attempts now db = do
  raise_if (not (allowed r.status)) value_error
  let max_attempts =
      (if extend_attempts then max r.max_attempts (r.current_attempt + 1) else r.max_attempts)
  ok (
      log_event event id (r.version + 1) empty now
        (update_where id (λ _. true) (requeued_row max_attempts now) db).1)

-- `_requeue` where nothing is written between its `SELECT` and its `UPDATE`.
unfoldable pub requeue_tx : String → (TaskStatus → Bool) → String → Bool → ℕ → Db → Result Error Db
requeue_tx id allowed event extend_attempts now db = do
  r ← locked_row id db
  requeue_selected id r allowed event extend_attempts now db

abbrev pub is_resumable : TaskStatus → Bool
is_resumable TaskStatus.cancelled = true
is_resumable TaskStatus.failed = true
is_resumable _ = false

abbrev pub is_retryable : TaskStatus → Bool
is_retryable dead_letter = true
is_retryable TaskStatus.failed = true
is_retryable _ = false

unfoldable pub resume_tx : String → ℕ → Db → Result Error Db
unfolding requeue_tx
resume_tx id now db = requeue_tx id is_resumable "task.resumed" false now db

unfoldable pub manual_retry_tx : String → ℕ → Db → Result Error Db
unfolding requeue_tx
manual_retry_tx id now db = requeue_tx id is_retryable "task.manual_retry" true now db

unfoldable pub resume : String → ℕ → Db → Result Error TaskRecord × Db
resume id now db = and_get (get id) db (resume_tx id now db)

unfoldable pub manual_retry : String → ℕ → Db → Result Error TaskRecord × Db
manual_retry id now db = and_get (get id) db (manual_retry_tx id now db)
