-- ===== src/Tasks/Outcomes.antt =====
-- What a transaction of `enqueue`, `claim_next`, `cancel`, `resume` or `manual_retry` has done.
use mathlib.Core.List.{append-nil}
use career_agent_harness.Base.{
  ℕ, String, Bool, true, false, Option, none, some, ◌≡◌, ◌+◌, max, arith, if◌then◌else◌,
}
use career_agent_harness.Base.Result.{ok}
use career_agent_harness.Base.Json.{Fields}
use career_agent_harness.Base.Table.{lookup}
use career_agent_harness.Tasks.Model.{
  TaskStatus, Row, Attempt, AttemptStatus, Db, insert_attempt, update_where, log_event, is_waiting,
  is_busy,
}
use career_agent_harness.Tasks.Enqueue.{or_time, locked_row, enqueue_tx, insert_row}
use career_agent_harness.Tasks.Lease.{claim_selected, claim_row}
use career_agent_harness.Tasks.Control.{
  cancel_selected, cancel_tx, cancelled_row, is_closed, requeue_selected, requeue_tx, requeued_row,
}
use career_agent_harness.Tasks.Writes.{Wrote, Wrote-insert}

abbrev pub new_row : String → String → Fields → ℕ → ℕ → ℕ → Row
new_row kind stage payload max_attempts ready_at now = record {
  task_type = kind;
  stage = stage;
  status = TaskStatus.pending;
  progress = 0;
  payload = payload;
  result = none;
  last_error = none;
  current_attempt = 0;
  max_attempts = max_attempts;
  version = 1;
  available_at = ready_at;
  claimed_at = none;
  created_at = now;
  updated_at = now;
}

pub enqueue_ok :
    (id kind stage : String) (payload : Fields) (max_attempts ready_at now : ℕ) (db : Db) {db' : Db}
    → enqueue_tx id kind stage payload max_attempts ready_at now db ≡ ok db'
    → (lookup id db.rows ≡ none)
      × Wrote id (new_row kind stage payload max_attempts ready_at now) none db db'
unfolding enqueue_tx insert_row log_event
enqueue_ok id kind stage payload max_attempts ready_at now db done =
    (ground arith, Wrote-insert _ _ _ db _ (rw append-nil (ground arith)) (ground arith))

-- The attempt that `cancel` records of the row.
abbrev pub cancelled_attempt : String → ℕ → Row → Option Attempt
cancelled_attempt id now r =
    if is_busy r.status
    then some (record {
      task_id = id;
      attempt = r.current_attempt;
      task_version = r.version;
      status = AttemptStatus.cancelled;
      error_type = none;
      error_message = none;
      started_at = or_time r.claimed_at now;
      finished_at = now;
    })
    else none

-- `max_attempts` after a requeue.
abbrev pub extended : Bool → Row → ℕ
extended extend r = if extend then max r.max_attempts (r.current_attempt + 1) else r.max_attempts

module _ (id : String) (now : ℕ) (db : Db) (r : Row) {db' : Db}
    (found : lookup id db.rows ≡ some r) where
  pub cancel_ok :
      cancel_selected id r now db ≡ ok db'
      → (is_closed r.status ≡ false)
        × Wrote id (cancelled_row now r) (cancelled_attempt id now r) db db'
  unfolding cancel_selected insert_attempt update_where log_event
  cancel_ok done = (
    ground arith,
    Wrote-insert _ _ _ db _ (ground (arith, append-nil db.attempts)) (ground arith),
  )

  pub requeue_ok :
      (allowed : TaskStatus → Bool) (event : String) (extend : Bool)
      → requeue_selected id r allowed event extend now db ≡ ok db'
      → (allowed r.status ≡ true) × Wrote id (requeued_row (extended extend r) now r) none db db'
  unfolding requeue_selected update_where log_event
  requeue_ok allowed event extend done =
      (ground arith, Wrote-insert _ _ _ db _ (rw append-nil (ground arith)) (ground arith))

  pub claim_ok :
      (attempt : ℕ) (claimed : String)
      → claim_selected (id, r) now db ≡ (some (claimed, attempt), db')
      → (claimed ≡ id)
        × (attempt ≡ r.current_attempt + 1)
        × (is_waiting r.status ≡ true)
        × Wrote id (claim_row attempt now r) none db db'
  unfolding claim_selected update_where log_event
  claim_ok attempt claimed done = (
    ground arith,
    ground arith,
    ground arith,
    Wrote-insert _ _ _ db _ (rw append-nil (ground arith)) (ground arith),
  )

-- `cancel` reads the row that stands in the table.
pub cancel_tx-cancel_selected :
    (id : String) (now : ℕ) (db : Db) (r : Row)
    → lookup id db.rows ≡ some r
    → cancel_tx id now db ≡ cancel_selected id r now db
unfolding cancel_tx locked_row
cancel_tx-cancel_selected id now db r found =
    rw (cancel_tx, locked_row, found) (λ i. cancel_selected id r now db)

-- So does `_requeue`.
pub requeue_tx-requeue_selected :
    (id : String) (now : ℕ) (db : Db) (r : Row) (allowed : TaskStatus → Bool) (event : String)
    (extend : Bool)
    → lookup id db.rows ≡ some r
    → requeue_tx id allowed event extend now db ≡ requeue_selected id r allowed event extend now db
unfolding requeue_tx locked_row
requeue_tx-requeue_selected id now db r allowed event extend found =
    rw (requeue_tx, locked_row, found) (λ i. requeue_selected id r allowed event extend now db)

-- `claim_next` changes nothing where it claims nothing.
pub claim_nothing :
    (id : String) (r : Row) (now : ℕ) (db : Db)
    → (claim_selected (id, r) now db).0 ≡ none
    → (claim_selected (id, r) now db).1 ≡ db
unfolding claim_selected update_where
claim_nothing id r now db h = ground arith
