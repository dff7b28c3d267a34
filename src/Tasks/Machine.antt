-- ===== src/Tasks/Machine.antt =====
-- The transactions of all workers and of the user as one step relation, and the state machine of a
-- task that they implement.
use career_agent_harness.Base.{
  ℕ, String, Bool, true, false, [], Option, none, some, ◌≡◌, ◌+◌, ◌≤◌, max, if◌then◌else◌,
}
use career_agent_harness.Base.Result.{ok}
use career_agent_harness.Base.Json.{Fields}
use career_agent_harness.Base.Table.{lookup}
use career_agent_harness.Tasks.Model.{
  TaskStatus, pending, processing, completed, cancelled, retrying, dead_letter, Row, Db, TaskLease,
  is_waiting, is_busy,
}
use career_agent_harness.Tasks.Enqueue.{enqueue_tx}
use career_agent_harness.Tasks.Lease.{claim_selected, set_progress_tx, complete_tx, fail_tx}
use career_agent_harness.Tasks.Control.{
  cancel_selected, requeue_selected, is_closed, is_resumable, is_retryable,
}

-- A transaction that commits. Any worker may present any lease, at any time. A claim, a cancellation
-- and a requeue write for a row `r` that they have read before, at any time, where the row still
-- stands in the table as it was read; Races is about the others.
pub data Step (db db' : Db) : Type 0 where
  enqueue :
      (id kind stage : String) (payload : Fields) (max_attempts ready_at now : ℕ)
      → 1 ≤ max_attempts
      → max_attempts ≤ 20
      → enqueue_tx id kind stage payload max_attempts ready_at now db ≡ ok db'
      → Step db db'
  claim :
      (id : String) (r : Row) (now : ℕ)
      → lookup id db.rows ≡ some r
      → db' ≡ (claim_selected (id, r) now db).1
      → Step db db'
  set_progress :
      (lease : TaskLease) (progress now : ℕ)
      → set_progress_tx lease progress now db ≡ ok db'
      → Step db db'
  complete :
      (lease : TaskLease) (result : Fields) (now : ℕ)
      → complete_tx lease result now db ≡ ok db'
      → Step db db'
  fail :
      (lease : TaskLease) (kind message : String) (base now : ℕ)
      → fail_tx lease kind message base now db ≡ ok db'
      → Step db db'
  cancel :
      (id : String) (r : Row) (now : ℕ)
      → lookup id db.rows ≡ some r
      → cancel_selected id r now db ≡ ok db'
      → Step db db'
  resume :
      (id : String) (r : Row) (now : ℕ)
      → lookup id db.rows ≡ some r
      → requeue_selected id r is_resumable "task.resumed" false now db ≡ ok db'
      → Step db db'
  manual_retry :
      (id : String) (r : Row) (now : ℕ)
      → lookup id db.rows ≡ some r
      → requeue_selected id r is_retryable "task.manual_retry" true now db ≡ ok db'
      → Step db db'

abbrev pub empty_db : Db
empty_db = record { rows = []; attempts = []; events = [] }

pub data Reach (db : Db) : Db → Type 0 where
  here : Reach db db
  next : {mid db' : Db} → Reach db mid → Step mid db' → Reach db db'

-- What the state machine sees of a row.
pub record Phase : Type 0 where
  pub status : TaskStatus
  pub version : ℕ
  pub attempt : ℕ
  pub limit : ℕ

abbrev pub phase : Row → Phase
phase r = record {
  status = r.status;
  version = r.version;
  attempt = r.current_attempt;
  limit = r.max_attempts;
}

-- From `p` (none: the task does not exist) to `q`; `n` is the attempt that is recorded.
pub data Move (p : Option Phase) (q : Phase) (n : Option ℕ) : Type 0 where
  create :
      p ≡ none
      → 1 ≤ q.limit
      → q.limit ≤ 20
      → q ≡ record { status = pending; version = 1; attempt = 0; limit = q.limit }
      → n ≡ none
      → Move p q n
  take :
      (s : Phase)
      → p ≡ some s
      → is_waiting s.status ≡ true
      → q ≡ record s { status = processing; attempt = s.attempt + 1 }
      → n ≡ none
      → Move p q n
  work : p ≡ some q → q.status ≡ processing → n ≡ none → Move p q n
  succeed :
      (s : Phase)
      → p ≡ some s
      → s.status ≡ processing
      → q ≡ record s { status = completed }
      → n ≡ some s.attempt
      → Move p q n
  give_up :
      (s : Phase) (retry : Bool)
      → p ≡ some s
      → s.status ≡ processing
      → q ≡ record s { status = if retry then retrying else dead_letter }
      → n ≡ some s.attempt
      → Move p q n
  stop :
      (s : Phase)
      → p ≡ some s
      → is_closed s.status ≡ false
      → q ≡ record s { status = cancelled; version = s.version + 1 }
      → n ≡ (if is_busy s.status then some s.attempt else none)
      → Move p q n
  restart :
      (s : Phase)
      → p ≡ some s
      → is_resumable s.status ≡ true
      → q ≡ record s { status = pending; version = s.version + 1 }
      → n ≡ none
      → Move p q n
  extend :
      (s : Phase)
      → p ≡ some s
      → is_retryable s.status ≡ true
      → q ≡ record s {
        status = pending;
        version = s.version + 1;
        limit = max s.limit (s.attempt + 1);
      }
      → n ≡ none
      → Move p q n
