-- ===== src/Tasks/Service.antt =====
-- `TaskService` of backend/career_harness/services/task_service.py. A handler is a function of the
-- payload; `meanwhile` is what the transactions of the others make of the database between the claim
-- and the end of the handler.
-- Three readings of the clock are arguments. `run_ready`, which starts `run_one` on a thread pool,
-- is not here: its threads are the interleavings of Machine and Races.
use career_agent_harness.Base.{ℕ, String, Option, none, some, str_eq, if◌then◌else◌}
use career_agent_harness.Base.Result.{Result, ok, err}
use career_agent_harness.Base.Table.{Table, lookup}
use career_agent_harness.Base.Json.{Fields}
use career_agent_harness.Tasks.Model.{
  Error, value_error, key_error, stale_lease, integrity_error, validation_error, Db, TaskRecord,
  TaskLease,
}
use career_agent_harness.Tasks.Enqueue.{get, enqueue}
use career_agent_harness.Tasks.Lease.{claim_next, complete, fail}

-- What a handler raises: `StaleTaskLease`, or an exception of another class with its text.
pub data Raised : Type 0 where
  stale : Raised
  exception : String → String → Raised

abbrev pub TaskHandler : Type 0
TaskHandler = Fields → Result Raised Fields

pub record RegisteredTaskHandler : Type 0 where
  pub stage : String
  pub handler : TaskHandler

-- `handlers` by task type, and `stage_limits`.
pub record TaskService : Type 0 where
  pub handlers : Table RegisteredTaskHandler
  pub stage_limits : Table ℕ

-- The class names of the repository's exceptions, for the record of an attempt.
abbrev pub error_name : Error → String
error_name value_error = "ValueError"
error_name key_error = "KeyError"
error_name stale_lease = "StaleTaskLease"
error_name integrity_error = "IntegrityError"
error_name validation_error = "ValidationError"
error_name Error.overflow_error = "OverflowError"

-- `TaskService.enqueue`
unfoldable pub service_enqueue :
    TaskService → String → Fields → ℕ → String → ℕ → Db → Result Error TaskRecord × Db
service_enqueue service task_type payload max_attempts fresh now db =
    elim (lookup task_type service.handlers) [
      | none ↦ (err value_error, db)
      | some registration ↦
          enqueue task_type registration.stage payload max_attempts none none fresh now db
    ]

-- `except StaleTaskLease: return self.repository.get(…)`
unfoldable pub or_current : String → Result Error TaskRecord × Db → Result Error TaskRecord × Db
or_current id (ok t, db) = (ok t, db)
or_current id (err stale_lease, db) = (get id db, db)
or_current id (err e, db) = (err e, db)

-- The handler of `except Exception as error`, with the class and the text of the error.
unfoldable pub fail_or_current : TaskLease → String → String → ℕ → Db → Result Error TaskRecord × Db
unfolding or_current
fail_or_current lease kind message now db =
    or_current lease.task.task_id (fail lease kind message 1 now db)

module _ (describe : Error → String) where
  -- After `complete`: its own error is handled like one of the handler.
  unfoldable pub settle :
      TaskLease → ℕ → Result Error TaskRecord × Db → Result Error TaskRecord × Db
  settle lease now (ok t, db) = (ok t, db)
  settle lease now (err stale_lease, db) = (get lease.task.task_id db, db)
  settle lease now (err e, db) = fail_or_current lease (error_name e) (describe e) now db

  -- The `try` of `run_one`, from the outcome of the handler on.
  unfoldable pub finish_run :
      TaskLease → ℕ → ℕ → Result Raised Fields → Db → Result Error TaskRecord × Db
  unfolding settle
  finish_run lease done_at failed_at (ok result) db =
      settle lease failed_at (complete lease result done_at db)
  finish_run lease done_at failed_at (err stale) db = (get lease.task.task_id db, db)
  finish_run lease done_at failed_at (err (exception kind message)) db =
      fail_or_current lease kind message failed_at db

  unfoldable pub run_lease :
      TaskService → String → TaskLease → ℕ → ℕ → (Db → Db) → Db → Result Error TaskRecord × Db
  unfolding finish_run
  run_lease service stage lease done_at failed_at meanwhile db =
      elim (lookup lease.task.task_type service.handlers) [
        | none ↦ fail lease "RuntimeError" "task handler is unavailable" 1 failed_at (meanwhile db)
        | some registration ↦
            if str_eq registration.stage stage
            then finish_run lease done_at failed_at (registration.handler lease.task.payload)
                (meanwhile db)
            else fail lease "RuntimeError" "task handler is unavailable" 1 failed_at (meanwhile db)
      ]

  abbrev returned : Result Error TaskRecord × Db → Result Error (Option TaskRecord) × Db
  returned (ok t, db) = (ok (some t), db)
  returned (err e, db) = (err e, db)

  run_claimed :
      TaskService
      → String
      → ℕ
      → ℕ
      → (Db → Db)
      → Result Error (Option TaskLease) × Db
      → Result Error (Option TaskRecord) × Db
  unfolding run_lease
  run_claimed service stage done_at failed_at meanwhile (err e, db) = (err e, db)
  run_claimed service stage done_at failed_at meanwhile (ok none, db) = (ok none, db)
  run_claimed service stage done_at failed_at meanwhile (ok (some lease), db) =
      returned (run_lease service stage lease done_at failed_at meanwhile db)

  unfoldable pub run_one :
      TaskService → String → ℕ → ℕ → ℕ → (Db → Db) → Db → Result Error (Option TaskRecord) × Db
  unfolding run_claimed
  run_one service stage claimed_at done_at failed_at meanwhile db =
      run_claimed service stage done_at failed_at meanwhile (claim_next stage claimed_at db)
