-- ===== src/Tasks/Model.antt =====
-- The rows of `task_queue`, `task_attempt` and `domain_event`, and the models that are read from
-- them. Times are microseconds, progress is in millionths, and a JSON column holds its value. The
-- identifiers that `uuid4` gives an event are left out.
use career_agent_harness.Base.{
  ℕ, String, Bool, true, false, ◌||◌, ◌&&◌, List, [], ◌∷◌, ◌++◌, Option, none, some, ltb, leb, ◌==◌,
  any, str_eq, if◌then◌else◌,
}
use career_agent_harness.Base.Result.{Result, ok, err}
use career_agent_harness.Base.Table.{Table, lookup, insert}
use career_agent_harness.Base.Text.{is_opaque_id, has_length, between}
use career_agent_harness.Base.Json.{Fields}

pub data TaskStatus : Type 0 where
  pending processing completed failed cancelled retrying finalizing dead_letter : TaskStatus

pub data Error : Type 0 where
  value_error key_error stale_lease integrity_error validation_error overflow_error : Error

pub record Row : Type 0 where
  pub task_type : String
  pub stage : String
  pub status : TaskStatus
  pub progress : ℕ
  pub payload : Fields
  pub result : Option Fields
  pub last_error : Option String
  pub current_attempt : ℕ
  pub max_attempts : ℕ
  pub version : ℕ
  pub available_at : ℕ
  pub claimed_at : Option ℕ
  pub created_at : ℕ
  pub updated_at : ℕ

pub data AttemptStatus : Type 0 where
  completed failed cancelled stale : AttemptStatus

pub record Attempt : Type 0 where
  pub task_id : String
  pub attempt : ℕ
  pub task_version : ℕ
  pub status : AttemptStatus
  pub error_type : Option String
  pub error_message : Option String
  pub started_at : ℕ
  pub finished_at : ℕ

-- What the event payloads hold: `{"stage": …}`, `{"attempt": …}`,
-- `{"attempt": …, "delay_seconds": …}` and `{}`.
pub data EventPayload : Type 0 where
  of_stage : String → EventPayload
  of_attempt : ℕ → EventPayload
  of_delay : ℕ → Option ℕ → EventPayload
  empty : EventPayload

pub record Event : Type 0 where
  pub event_type : String
  pub entity_id : String
  pub entity_revision : ℕ
  pub payload : EventPayload
  pub occurred_at : ℕ

-- The columns of `task_queue` are keyed by `task_id`.
pub record Db : Type 0 where
  pub rows : Table Row
  pub attempts : List Attempt
  pub events : List Event

abbrev pub progress_one : ℕ
progress_one = 1000000

pub record TaskRecord : Type 0 where
  pub task_id : String
  pub row : Row
  pub open row use *

pub record TaskLease : Type 0 where
  pub task : TaskRecord
  pub version : ℕ
  pub attempt : ℕ

-- The field constraints of `TaskRecord`.
unfoldable pub valid_record : String → Row → Bool
valid_record id r =
    is_opaque_id id
    && has_length 1 128 r.task_type
    && has_length 1 64 r.stage
    && leb r.progress progress_one
    && between 1 20 r.max_attempts
    && leb 1 r.version

-- `TaskRepository._task`
unfoldable pub task : String → Row → Result Error TaskRecord
task id r =
    if valid_record id r then ok (record { task_id = id; row = r }) else err validation_error

-- `row["status"] == "processing"`, `status IN ('pending','retrying')`, and
-- `row["status"] in {"processing", "finalizing"}`
abbrev pub is_processing : TaskStatus → Bool
is_processing processing = true
is_processing _ = false

abbrev pub is_finalizing : TaskStatus → Bool
is_finalizing finalizing = true
is_finalizing _ = false

abbrev pub is_waiting : TaskStatus → Bool
is_waiting pending = true
is_waiting retrying = true
is_waiting _ = false

abbrev pub is_busy : TaskStatus → Bool
is_busy processing = true
is_busy finalizing = true
is_busy _ = false

unfoldable pub log_event : String → String → ℕ → EventPayload → ℕ → Db → Db
log_event kind id version payload now db = record db {
  events =
      db.events
      ++ record {
        event_type = kind;
        entity_id = id;
        entity_revision = version;
        payload = payload;
        occurred_at = now;
      }
        ∷ [];
}

-- The primary key of `task_attempt`.
unfoldable pub has_attempt : String → ℕ → List Attempt → Bool
has_attempt id n = any (λ a. str_eq a.task_id id && a.attempt == n)

-- `INSERT INTO task_attempt` under its primary key and its check constraints.
unfoldable pub insert_attempt : Attempt → Db → Result Error Db
insert_attempt a db =
    if has_attempt a.task_id a.attempt db.attempts || ltb a.attempt 1 || ltb a.task_version 1
    then err integrity_error
    else ok (record db { attempts = db.attempts ++ a ∷ [] })

-- `UPDATE task_queue SET … WHERE task_id=:id AND …`: whether a row was changed, and the database.
unfoldable pub update_where : String → (Row → Bool) → (Row → Row) → Db → Bool × Db
update_where id guard change db = elim (lookup id db.rows) [
  | none ↦ (false, db)
  | some r ↦
      if guard r then (true, record db { rows = insert id (change r) db.rows }) else (false, db)
]
