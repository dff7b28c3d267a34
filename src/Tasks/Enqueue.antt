-- ===== src/Tasks/Enqueue.antt =====
-- `TaskRepository` of backend/career_harness/db/task_repository.py: `get` and `enqueue`. A method runs one
-- transaction (`engine.begin()`) and then reads the task back in another. A transaction that raises
-- leaves the database as it was; what a method raises after the commit leaves it committed. The
-- clock's reading `now` and the identifier `fresh` that `uuid4` gives are arguments.
use career_agent_harness.Base.{ℕ, String, not, ◌||◌, Option, none, some, str_eq, if◌then◌else◌}
use career_agent_harness.Base.Result.{Result, ok, err, ◌>>=◌, ◌>>◌, raise_if}
use career_agent_harness.Base.Table.{lookup, insert}
use career_agent_harness.Base.Text.{is_blank, between}
use career_agent_harness.Base.Json.{Fields}
use career_agent_harness.Tasks.Payload.{valid_task_json}
use career_agent_harness.Tasks.Model.{
  pending, Error, value_error, key_error, integrity_error, Row, of_stage, Db, TaskRecord, task,
  log_event,
}

-- A transaction followed by `self.get(task_id)`.
abbrev pub and_get :
    (Db → Result Error TaskRecord) → Db → Result Error Db → Result Error TaskRecord × Db
and_get read db (ok db') = (read db', db')
and_get read db (err e) = (err e, db)

-- `get`, and `_locked_row` inside a transaction.
unfoldable pub locked_row : String → Db → Result Error Row
locked_row id db = elim (lookup id db.rows) [ none ↦ err key_error | some r ↦ ok r ]

unfoldable pub get : String → Db → Result Error TaskRecord
unfolding locked_row
get id db = do r ← locked_row id db; task id r

-- `value or other`, for a text and for a time.
or_text : Option String → String → String
or_text none other = other
or_text (some s) other = if str_eq s "" then other else s

abbrev pub or_time : Option ℕ → ℕ → ℕ
or_time none other = other
or_time (some t) other = t

unfoldable pub insert_row : String → Row → Db → Result Error Db
insert_row id r db = elim (lookup id db.rows) [
  | none ↦ ok (record db { rows = insert id r db.rows })
  | some _ ↦ err integrity_error
]

unfoldable pub enqueue_tx : String → String → String → Fields → ℕ → ℕ → ℕ → Db → Result Error Db
enqueue_tx id kind stage payload max_attempts ready_at now db = do
  db' ←
      insert_row id
        (record {
          task_type = kind;
          stage = stage;
          status = pending;
          progress = 0;
          payload = payload;
          result = none;
          last_error = none;
          current_attempt = 0;
          max_attempts = max_attempts;
          version = 1;
          available_at = ready_at;
          claimed_at = none;
          created_at = now;
          updated_at = now;
        })
        db
  ok (log_event "task.enqueued" id 1 (of_stage stage) now db')

unfoldable pub enqueue :
    String
    → String
    → Fields
    → ℕ
    → Option String
    → Option ℕ
    → String
    → ℕ
    → Db
    → Result Error TaskRecord × Db
unfolding or_text
enqueue kind stage payload max_attempts task_id available_at fresh now db =
    let id = or_text task_id fresh in
    and_get (get id) db (do
      raise_if (is_blank kind || is_blank stage) value_error
      raise_if (not (between 1 20 max_attempts)) value_error
      raise_if (not (valid_task_json payload)) value_error
      enqueue_tx id kind stage payload max_attempts (or_time available_at now) now db)
