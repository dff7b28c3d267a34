-- ===== src/Tasks/Lease.antt =====
-- `TaskRepository` of backend/career_harness/db/task_repository.py: what a worker calls, `claim_next`,
-- `set_progress`, `complete` and `fail`.
use career_agent_harness.Base.{
  ℕ, String, Bool, not, ◌||◌, ◌&&◌, [], ◌∷◌, Option, none, some, ◌+◌, ◌-◌, ◌*◌, ◌^◌, ltb, leb, ◌==◌,
  str_eq, if◌then◌else◌,
}
use career_agent_harness.Base.Result.{Result, ok, err, ◌>>=◌, ◌>>◌, raise_if}
use career_agent_harness.Base.Table.{Table}
use career_agent_harness.Base.Json.{Fields}
use career_agent_harness.Tasks.Payload.{valid_task_json}
use career_agent_harness.Tasks.Model.{
  TaskStatus, processing, retrying, finalizing, dead_letter, Error, value_error, stale_lease,
  overflow_error, Row, AttemptStatus, of_attempt, of_delay, Db, TaskRecord, TaskLease, progress_one,
  is_processing, is_finalizing, is_waiting, log_event, insert_attempt, update_where,
}
use career_agent_harness.Tasks.Enqueue.{and_get, get, or_time}

-- `stage=:stage AND status IN ('pending','retrying') AND available_at<=:now`
unfoldable pub is_ready : String → ℕ → Row → Bool
is_ready stage now r = str_eq r.stage stage && is_waiting r.status && leb r.available_at now

-- `ORDER BY available_at,created_at`
unfoldable pub is_before : Row → Row → Bool
is_before r s =
    ltb r.available_at s.available_at
    || (r.available_at == s.available_at && leb r.created_at s.created_at)

earlier : String × Row → Option (String × Row) → String × Row
earlier x none = x
earlier (j, r) (some (k, s)) = if is_before r s then (j, r) else (k, s)

-- The `SELECT … LIMIT 1` of `claim_next`; between equal times the older row of the table wins.
unfoldable pub first_ready : String → ℕ → Table Row → Option (String × Row)
unfolding earlier
first_ready stage now [] = none
first_ready stage now ((k, r) ∷ t) =
    let rest = first_ready stage now t in
    if is_ready stage now r then some (earlier (k, r) rest) else rest

unfoldable pub claim_row : ℕ → ℕ → Row → Row
claim_row attempt now r = record r {
  status = processing;
  progress = 10000;
  current_attempt = attempt;
  claimed_at = some now;
  updated_at = now;
}

-- What follows the `SELECT` of `claim_next`, for the row that it has read: the `UPDATE`, guarded by
-- the version and the status, and its event. The driver begins the transaction at the `UPDATE`, so
-- others may have written since the row was read.
unfoldable pub claim_selected : String × Row → ℕ → Db → Option (String × ℕ) × Db
claim_selected (id, r) now db =
    let attempt = r.current_attempt + 1 in
    let (hit, db') =
      update_where id (λ x. x.version == r.version && is_waiting x.status) (claim_row attempt now)
        db in
    if hit
    then (some (id, attempt), log_event "task.started" id r.version (of_attempt attempt) now db')
    else (none, db')

-- `claim_next` where nothing is written between its `SELECT` and its `UPDATE`.
unfoldable pub claim_tx : String → ℕ → Db → Option (String × ℕ) × Db
claim_tx stage now db = elim (first_ready stage now db.rows) [
  | none ↦ (none, db)
  | some x ↦ claim_selected x now db
]

leased : Option (String × ℕ) → Db → Result Error (Option TaskLease)
leased none db = ok none
leased (some (id, attempt)) db = do
  t ← get id db
  ok (some (record { task = t; version = t.version; attempt = attempt }))

unfoldable pub claim_next : String → ℕ → Db → Result Error (Option TaskLease) × Db
unfolding leased
claim_next stage now db = let (claimed, db') = claim_tx stage now db in (leased claimed db', db')

-- `version=:version AND current_attempt=:attempt AND status='processing'`
unfoldable pub holds : TaskLease → Row → Bool
holds lease r =
    r.version == lease.version && r.current_attempt == lease.attempt && is_processing r.status

unfoldable pub set_progress_tx : TaskLease → ℕ → ℕ → Db → Result Error Db
set_progress_tx lease progress now db = do
  raise_if (not (ltb progress progress_one)) value_error
  let (hit, db') =
        update_where lease.task.task_id (holds lease)
          (λ r. record r { progress = progress; updated_at = now }) db in
      if hit then ok db' else err stale_lease

unfoldable pub set_progress : TaskLease → ℕ → ℕ → Db → Result Error TaskRecord × Db
set_progress lease progress now db =
    and_get (get lease.task.task_id) db (set_progress_tx lease progress now db)

-- The last two statements of the transaction of `complete`.
unfoldable pub finish : TaskLease → Fields → ℕ → Db → Db
finish lease result now db =
    let (hit, db') =
      update_where lease.task.task_id
        (λ r.
          r.version == lease.version
          && r.current_attempt == lease.attempt
          && is_finalizing r.status)
        (λ r. record r {
          status = TaskStatus.completed;
          progress = progress_one;
          result = some result;
          last_error = none;
          updated_at = now;
        })
        db in
    log_event "task.completed" lease.task.task_id lease.version (of_attempt lease.attempt) now db'

unfoldable pub complete_tx : TaskLease → Fields → ℕ → Db → Result Error Db
complete_tx lease result now db = do
  raise_if (not (valid_task_json result)) value_error
  let (hit, db') =
        update_where lease.task.task_id (holds lease)
          (λ r. record r { status = finalizing; progress = 950000; updated_at = now }) db in
      do
        raise_if (not hit) stale_lease
        db'' ←
            insert_attempt
              (record {
                task_id = lease.task.task_id;
                attempt = lease.attempt;
                task_version = lease.version;
                status = AttemptStatus.completed;
                error_type = none;
                error_message = none;
                started_at = or_time lease.task.claimed_at now;
                finished_at = now;
              })
              (log_event "task.finalizing" lease.task.task_id lease.version
                (of_attempt lease.attempt) now db')
        ok (finish lease result now db'')

unfoldable pub complete : TaskLease → Fields → ℕ → Db → Result Error TaskRecord × Db
complete lease result now db = and_get (get lease.task.task_id) db (complete_tx lease result now db)

-- The row that `fail` writes.
unfoldable pub failed_row : Bool → String → ℕ → ℕ → Row → Row
failed_row retry message available now r = record r {
  status = if retry then retrying else dead_letter;
  last_error = some message;
  available_at = available;
  updated_at = now;
}

-- `base_delay_seconds * (2 ** (lease.attempt - 1))`; an attempt is at least 1.
unfoldable pub retry_delay : ℕ → TaskLease → ℕ
retry_delay base_delay_seconds lease = base_delay_seconds * 2 ^ (lease.attempt - 1)

unfoldable pub can_retry : TaskLease → Bool
can_retry lease = ltb lease.attempt lease.task.max_attempts

-- `datetime.max` in microseconds since 1970.
abbrev pub last_instant : ℕ
last_instant = 253402300799999999

-- `now + timedelta(seconds=delay)` raises an `OverflowError`.
unfoldable pub delay_overflows : ℕ → TaskLease → ℕ → Bool
unfolding can_retry retry_delay
delay_overflows base_delay_seconds lease now =
    can_retry lease && ltb last_instant (now + retry_delay base_delay_seconds lease * 1000000)

-- `error_type` and `message` are what `type(error).__name__[:128]` and `_safe_error(error)` give.
unfoldable pub fail_tx : TaskLease → String → String → ℕ → ℕ → Db → Result Error Db
unfolding retry_delay delay_overflows
fail_tx lease error_type message base_delay_seconds now db =
    let retry = can_retry lease in
    let delay = retry_delay base_delay_seconds lease in
    let available = (if retry then now + delay * 1000000 else now) in
    let (hit, db') =
      update_where lease.task.task_id (holds lease) (failed_row retry message available now) db in
    do
      raise_if (delay_overflows base_delay_seconds lease now) overflow_error
      raise_if (not hit) stale_lease
      db'' ←
          insert_attempt
            (record {
              task_id = lease.task.task_id;
              attempt = lease.attempt;
              task_version = lease.version;
              status = AttemptStatus.failed;
              error_type = some error_type;
              error_message = some message;
              started_at = or_time lease.task.claimed_at now;
              finished_at = now;
            })
            db'
      ok (
          log_event (if retry then "task.retry_scheduled" else "task.dead_lettered")
            lease.task.task_id lease.version
            (of_delay lease.attempt (if retry then some delay else none)) now db'')

unfoldable pub fail : TaskLease → String → String → ℕ → ℕ → Db → Result Error TaskRecord × Db
fail lease error_type message base_delay_seconds now db =
    and_get (get lease.task.task_id) db (fail_tx lease error_type message base_delay_seconds now db)
