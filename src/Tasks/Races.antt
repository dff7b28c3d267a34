-- ===== src/Tasks/Races.antt =====
-- Claims, cancellations and requeues of backend/career_harness/db/task_repository.py whose row was
-- changed between their `SELECT` and their writes. The engine of backend/career_harness/db/session.py
-- has the default driver, which begins a transaction at the first write only, so that the `SELECT`
-- stands outside of it.
use career_agent_harness.Base.{ℕ, String, true, false, some, ◌≡◌, refl, ◌+◌, arith, if◌then◌else◌}
use career_agent_harness.Base.Result.{ok, err}
use career_agent_harness.Base.Json.{Fields}
use career_agent_harness.Base.Table.{lookup, insert, lookup-insert_self}
use career_agent_harness.Tasks.Model.{
  Row, Db, TaskLease, Error, has_attempt, insert_attempt, update_where, log_event, is_waiting,
  is_busy, empty,
}
use career_agent_harness.Tasks.Payload.{valid_task_json}
use career_agent_harness.Tasks.Lease.{
  claim_selected, claim_row, holds, complete_tx, fail_tx, delay_overflows,
}
use career_agent_harness.Tasks.Control.{cancel_selected, cancelled_row, is_closed}

-- What a worker's calls answer that has this lease: it is current, and the attempt cannot be recorded.
abbrev pub IsStuck : TaskLease → Db → Type 0
IsStuck lease db =
    ((result : Fields) (now : ℕ)
      → valid_task_json result ≡ true
      → complete_tx lease result now db ≡ err Error.integrity_error)
    × ((kind message : String) (base now : ℕ)
        → fail_tx lease kind message base now db
          ≡ err (
              if delay_overflows base lease now
              then Error.overflow_error
              else Error.integrity_error))

stuck :
    (lease : TaskLease) (r : Row) (db : Db)
    → lookup lease.task.task_id db.rows ≡ some r
    → holds lease r ≡ true
    → has_attempt lease.task.task_id lease.attempt db.attempts ≡ true
    → IsStuck lease db
unfolding complete_tx fail_tx insert_attempt update_where log_event
stuck lease r db found held rec = (
  λ result now v. ground (arith, found, held, rec),
  λ kind message base now. ground (arith, found, held, rec),
)

-- A worker claims a task by a row that it has read before, and in the meantime another has claimed the
-- task, for the attempt after the one in that row, and failed, so that the task waits again under the
-- same version and that attempt is recorded: the claim is granted for the recorded attempt again.
-- Neither `complete` nor `fail` can end it: they raise an integrity error (or the overflow of the
-- delay), and the task stays under work.
pub claim_selected-IsStuck :
    (id : String) (r s : Row) (now : ℕ) (db : Db)
    → lookup id db.rows ≡ some s
    → s.version ≡ r.version
    → is_waiting s.status ≡ true
    → has_attempt id (r.current_attempt + 1) db.attempts ≡ true
    → ((claim_selected (id, r) now db).0 ≡ some (id, r.current_attempt + 1))
      × (lookup id (claim_selected (id, r) now db).1.rows
          ≡ some (claim_row (r.current_attempt + 1) now s))
      × ((lease : TaskLease)
          → lease.task.task_id ≡ id
          → lease.version ≡ s.version
          → lease.attempt ≡ r.current_attempt + 1
          → IsStuck lease (claim_selected (id, r) now db).1)
unfolding claim_selected claim_row update_where log_event holds
claim_selected-IsStuck id r s now db found same waiting rec =
    let taken = claim_row (r.current_attempt + 1) now s in
    let row : lookup id (claim_selected (id, r) now db).1.rows ≡ some taken =
      ground (arith, found, same, waiting, lookup-insert_self id taken db.rows) in
    let attempts : (claim_selected (id, r) now db).1.attempts ≡ db.attempts =
      ground (arith, found, same, waiting) in
    (
      ground (arith, found, same, waiting),
      row,
      λ lease e v a.
          stuck lease taken (claim_selected (id, r) now db).1 (rw e row) (ground (arith, v, a))
            (rw (attempts, e, a) rec),
    )

pub cancel_selected-overtaken :
    (id : String) (r s : Row) (now : ℕ) (db : Db)
    → lookup id db.rows ≡ some s
    → is_waiting r.status ≡ true
    → (db' : Db) × (cancel_selected id r now db ≡ ok db')
      × (lookup id db'.rows ≡ some (cancelled_row now s))
      × (db'.attempts ≡ db.attempts)
unfolding cancel_selected update_where log_event
cancel_selected-overtaken id r s now db found waiting =
    let open_row : is_closed r.status ≡ false = ground arith in
    let idle : is_busy r.status ≡ false = ground arith in
    (
      log_event "task.cancelled" id (r.version + 1) empty now
          (record db { rows = insert id (cancelled_row now s) db.rows }),
      rw (cancel_selected, open_row, idle, update_where, found) refl,
      lookup-insert_self id (cancelled_row now s) db.rows,
      refl,
    )
