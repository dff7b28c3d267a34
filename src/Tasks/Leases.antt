-- ===== src/Tasks/Leases.antt =====
-- What a lease of `claim_next` is good for: once, and not after the task was cancelled.
use career_agent_harness.Base.{
  ℕ, String, true, false, List, [], ◌∷◌, ◌++◌, some, ◌≡◌, refl, sym, ◌∙◌, inl, inr, arith, ◌+◌, ◌≤◌,
  eq_iff, eq_refl, if◌then◌else◌, Bool-cases, ltb, ◌*◌, ◌^◌, ◌-◌,
}
use career_agent_harness.Base.Result.{ok, err, Result-cases}
use career_agent_harness.Base.Json.{Fields}
use career_agent_harness.Base.Table.{lookup}
use career_agent_harness.Tasks.Model.{
  TaskStatus, Row, Attempt, Db, TaskLease, Error, has_attempt, insert_attempt, log_event,
  update_where,
}
use career_agent_harness.Tasks.Payload.{valid_task_json}
use career_agent_harness.Tasks.Lease.{
  holds, complete_tx, fail_tx, can_retry, failed_row, retry_delay, delay_overflows,
}
use career_agent_harness.Tasks.Control.{cancel_tx, cancelled_row}
use career_agent_harness.Tasks.Writes.{Wrote, has_attempt-append}
use career_agent_harness.Tasks.Effects.{
  complete_ok, completed_attempt, completed_row, fail_ok, failed_attempt, complete_missing,
  fail_missing, next_time, complete_events, completed_events, fail_events, failed_events,
}
use career_agent_harness.Tasks.Outcomes.{cancel_ok, cancel_tx-cancel_selected}
use career_agent_harness.Tasks.Machine.{phase, Step, Reach}
use career_agent_harness.Tasks.Refinement.{found_or}
use career_agent_harness.Tasks.Invariant.{Inv, IsCounted, Step-Inv, Reach-Inv}
use career_agent_harness.Tasks.Fencing.{IsStale, not_held, Reach-Later}

task-IsCounted :
    (id : String) (r : Row) (db : Db)
    → Inv db
    → lookup id db.rows ≡ some r
    → IsCounted db.attempts id (phase r)
task-IsCounted id r db i found = rw found at (i.keys id)

-- A lease for an attempt that is recorded holds no row.
recorded_not_held :
    (lease : TaskLease) (r : Row) (db : Db)
    → Inv db
    → has_attempt lease.task.task_id lease.attempt db.attempts ≡ true
    → lookup lease.task.task_id db.rows ≡ some r
    → holds lease r ≡ false
unfolding holds
recorded_not_held lease r db i rec found =
    let c = task-IsCounted lease.task.task_id r db i found in ground (arith, c.unrecorded)

pub recorded-IsStale :
    (lease : TaskLease) (db : Db)
    → Inv db
    → has_attempt lease.task.task_id lease.attempt db.attempts ≡ true
    → IsStale lease db
recorded-IsStale lease db i rec =
    not_held lease db (λ r found. recorded_not_held lease r db i rec found)

records_last :
    (id : String) (a : Attempt) (old : List Attempt)
    → a.task_id ≡ id
    → has_attempt id a.attempt (old ++ a ∷ []) ≡ true
records_last id a old same =
    has_attempt-append id a.attempt old a ∙ ground (arith, eq_iff a.task_id id)

-- What a transaction has recorded of a task stays recorded.
stays_recorded :
    (id : String) (r : Row) (a : Attempt) (db mid db' : Db)
    → Inv mid
    → Wrote id r (some a) db mid
    → a.task_id ≡ id
    → Reach mid db'
    → has_attempt id a.attempt db'.attempts ≡ true
stays_recorded id r a db mid db' i w same steps =
    let found : lookup id mid.rows ≡ some r = rw (w.rows id, eq_refl) in
    (Reach-Later id r i steps found).1 a.attempt
      (rw w.attempts (records_last id a db.attempts same))

module _ (lease other : TaskLease) (now : ℕ) (db mid db' : Db) where
  spent :
      (r : Row) (a : Attempt)
      → Inv db
      → Step db mid
      → Wrote lease.task.task_id r (some a) db mid
      → (a.task_id ≡ lease.task.task_id) × (a.attempt ≡ lease.attempt)
      → other.task.task_id ≡ lease.task.task_id
      → other.attempt ≡ lease.attempt
      → Reach mid db'
      → IsStale other db'
  spent r a i s w same id_eq att_eq steps =
      recorded-IsStale other db' (Reach-Inv (Step-Inv i s) steps) (
        rw (id_eq, att_eq, ← same.1)
          (stays_recorded lease.task.task_id r a db mid db' (Step-Inv i s) w same.0 steps))

  -- Once `complete` has committed for an attempt, every later call of a worker with a lease of that
  -- attempt is refused as stale (where its arguments are not refused before), whatever transactions
  -- came in between in which claims, cancellations and requeues find the row that they have read
  -- unchanged.
  pub completed_once :
      (result : Fields)
      → Inv db
      → complete_tx lease result now db ≡ ok mid
      → other.task.task_id ≡ lease.task.task_id
      → other.attempt ≡ lease.attempt
      → Reach mid db'
      → IsStale other db'
  completed_once result i done id_eq att_eq steps =
      found_or lease.task.task_id db.rows
        (λ r e.
          spent _ _ i (Step.complete lease result now done)
            (complete_ok lease now db r result e done).2 (refl, refl) id_eq att_eq steps)
        (λ e. complete_missing lease now db e result done)

  -- So it is once `fail` has committed for an attempt.
  pub failed_once :
      (kind message : String) (base : ℕ)
      → Inv db
      → fail_tx lease kind message base now db ≡ ok mid
      → other.task.task_id ≡ lease.task.task_id
      → other.attempt ≡ lease.attempt
      → Reach mid db'
      → IsStale other db'
  failed_once kind message base i done id_eq att_eq steps =
      found_or lease.task.task_id db.rows
        (λ r e.
          spent _ _ i (Step.fail lease kind message base now done)
            (fail_ok lease now db r kind message base e done).2 (refl, refl) id_eq att_eq steps)
        (λ e. fail_missing lease now db e kind message base done)

-- Once a task is cancelled, every lease that was given before is stale for good: after a resume
-- and a new claim too, whatever transactions come in which claims, cancellations and requeues find
-- the row that they have read unchanged.
pub cancelled-IsStale :
    (id : String) (lease : TaskLease) (now : ℕ) (r : Row) (db mid db' : Db)
    → Inv db
    → lookup id db.rows ≡ some r
    → lease.task.task_id ≡ id
    → lease.version ≤ r.version
    → cancel_tx id now db ≡ ok mid
    → Reach mid db'
    → IsStale lease db'
unfolding holds cancelled_row
cancelled-IsStale id lease now r db mid db' i found same old done steps =
    let done' = sym (cancel_tx-cancel_selected id now db r found) ∙ done in
    let w = (cancel_ok id now db r found done').1 in
    let found' : lookup id mid.rows ≡ some (cancelled_row now r) = rw (w.rows id, eq_refl) in
    let later =
      (Reach-Later id (cancelled_row now r) (Step-Inv i (Step.cancel id r now found done')) steps
        found').0 in
    not_held lease db' λ s e.
      let e' : some later.0 ≡ some s = sym later.1 ∙ (rw same at e) in
      ground (arith, e', later.2.version)

-- The row after a failure, in full.
abbrev pub after_failure : TaskLease → String → ℕ → ℕ → Row → Row
after_failure lease message base now r =
    if ltb lease.attempt lease.task.max_attempts
    then record r {
      status = TaskStatus.retrying;
      last_error = some message;
      available_at = now + base * 2 ^ (lease.attempt - 1) * 1000000;
      updated_at = now;
    }
    else record r {
      status = TaskStatus.dead_letter;
      last_error = some message;
      available_at = now;
      updated_at = now;
    }

after_failure_lem :
    (lease : TaskLease) (message : String) (base now : ℕ) (r : Row)
    → failed_row (can_retry lease) message (next_time lease base now) now r
      ≡ after_failure lease message base now r
unfolding failed_row can_retry retry_delay
after_failure_lem lease message base now r =
    elim (Bool-cases (ltb lease.attempt lease.task.max_attempts)) [ inl b ↦ rw b | inr b ↦ rw b ]

module _ (lease : TaskLease) (now : ℕ) (r : Row) (db : Db) (i : Inv db)
    (found : lookup lease.task.task_id db.rows ≡ some r) (held : holds lease r ≡ true) where
  current :
      (has_attempt lease.task.task_id lease.attempt db.attempts ≡ false)
      × (1 ≤ lease.attempt)
      × (1 ≤ lease.version)
  unfolding holds
  current =
      let c = task-IsCounted lease.task.task_id r db i found in
      (ground (arith, c.unrecorded), ground (arith, c.started), ground (arith, c.versioned))

  complete_not_err :
      (result : Fields) (e : Error)
      → valid_task_json result ≡ true
      → complete_tx lease result now db ≡ err e
      → ⊥
  unfolding complete_tx insert_attempt update_where log_event
  complete_not_err result e valid h = ground (arith, current)

  -- Where a lease holds its row, `complete` commits a valid result: the task is completed with it,
  -- the attempt is recorded, whose number was not recorded before, so that the primary key of
  -- `task_attempt` is not violated, no other task changes, and the events `task.finalizing` and
  -- `task.completed` are appended, no others.
  pub complete_commits :
      (result : Fields)
      → valid_task_json result ≡ true
      → (db' : Db) × (complete_tx lease result now db ≡ ok db')
        × Wrote lease.task.task_id
            (completed_row result now r)
            (some (completed_attempt lease now))
            db
            db'
        × (db'.events ≡ completed_events lease now db)
  complete_commits result valid = elim (Result-cases (complete_tx lease result now db)) [
    | inl (db', e) ↦ (
      db',
      e,
      (complete_ok lease now db r result found e).2,
      complete_events lease now db r result found e,
    )
    | inr (e, h) ↦ absurd (complete_not_err result e valid h)
  ]

  fail_not_err :
      (kind message : String) (base : ℕ) (e : Error)
      → delay_overflows base lease now ≡ false
      → fail_tx lease kind message base now db ≡ err e
      → ⊥
  unfolding fail_tx insert_attempt update_where
  fail_not_err kind message base e fits h = ground (arith, current)

  -- Where a lease holds its row and the time of a retry is not past the year 9999, `fail` commits: the task waits for its next attempt, after the base
  -- delay times 2 to the number of the attempt less one, if the attempts of the lease are not used
  -- up, and goes to the dead letters if they are; the attempt is recorded, no other task changes, and
  -- one event is appended, which says which of the two and the delay.
  pub fail_commits :
      (kind message : String) (base : ℕ)
      → delay_overflows base lease now ≡ false
      → (db' : Db) × (fail_tx lease kind message base now db ≡ ok db')
        × Wrote lease.task.task_id
            (after_failure lease message base now r)
            (some (failed_attempt lease kind message now))
            db
            db'
        × (db'.events ≡ failed_events lease base now db)
  fail_commits kind message base fits =
      elim (Result-cases (fail_tx lease kind message base now db)) [
        | inl (db', e) ↦ (
          db',
          e,
          rw after_failure_lem at ((fail_ok lease now db r kind message base found e).2),
          fail_events lease now db r kind message base found e,
        )
        | inr (e, h) ↦ absurd (fail_not_err kind message base e fits h)
      ]
