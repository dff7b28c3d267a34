-- ===== src/Tasks/Refinement.antt =====
-- The steps of the queue (backend/career_harness/db/task_repository.py) as moves of one task.
use mathlib.Core.Option
use career_agent_harness.Base.{
  ℕ, String, true, false, Option, none, some, ◌≡◌, refl, ap, ◌⊎◌, inl, inr, arith, ◌≤◌,
  if◌then◌else◌, Option-cases, Bool-cases,
}
use career_agent_harness.Base.Result.{ok}
use career_agent_harness.Base.Json.{Fields}
use career_agent_harness.Base.Table.{Table, lookup}
use career_agent_harness.Tasks.Model.{TaskStatus, Row, Db, Attempt, TaskLease, is_busy}
use career_agent_harness.Tasks.Enqueue.{enqueue_tx}
use career_agent_harness.Tasks.Lease.{
  claim_selected, claim_row, set_progress_tx, complete_tx, fail_tx, holds, failed_row, can_retry,
}
use career_agent_harness.Tasks.Control.{
  cancel_selected, cancelled_row, requeue_selected, requeued_row, is_resumable, is_retryable,
}
use career_agent_harness.Tasks.Writes.{Wrote}
use career_agent_harness.Tasks.Effects.{
  complete_ok, fail_ok, set_progress_ok, completed_row, completed_attempt, failed_attempt,
  next_time, complete_missing, fail_missing, set_progress_missing,
}
use career_agent_harness.Tasks.Outcomes.{
  enqueue_ok, new_row, cancel_ok, cancelled_attempt, requeue_ok, extended, claim_ok, claim_nothing,
}
use career_agent_harness.Tasks.Machine.{Step, phase, Move}

-- The attempt recorded is of the task that moves.
abbrev pub Records : String → Option Attempt → Option ℕ → Type 0
Records id none n = n ≡ none
Records id (some a) n = (a.task_id ≡ id) × (n ≡ some a.attempt)

-- One task moves.
pub record Moved (db db' : Db) : Type 0 where
  pub id : String
  pub row : Row
  pub extra : Option Attempt
  pub number : Option ℕ
  pub wrote : Wrote id row extra db db'
  pub recorded : Records id extra number
  pub move : Move (Option.map phase (lookup id db.rows)) (phase row) number

lease_is_for :
    (lease : TaskLease) (r : Row)
    → holds lease r ≡ true
    → (lease.attempt ≡ r.current_attempt) × (r.status ≡ TaskStatus.processing)
unfolding holds
lease_is_for lease r h = ground arith

cancelled-Records :
    (id : String) (now : ℕ) (r : Row)
    → Records id
        (cancelled_attempt id now r)
        (if is_busy r.status then some r.current_attempt else none)
cancelled-Records id now r = elim (Bool-cases (is_busy r.status)) [
  | inl e ↦ rw e (refl, refl)
  | inr e ↦ rw e refl
]

module _ {db db' : Db} where
  enqueue-Moved :
      (id kind stage : String) (payload : Fields) (max_attempts ready_at now : ℕ)
      → 1 ≤ max_attempts
      → max_attempts ≤ 20
      → enqueue_tx id kind stage payload max_attempts ready_at now db ≡ ok db'
      → Moved db db'
  enqueue-Moved id kind stage payload m t now lo hi h =
      let w = enqueue_ok id kind stage payload m t now db h in
      record {
        id = id;
        row = new_row kind stage payload m t now;
        extra = none;
        number = none;
        wrote = w.1;
        recorded = refl;
        move = Move.create (rw w.0) lo hi refl refl;
      }

  complete-Moved :
      (lease : TaskLease) (result : Fields) (now : ℕ) (r : Row)
      → lookup lease.task.task_id db.rows ≡ some r
      → complete_tx lease result now db ≡ ok db'
      → Moved db db'
  complete-Moved lease result now r found h =
      let w = complete_ok lease now db r result found h in
      let l = lease_is_for lease r w.0 in
      record {
        id = lease.task.task_id;
        row = completed_row result now r;
        extra = some (completed_attempt lease now);
        number = some lease.attempt;
        wrote = w.2;
        recorded = (refl, refl);
        move = Move.succeed (phase r) (rw found) l.1 refl (rw l.0);
      }

  fail-Moved :
      (lease : TaskLease) (kind message : String) (base now : ℕ) (r : Row)
      → lookup lease.task.task_id db.rows ≡ some r
      → fail_tx lease kind message base now db ≡ ok db'
      → Moved db db'
  unfolding failed_row
  fail-Moved lease kind message base now r found h =
      let w = fail_ok lease now db r kind message base found h in
      let l = lease_is_for lease r w.0 in
      record {
        id = lease.task.task_id;
        row = failed_row (can_retry lease) message (next_time lease base now) now r;
        extra = some (failed_attempt lease kind message now);
        number = some lease.attempt;
        wrote = w.2;
        recorded = (refl, refl);
        move = Move.give_up (phase r) (can_retry lease) (rw found) l.1 refl (rw l.0);
      }

  set_progress-Moved :
      (lease : TaskLease) (progress now : ℕ) (r : Row)
      → lookup lease.task.task_id db.rows ≡ some r
      → set_progress_tx lease progress now db ≡ ok db'
      → Moved db db'
  set_progress-Moved lease progress now r found h =
      let w = set_progress_ok lease now db r progress found h in
      record {
        id = lease.task.task_id;
        row = record r { progress = progress; updated_at = now };
        extra = none;
        number = none;
        wrote = w.2;
        recorded = refl;
        move = Move.work (rw found) (lease_is_for lease r w.0).1 refl;
      }

  cancel-Moved :
      (id : String) (now : ℕ) (r : Row)
      → lookup id db.rows ≡ some r
      → cancel_selected id r now db ≡ ok db'
      → Moved db db'
  unfolding cancelled_row
  cancel-Moved id now r found h =
      let w = cancel_ok id now db r found h in
      record {
        id = id;
        row = cancelled_row now r;
        extra = cancelled_attempt id now r;
        number = if is_busy r.status then some r.current_attempt else none;
        wrote = w.1;
        recorded = cancelled-Records id now r;
        move = Move.stop (phase r) (rw found) w.0 refl refl;
      }

  resume-Moved :
      (id : String) (now : ℕ) (r : Row)
      → lookup id db.rows ≡ some r
      → requeue_selected id r is_resumable "task.resumed" false now db ≡ ok db'
      → Moved db db'
  unfolding requeued_row
  resume-Moved id now r found h =
      let w = requeue_ok id now db r found is_resumable "task.resumed" false h in
      record {
        id = id;
        row = requeued_row (extended false r) now r;
        extra = none;
        number = none;
        wrote = w.1;
        recorded = refl;
        move = Move.restart (phase r) (rw found) w.0 refl refl;
      }

  manual_retry-Moved :
      (id : String) (now : ℕ) (r : Row)
      → lookup id db.rows ≡ some r
      → requeue_selected id r is_retryable "task.manual_retry" true now db ≡ ok db'
      → Moved db db'
  unfolding requeued_row
  manual_retry-Moved id now r found h =
      let w = requeue_ok id now db r found is_retryable "task.manual_retry" true h in
      record {
        id = id;
        row = requeued_row (extended true r) now r;
        extra = none;
        number = none;
        wrote = w.1;
        recorded = refl;
        move = Move.extend (phase r) (rw found) w.0 refl refl;
      }

  claim_selected-Moved :
      (id : String) (now : ℕ) (r : Row) (claimed : String) (attempt : ℕ)
      → lookup id db.rows ≡ some r
      → claim_selected (id, r) now db ≡ (some (claimed, attempt), db')
      → Moved db db'
  unfolding claim_row
  claim_selected-Moved id now r claimed attempt found h =
      let w = claim_ok id now db r found attempt claimed h in
      record {
        id = id;
        row = claim_row attempt now r;
        extra = none;
        number = none;
        wrote = w.3;
        recorded = refl;
        move = Move.take (phase r) (rw found) w.2 (rw w.1) refl;
      }

-- What a claim does: one move, or nothing.
claim-Moved :
    (id : String) (r : Row) (now : ℕ) (db : Db)
    → lookup id db.rows ≡ some r
    → Moved db (claim_selected (id, r) now db).1 ⊎ ((claim_selected (id, r) now db).1 ≡ db)
claim-Moved id r now db found =
    let out = claim_selected (id, r) now db in
    elim (Option-cases out.0) [
      | inl nothing ↦ inr (claim_nothing id r now db nothing)
      | inr ((claimed, attempt), got) ↦
          inl (claim_selected-Moved id now r claimed attempt found (ap (λ o. (o, out.1)) got))
    ]

pub found_or {ℓ} :
    {A : Type ℓ} (id : String) (rows : Table Row)
    → ((r : Row) → lookup id rows ≡ some r → A)
    → (lookup id rows ≡ none → ⊥)
    → A
found_or id rows f n = elim (Option-cases (lookup id rows)) [
  | inl e ↦ absurd (n e)
  | inr (r, e) ↦ f r e
]

-- Every transaction that commits, where the row that a claim, a cancellation or a requeue has read is
-- still the one in the table when it writes, moves one task as the state machine says, records the
-- attempt that ends with it, and leaves all other tasks as they were; or it changes nothing.
pub Step-Moved : {db db' : Db} → Step db db' → Moved db db' ⊎ (db' ≡ db)
Step-Moved {db} (Step.enqueue id kind stage payload m t now lo hi h) =
    inl (enqueue-Moved id kind stage payload m t now lo hi h)
Step-Moved {db} (Step.claim id r now f e) = rw e (claim-Moved id r now db f)
Step-Moved {db} (Step.set_progress lease p now h) = inl (
    found_or lease.task.task_id db.rows (λ r f. set_progress-Moved lease p now r f h)
      (λ n. set_progress_missing lease now db n p h))
Step-Moved {db} (Step.complete lease result now h) = inl (
    found_or lease.task.task_id db.rows (λ r f. complete-Moved lease result now r f h)
      (λ n. complete_missing lease now db n result h))
Step-Moved {db} (Step.fail lease kind message base now h) = inl (
    found_or lease.task.task_id db.rows (λ r f. fail-Moved lease kind message base now r f h)
      (λ n. fail_missing lease now db n kind message base h))
Step-Moved {db} (Step.cancel id r now f h) = inl (cancel-Moved id now r f h)
Step-Moved {db} (Step.resume id r now f h) = inl (resume-Moved id now r f h)
Step-Moved {db} (Step.manual_retry id r now f h) = inl (manual_retry-Moved id now r f h)
