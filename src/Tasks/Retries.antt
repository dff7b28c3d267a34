-- ===== src/Tasks/Retries.antt =====
-- `manual_retry` and the bound of 20 on `max_attempts` in `TaskRecord`.
use career_agent_harness.Base.{
  ℕ, String, true, some, ◌≡◌, refl, ◌∙◌, inl, inr, max, arith, ◌+◌, eq_refl, if◌then◌else◌, leb,
}
use career_agent_harness.Base.Result.{Result, ok, err, Result-cases}
use career_agent_harness.Base.Table.{lookup}
use career_agent_harness.Tasks.Model.{
  dead_letter, Row, Db, Error, validation_error, TaskRecord, valid_record, task,
}
use career_agent_harness.Tasks.Enqueue.{get, locked_row}
use career_agent_harness.Tasks.Control.{
  manual_retry, manual_retry_tx, requeue_selected, requeued_row, is_retryable,
}
use career_agent_harness.Tasks.Outcomes.{requeue_ok, requeue_tx-requeue_selected}

-- The row that `manual_retry` leaves behind.
abbrev pub retried_row : ℕ → Row → Row
retried_row now r = requeued_row (max r.max_attempts (r.current_attempt + 1)) now r

module _ (id : String) (now : ℕ) (r : Row) (db : Db) (found : lookup id db.rows ≡ some r)
    (dead : r.status ≡ dead_letter) where
  retried_not_err :
      (e : Error) → requeue_selected id r is_retryable "task.manual_retry" true now db ≡ err e → ⊥
  unfolding requeue_selected
  retried_not_err e h = ground arith

  retried_commits :
      (db' : Db) × (manual_retry_tx id now db ≡ ok db')
      × (lookup id db'.rows ≡ some (retried_row now r))
  unfolding manual_retry_tx
  retried_commits =
      let same =
        requeue_tx-requeue_selected id now db r is_retryable "task.manual_retry" true found in
      elim (Result-cases (requeue_selected id r is_retryable "task.manual_retry" true now db)) [
        | inl (db', e) ↦ (
          db',
          same ∙ e,
          rw (
            ((requeue_ok id now db r found is_retryable "task.manual_retry" true e).1).rows id,
            eq_refl,
          ),
        )
        | inr (e, h) ↦ absurd (retried_not_err e h)
      ]

retried_valid :
    (id : String) (now : ℕ) (r : Row)
    → valid_record id r ≡ true
    → task id (retried_row now r) ≡ (
        if leb (r.current_attempt + 1) 20
        then ok (record { task_id = id; row = retried_row now r })
        else err validation_error)
unfolding task valid_record requeued_row
retried_valid id now r v = ground arith

-- The reply of `manual_retry`, and what a later `get` gives.
abbrev pub Retried : String → ℕ → Row → Result Error TaskRecord × Db → Type 0
Retried id now r (reply, db') =
    (lookup id db'.rows ≡ some (retried_row now r))
    × (reply ≡ (
        if leb (r.current_attempt + 1) 20
        then ok (record { task_id = id; row = retried_row now r })
        else err validation_error))
    × (get id db' ≡ reply)

Retried-reply :
    (id : String) (now : ℕ) (r : Row) (db db' : Db)
    → valid_record id r ≡ true
    → manual_retry_tx id now db ≡ ok db'
    → lookup id db'.rows ≡ some (retried_row now r)
    → Retried id now r (manual_retry id now db)
unfolding manual_retry get locked_row
Retried-reply id now r db db' valid e row =
    rw e (row, rw (row, locked_row) (retried_valid id now r valid), refl)

-- `manual_retry` of a readable task in the dead letters makes it pending and returns it, if fewer
-- than 20 attempts were made; after 20 attempts or more it makes the task pending too, but raises,
-- and the task cannot be read any more.
pub manual_retry_limit :
    (id : String) (now : ℕ) (r : Row) (db : Db)
    → lookup id db.rows ≡ some r
    → r.status ≡ dead_letter
    → valid_record id r ≡ true
    → Retried id now r (manual_retry id now db)
manual_retry_limit id now r db found dead valid =
    let (db', e, row) = retried_commits id now r db found dead in
    Retried-reply id now r db db' valid e row
