-- ===== src/Tasks/Release.antt =====
-- What becomes of a lease at the end of a run of `run_one`
-- (backend/career_harness/services/task_service.py).
use career_agent_harness.Base.{
  ℕ, String, false, some, ◌≡◌, ◌≢◌, refl, inl, inr, arith, str_eq, Bool-cases, Option-cases,
}
use career_agent_harness.Base.Result.{Result, ok, err, Result-cases}
use career_agent_harness.Base.Json.{Fields}
use career_agent_harness.Base.Table.{lookup}
use career_agent_harness.Tasks.Model.{Error, stale_lease, Db, TaskRecord, TaskLease}
use career_agent_harness.Tasks.Payload.{valid_task_json}
use career_agent_harness.Tasks.Enqueue.{get}
use career_agent_harness.Tasks.Lease.{holds, complete, complete_tx, fail, fail_tx, delay_overflows}
use career_agent_harness.Tasks.Machine.{Step, Reach}
use career_agent_harness.Tasks.Invariant.{Inv, Step-Inv}
use career_agent_harness.Tasks.Fencing.{IsStale, not_held}
use career_agent_harness.Tasks.Leases.{completed_once, failed_once, complete_commits, fail_commits}
use career_agent_harness.Tasks.Service.{
  TaskService, RegisteredTaskHandler, Raised, stale, exception, or_current, fail_or_current, settle,
  finish_run, run_lease, error_name,
}

invalid_result :
    (lease : TaskLease) (result : Fields) (now : ℕ) (db : Db)
    → valid_task_json result ≡ false
    → complete_tx lease result now db ≡ err stale_lease
    → ⊥
unfolding complete_tx
invalid_result lease result now db v h = ground arith

or_current_db :
    (id : String) (reply : Result Error TaskRecord) (db : Db) → (or_current id (reply, db)).1 ≡ db
unfolding or_current
or_current_db id (ok t) db = refl
or_current_db id (err stale_lease) db = refl
or_current_db id (err e) db = refl

module _ (lease : TaskLease) (db : Db) (i : Inv db) where
  -- `fail` commits, or the lease was stale.
  fail_err :
      (kind message : String) (base now : ℕ) (e : Error)
      → delay_overflows base lease now ≡ false
      → fail_tx lease kind message base now db ≡ err e
      → IsStale lease db
  fail_err kind message base now e fits h = not_held lease db λ r found.
      elim (Bool-cases (holds lease r)) [
        | inl held ↦
            (let (db', e', w, ev) =
                fail_commits lease now r db i found held kind message base fits in
              absurd (cc))
        | inr free ↦ free
      ]

  fail-IsStale :
      (kind message : String) (base now : ℕ)
      → delay_overflows base lease now ≡ false
      → IsStale lease (fail lease kind message base now db).1
  unfolding fail
  fail-IsStale kind message base now fits =
      elim (Result-cases (fail_tx lease kind message base now db)) [
        | inl (db', e) ↦
            rw e (failed_once lease lease now db db' db' kind message base i e refl refl Reach.here)
        | inr (e, h) ↦ rw h (fail_err kind message base now e fits h)
      ]

  -- Where `complete` does not commit, the lease was stale, or the result is not valid.
  complete-IsStale :
      (result : Fields) (now : ℕ)
      → complete_tx lease result now db ≡ err stale_lease
      → IsStale lease db
  complete-IsStale result now h = not_held lease db λ r found. elim (Bool-cases (holds lease r)) [
    | inl held ↦ elim (Bool-cases (valid_task_json result)) [
      | inl v ↦
          (let (db', e', w, ev) = complete_commits lease now r db i found held result v in
            absurd (cc))
      | inr v ↦ absurd (invalid v)
    ]
    | inr free ↦ free
  ]
    where
      invalid : valid_task_json result ≡ false → ⊥
      invalid v = invalid_result lease result now db v h

  fail_or_current-IsStale :
      (kind message : String) (now : ℕ)
      → delay_overflows 1 lease now ≡ false
      → IsStale lease (fail_or_current lease kind message now db).1
  unfolding fail_or_current
  fail_or_current-IsStale kind message now fits =
      let (reply, db') = fail lease kind message 1 now db in
      rw (or_current_db lease.task.task_id reply db') (fail-IsStale kind message 1 now fits)

  settle-IsStale :
      (describe : Error → String) (now : ℕ) (reply : Result Error TaskRecord)
      → delay_overflows 1 lease now ≡ false
      → ((t : TaskRecord) → reply ≡ ok t → IsStale lease db)
      → (reply ≡ err stale_lease → IsStale lease db)
      → IsStale lease (settle describe lease now (reply, db)).1
  unfolding settle
  settle-IsStale describe now (ok t) fits on_ok on_stale = on_ok t refl
  settle-IsStale describe now (err stale_lease) fits on_ok on_stale = on_stale refl
  settle-IsStale describe now (err e) fits on_ok on_stale =
      fail_or_current-IsStale (error_name e) (describe e) now fits

complete_refused :
    (lease : TaskLease) (db : Db) (i : Inv db) (describe : Error → String) (result : Fields)
    (now later : ℕ) (e : Error)
    → delay_overflows 1 lease later ≡ false
    → complete_tx lease result now db ≡ err e
    → IsStale lease (settle describe lease later (err e, db)).1
complete_refused lease db i describe result now later e fits h =
    settle-IsStale lease db i describe later (err e) fits (λ t eq. cc)
      (λ eq. complete-IsStale lease db i result now (cc))

finish_run-IsStale :
    (describe : Error → String) (lease : TaskLease) (done_at failed_at : ℕ)
    (outcome : Result Raised Fields) (db : Db)
    → Inv db
    → delay_overflows 1 lease failed_at ≡ false
    → outcome ≢ err stale
    → IsStale lease (finish_run describe lease done_at failed_at outcome db).1
unfolding finish_run complete
finish_run-IsStale describe lease t u (ok result) db i fits h =
    elim (Result-cases (complete_tx lease result t db)) [
      | inl (db', e) ↦ rw e (
          let gone = completed_once lease lease t db db' db' result i e refl refl Reach.here in
          settle-IsStale lease db' (Step-Inv i (Step.complete lease result t e)) describe u
            (get lease.task.task_id db') fits (λ _ _. gone) (λ _. gone))
      | inr (e, eq) ↦ rw eq (complete_refused lease db i describe result t u e fits eq)
    ]
finish_run-IsStale describe lease t u (err stale) db i fits h = absurd (h refl)
finish_run-IsStale describe lease t u (err (exception kind message)) db i fits h =
    fail_or_current-IsStale lease db i kind message u fits

-- Whatever the others do between the claim and the end of the handler that keeps the invariant,
-- whether a handler is registered or not, and whatever it returns or raises, but for a
-- `StaleTaskLease` of its own, and whatever `complete` makes of the result, where the time of a retry
-- is not past the year 9999: after the run its lease is not current any more.
pub run_lease-IsStale :
    (describe : Error → String) (service : TaskService) (stage : String) (lease : TaskLease)
    (done_at failed_at : ℕ) (meanwhile : Db → Db) (db : Db)
    → Inv (meanwhile db)
    → delay_overflows 1 lease failed_at ≡ false
    → ((registration : RegisteredTaskHandler)
        → lookup lease.task.task_type service.handlers ≡ some registration
        → registration.handler lease.task.payload ≢ err stale)
    → IsStale lease (run_lease describe service stage lease done_at failed_at meanwhile db).1
unfolding run_lease
run_lease-IsStale describe service stage lease t u meanwhile db i fits h =
    elim (Option-cases (lookup lease.task.task_type service.handlers)) [
      | inl e ↦
          rw (e, run_lease)
            (fail-IsStale lease (meanwhile db) i "RuntimeError" "task handler is unavailable" 1 u
              fits)
      | inr (g, e) ↦
          rw (e, run_lease)
            (elim (Bool-cases (str_eq g.stage stage)) [
              | inl b ↦ rw b (
                  finish_run-IsStale describe lease t u (g.handler lease.task.payload)
                    (meanwhile db) i fits (h g e))
              | inr b ↦ rw b (
                  fail-IsStale lease (meanwhile db) i "RuntimeError" "task handler is unavailable" 1
                    u fits)
            ])
    ]
