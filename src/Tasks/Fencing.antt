-- ===== src/Tasks/Fencing.antt =====
-- What a later state of the queue owes to an earlier one, and when a lease is no longer current.
use career_agent_harness.Base.{
  ℕ, String, true, false, List, ◌++◌, Option, some, ◌≡◌, refl, ap, ◌∙◌, ◌≢◌, inl, inr, arith, ◌≤◌,
  ◌<◌, str_eq, eq_iff, Bool-cases, Option-cases, any-append, if◌then◌else◌,
}
use career_agent_harness.Base.Result.{err}
use career_agent_harness.Base.Json.{Fields}
use career_agent_harness.Base.Table.{lookup}
use career_agent_harness.Tasks.Model.{
  TaskStatus, Error, Row, Attempt, Db, TaskLease, stale_lease, has_attempt, update_where,
  progress_one,
}
use career_agent_harness.Tasks.Payload.{valid_task_json}
use career_agent_harness.Tasks.Lease.{holds, complete_tx, fail_tx, delay_overflows, set_progress_tx}
use career_agent_harness.Tasks.Writes.{listed}
use career_agent_harness.Tasks.Machine.{phase, Move, Step, Reach}
use career_agent_harness.Tasks.Refinement.{Moved, Step-Moved}
use career_agent_harness.Tasks.Invariant.{Inv, Reach-Inv}

-- Every call of the worker is refused as stale: the payload of `complete`, the progress given and the
-- time of the retry are checked first.
abbrev pub IsStale : TaskLease → Db → Type 0
IsStale lease db =
    ((result : Fields) (now : ℕ)
      → valid_task_json result ≡ true
      → complete_tx lease result now db ≡ err stale_lease)
    × ((kind message : String) (base now : ℕ)
        → fail_tx lease kind message base now db
          ≡ err (if delay_overflows base lease now then Error.overflow_error else stale_lease))
    × ((progress now : ℕ)
        → progress < progress_one
        → set_progress_tx lease progress now db ≡ err stale_lease)

pub not_held :
    (lease : TaskLease) (db : Db)
    → ((r : Row) → lookup lease.task.task_id db.rows ≡ some r → holds lease r ≡ false)
    → IsStale lease db
unfolding complete_tx fail_tx set_progress_tx update_where
not_held lease db h = elim (Option-cases (lookup lease.task.task_id db.rows)) [
  | inl e ↦ (
    λ result now v. ground arith,
    λ kind message base now. ground arith,
    λ progress now lt. ground arith,
  )
  | inr (r, e) ↦
      let no = h r e in
      (
        λ result now v. ground (arith, no),
        λ kind message base now. ground (arith, no),
        λ progress now lt. ground (arith, no),
      )
]

-- A later row of a task: its counters have not gone back.
pub record IsLater (r s : Row) : Type 0 where
  pub version : r.version ≤ s.version
  pub attempt : r.current_attempt ≤ s.current_attempt
  pub kept : r.status ≡ TaskStatus.completed → s ≡ r

Move-IsLater :
    (r s : Row) (n : Option ℕ)
    → Move (some (phase r)) (phase s) n
    → (r.version ≤ s.version)
      × (r.current_attempt ≤ s.current_attempt)
      × (r.status ≢ TaskStatus.completed)
Move-IsLater r s n (Move.create e lo hi e' en) = absurd (ground arith)
Move-IsLater r s n m = ground arith

IsLater-refl : (r : Row) → IsLater r r
IsLater-refl r = record { version = omega arith; attempt = omega arith; kept = λ e. refl }

IsLater-trans : (r s t : Row) → IsLater r s → IsLater s t → IsLater r t
IsLater-trans r s t h k = record {
  version = omega (arith, h.version, k.version);
  attempt = omega (arith, h.attempt, k.attempt);
  kept = λ e. k.kept (ap (λ (x : Row). x.status) (h.kept e) ∙ e) ∙ h.kept e;
}

-- What a transaction makes of a task, and of what is recorded of it.
abbrev pub Later : String → Row → Db → Db → Type 0
Later id r db db' =
    ((s : Row) × (lookup id db'.rows ≡ some s) × IsLater r s)
    × ((n : ℕ) → has_attempt id n db.attempts ≡ true → has_attempt id n db'.attempts ≡ true)

grows :
    (id : String) (n : ℕ) (old : List Attempt) (extra : Option Attempt)
    → has_attempt id n old ≡ true
    → has_attempt id n (old ++ listed extra) ≡ true
unfolding has_attempt
grows id n old extra h = rw any-append (ground arith)

Moved-Later :
    (id : String) (r : Row) {db db' : Db}
    → Moved db db'
    → lookup id db.rows ≡ some r
    → Later id r db db'
Moved-Later id r {db} {db'} m found = (
  elim (Bool-cases (str_eq m.id id)) [
    | inl same ↦ (
      m.row,
      rw (m.wrote.rows id, same),
      let same' = (eq_iff m.id id).0 same in
          let mv : Move (some (phase r)) (phase m.row) m.number = rw (same', found) at m.move in
          let l = Move-IsLater r m.row m.number mv in
          record { version = l.0; attempt = l.1; kept = λ e. absurd (l.2 e) },
    )
    | inr other ↦ (r, rw (m.wrote.rows id, other) found, IsLater-refl r)
  ],
  λ n h. rw m.wrote.attempts (grows id n db.attempts m.extra h),
)

Step-Later :
    (id : String) (r : Row) {db db' : Db}
    → Inv db
    → Step db db'
    → lookup id db.rows ≡ some r
    → Later id r db db'
Step-Later id r {db} i s found = elim (Step-Moved s) [
  | inl m ↦ Moved-Later id r m found
  | inr e ↦ rw e ((r, found, IsLater-refl r), λ n h. h)
]

-- Over every run of transactions of workers and users in which a claim, a cancellation and a requeue
-- find the row that they have read unchanged when they write, the version and the attempts of a task
-- never go back, what is recorded stays recorded, and a completed task is never changed again.
pub Reach-Later :
    (id : String) (r : Row) {db db' : Db}
    → Inv db
    → Reach db db'
    → lookup id db.rows ≡ some r
    → Later id r db db'
Reach-Later id r i Reach.here found = ((r, found, IsLater-refl r), λ n h. h)
Reach-Later id r i (Reach.next st s) found =
    let before = Reach-Later id r i st found in
    let after = Step-Later id before.0.0 (Reach-Inv i st) s before.0.1 in
    (
      (after.0.0, after.0.1, IsLater-trans r before.0.0 after.0.0 before.0.2 after.0.2),
      λ n h. after.1 n (before.1 n h),
    )
