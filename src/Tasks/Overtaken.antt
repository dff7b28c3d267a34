-- ===== src/Tasks/Overtaken.antt =====
-- Every interleaving of the transactions of backend/career_harness/db/task_repository.py, those
-- included in which a claim, a cancellation or a requeue writes for a row that has changed since it was
-- read.
use career_agent_harness.Base.{
  ℕ, String, Bool, true, false, List, ◌++◌, Option, none, some, ◌≡◌, refl, sym, ap, ◌∙◌, ◌⊎◌, inl,
  inr, arith, ◌+◌, ◌≤◌, ◌<◌, ◌==◌, ◌&&◌, str_eq, eq_iff, Bool-cases, any-append,
}
use mathlib.Core.List.{append-nil}
use career_agent_harness.Base.Result.{ok}
use career_agent_harness.Base.Table.{Table, lookup}
use career_agent_harness.Tasks.Model.{
  TaskStatus, Row, Attempt, Db, TaskLease, has_attempt, insert_attempt, update_where, log_event,
  is_waiting,
}
use career_agent_harness.Tasks.Lease.{claim_selected, claim_row, holds}
use career_agent_harness.Tasks.Control.{
  cancel_selected, cancelled_row, is_closed, requeue_selected, requeued_row,
}
use career_agent_harness.Tasks.Writes.{Wrote, Wrote-insert, listed}
use career_agent_harness.Tasks.Outcomes.{cancelled_attempt, extended}
use career_agent_harness.Tasks.Machine.{phase, Move, Step}
use career_agent_harness.Tasks.Refinement.{Step-Moved}
use career_agent_harness.Tasks.Fencing.{IsStale, not_held}

-- A transaction that commits; `r` is the row of the task as it was read, at any time before, and `x`
-- the one that stands in the table.
pub data Race (db db' : Db) : Type 0 where
  in_time : Step db db' → Race db db'
  claim :
      (id : String) (r x : Row) (now : ℕ)
      → lookup id db.rows ≡ some x
      → db' ≡ (claim_selected (id, r) now db).1
      → Race db db'
  cancel :
      (id : String) (r x : Row) (now : ℕ)
      → lookup id db.rows ≡ some x
      → cancel_selected id r now db ≡ ok db'
      → Race db db'
  requeue :
      (id : String) (r x : Row) (allowed : TaskStatus → Bool) (event : String) (extend : Bool)
      (now : ℕ)
      → lookup id db.rows ≡ some x
      → requeue_selected id r allowed event extend now db ≡ ok db'
      → Race db db'

pub data Raced (db : Db) : Db → Type 0 where
  here : Raced db db
  next : {mid db' : Db} → Raced db mid → Race mid db' → Raced db db'

-- A later row of a task: a closed task changes under a new version only.
pub record IsAfter (r s : Row) : Type 0 where
  pub version : r.version ≤ s.version
  pub kept : is_closed r.status ≡ true → s.version ≡ r.version → s ≡ r

IsAfter-refl : (r : Row) → IsAfter r r
IsAfter-refl r = record { version = omega arith; kept = λ _ _. refl }

IsAfter-trans : (r s t : Row) → IsAfter r s → IsAfter s t → IsAfter r t
IsAfter-trans r s t h k =
    let low = h.version in
    let high = k.version in
    record {
      version = omega (arith, low, high);
      kept = λ closed e.
          let same = h.kept closed (omega (arith, low, high, e)) in
          k.kept (ap (λ (x : Row). is_closed x.status) same ∙ closed)
            (e ∙ sym (ap (λ (x : Row). x.version) same))
          ∙ same;
    }

-- What a transaction makes of a task, and of what is recorded of it.
abbrev pub After : String → Row → Db → Db → Type 0
After id r db db' =
    ((s : Row) × (lookup id db'.rows ≡ some s) × IsAfter r s)
    × ((n : ℕ) → has_attempt id n db.attempts ≡ true → has_attempt id n db'.attempts ≡ true)

grows :
    (id : String) (n : ℕ) (old new : List Attempt) (extra : Option Attempt)
    → new ≡ old ++ listed extra
    → has_attempt id n old ≡ true
    → has_attempt id n new ≡ true
unfolding has_attempt
grows id n old new extra e h = rw (e, any-append) (ground arith)

same_row :
    (id j : String) (r x row : Row) (rows : Table Row)
    → lookup id rows ≡ some r
    → lookup j rows ≡ some x
    → IsAfter x row
    → str_eq j id ≡ true
    → IsAfter r row
same_row id j r x row rows found e after same =
    let both : some x ≡ some r = sym e ∙ ap (λ k. lookup k rows) ((eq_iff j id).0 same) ∙ found in
    let eq : x ≡ r = ground (arith, both) in rw (← eq) after

module _ (id : String) (r : Row) {db db' : Db} (found : lookup id db.rows ≡ some r) where
  Wrote-After :
      (j : String) (row : Row) (extra : Option Attempt)
      → Wrote j row extra db db'
      → (str_eq j id ≡ true → IsAfter r row)
      → After id r db db'
  Wrote-After j row extra w after = (
    elim (Bool-cases (str_eq j id)) [
      | inl same ↦ (row, rw (w.rows id, same) refl, after same)
      | inr other ↦ (r, rw (w.rows id, other) found, IsAfter-refl r)
    ],
    λ n h. grows id n db.attempts db'.attempts extra w.attempts h,
  )

Move-IsAfter : (r s : Row) (n : Option ℕ) → Move (some (phase r)) (phase s) n → IsAfter r s
Move-IsAfter r s n (Move.create e lo hi e' en) = absurd (ground arith)
Move-IsAfter r s n m = record {
  version = ground arith;
  kept = λ closed same. absurd (ground arith);
}

-- What the statements behind a `SELECT` do, by the row `x` that stands in the table.
claim-raced :
    (id : String) (r x : Row) (now : ℕ) (db : Db)
    → lookup id db.rows ≡ some x
    → ((claim_selected (id, r) now db).1 ≡ db)
      ⊎ ((is_waiting x.status ≡ true)
          × Wrote id
              (claim_row (r.current_attempt + 1) now x)
              none
              db
              (claim_selected (id, r) now db).1)
unfolding claim_selected update_where log_event
claim-raced id r x now db found =
    elim (Bool-cases (x.version == r.version && is_waiting x.status)) [
      | inl hit ↦ inr (
        ground (arith, hit),
        Wrote-insert _ _ _ db _ (rw append-nil (ground (arith, found, hit)))
            (ground (arith, found, hit)),
      )
      | inr miss ↦ inl (ground (arith, found, miss))
    ]

cancel-raced :
    (id : String) (r x : Row) (now : ℕ) (db : Db) {db' : Db}
    → lookup id db.rows ≡ some x
    → cancel_selected id r now db ≡ ok db'
    → Wrote id (cancelled_row now x) (cancelled_attempt id now r) db db'
unfolding cancel_selected insert_attempt update_where log_event
cancel-raced id r x now db found done =
    Wrote-insert _ _ _ db _ (ground (arith, append-nil db.attempts)) (ground arith)

requeue-raced :
    (id : String) (r x : Row) (allowed : TaskStatus → Bool) (event : String) (extend : Bool)
    (now : ℕ) (db : Db) {db' : Db}
    → lookup id db.rows ≡ some x
    → requeue_selected id r allowed event extend now db ≡ ok db'
    → Wrote id (requeued_row (extended extend r) now x) none db db'
unfolding requeue_selected update_where log_event
requeue-raced id r x allowed event extend now db found done =
    Wrote-insert _ _ _ db _ (rw append-nil (ground arith)) (ground arith)

claimed-IsAfter :
    (x : Row) (attempt now : ℕ) → is_waiting x.status ≡ true → IsAfter x (claim_row attempt now x)
unfolding claim_row
claimed-IsAfter x attempt now waiting = record {
  version = omega arith;
  kept = λ closed _. absurd (ground (arith, closed, waiting));
}

cancelled-IsAfter : (x : Row) (now : ℕ) → IsAfter x (cancelled_row now x)
unfolding cancelled_row
cancelled-IsAfter x now = record {
  version = omega arith;
  kept = λ _ same. absurd (omega (arith, same));
}

requeued-IsAfter : (x : Row) (limit now : ℕ) → IsAfter x (requeued_row limit now x)
unfolding requeued_row
requeued-IsAfter x limit now = record {
  version = omega arith;
  kept = λ _ same. absurd (omega (arith, same));
}

unchanged : (id : String) (r : Row) (db : Db) → lookup id db.rows ≡ some r → After id r db db
unchanged id r db found = ((r, found, IsAfter-refl r), λ n h. h)

Race-After :
    (id : String) (r : Row) {db db' : Db}
    → Race db db'
    → lookup id db.rows ≡ some r
    → After id r db db'
Race-After id r {db} {db'} (Race.in_time step) found = elim (Step-Moved step) [
  | inl m ↦ Wrote-After id r found m.id m.row m.extra m.wrote (λ same.
      let mv : Move (some (phase r)) (phase m.row) m.number =
        rw ((eq_iff m.id id).0 same, found) at m.move in
      Move-IsAfter r m.row m.number mv)
  | inr e ↦ rw e (unchanged id r db found)
]
Race-After id r {db} {db'} (Race.claim j seen x now e done) found =
    elim (claim-raced j seen x now db e) [
      | inl same ↦ rw (done, same) (unchanged id r db found)
      | inr (waiting, w) ↦ rw done (
          Wrote-After id r found j _ none w (
            same_row id j r x _ db.rows found e
              (claimed-IsAfter x (seen.current_attempt + 1) now waiting)))
    ]
Race-After id r {db} {db'} (Race.cancel j seen x now e done) found =
    Wrote-After id r found j _ (cancelled_attempt j now seen) (cancel-raced j seen x now db e done)
      (same_row id j r x _ db.rows found e (cancelled-IsAfter x now))
Race-After id r {db} {db'} (Race.requeue j seen x allowed event extend now e done) found =
    Wrote-After id r found j _ none (requeue-raced j seen x allowed event extend now db e done)
      (same_row id j r x _ db.rows found e (requeued-IsAfter x (extended extend seen) now))

Raced-After :
    (id : String) (r : Row) {db db' : Db}
    → Raced db db'
    → lookup id db.rows ≡ some r
    → After id r db db'
Raced-After id r {db} Raced.here found = unchanged id r db found
Raced-After id r (Raced.next run race) found =
    let before = Raced-After id r run found in
    let after = Race-After id before.0.0 race before.0.1 in
    (
      (after.0.0, after.0.1, IsAfter-trans r before.0.0 after.0.0 before.0.2 after.0.2),
      λ n h. after.1 n (before.1 n h),
    )

-- A lease of a version that is past, or of one under which the task is closed.
abbrev pub IsSpent : TaskLease → Row → Type 0
IsSpent lease r =
    (lease.version < r.version) ⊎ ((lease.version ≤ r.version) × (is_closed r.status ≡ true))

spent_not_held :
    (lease : TaskLease) (r s : Row) → IsSpent lease r → IsAfter r s → holds lease s ≡ false
unfolding holds
spent_not_held lease r s (inl past) after = let low = after.version in ground (arith, low, past)
spent_not_held lease r s (inr (low, closed)) after = elim (Bool-cases (holds lease s)) [
  | inl held ↦
      let up = after.version in
      let at_version : s.version ≡ r.version = ground (arith, held, low, up) in
      let same : s.status ≡ r.status = ap (λ (x : Row). x.status) (after.kept closed at_version) in
      absurd (ground (arith, held, same, closed))
  | inr free ↦ free
]

-- Over every interleaving of transactions, those included in which a claim, a cancellation or a requeue
-- writes for a row that was changed since it was read: the version of a task never goes back, a task
-- that is completed, cancelled or in the dead letters changes under a new version only, what is
-- recorded stays recorded, and a lease of a version that is past, or under which the task is closed, is
-- stale from then on.
pub Raced-IsStale :
    (id : String) (r : Row) {db db' : Db}
    → lookup id db.rows ≡ some r
    → Raced db db'
    → After id r db db'
      × ((lease : TaskLease) → lease.task.task_id ≡ id → IsSpent lease r → IsStale lease db')
Raced-IsStale id r {db} {db'} found run =
    let after = Raced-After id r run found in
    (
      after,
      λ lease same spent. not_held lease db' λ s e.
          let both : some after.0.0 ≡ some s = sym after.0.1 ∙ (rw same at e) in
          let eq : after.0.0 ≡ s = ground (arith, both) in
          spent_not_held lease r s spent (rw eq at (after.0.2)),
    )
