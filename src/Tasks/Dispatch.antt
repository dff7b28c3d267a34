-- ===== src/Tasks/Dispatch.antt =====
-- `dispatch_stages` and `enqueue_tick` of TaskService
-- (backend/career_harness/services/task_service.py). The `k`-th call of `run_one` in a dispatch has its
-- own readings of the clock and its own transactions of others, so a call takes its number.
use career_agent_harness.Base.{
  ℕ, zero, suc, ◌+◌, ◌-◌, min, String, Bool, true, false, not, ◌||◌, List, [], ◌∷◌, ◌++◌, Option,
  none, some, length, take, str_eq, ltb, ◌==◌, if◌then◌else◌,
}
use career_agent_harness.Base.Result.{Result, ok, err, ◌>>◌, raise_if}
use career_agent_harness.Base.Table.{lookup}
use career_agent_harness.Base.Json.{Fields}
use career_agent_harness.Base.Keys.{has_duplicates}
use career_agent_harness.Tasks.Model.{Error, value_error, Db, TaskRecord}
use career_agent_harness.Tasks.Service.{TaskService, run_one, service_enqueue}

-- What a computation gives, or raises, the number of the next call and the database.
abbrev pub Ran : Type 0 → Type 0
Ran A = Result Error A × ℕ × Db

abbrev pub and_then : {A B : Type 0} → Ran A → (A → ℕ → Db → Ran B) → Ran B
and_then (ok a, k, db) next = next a k db
and_then (err e, k, db) next = (err e, k, db)

-- `self.stage_limits.get(stage, 1)`
abbrev pub limit_or_one : Option ℕ → ℕ
limit_or_one none = 1
limit_or_one (some limit) = limit

unfoldable pub stage_limit : TaskService → String → ℕ
stage_limit service stage = limit_or_one (lookup stage service.stage_limits)

abbrev pub is_empty : List TaskRecord → Bool
is_empty [] = true
is_empty (x ∷ xs) = false

-- A result that is not None.
abbrev pub append_found : Option TaskRecord → List TaskRecord → List TaskRecord
append_found none rest = rest
append_found (some t) rest = t ∷ rest

abbrev pub numbered : ℕ → Result Error (Option TaskRecord) × Db → Ran (Option TaskRecord)
numbered k (r, db) = (r, k, db)

-- The variables of a pass over the stages; `full` is its early return.
pub record Pass : Type 0 where
  pub results : List TaskRecord
  pub progressed : Bool
  pub full : Bool

module _ (service : TaskService) (run : String → ℕ → Db → Result Error (Option TaskRecord) × Db)
    (max_tasks : ℕ) where
  -- The batch of a stage: up to `count` calls of `run_one`.
  unfoldable pub run_batch : String → ℕ → ℕ → Db → Ran (List TaskRecord)
  run_batch stage zero k db = (ok [], k, db)
  run_batch stage (suc count) k db = and_then (numbered (k + 1) (run stage k db)) (λ found k' db'.
      and_then (run_batch stage count k' db')
        (λ rest k'' db''. (ok (append_found found rest), k'', db'')))

  -- `for stage in stages`
  unfoldable pub run_pass : List String → Pass → ℕ → Db → Ran Pass
  run_pass [] p k db = (ok p, k, db)
  run_pass (stage ∷ stages) p k db =
      let remaining = max_tasks - length p.results in
      let batched =
        and_then (run_batch stage (min (stage_limit service stage) remaining) k db) (λ batch k' db'.
          run_pass stages
            (record {
              results = p.results ++ take remaining batch;
              progressed = p.progressed || not (is_empty batch);
              full = false;
            })
            k' db') in
      if remaining == 0 then (ok (record p { full = true }), k, db) else batched

  -- `for _ in range(max_batches)`
  unfoldable pub run_rounds : List String → ℕ → List TaskRecord → ℕ → Db → Ran (List TaskRecord)
  run_rounds stages zero results k db = (ok (take max_tasks results), k, db)
  run_rounds stages (suc rounds) results k db =
      and_then
        (run_pass stages (record { results = results; progressed = false; full = false }) k db)
        (λ p k' db'.
          let again = run_rounds stages rounds p.results k' db' in
          if p.full
          then (ok p.results, k', db')
          else if not p.progressed
          then (ok (take max_tasks p.results), k', db')
          else again)

-- The checks of the arguments.
unfoldable pub check_dispatch : List String → ℕ → ℕ → Result Error (Unit {0})
check_dispatch stages max_batches max_tasks = do
  raise_if (length stages == 0 || ltb 32 (length stages) || has_duplicates str_eq stages)
      value_error
  raise_if (ltb max_batches 1 || ltb 100 max_batches) value_error
  raise_if (ltb max_tasks 1 || ltb 1000 max_tasks) value_error

abbrev pub if_checked : {A : Type 0} → Result Error (Unit {0}) → Ran A → ℕ → Db → Ran A
if_checked (ok u) run k db = run
if_checked (err e) run k db = (err e, k, db)

-- The surroundings of the `k`-th call: the readings of the clock and the transactions of others.
pub record Calls : Type 0 where
  pub claimed_at : ℕ → ℕ
  pub done_at : ℕ → ℕ
  pub failed_at : ℕ → ℕ
  pub meanwhile : ℕ → Db → Db

unfoldable pub dispatch_stages :
    (Error → String) → TaskService → Calls → List String → ℕ → ℕ → Db → Ran (List TaskRecord)
dispatch_stages describe service calls stages max_batches max_tasks db =
    if_checked (check_dispatch stages max_batches max_tasks)
      (run_rounds service
        (λ stage k d.
          run_one describe service stage (calls.claimed_at k) (calls.done_at k) (calls.failed_at k)
            (calls.meanwhile k) d)
        max_tasks stages max_batches [] 0 db)
      0 db

-- `enqueue_tick`; `fresh` and `at` give the identifier and the time of each task.
unfoldable pub enqueue_jobs :
    TaskService
    → (ℕ → String)
    → (ℕ → ℕ)
    → ℕ
    → List (String × Fields)
    → ℕ
    → Db
    → Ran (List TaskRecord)
enqueue_jobs service fresh at zero jobs k db = (ok [], k, db)
enqueue_jobs service fresh at (suc count) [] k db = (ok [], k, db)
enqueue_jobs service fresh at (suc count) ((task_type, payload) ∷ jobs) k db =
    let (task, db') = service_enqueue service task_type payload 3 (fresh k) (at k) db in
    and_then (task, k + 1, db')
      (λ t k' d.
        and_then (enqueue_jobs service fresh at count jobs k' d)
          (λ ts k'' d'. (ok (t ∷ ts), k'', d')))

unfoldable pub enqueue_tick :
    TaskService → (ℕ → String) → (ℕ → ℕ) → List (String × Fields) → ℕ → Db → Ran (List TaskRecord)
enqueue_tick service fresh at jobs max_jobs db =
    if_checked (raise_if (ltb max_jobs 1 || ltb 1000 max_jobs) value_error)
      (enqueue_jobs service fresh at max_jobs jobs 0 db) 0 db
