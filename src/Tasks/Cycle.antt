-- ===== src/Tasks/Cycle.antt =====
-- A dispatch gives back every task that it ran, and no more than it was asked for
-- (backend/career_harness/services/task_service.py, `dispatch_stages`).
use career_agent_harness.Base.{
  ℕ, zero, suc, ◌+◌, ◌-◌, ◌≤◌, min, String, true, false, not, ◌||◌, List, [], ◌∷◌, ◌++◌, Option,
  none, some, length, take, ◌==◌, if◌then◌else◌, ◌≡◌, refl, ap, arith, inl, inr, Bool-cases,
  length-append,
}
use career_agent_harness.Base.Result.{Result, ok, err}
use career_agent_harness.Tasks.Model.{Error, Db, TaskRecord}
use career_agent_harness.Tasks.Service.{TaskService, run_one}
use career_agent_harness.Tasks.Dispatch.{
  Ran, and_then, stage_limit, is_empty, append_found, numbered, Pass, run_batch, run_pass,
  run_rounds, check_dispatch, if_checked, Calls, dispatch_stages,
}

take_all : (n : ℕ) (xs : List TaskRecord) → length xs ≤ n → take n xs ≡ xs
take_all zero [] h = refl
take_all zero (x ∷ xs) h = absurd (omega (arith, h))
take_all (suc n) [] h = refl
take_all (suc n) (x ∷ xs) h =
    let rest : length xs ≤ n = omega (arith, h) in ap (λ l. x ∷ l) (take_all n xs rest)

length-append_found :
    (found : Option TaskRecord) (rest : List TaskRecord) (count : ℕ)
    → length rest ≤ count
    → length (append_found found rest) ≤ suc count
length-append_found none rest count h = omega (arith, h)
length-append_found (some t) rest count h = omega (arith, h)

-- What holds of every value that a computation gives.
abbrev pub Gives : {A : Type 0} → (A → Type 0) → Ran A → Type 0
Gives P (ok a, k, db) = P a
Gives P (err e, k, db) = Unit

and_then-same :
    {A B : Type 0} (P : A → Type 0) (m : Ran A) (f g : A → ℕ → Db → Ran B)
    → Gives P m
    → ((a : A) (k : ℕ) (db : Db) → P a → f a k db ≡ g a k db)
    → and_then m f ≡ and_then m g
and_then-same P (ok a, k, db) f g h same = same a k db h
and_then-same P (err e, k, db) f g h same = refl

and_then-Gives :
    {A B : Type 0} (P : A → Type 0) (Q : B → Type 0) (m : Ran A) (f : A → ℕ → Db → Ran B)
    → Gives P m
    → ((a : A) (k : ℕ) (db : Db) → P a → Gives Q (f a k db))
    → Gives Q (and_then m f)
and_then-Gives P Q (ok a, k, db) f h then_gives = then_gives a k db h
and_then-Gives P Q (err e, k, db) f h then_gives = tt

anything : {A : Type 0} (m : Ran A) → Gives (λ a. Unit {0}) m
anything (ok a, k, db) = tt
anything (err e, k, db) = tt

module _ (service : TaskService) (run : String → ℕ → Db → Result Error (Option TaskRecord) × Db)
    (max_tasks : ℕ) where
  -- `dispatch_stages` without the slices that it takes of a batch and of the results.
  unfoldable pub pass_all : List String → Pass → ℕ → Db → Ran Pass
  pass_all [] p k db = (ok p, k, db)
  pass_all (stage ∷ stages) p k db =
      let remaining = max_tasks - length p.results in
      let batched =
        and_then
          (run_batch service run max_tasks stage (min (stage_limit service stage) remaining) k db)
          (λ batch k' db'.
            pass_all stages
              (record {
                results = p.results ++ batch;
                progressed = p.progressed || not (is_empty batch);
                full = false;
              })
              k' db') in
      if remaining == 0 then (ok (record p { full = true }), k, db) else batched

  unfoldable pub rounds_all : List String → ℕ → List TaskRecord → ℕ → Db → Ran (List TaskRecord)
  rounds_all stages zero results k db = (ok results, k, db)
  rounds_all stages (suc rounds) results k db =
      and_then
        (pass_all stages (record { results = results; progressed = false; full = false }) k db)
        (λ p k' db'.
          let again = rounds_all stages rounds p.results k' db' in
          if p.full
          then (ok p.results, k', db')
          else if not p.progressed
          then (ok p.results, k', db')
          else again)

  run_batch-length :
      (stage : String) (count k : ℕ) (db : Db)
      → Gives (λ batch. length batch ≤ count) (run_batch service run max_tasks stage count k db)
  unfolding run_batch
  run_batch-length stage zero k db = omega arith
  run_batch-length stage (suc count) k db =
      and_then-Gives (λ found. Unit {0}) (λ batch. length batch ≤ suc count)
        (numbered (k + 1) (run stage k db)) _ (anything (numbered (k + 1) (run stage k db)))
        (λ found k' db' u.
          and_then-Gives (λ batch. length batch ≤ count) (λ batch. length batch ≤ suc count)
            (run_batch service run max_tasks stage count k' db') _
            (run_batch-length stage count k' db')
            (λ rest k'' db'' fits. length-append_found found rest count fits))

  -- The results behind a batch.
  fits_behind :
      (results batch : List TaskRecord) (limit : ℕ)
      → length batch ≤ min limit (max_tasks - length results)
      → length results ≤ max_tasks
      → length (results ++ batch) ≤ max_tasks
  fits_behind results batch limit h fits = omega (arith, length-append results batch, h, fits)

  run_pass-pass_all :
      (stages : List String) (p : Pass) (k : ℕ) (db : Db)
      → length p.results ≤ max_tasks
      → run_pass service run max_tasks stages p k db ≡ pass_all stages p k db
  unfolding run_pass pass_all
  run_pass-pass_all [] p k db fits = refl
  run_pass-pass_all (stage ∷ stages) p k db fits =
      let remaining = max_tasks - length p.results in
      let count = min (stage_limit service stage) remaining in
      elim (Bool-cases (max_tasks - length p.results == 0)) [
        | inl e ↦ rw (run_pass, pass_all, e) refl
        | inr e ↦
            rw (run_pass, pass_all, e)
              (and_then-same (λ batch. length batch ≤ count)
                (run_batch service run max_tasks stage count k db) _ _
                (run_batch-length stage count k db)
                (λ batch k' db' h.
                  let whole = take_all remaining batch (omega (arith, h)) in
                  rw whole (
                    run_pass-pass_all stages _ k' db'
                      (fits_behind p.results batch (stage_limit service stage) h fits))))
      ]

  pass_all-length :
      (stages : List String) (p : Pass) (k : ℕ) (db : Db)
      → length p.results ≤ max_tasks
      → Gives (λ (p' : Pass). length p'.results ≤ max_tasks) (pass_all stages p k db)
  unfolding pass_all
  pass_all-length [] p k db fits = fits
  pass_all-length (stage ∷ stages) p k db fits =
      let count = min (stage_limit service stage) (max_tasks - length p.results) in
      elim (Bool-cases (max_tasks - length p.results == 0)) [
        | inl e ↦ rw (pass_all, e) fits
        | inr e ↦
            rw (pass_all, e)
              (and_then-Gives (λ batch. length batch ≤ count)
                (λ (p' : Pass). length p'.results ≤ max_tasks)
                (run_batch service run max_tasks stage count k db) _
                (run_batch-length stage count k db)
                (λ batch k' db' h.
                  pass_all-length stages _ k' db'
                    (fits_behind p.results batch (stage_limit service stage) h fits)))
      ]

  run_rounds-rounds_all :
      (stages : List String) (rounds : ℕ) (results : List TaskRecord) (k : ℕ) (db : Db)
      → length results ≤ max_tasks
      → run_rounds service run max_tasks stages rounds results k db
        ≡ rounds_all stages rounds results k db
  unfolding run_rounds rounds_all
  run_rounds-rounds_all stages zero results k db fits = rw (take_all max_tasks results fits) refl
  run_rounds-rounds_all stages (suc rounds) results k db fits =
      rw
        (run_pass-pass_all stages (record { results = results; progressed = false; full = false }) k
          db fits)
        (and_then-same (λ (p : Pass). length p.results ≤ max_tasks)
          (pass_all stages (record { results = results; progressed = false; full = false }) k db) _
          _
          (pass_all-length stages (record { results = results; progressed = false; full = false }) k
            db fits)
          (λ p k' db' h.
            rw
              (
                take_all max_tasks p.results h,
                run_rounds-rounds_all stages rounds p.results k' db' h,
              )
              refl))

  rounds_all-length :
      (stages : List String) (rounds : ℕ) (results : List TaskRecord) (k : ℕ) (db : Db)
      → length results ≤ max_tasks
      → Gives
          (λ (l : List TaskRecord). length l ≤ max_tasks)
          (rounds_all stages rounds results k db)
  unfolding rounds_all
  rounds_all-length stages zero results k db fits = fits
  rounds_all-length stages (suc rounds) results k db fits =
      and_then-Gives (λ (p : Pass). length p.results ≤ max_tasks)
        (λ (l : List TaskRecord). length l ≤ max_tasks)
        (pass_all stages (record { results = results; progressed = false; full = false }) k db) _
        (pass_all-length stages (record { results = results; progressed = false; full = false }) k
          db fits)
        (λ p k' db' h. elim (Bool-cases p.full) [
          | inl e ↦ rw e h
          | inr e ↦ elim (Bool-cases p.progressed) [
            | inl f ↦ rw (e, f) (rounds_all-length stages rounds p.results k' db' h)
            | inr f ↦ rw (e, f) h
          ]
        ])

if_checked-same :
    {A : Type 0} (c : Result Error (Unit {0})) (m n : Ran A) (k : ℕ) (db : Db)
    → m ≡ n
    → if_checked c m k db ≡ if_checked c n k db
if_checked-same c m n k db h = ap (λ x. if_checked c x k db) h

if_checked-Gives :
    {A : Type 0} (P : A → Type 0) (c : Result Error (Unit {0})) (m : Ran A) (k : ℕ) (db : Db)
    → Gives P m
    → Gives P (if_checked c m k db)
if_checked-Gives P (ok u) m k db h = h
if_checked-Gives P (err e) m k db h = tt

-- A dispatch gives at most `max_tasks` tasks, and the slices that the code takes, of a batch by the
-- tasks that remain and of the results by `max_tasks`, drop none of the tasks that it ran: without them it is
-- the same computation, with the same results, the same calls of `run_one` and the same database.
pub dispatch_stages-rounds_all :
    (describe : Error → String) (service : TaskService) (calls : Calls) (stages : List String)
    (max_batches max_tasks : ℕ) (db : Db)
    → (dispatch_stages describe service calls stages max_batches max_tasks db
        ≡ if_checked
            (check_dispatch stages max_batches max_tasks)
            (rounds_all service
              (λ stage k d.
                run_one describe service stage
                  (calls.claimed_at k)
                  (calls.done_at k)
                  (calls.failed_at k)
                  (calls.meanwhile k)
                  d)
              max_tasks
              stages
              max_batches
              []
              0
              db)
            0
            db)
      × Gives
          (λ (l : List TaskRecord). length l ≤ max_tasks)
          (dispatch_stages describe service calls stages max_batches max_tasks db)
unfolding dispatch_stages
dispatch_stages-rounds_all describe service calls stages max_batches max_tasks db =
    let run = λ (stage : String) (k : ℕ) (d : Db).
      run_one describe service stage (calls.claimed_at k) (calls.done_at k) (calls.failed_at k)
        (calls.meanwhile k) d in
    let same =
      if_checked-same (check_dispatch stages max_batches max_tasks) _ _ 0 db
        (run_rounds-rounds_all service run max_tasks stages max_batches [] 0 db (omega arith)) in
    (
      same,
      rw same (
          if_checked-Gives _ (check_dispatch stages max_batches max_tasks) _ 0 db
            (rounds_all-length service run max_tasks stages max_batches [] 0 db (omega arith))),
    )
