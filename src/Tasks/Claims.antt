-- ===== src/Tasks/Claims.antt =====
-- What `claim_next` takes, and when.
use career_agent_harness.Base.{
  ℕ, String, true, false, Option, none, some, ◌≡◌, ap, ◌⊎◌, inl, inr, arith, ◌+◌, Option-cases,
}
use career_agent_harness.Base.Table.{lookup, Distinct}
use career_agent_harness.Tasks.Model.{Row, Db, update_where}
use career_agent_harness.Tasks.Lease.{
  claim_tx, claim_selected, claim_row, first_ready, is_ready, is_before,
}
use career_agent_harness.Tasks.Writes.{Wrote}
use career_agent_harness.Tasks.Outcomes.{claim_ok}
use career_agent_harness.Tasks.Selection.{first_ready-IsReady, first_ready-none, first_ready-first}

-- Nothing of the stage is ready.
abbrev pub IsIdle : String → ℕ → Db → Type 0
IsIdle stage now db =
    (j : String) (s : Row) → lookup j db.rows ≡ some s → is_ready stage now s ≡ false

-- The task is ready, no ready task of the stage comes before it, and it is being worked on under its
-- next attempt.
pub record Claimed (stage : String) (now : ℕ) (db : Db) (out : Option (String × ℕ) × Db)
    : Type 0 where
  pub id : String
  pub row : Row
  pub found : lookup id db.rows ≡ some row
  pub ready : is_ready stage now row ≡ true
  pub first :
      (j : String) (s : Row)
      → lookup j db.rows ≡ some s
      → is_ready stage now s ≡ true
      → is_before row s ≡ true
  pub reply : out.0 ≡ some (id, row.current_attempt + 1)
  pub wrote : Wrote id (claim_row (row.current_attempt + 1) now row) none db out.1

claim_hit :
    (stage id : String) (r : Row) (now : ℕ) (db : Db)
    → lookup id db.rows ≡ some r
    → is_ready stage now r ≡ true
    → (claim_selected (id, r) now db).0 ≡ some (id, r.current_attempt + 1)
unfolding claim_selected update_where is_ready
claim_hit stage id r now db found ready = ground arith

-- `claim_next` leaves a queue of distinct tasks alone exactly where no task of the stage is ready;
-- otherwise it takes one that is ready and that no ready task of the stage comes before.
pub claim_tx_lem :
    (stage : String) (now : ℕ) (db : Db)
    → Distinct db.rows
    → (IsIdle stage now db × (claim_tx stage now db ≡ (none, db)))
      ⊎ Claimed stage now db (claim_tx stage now db)
claim_tx_lem stage now db d = elim (Option-cases (first_ready stage now db.rows)) [
  | inl e ↦ inl (
    λ j s found. first_ready-none stage now db.rows j s e found,
    unfold claim_tx in rw (e, claim_tx),
  )
  | inr ((id, r), e) ↦
      let at_row = first_ready-IsReady stage now db.rows id r d e in
      let hit = claim_hit stage id r now db at_row.0 at_row.1 in
      inr (record {
        id = id;
        row = r;
        found = at_row.0;
        ready = at_row.1;
        first = λ j s found ready. first_ready-first stage now db.rows id j r s e found ready;
        reply = unfold claim_tx in rw (e, claim_tx) hit;
        wrote =
            unfold claim_tx in
            rw (e, claim_tx)
              (claim_ok id now db r at_row.0 (r.current_attempt + 1) id
                (ap (λ o. (o, (claim_selected (id, r) now db).1)) hit)).3;
      })
]
