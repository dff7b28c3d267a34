-- ===== src/Commands/Machine.antt =====
-- The commits of all callers as one step relation, and the log of states that each entity has
-- (backend/career_harness/services/command_service.py).
use career_agent_harness.Base.{
  ℕ, ◌-◌, ◌≤◌, String, true, false, not, List, [], ◌∷◌, Option, none, some, map, str_eq, length,
  ◌≡◌, sym, ap, inl, inr, arith, Option-cases,
}
use career_agent_harness.Base.Result.{ok, after_raise, ok_injective}
use career_agent_harness.Base.Table.{lookup}
use career_agent_harness.Base.Json.{Fields}
use career_agent_harness.Base.Keys.{keep}
use career_agent_harness.Commands.Model.{
  EntityStateRow, EntityRevisionRow, CommandCommitResult, IdempotencyRecordRow, Db, Request,
  has_key,
}
use career_agent_harness.Commands.Commit.{Fresh, Commit, request_of, commit_in_session, commit}
use career_agent_harness.Commands.Effects.{current_revision, Committed, commit_new_ok}

module _ {D : Type 0} (digest : Request → String) where
  pub data Step (db db' : Db D) : Type 0 where
    commits :
        (c : Commit D) (fresh : Fresh) (now : ℕ) (r : CommandCommitResult)
        → commit digest c fresh now db ≡ (ok r, db')
        → Step db db'

  pub data Reach (db : Db D) : Db D → Type 0 where
    here : Reach db db
    next : {mid db' : Db D} → Reach db mid → Step mid db' → Reach db db'

  -- A commit that succeeds is a repetition or a new one.
  pub data Outcome (c : Commit D) (fresh : Fresh) (now : ℕ) (db : Db D) (r : CommandCommitResult)
      (db' : Db D) : Type 0 where
    repeated :
        (existing : IdempotencyRecordRow)
        → lookup c.command.idempotency_key db.idempotency_record ≡ some existing
        → str_eq existing.request_hash (digest (request_of c)) ≡ true
        → r ≡ existing.response
        → db' ≡ db
        → Outcome c fresh now db r db'
    committed : Committed digest c fresh now db r db' → Outcome c fresh now db r db'

  session_ok :
      (c : Commit D) (fresh : Fresh) (now : ℕ) (db : Db D) (r : CommandCommitResult) (db' : Db D)
      → commit digest c fresh now db ≡ (ok r, db')
      → commit_in_session digest c fresh now db ≡ ok (r, db')
  unfolding commit
  session_ok c fresh now db r db' h = ground arith

  pub commit-Outcome :
      (c : Commit D) (fresh : Fresh) (now : ℕ) (db : Db D) (r : CommandCommitResult) (db' : Db D)
      → commit digest c fresh now db ≡ (ok r, db')
      → (has_key "revision_id" c.event_payload ≡ false) × Outcome c fresh now db r db'
  unfolding commit_in_session
  commit-Outcome c fresh now db r db' h =
      let (plain, rest) =
        after_raise (has_key "revision_id" c.event_payload) _ _ (r, db')
          (session_ok c fresh now db r db' h) in
      (
        plain,
        elim (Option-cases (lookup c.command.idempotency_key db.idempotency_record)) [
          | inl e ↦ Outcome.committed (commit_new_ok digest c fresh now db r db' (rw e at rest))
          | inr (existing, e) ↦
              let (same, done) =
                after_raise (not (str_eq existing.request_hash (digest (request_of c)))) _ _
                  (r, db') (rw e at rest) in
              let both = ok_injective done in
              Outcome.repeated existing e (ground (arith, same)) (sym (ap (λ p. p.0) both))
                (sym (ap (λ (p : CommandCommitResult × Db D). p.1) both))
        ],
      )

module _ {D : Type 0} where
  -- The revisions of an entity, the newest first, and the states in them.
  abbrev pub revisions_of : String → Db D → List EntityRevisionRow
  revisions_of id db = keep (λ (r : EntityRevisionRow). str_eq r.entity_id id) db.entity_revision

  abbrev pub log : String → Db D → List Fields
  log id db = map (λ (r : EntityRevisionRow). r.state) (revisions_of id db)

-- The rows are numbered n, n - 1, …, 1.
abbrev pub IsNumbered : ℕ → List EntityRevisionRow → Type 0
IsNumbered n [] = n ≡ 0
IsNumbered n (r ∷ rs) = (r.revision ≡ n) × (1 ≤ n) × IsNumbered (n - 1) rs

abbrev pub newest : List EntityRevisionRow → Option Fields
newest [] = none
newest (r ∷ rs) = some r.state

abbrev pub stored_state : Option EntityStateRow → Option Fields
stored_state none = none
stored_state (some row) = some row.state

-- The revisions of every entity are numbered from 1 to its current one, without a gap, and the state
-- of the current one is that of the entity.
pub record Logged {D : Type 0} (db : Db D) : Type 0 where
  pub numbered : (id : String) → IsNumbered (current_revision id db) (revisions_of id db)
  pub current :
      (id : String) → stored_state (lookup id db.entity_state) ≡ newest (revisions_of id db)

pub length-IsNumbered : (n : ℕ) (rs : List EntityRevisionRow) → IsNumbered n rs → length rs ≡ n
length-IsNumbered n [] h = ground (arith, h)
length-IsNumbered n (r ∷ rs) h = omega (arith, length-IsNumbered (n - 1) rs h.2, h.1)
