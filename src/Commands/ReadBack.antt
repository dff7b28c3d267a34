-- ===== src/Commands/ReadBack.antt =====
-- Reading an entity back (backend/career_harness/services/command_service.py, `get`).
use career_agent_harness.Base.{ℕ, String, not, Option, none, some, str_eq, ◌≡◌, refl, ap}
use career_agent_harness.Base.Result.{ok, ◌>>◌, raise_if}
use career_agent_harness.Base.Table.{lookup}
use career_agent_harness.Base.Json.{Fields}
use career_agent_harness.Today.Refs.{EntityKind, kind_value}
use career_agent_harness.Commands.Model.{
  EntityRef, EntityStateRow, CommandCommitResult, Db, value_error, Request,
}
use career_agent_harness.Commands.Commit.{Fresh, Commit, commit, get_current, next_row}
use career_agent_harness.Commands.Machine.{Outcome, commit-Outcome}
use career_agent_harness.Commands.Append.{target-lookup}

-- The kind and the schema version that an entity keeps, or those of a new one.
abbrev pub kept_kind : Option EntityStateRow → EntityKind → String
kept_kind none kind = kind_value kind
kept_kind (some row) kind = row.entity_kind

abbrev pub kept_schema : Option EntityStateRow → ℕ
kept_schema none = 1
kept_schema (some row) = row.schema_version

module _ {D : Type 0} where
  get_current_found :
      (entity : EntityRef) (before : Option EntityStateRow) (n : ℕ) (state : Fields) (now : ℕ)
      (db : Db D)
      → lookup entity.entity_id db.entity_state ≡ some (next_row before entity.kind n state now)
      → get_current entity db ≡ (
          raise_if
            (not (str_eq (kept_kind before entity.kind) (kind_value entity.kind)))
            value_error
          >> ok (
              some (record {
                entity = entity;
                revision = n;
                schema_version = kept_schema before;
                state = state;
                updated_at = now;
              })))
  unfolding get_current next_row
  get_current_found entity none n state now db h = rw (get_current, h) refl
  get_current_found entity (some row) n state now db h = rw (get_current, h) refl

  -- After a commit of a new key the entity is read back with the state, the revision and the time
  -- of the commit, unless it was first stored with another kind, which `commit` passes over and
  -- `get` refuses.
  pub get_current-commit :
      (digest : Request → String) (c : Commit D) (fresh : Fresh) (now : ℕ) (db db' : Db D)
      (r : CommandCommitResult)
      → lookup c.command.idempotency_key db.idempotency_record ≡ none
      → commit digest c fresh now db ≡ (ok r, db')
      → get_current c.command.target db' ≡ (
          raise_if
            (not (
              str_eq
                (kept_kind
                  (lookup c.command.target.entity_id db.entity_state)
                  c.command.target.kind)
                (kind_value c.command.target.kind)))
            value_error
          >> ok (
              some (record {
                entity = c.command.target;
                revision = r.revision;
                schema_version = kept_schema (lookup c.command.target.entity_id db.entity_state);
                state = c.next_state;
                updated_at = now;
              })))
  get_current-commit digest c fresh now db db' r free h =
      elim (commit-Outcome digest c fresh now db r db' h).1 [
        | Outcome.repeated existing e hash answer same ↦ absurd cc
        | Outcome.committed done ↦
            let found = get_current_found c.command.target _ _ _ now db' (target-lookup done) in
            let revision = ap (λ (x : CommandCommitResult). x.revision) done.answer in
            rw revision found
      ]
