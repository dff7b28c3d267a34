-- ===== src/Commands/Total.antt =====
-- A commit that nothing speaks against is done: the keys of the tables are not in its way
-- (backend/career_harness/services/command_service.py).
use career_agent_harness.Base.{ℕ, String, false, Option, none, some, str_eq, any, ◌≡◌}
use career_agent_harness.Base.Result.{ok}
use career_agent_harness.Commands.Model.{
  EntityRevisionRow, DomainEventRow, OutboxMessageRow, IdempotencyRecordRow, Db, TransactionalWrite,
}
use career_agent_harness.Commands.Commit.{Fresh, Commit}

module _ {D : Type 0} where
  -- No row of the tables has the fresh identifiers or the identifier of the command.
  pub record IsFresh (c : Commit D) (fresh : Fresh) (db : Db D) : Type 0 where
    pub revision :
        any (λ (r : EntityRevisionRow). str_eq r.revision_id fresh.revision_id) db.entity_revision
        ≡ false
    pub event :
        any (λ (e : DomainEventRow). str_eq e.event_id fresh.event_id) db.domain_event ≡ false
    pub message :
        any (λ (m : OutboxMessageRow). str_eq m.message_id fresh.message_id) db.outbox_message
        ≡ false
    pub command :
        any
          (λ (entry : String × IdempotencyRecordRow).
            str_eq entry.1.command_id c.command.command_id)
          db.idempotency_record
        ≡ false

  -- The transactional write, if any, stages its rows.
  abbrev pub Stages : Option (TransactionalWrite D) → ℕ → ℕ → D → Type 0
  Stages none revision now domain = Unit
  Stages (some write) revision now domain = (d : D) × (write.stage revision now domain ≡ ok d)
