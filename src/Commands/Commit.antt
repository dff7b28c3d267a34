-- ===== src/Commands/Commit.antt =====
-- `CommandService` of backend/career_harness/services/command_service.py. The digest of a request, the
-- identifiers that `uuid4` draws and the time are arguments.
use career_agent_harness.Base.{
  ℕ, ◌+◌, String, not, ◌||◌, ◌&&◌, ◌∷◌, Option, none, some, str_eq, ◌==◌, any, is_some,
  if◌then◌else◌,
}
use career_agent_harness.Base.Result.{Result, ok, err, ◌>>=◌, ◌>>◌, raise_if}
use career_agent_harness.Base.Table.{lookup, insert}
use career_agent_harness.Base.Json.{Json, Fields, field}
use career_agent_harness.Today.Refs.{EntityKind, kind_value}
use career_agent_harness.Commands.Model.{
  EntityRef, Command, EntityStateRow, EntityRevisionRow, DomainEventRow, OutboxMessageRow,
  CommandCommitResult, IdempotencyRecordRow, CurrentState, Db, CommitError, value_error,
  idempotency_conflict, integrity_error, revision_conflict, TransactionalWrite, Request, has_key,
}

-- `f"revision_{uuid4().hex}"`, `f"event_{…}"` and `f"outbox_{…}"`
pub record Fresh : Type 0 where
  pub revision_id : String
  pub event_id : String
  pub message_id : String

-- `require_expected_revision`
unfoldable pub require_expected_revision : ℕ → ℕ → Result CommitError (Unit {0})
require_expected_revision expected actual =
    raise_if (not (expected == actual)) (revision_conflict expected actual)

-- The row of `entity_state`, new or updated; the kind and the schema version of a row stay.
unfoldable pub next_row : Option EntityStateRow → EntityKind → ℕ → Fields → ℕ → EntityStateRow
next_row none kind revision state now = record {
  entity_kind = kind_value kind;
  revision = revision;
  schema_version = 1;
  state = state;
  updated_at = now;
}
next_row (some row) kind revision state now = record row {
  revision = revision;
  state = state;
  updated_at = now;
}

abbrev pub revision_of : Option EntityStateRow → ℕ
revision_of none = 0
revision_of (some row) = row.revision

abbrev pub result_of : Command → Fresh → ℕ → CommandCommitResult
result_of command fresh revision = record {
  entity_id = command.target.entity_id;
  revision = revision;
  revision_id = fresh.revision_id;
  event_id = fresh.event_id;
}

-- The arguments of `commit`.
pub record Commit (D : Type 0) : Type 0 where
  pub command : Command
  pub next_state : Fields
  pub event_type : String
  pub event_payload : Fields
  pub outbox_destination : Option String
  pub transactional_write : Option (TransactionalWrite D)

module _ {D : Type 0} where
  -- An inserted row against the keys of its table: `revision_id`, and `UNIQUE (entity_id, revision)`.
  unfoldable pub add_revision : EntityRevisionRow → Db D → Result CommitError (Db D)
  add_revision row db = do
    raise_if
        (any
          (λ (r : EntityRevisionRow).
            str_eq r.revision_id row.revision_id
            || (str_eq r.entity_id row.entity_id && r.revision == row.revision))
          db.entity_revision)
        integrity_error
    ok (record db { entity_revision = row ∷ db.entity_revision })

  unfoldable pub add_event : DomainEventRow → Db D → Result CommitError (Db D)
  add_event row db = do
    raise_if (any (λ (e : DomainEventRow). str_eq e.event_id row.event_id) db.domain_event)
        integrity_error
    ok (record db { domain_event = row ∷ db.domain_event })

  unfoldable pub add_message : OutboxMessageRow → Db D → Result CommitError (Db D)
  add_message row db = do
    raise_if (any (λ (m : OutboxMessageRow). str_eq m.message_id row.message_id) db.outbox_message)
        integrity_error
    ok (record db { outbox_message = row ∷ db.outbox_message })

  -- Its keys are the idempotency key and the command.
  unfoldable pub add_record : String → IdempotencyRecordRow → Db D → Result CommitError (Db D)
  add_record key row db = do
    raise_if
        (is_some (lookup key db.idempotency_record)
          || any
              (λ (entry : String × IdempotencyRecordRow). str_eq entry.1.command_id row.command_id)
              db.idempotency_record)
        integrity_error
    ok (record db { idempotency_record = insert key row db.idempotency_record })

  unfoldable pub stage_write :
      Option (TransactionalWrite D) → ℕ → ℕ → Db D → Result CommitError (Db D)
  stage_write none revision now db = ok db
  stage_write (some write) revision now db = do
    domain ← write.stage revision now db.domain
    ok (record db { domain = domain })

  -- `if outbox_destination:`; an empty text counts as none.
  unfoldable pub send :
      Option String → String → String → String → ℕ → ℕ → Db D → Result CommitError (Db D)
  send none message_id event_id entity_id revision now db = ok db
  send (some destination) message_id event_id entity_id revision now db =
      if str_eq destination ""
      then ok db
      else add_message
          (record {
            message_id = message_id;
            event_id = event_id;
            destination = destination;
            entity_id = entity_id;
            revision = revision;
            status = "pending";
            attempt_count = 0;
            created_at = now;
          })
          db

  abbrev pub write_payload : Option (TransactionalWrite D) → Option Json
  write_payload none = none
  write_payload (some write) = some write.idempotency_payload

  abbrev pub request_of : Commit D → Request
  request_of c = record {
    command = c.command;
    next_state = c.next_state;
    event_type = c.event_type;
    event_payload = c.event_payload;
    outbox_destination = c.outbox_destination;
    transactional_write = write_payload c.transactional_write;
  }

  -- `_commit_in_session` behind the look-up of the idempotency key.
  unfoldable pub commit_new :
      (Request → String)
      → Commit D
      → Fresh
      → ℕ
      → Db D
      → Result CommitError (CommandCommitResult × Db D)
  commit_new digest c fresh now db =
      let target = c.command.target in
      let current = lookup target.entity_id db.entity_state in
      let revision = revision_of current + 1 in
      do
        require_expected_revision c.command.expected_revision (revision_of current)
        with_revision ←
            add_revision
              (record {
                revision_id = fresh.revision_id;
                entity_id = target.entity_id;
                revision = revision;
                schema_version = 1;
                state = c.next_state;
                created_at = now;
                created_by = c.command.actor;
              })
              (record db {
                entity_state =
                    insert target.entity_id (next_row current target.kind revision c.next_state now)
                      db.entity_state;
              })
        with_event ←
            add_event
              (record {
                event_id = fresh.event_id;
                event_type = c.event_type;
                entity_id = target.entity_id;
                entity_revision = revision;
                command_id = c.command.command_id;
                payload = field "revision_id" (Json.text fresh.revision_id) c.event_payload;
                occurred_at = now;
              })
              with_revision
        staged ← stage_write c.transactional_write revision now with_event
        sent ←
            send c.outbox_destination fresh.message_id fresh.event_id target.entity_id revision now
              staged
        done ←
            add_record c.command.idempotency_key
              (record {
                command_id = c.command.command_id;
                request_hash = digest (request_of c);
                response = result_of c.command fresh revision;
                created_at = now;
              })
              sent
        ok (result_of c.command fresh revision, done)

  -- `_commit_in_session`
  unfoldable pub commit_in_session :
      (Request → String)
      → Commit D
      → Fresh
      → ℕ
      → Db D
      → Result CommitError (CommandCommitResult × Db D)
  commit_in_session digest c fresh now db = do
    raise_if (has_key "revision_id" c.event_payload) value_error
    elim (lookup c.command.idempotency_key db.idempotency_record) [
      | some existing ↦
          raise_if (not (str_eq existing.request_hash (digest (request_of c)))) idempotency_conflict
          >> ok (existing.response, db)
      | none ↦ commit_new digest c fresh now db
    ]

  abbrev pub committed_or_rolled_back :
      Result CommitError (CommandCommitResult × Db D)
      → Db D
      → Result CommitError CommandCommitResult × Db D
  committed_or_rolled_back (ok (r, db')) db = (ok r, db')
  committed_or_rolled_back (err e) db = (err e, db)

  -- `commit` with a session of its own, which an exception rolls back.
  unfoldable pub commit :
      (Request → String)
      → Commit D
      → Fresh
      → ℕ
      → Db D
      → Result CommitError CommandCommitResult × Db D
  commit digest c fresh now db =
      committed_or_rolled_back (commit_in_session digest c fresh now db) db

  -- `CommandService.get`
  unfoldable pub get_current : EntityRef → Db D → Result CommitError (Option CurrentState)
  get_current entity db = elim (lookup entity.entity_id db.entity_state) [
    | none ↦ ok none
    | some row ↦
        raise_if (not (str_eq row.entity_kind (kind_value entity.kind))) value_error
        >> ok (
            some (record {
              entity = entity;
              revision = row.revision;
              schema_version = row.schema_version;
              state = row.state;
              updated_at = row.updated_at;
            }))
  ]
