-- ===== src/Commands/Model.antt =====
-- The commands (backend/career_harness/core/commands.py) and the tables that a commit writes
-- (db/models.py). The issue time of a command, which the code leaves out of the request's hash, is
-- left out.
use career_agent_harness.Base.{ℕ, String, Bool, false, ◌||◌, List, Option, str_eq}
use career_agent_harness.Base.Result.{Result}
use career_agent_harness.Base.Table.{Table}
use career_agent_harness.Base.Json.{Json, Fields, end, field}
use career_agent_harness.Today.Refs.{EntityKind}

pub record EntityRef : Type 0 where
  pub entity_id : String
  pub kind : EntityKind

pub record Command : Type 0 where
  pub command_id : String
  pub command_type : String
  pub target : EntityRef
  pub expected_revision : ℕ
  pub idempotency_key : String
  pub actor : String
  pub payload : Fields

pub record EntityStateRow : Type 0 where
  pub entity_kind : String
  pub revision : ℕ
  pub schema_version : ℕ
  pub state : Fields
  pub updated_at : ℕ

pub record EntityRevisionRow : Type 0 where
  pub revision_id : String
  pub entity_id : String
  pub revision : ℕ
  pub schema_version : ℕ
  pub state : Fields
  pub created_at : ℕ
  pub created_by : String

pub record DomainEventRow : Type 0 where
  pub event_id : String
  pub event_type : String
  pub entity_id : String
  pub entity_revision : ℕ
  pub command_id : String
  pub payload : Fields
  pub occurred_at : ℕ

pub record OutboxMessageRow : Type 0 where
  pub message_id : String
  pub event_id : String
  pub destination : String
  pub entity_id : String
  pub revision : ℕ
  pub status : String
  pub attempt_count : ℕ
  pub created_at : ℕ

pub record CommandCommitResult : Type 0 where
  pub entity_id : String
  pub revision : ℕ
  pub revision_id : String
  pub event_id : String

pub record IdempotencyRecordRow : Type 0 where
  pub command_id : String
  pub request_hash : String
  pub response : CommandCommitResult
  pub created_at : ℕ

pub record CurrentState : Type 0 where
  pub entity : EntityRef
  pub revision : ℕ
  pub schema_version : ℕ
  pub state : Fields
  pub updated_at : ℕ

-- The database; `domain` holds the tables that the transactional writes stage their rows in. New
-- rows stand first, but in `entity_state` and `idempotency_record`, which are looked up by key.
pub record Db (D : Type 0) : Type 0 where
  pub entity_state : Table EntityStateRow
  pub entity_revision : List EntityRevisionRow
  pub domain_event : List DomainEventRow
  pub outbox_message : List OutboxMessageRow
  pub idempotency_record : Table IdempotencyRecordRow
  pub domain : D

pub data CommitError : Type 0 where
  value_error idempotency_conflict integrity_error write_error : CommitError
  -- expected, actual
  revision_conflict : ℕ → ℕ → CommitError

-- `TransactionalWrite`: what goes into the hash of the request, and the rows it stages for a revision
-- at a time, or its refusal.
pub record TransactionalWrite (D : Type 0) : Type 0 where
  pub idempotency_payload : Json
  pub stage : ℕ → ℕ → D → Result CommitError D

-- What `_request_hash` encodes.
pub record Request : Type 0 where
  pub command : Command
  pub next_state : Fields
  pub event_type : String
  pub event_payload : Fields
  pub outbox_destination : Option String
  pub transactional_write : Option Json

-- `key in fields`
unfoldable pub has_key : String → Fields → Bool
has_key k end = false
has_key k (field j v rest) = str_eq j k || has_key k rest
