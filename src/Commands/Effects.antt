-- ===== src/Commands/Effects.antt =====
-- What a commit writes (backend/career_harness/services/command_service.py, `_commit_in_session`).
use career_agent_harness.Base.{
  ℕ, ◌+◌, String, ◌||◌, ◌&&◌, List, ◌∷◌, Option, none, some, str_eq, ◌==◌, any, is_some, ◌≡◌, sym,
  ◌∙◌, ap, inl, inr, arith, Bool-cases,
}
use career_agent_harness.Base.Result.{ok, steps_of_ok, after_raise, ok_injective}
use career_agent_harness.Base.Table.{lookup, insert}
use career_agent_harness.Base.Json.{field}
use career_agent_harness.Base.Json.{Json}
use career_agent_harness.Commands.Model.{
  EntityRevisionRow, DomainEventRow, OutboxMessageRow, CommandCommitResult, IdempotencyRecordRow,
  Db, TransactionalWrite, Request,
}
use career_agent_harness.Commands.Commit.{
  Fresh, require_expected_revision, add_revision, add_event, add_message, add_record, next_row,
  revision_of, stage_write, send, result_of, Commit, request_of, commit_new,
}

-- The rows that a commit of `c` writes at a revision.
abbrev pub revision_row : {D : Type 0} → Commit D → Fresh → ℕ → ℕ → EntityRevisionRow
revision_row c fresh now revision = record {
  revision_id = fresh.revision_id;
  entity_id = c.command.target.entity_id;
  revision = revision;
  schema_version = 1;
  state = c.next_state;
  created_at = now;
  created_by = c.command.actor;
}

abbrev pub event_row : {D : Type 0} → Commit D → Fresh → ℕ → ℕ → DomainEventRow
event_row c fresh now revision = record {
  event_id = fresh.event_id;
  event_type = c.event_type;
  entity_id = c.command.target.entity_id;
  entity_revision = revision;
  command_id = c.command.command_id;
  payload = field "revision_id" (Json.text fresh.revision_id) c.event_payload;
  occurred_at = now;
}

abbrev pub record_row :
    {D : Type 0} → (Request → String) → Commit D → Fresh → ℕ → ℕ → IdempotencyRecordRow
record_row digest c fresh now revision = record {
  command_id = c.command.command_id;
  request_hash = digest (request_of c);
  response = result_of c.command fresh revision;
  created_at = now;
}

expected_ok :
    (expected actual : ℕ) (u : Unit {0})
    → require_expected_revision expected actual ≡ ok u
    → expected ≡ actual
unfolding require_expected_revision
expected_ok expected actual u h = ground arith

module _ {D : Type 0} where
  -- The revision of an entity, 0 where there is none.
  abbrev pub current_revision : String → Db D → ℕ
  current_revision id db = revision_of (lookup id db.entity_state)

  -- A commit that was not a repetition.
  pub record Committed (digest : Request → String) (c : Commit D) (fresh : Fresh) (now : ℕ)
      (db : Db D) (r : CommandCommitResult) (db' : Db D) : Type 0 where
    pub expected : c.command.expected_revision ≡ current_revision c.command.target.entity_id db
    pub unused : lookup c.command.idempotency_key db.idempotency_record ≡ none
    pub answer : r ≡ result_of c.command fresh (current_revision c.command.target.entity_id db + 1)
    pub state :
        db'.entity_state
        ≡ insert c.command.target.entity_id
            (next_row
              (lookup c.command.target.entity_id db.entity_state)
              c.command.target.kind
              (current_revision c.command.target.entity_id db + 1)
              c.next_state
              now)
            db.entity_state
    pub revisions :
        db'.entity_revision
        ≡ revision_row c fresh now (current_revision c.command.target.entity_id db + 1)
          ∷ db.entity_revision
    pub records :
        db'.idempotency_record
        ≡ insert c.command.idempotency_key
            (record_row digest c fresh now (current_revision c.command.target.entity_id db + 1))
            db.idempotency_record

  add_revision_ok :
      (row : EntityRevisionRow) (db db' : Db D)
      → add_revision row db ≡ ok db'
      → db' ≡ record db { entity_revision = row ∷ db.entity_revision }
  unfolding add_revision
  add_revision_ok row db db' h =
      let (_, done) =
        after_raise
          (any
            (λ (r : EntityRevisionRow).
              str_eq r.revision_id row.revision_id
              || (str_eq r.entity_id row.entity_id && r.revision == row.revision))
            db.entity_revision)
          _ _ db' h in
      sym (ok_injective done)

  add_event_ok :
      (row : DomainEventRow) (db db' : Db D)
      → add_event row db ≡ ok db'
      → db' ≡ record db { domain_event = row ∷ db.domain_event }
  unfolding add_event
  add_event_ok row db db' h =
      let (_, done) =
        after_raise (any (λ (e : DomainEventRow). str_eq e.event_id row.event_id) db.domain_event) _
          _ db' h in
      sym (ok_injective done)

  stage_write_ok :
      (write : Option (TransactionalWrite D)) (revision now : ℕ) (db db' : Db D)
      → stage_write write revision now db ≡ ok db'
      → (d : D) × (db' ≡ record db { domain = d })
  unfolding stage_write
  stage_write_ok none revision now db db' h = (db.domain, sym (ok_injective h))
  stage_write_ok (some write) revision now db db' h =
      let (d, _, done) = steps_of_ok (write.stage revision now db.domain) _ db' h in
      (d, sym (ok_injective done))

  add_message_ok :
      (row : OutboxMessageRow) (db db' : Db D)
      → add_message row db ≡ ok db'
      → db' ≡ record db { outbox_message = row ∷ db.outbox_message }
  unfolding add_message
  add_message_ok row db db' h =
      let (_, done) =
        after_raise
          (any (λ (m : OutboxMessageRow). str_eq m.message_id row.message_id) db.outbox_message) _ _
          db' h in
      sym (ok_injective done)

  send_ok :
      (destination : Option String) (message_id event_id entity_id : String) (revision now : ℕ)
      (db db' : Db D)
      → send destination message_id event_id entity_id revision now db ≡ ok db'
      → (l : List OutboxMessageRow) × (db' ≡ record db { outbox_message = l })
  unfolding send
  send_ok none message_id event_id entity_id revision now db db' h =
      (db.outbox_message, sym (ok_injective h))
  send_ok (some destination) message_id event_id entity_id revision now db db' h =
      elim (Bool-cases (str_eq destination "")) [
        | inl e ↦ (db.outbox_message, sym (ok_injective (rw (e) at h)))
        | inr e ↦ (_, add_message_ok _ db db' (rw (e) at h))
      ]

  add_record_ok :
      (key : String) (row : IdempotencyRecordRow) (db db' : Db D)
      → add_record key row db ≡ ok db'
      → (lookup key db.idempotency_record ≡ none)
        × (db' ≡ record db { idempotency_record = insert key row db.idempotency_record })
  unfolding add_record
  add_record_ok key row db db' h =
      let (free, done) =
        after_raise
          (is_some (lookup key db.idempotency_record)
            || any
                (λ (entry : String × IdempotencyRecordRow).
                  str_eq entry.1.command_id row.command_id)
                db.idempotency_record)
          _ _ db' h in
      (ground (arith, free), sym (ok_injective done))

  -- The five writes behind that of the state, one after the other.
  written :
      {base one two three four five : Db D} (row : EntityRevisionRow) (event : DomainEventRow)
      (d : D) (l : List OutboxMessageRow) (key : String) (rec : IdempotencyRecordRow)
      → one ≡ record base { entity_revision = row ∷ base.entity_revision }
      → two ≡ record one { domain_event = event ∷ one.domain_event }
      → three ≡ record two { domain = d }
      → four ≡ record three { outbox_message = l }
      → lookup key four.idempotency_record ≡ none
      → five ≡ record four { idempotency_record = insert key rec four.idempotency_record }
      → (lookup key base.idempotency_record ≡ none)
        × (five.entity_state ≡ base.entity_state)
        × (five.entity_revision ≡ row ∷ base.entity_revision)
        × (five.idempotency_record ≡ insert key rec base.idempotency_record)
  written {base} row event d l key rec e1 e2 e3 e4 free e5 =
      let states = λ (x : Db D). x.entity_state in
      let revisions = λ (x : Db D). x.entity_revision in
      let records = λ (x : Db D). x.idempotency_record in
      let kept = ap records e4 ∙ ap records e3 ∙ ap records e2 ∙ ap records e1 in
      (
        sym (ap (lookup key) kept) ∙ free,
        ap states e5 ∙ ap states e4 ∙ ap states e3 ∙ ap states e2 ∙ ap states e1,
        ap revisions e5 ∙ ap revisions e4 ∙ ap revisions e3 ∙ ap revisions e2 ∙ ap revisions e1,
        ap records e5 ∙ ap (insert key rec) kept,
      )

  pub commit_new_ok :
      (digest : Request → String) (c : Commit D) (fresh : Fresh) (now : ℕ) (db : Db D)
      (r : CommandCommitResult) (db' : Db D)
      → commit_new digest c fresh now db ≡ ok (r, db')
      → Committed digest c fresh now db r db'
  unfolding commit_new
  commit_new_ok digest c fresh now db r db' h =
      let (u, expected, h0) = steps_of_ok (require_expected_revision _ _) _ (r, db') h in
      let (one, revision, h1) = steps_of_ok (add_revision _ _) _ (r, db') h0 in
      let (two, event, h2) = steps_of_ok (add_event _ one) _ (r, db') h1 in
      let (three, staged, h3) = steps_of_ok (stage_write _ _ _ two) _ (r, db') h2 in
      let (four, sent, h4) = steps_of_ok (send _ _ _ _ _ _ three) _ (r, db') h3 in
      let (five, recorded, h5) = steps_of_ok (add_record _ _ four) _ (r, db') h4 in
      let now_at = current_revision c.command.target.entity_id db + 1 in
      let (d, e3) = stage_write_ok c.transactional_write now_at now two three staged in
      let (l, e4) = send_ok c.outbox_destination _ _ _ now_at now three four sent in
      let rec = record_row digest c fresh now now_at in
      let (free, e5) = add_record_ok c.command.idempotency_key rec four five recorded in
      let row = revision_row c fresh now now_at in
      let (unused, states, revisions, records) =
        written row (event_row c fresh now now_at) d l c.command.idempotency_key rec
          (add_revision_ok row _ one revision) (add_event_ok _ one two event) e3 e4 free e5 in
      let done = ok_injective h5 in
      record {
        expected = expected_ok _ _ u expected;
        unused = unused;
        answer = sym (ap (λ p. p.0) done);
        state = sym (ap (λ (p : CommandCommitResult × Db D). p.1.entity_state) done) ∙ states;
        revisions =
            sym (ap (λ (p : CommandCommitResult × Db D). p.1.entity_revision) done) ∙ revisions;
        records =
            sym (ap (λ (p : CommandCommitResult × Db D). p.1.idempotency_record) done) ∙ records;
      }
