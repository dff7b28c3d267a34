-- ===== src/Commands/Refinement.antt =====
-- `commit` (backend/career_harness/services/command_service.py) implements a store of append-only logs,
-- one for each entity, in which a caller says how long it expects the log to be.
use career_agent_harness.Base.{
  ℕ, ◌+◌, String, false, List, [], ◌∷◌, none, some, map, str_eq, length, ◌≡◌, refl, sym, ◌∙◌, ap,
  arith,
}
use career_agent_harness.Base.Result.{ok}
use career_agent_harness.Base.Table.{lookup}
use career_agent_harness.Commands.Model.{
  EntityRevisionRow, CommandCommitResult, IdempotencyRecordRow, Db, Request,
}
use career_agent_harness.Commands.Commit.{Fresh, Commit, commit}
use career_agent_harness.Commands.Effects.{current_revision}
use career_agent_harness.Commands.Machine.{
  Step, Reach, Outcome, commit-Outcome, revisions_of, log, Logged, length-IsNumbered,
}
use career_agent_harness.Commands.Append.{others-revisions, target-revisions, Committed-Logged}

length-map :
    (rs : List EntityRevisionRow) → length (map (λ (r : EntityRevisionRow). r.state) rs) ≡ length rs
length-map [] = refl
length-map (r ∷ rs) = omega (arith, length-map rs)

module _ {D : Type 0} where
  -- One move of the store: nothing, or one state appended to the log of the target, which had the
  -- length that the caller expected.
  pub data Appended (c : Commit D) (db : Db D) (r : CommandCommitResult) (db' : Db D) : Type 0 where
    unchanged :
        (existing : IdempotencyRecordRow)
        → lookup c.command.idempotency_key db.idempotency_record ≡ some existing
        → r ≡ existing.response
        → db' ≡ db
        → Appended c db r db'
    appended :
        lookup c.command.idempotency_key db.idempotency_record ≡ none
        → length (log c.command.target.entity_id db) ≡ c.command.expected_revision
        → r.revision ≡ c.command.expected_revision + 1
        → log c.command.target.entity_id db' ≡ c.next_state ∷ log c.command.target.entity_id db
        → ((id : String) → str_eq c.command.target.entity_id id ≡ false → log id db' ≡ log id db)
        → Appended c db r db'

  pub length-log :
      (db : Db D) (id : String) → Logged db → length (log id db) ≡ current_revision id db
  length-log db id i =
      length-map (revisions_of id db)
      ∙ length-IsNumbered (current_revision id db) (revisions_of id db) (i.numbered id)

  module _ (digest : Request → String) where
    pub Step-Logged : {db db' : Db D} → Step digest db db' → Logged db → Logged db'
    Step-Logged {db} {db'} (Step.commits c fresh now r h) i =
        elim (commit-Outcome digest c fresh now db r db' h).1 [
          | Outcome.repeated existing found hash answer same ↦ rw same i
          | Outcome.committed done ↦ Committed-Logged done i
        ]

    -- Over every interleaving of commits the revisions of each entity stay numbered from 1 to its
    -- current one without a gap, and the state of the entity is that of its newest revision.
    pub Reach-Logged : {db db' : Db D} → Logged db → Reach digest db db' → Logged db'
    Reach-Logged i Reach.here = i
    Reach-Logged i (Reach.next before step) = Step-Logged step (Reach-Logged i before)

    -- Where the invariant holds, a commit that succeeds either repeats an earlier one, gives its
    -- answer and changes nothing, or appends its state to the log of its target, which had the
    -- expected length, and leaves every other log as it was.
    pub commit-Appended :
        (c : Commit D) (fresh : Fresh) (now : ℕ) (db : Db D) (r : CommandCommitResult) (db' : Db D)
        → Logged db
        → commit digest c fresh now db ≡ (ok r, db')
        → Appended c db r db'
    commit-Appended c fresh now db r db' i h =
        elim (commit-Outcome digest c fresh now db r db' h).1 [
          | Outcome.repeated existing found hash answer same ↦
              Appended.unchanged existing found answer same
          | Outcome.committed done ↦
              Appended.appended done.unused
                (length-log db c.command.target.entity_id i ∙ sym done.expected)
                (ap (λ (x : CommandCommitResult). x.revision) done.answer
                  ∙ ap (λ n. n + 1) (sym done.expected))
                (ap (map (λ (x : EntityRevisionRow). x.state)) (target-revisions done))
                (λ id ne.
                  ap (map (λ (x : EntityRevisionRow). x.state)) (others-revisions done id ne))
        ]
