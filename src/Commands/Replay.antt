-- ===== src/Commands/Replay.antt =====
-- Idempotency keys and expected revisions, however other commits come between
-- (backend/career_harness/services/command_service.py).
use career_agent_harness.Base.{
  ℕ, ◌+◌, ◌≤◌, ◌==◌, String, false, none, some, str_eq, eq_iff, ◌≡◌, refl, sym, ◌∙◌, ap, arith, inl,
  inr, Bool-cases, if◌then◌else◌,
}
use career_agent_harness.Base.Result.{ok, err}
use career_agent_harness.Base.Table.{lookup, insert, lookup-insert, lookup-insert_self}
use career_agent_harness.Commands.Model.{
  CommandCommitResult, IdempotencyRecordRow, Db, idempotency_conflict, revision_conflict, Request,
  has_key,
}
use career_agent_harness.Commands.Commit.{
  Fresh, Commit, commit, commit_in_session, commit_new, request_of, require_expected_revision,
}
use career_agent_harness.Commands.Effects.{current_revision, record_row}
use career_agent_harness.Commands.Machine.{Step, Reach, Outcome, commit-Outcome}
use career_agent_harness.Commands.Append.{others-lookup, Committed-current}

module _ {D : Type 0} where
  kept_record :
      (used key : String) (new rec : IdempotencyRecordRow) (db : Db D)
      → lookup used db.idempotency_record ≡ none
      → lookup key db.idempotency_record ≡ some rec
      → lookup key (insert used new db.idempotency_record) ≡ some rec
  kept_record used key new rec db free found =
      lookup-insert used key new db.idempotency_record ∙ elim (Bool-cases (str_eq used key)) [
        | inl e ↦ let same = (eq_iff used key).0 e in absurd cc
        | inr e ↦ rw e found
      ]

module _ {D : Type 0} (digest : Request → String) where
  Step-record :
      {db db' : Db D} (key : String) (rec : IdempotencyRecordRow)
      → Step digest db db'
      → lookup key db.idempotency_record ≡ some rec
      → lookup key db'.idempotency_record ≡ some rec
  Step-record {db} {db'} key rec (Step.commits c fresh now r h) found =
      elim (commit-Outcome digest c fresh now db r db' h).1 [
        | Outcome.repeated existing e hash answer same ↦ rw same found
        | Outcome.committed done ↦
            ap (lookup key) done.records
            ∙ kept_record c.command.idempotency_key key _ rec db done.unused found
      ]

  -- What is recorded under a key stays.
  Reach-record :
      {db db' : Db D} (key : String) (rec : IdempotencyRecordRow)
      → Reach digest db db'
      → lookup key db.idempotency_record ≡ some rec
      → lookup key db'.idempotency_record ≡ some rec
  Reach-record key rec Reach.here found = found
  Reach-record key rec (Reach.next before step) found =
      Step-record key rec step (Reach-record key rec before found)

  -- After a commit its key holds its digest and its answer.
  recorded :
      (c : Commit D) (fresh : Fresh) (now : ℕ) (db : Db D) (r : CommandCommitResult) (db' : Db D)
      → commit digest c fresh now db ≡ (ok r, db')
      → (has_key "revision_id" c.event_payload ≡ false)
        × ((rec : IdempotencyRecordRow) × (lookup c.command.idempotency_key db'.idempotency_record
              ≡ some rec)
            × (rec.request_hash ≡ digest (request_of c))
            × (r ≡ rec.response))
  recorded c fresh now db r db' h =
      let both = commit-Outcome digest c fresh now db r db' h in
      (
        both.0,
        elim both.1 [
          | Outcome.repeated existing e hash answer same ↦
              (existing, rw same e, (eq_iff _ _).0 hash, answer)
          | Outcome.committed done ↦ (
            record_row digest c fresh now (current_revision c.command.target.entity_id db + 1),
            ap (lookup c.command.idempotency_key) done.records
                ∙ lookup-insert_self _ _ db.idempotency_record,
            refl,
            done.answer,
          )
        ],
      )

  -- A commit under a key that is recorded.
  commit_known :
      (c : Commit D) (fresh : Fresh) (now : ℕ) (db : Db D) (rec : IdempotencyRecordRow)
      → has_key "revision_id" c.event_payload ≡ false
      → lookup c.command.idempotency_key db.idempotency_record ≡ some rec
      → commit digest c fresh now db ≡ (
        if str_eq rec.request_hash (digest (request_of c))
            then ok rec.response
            else err idempotency_conflict,
        db,
      )
  unfolding commit commit_in_session
  commit_known c fresh now db rec plain found =
      elim (Bool-cases (str_eq rec.request_hash (digest (request_of c)))) [
        | inl e ↦ rw (plain, found, e) refl
        | inr e ↦ rw (plain, found, e) refl
      ]

  -- Once a request is committed, the same request is answered with the same result and changes
  -- nothing, whatever other commits came between, at whatever time and with whatever fresh
  -- identifiers it is repeated.
  pub commit_again :
      (c again : Commit D) (fresh fresh' : Fresh) (now now' : ℕ) (db db' later : Db D)
      (r : CommandCommitResult)
      → commit digest c fresh now db ≡ (ok r, db')
      → Reach digest db' later
      → request_of again ≡ request_of c
      → commit digest again fresh' now' later ≡ (ok r, later)
  commit_again c again fresh fresh' now now' db db' later r h reach same =
      let (plain, after) = recorded c fresh now db r db' h in
      let (rec, found, hash, answer) = after in
      let hashes : rec.request_hash ≡ digest (request_of again) = hash ∙ ap digest (sym same) in
      let plain' = ap (λ (q : Request). has_key "revision_id" q.event_payload) same ∙ plain in
      let key' = ap (λ (q : Request). q.command.idempotency_key) same in
      let kept =
        ap (λ k. lookup k later.idempotency_record) key' ∙ Reach-record _ rec reach found in
      commit_known again fresh' now' later rec plain' kept
      ∙ rw ((eq_iff _ _).1 hashes) (ap (λ x. (ok x, later)) (sym answer))

  -- A key that was committed never serves a request with another digest: whatever came between, it
  -- is refused and changes nothing, where its event does not name a revision itself.
  pub commit_other :
      (c other : Commit D) (fresh fresh' : Fresh) (now now' : ℕ) (db db' later : Db D)
      (r : CommandCommitResult)
      → commit digest c fresh now db ≡ (ok r, db')
      → Reach digest db' later
      → other.command.idempotency_key ≡ c.command.idempotency_key
      → has_key "revision_id" other.event_payload ≡ false
      → str_eq (digest (request_of c)) (digest (request_of other)) ≡ false
      → commit digest other fresh' now' later ≡ (err idempotency_conflict, later)
  commit_other c other fresh fresh' now now' db db' later r h reach key plain differ =
      let (rec, found, hash, answer) = (recorded c fresh now db r db' h).1 in
      let differ' = ap (λ x. str_eq x (digest (request_of other))) hash ∙ differ in
      let kept = ap (λ k. lookup k later.idempotency_record) key ∙ Reach-record _ rec reach found in
      commit_known other fresh' now' later rec plain kept ∙ rw differ' refl

  Step-current :
      {db db' : Db D} (id : String)
      → Step digest db db'
      → current_revision id db ≤ current_revision id db'
  Step-current {db} {db'} id (Step.commits c fresh now r h) =
      elim (commit-Outcome digest c fresh now db r db' h).1 [
        | Outcome.repeated existing e hash answer same ↦ rw same (omega arith)
        | Outcome.committed done ↦ elim (Bool-cases (str_eq c.command.target.entity_id id)) [
          | inl e ↦
              let grown = Committed-current done in
              rw (← (eq_iff c.command.target.entity_id id).0 e) (omega (arith, grown))
          | inr e ↦ rw (others-lookup done id e) (omega arith)
        ]
      ]

  Reach-current :
      {db db' : Db D} (id : String)
      → Reach digest db db'
      → current_revision id db ≤ current_revision id db'
  Reach-current id Reach.here = omega arith
  Reach-current id (Reach.next before step) =
      omega (arith, Reach-current id before, Step-current id step)

  commit_stale :
      (c : Commit D) (fresh : Fresh) (now : ℕ) (db : Db D)
      → has_key "revision_id" c.event_payload ≡ false
      → lookup c.command.idempotency_key db.idempotency_record ≡ none
      → (c.command.expected_revision == current_revision c.command.target.entity_id db) ≡ false
      → commit digest c fresh now db ≡ (
        err (
            revision_conflict c.command.expected_revision
              (current_revision c.command.target.entity_id db)),
        db,
      )
  unfolding commit commit_in_session commit_new require_expected_revision
  commit_stale c fresh now db plain free differ = rw (plain, free, differ) refl

  -- No update is lost: once a commit has given an entity its next revision, a commit of another
  -- key that expects the revision before it, or an older one, is refused and changes nothing,
  -- whatever came between, where its event does not name a revision itself.
  pub commit_lost_update :
      (c late : Commit D) (fresh fresh' : Fresh) (now now' : ℕ) (db db' later : Db D)
      (r : CommandCommitResult)
      → lookup c.command.idempotency_key db.idempotency_record ≡ none
      → commit digest c fresh now db ≡ (ok r, db')
      → Reach digest db' later
      → late.command.target.entity_id ≡ c.command.target.entity_id
      → late.command.expected_revision ≤ c.command.expected_revision
      → has_key "revision_id" late.event_payload ≡ false
      → lookup late.command.idempotency_key later.idempotency_record ≡ none
      → commit digest late fresh' now' later ≡ (
        err (
            revision_conflict late.command.expected_revision
              (current_revision late.command.target.entity_id later)),
        later,
      )
  commit_lost_update c late fresh fresh' now now' db db' later r free h reach same old plain free' =
      elim (commit-Outcome digest c fresh now db r db' h).1 [
        | Outcome.repeated existing e hash answer unchanged ↦ absurd cc
        | Outcome.committed done ↦
            let at = Committed-current done in
            let expected = done.expected in
            let grown = Reach-current c.command.target.entity_id reach in
            let moved = ap (λ id. current_revision id later) same in
            commit_stale late fresh' now' later plain free'
              (ground (arith, at, expected, grown, moved, old))
      ]
