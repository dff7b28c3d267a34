-- ===== src/Commands/Append.antt =====
-- A new commit appends to the log of its target and leaves the logs of the others alone
-- (backend/career_harness/services/command_service.py).
use career_agent_harness.Base.{
  ℕ, ◌+◌, ◌-◌, String, false, List, ◌∷◌, Option, none, some, str_eq, ◌≡◌, refl, ◌∙◌, ap, inl, inr,
  arith, eq_iff, Bool-cases,
}
use career_agent_harness.Base.Table.{lookup, lookup-insert}
use career_agent_harness.Base.Json.{Fields}
use career_agent_harness.Base.Keys.{keep}
use career_agent_harness.Commands.Model.{
  EntityStateRow, EntityRevisionRow, CommandCommitResult, Db, Request,
}
use career_agent_harness.Commands.Commit.{Fresh, Commit, next_row}
use career_agent_harness.Base.{eq_refl}
use career_agent_harness.Base.Table.{lookup-insert_self}
use career_agent_harness.Commands.Commit.{revision_of}
use career_agent_harness.Commands.Machine.{revisions_of, IsNumbered, newest, stored_state, Logged}
use career_agent_harness.Today.Refs.{EntityKind}
use career_agent_harness.Commands.Effects.{revision_row, current_revision, Committed}

next_row-revision :
    (row : Option EntityStateRow) (kind : EntityKind) (n : ℕ) (state : Fields) (now : ℕ)
    → (next_row row kind n state now).revision ≡ n
unfolding next_row
next_row-revision none kind n state now = refl
next_row-revision (some row) kind n state now = refl

next_row-state :
    (row : Option EntityStateRow) (kind : EntityKind) (n : ℕ) (state : Fields) (now : ℕ)
    → (next_row row kind n state now).state ≡ state
unfolding next_row
next_row-state none kind n state now = refl
next_row-state (some row) kind n state now = refl

next-IsNumbered :
    (n : ℕ) (rs : List EntityRevisionRow) → IsNumbered n rs → IsNumbered (n + 1 - 1) rs
next-IsNumbered n rs h = let same : n + 1 - 1 ≡ n = omega arith in rw same h

module _ {D : Type 0} {digest : Request → String} {c : Commit D} {fresh : Fresh} {now : ℕ} where
  module _ {db db' : Db D} {r : CommandCommitResult}
      (h : Committed digest c fresh now db r db') where
    -- What the new rows are for the target and for the others.
    pub target-lookup :
        lookup c.command.target.entity_id db'.entity_state
        ≡ some (
            next_row
              (lookup c.command.target.entity_id db.entity_state)
              c.command.target.kind
              (current_revision c.command.target.entity_id db + 1)
              c.next_state
              now)
    target-lookup =
        ap (lookup c.command.target.entity_id) h.state ∙ lookup-insert_self _ _ db.entity_state

    pub others-lookup :
        (id : String)
        → str_eq c.command.target.entity_id id ≡ false
        → lookup id db'.entity_state ≡ lookup id db.entity_state
    others-lookup id ne =
        ap (lookup id) h.state
        ∙ lookup-insert c.command.target.entity_id id _ db.entity_state
        ∙ rw ne refl

    pub others-revisions :
        (id : String)
        → str_eq c.command.target.entity_id id ≡ false
        → revisions_of id db' ≡ revisions_of id db
    others-revisions id ne =
        ap (keep (λ (x : EntityRevisionRow). str_eq x.entity_id id)) h.revisions ∙ rw ne refl

    pub target-revisions :
        revisions_of c.command.target.entity_id db'
        ≡ revision_row c fresh now (current_revision c.command.target.entity_id db + 1)
          ∷ revisions_of c.command.target.entity_id db
    target-revisions =
        ap (keep (λ (x : EntityRevisionRow). str_eq x.entity_id c.command.target.entity_id))
          h.revisions
        ∙ rw (eq_refl c.command.target.entity_id) refl

    pub Committed-current :
        current_revision c.command.target.entity_id db'
        ≡ current_revision c.command.target.entity_id db + 1
    Committed-current = ap revision_of target-lookup ∙ next_row-revision _ _ _ _ _

    target-IsNumbered :
        Logged db
        → IsNumbered
            (current_revision c.command.target.entity_id db')
            (revisions_of c.command.target.entity_id db')
    target-IsNumbered i =
        let before = i.numbered c.command.target.entity_id in
        rw (target-revisions, Committed-current) (refl, omega arith, next-IsNumbered _ _ before)

    target_current :
        stored_state (lookup c.command.target.entity_id db'.entity_state)
        ≡ newest (revisions_of c.command.target.entity_id db')
    target_current = rw (target-lookup, target-revisions) (ap some (next_row-state _ _ _ _ _))

    pub Committed-Logged : Logged db → Logged db'
    Committed-Logged i = record {
      numbered = λ id. elim (Bool-cases (str_eq c.command.target.entity_id id)) [
        | inl e ↦ rw (← (eq_iff c.command.target.entity_id id).0 e) (target-IsNumbered i)
        | inr e ↦ rw (others-revisions id e, others-lookup id e) (i.numbered id)
      ];
      current = λ id. elim (Bool-cases (str_eq c.command.target.entity_id id)) [
        | inl e ↦ rw (← (eq_iff c.command.target.entity_id id).0 e) target_current
        | inr e ↦ rw (others-revisions id e, others-lookup id e) (i.current id)
      ];
    }
