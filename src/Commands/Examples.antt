-- ===== src/Commands/Examples.antt =====
-- Two commits on one entity, with a third on another between them.
use career_agent_harness.Base.{ℕ, String, List, [], ◌∷◌, some, ◌≡◌, refl, arith}
use career_agent_harness.Base.Result.{ok, err}
use career_agent_harness.Base.Table.{lookup, insert}
use career_agent_harness.Base.Json.{Json, end, field}
use career_agent_harness.Today.Refs.{EntityKind, kind_value}
use career_agent_harness.Commands.Model.{
  Command, CommandCommitResult, Db, idempotency_conflict, revision_conflict, Request,
  TransactionalWrite, has_key,
}
use career_agent_harness.Commands.Commit.{
  Fresh, Commit, commit, commit_in_session, commit_new, require_expected_revision, add_revision,
  add_event, add_message, add_record, stage_write, send, next_row, get_current,
}
use career_agent_harness.Commands.Effects.{current_revision}
use career_agent_harness.Commands.Machine.{Step, Reach, Logged}
use career_agent_harness.Commands.Refinement.{Appended, Reach-Logged, commit-Appended}
use career_agent_harness.Commands.Replay.{commit_again, commit_other, commit_lost_update}
use career_agent_harness.Commands.ReadBack.{get_current-commit}

abbrev digest : Request → String
digest r = r.event_type

abbrev empty : Db (List String)
empty = record {
  entity_state = [];
  entity_revision = [];
  domain_event = [];
  outbox_message = [];
  idempotency_record = [];
  domain = [];
}

abbrev note : TransactionalWrite (List String)
note = record {
  idempotency_payload = Json.text "note";
  stage = λ revision now rows. ok ("note" ∷ rows);
}

abbrev command_of : String → String → ℕ → Command
command_of id entity_id expected = record {
  command_id = id;
  command_type = "lifecycle.change";
  target = record { entity_id = entity_id; kind = EntityKind.opportunity };
  expected_revision = expected;
  idempotency_key = id;
  actor = "user";
  payload = end;
}

abbrev commit_of : Command → String → Commit (List String)
commit_of command event_type = record {
  command = command;
  next_state = field "event" (Json.text event_type) end;
  event_type = event_type;
  event_payload = end;
  outbox_destination = some "today";
  transactional_write = some note;
}

abbrev fresh_of : String → Fresh
fresh_of id = record { revision_id = id; event_id = id; message_id = id }

abbrev first : Commit (List String)
first = commit_of (command_of "c1" "opp_1" 0) "created"

abbrev second : Commit (List String)
second = commit_of (command_of "c2" "opp_2" 0) "created"

abbrev late : Commit (List String)
late = commit_of (command_of "c3" "opp_1" 0) "watched"

abbrev other : Commit (List String)
other = commit_of (command_of "c1" "opp_1" 1) "watched"

abbrev result : String → String → CommandCommitResult
result entity_id id = record {
  entity_id = entity_id;
  revision = 1;
  revision_id = id;
  event_id = id;
}

abbrev after_first : Db (List String)
unfolding commit commit_in_session commit_new require_expected_revision add_revision add_event
    add_message add_record stage_write send next_row has_key lookup insert
after_first = (commit digest first (fresh_of "f1") 10 empty).1

abbrev after_second : Db (List String)
unfolding commit commit_in_session commit_new require_expected_revision add_revision add_event
    add_message add_record stage_write send next_row has_key lookup insert
after_second = (commit digest second (fresh_of "f2") 11 after_first).1

first_done : commit digest first (fresh_of "f1") 10 empty ≡ (ok (result "opp_1" "f1"), after_first)
unfolding commit commit_in_session commit_new require_expected_revision add_revision add_event
    add_message add_record stage_write send next_row has_key lookup insert
first_done = refl

second_done :
    commit digest second (fresh_of "f2") 11 after_first ≡ (ok (result "opp_2" "f2"), after_second)
unfolding commit commit_in_session commit_new require_expected_revision add_revision add_event
    add_message add_record stage_write send next_row has_key lookup insert
second_done = refl

second-Reach : Reach digest after_first after_second
second-Reach = Reach.next Reach.here (Step.commits second (fresh_of "f2") 11 _ second_done)

empty-Logged : Logged empty
unfolding lookup
empty-Logged = record { numbered = λ id. refl; current = λ id. refl }

Reach-Logged_example : Logged after_second
Reach-Logged_example = Reach-Logged digest empty-Logged (
    Reach.next (Reach.next Reach.here (Step.commits first (fresh_of "f1") 10 _ first_done))
      (Step.commits second (fresh_of "f2") 11 _ second_done))

commit-Appended_example : Appended first empty (result "opp_1" "f1") after_first
commit-Appended_example =
    commit-Appended digest first (fresh_of "f1") 10 empty (result "opp_1" "f1") after_first
      empty-Logged first_done

commit_again_example :
    commit digest first (fresh_of "f9") 30 after_second ≡ (ok (result "opp_1" "f1"), after_second)
commit_again_example =
    commit_again digest first first (fresh_of "f1") (fresh_of "f9") 10 30 empty after_first
      after_second (result "opp_1" "f1") first_done second-Reach refl

commit_other_example :
    commit digest other (fresh_of "f9") 30 after_second ≡ (err idempotency_conflict, after_second)
unfolding has_key
commit_other_example =
    commit_other digest first other (fresh_of "f1") (fresh_of "f9") 10 30 empty after_first
      after_second (result "opp_1" "f1") first_done second-Reach refl refl refl

commit_lost_update_example :
    commit digest late (fresh_of "f9") 30 after_second
    ≡ (err (revision_conflict 0 (current_revision "opp_1" after_second)), after_second)
unfolding has_key lookup after_second
commit_lost_update_example =
    commit_lost_update digest first late (fresh_of "f1") (fresh_of "f9") 10 30 empty after_first
      after_second (result "opp_1" "f1") refl first_done second-Reach refl (omega arith) refl refl

get_current-commit_example :
    get_current first.command.target after_first
    ≡ ok (
        some (record {
          entity = first.command.target;
          revision = 1;
          schema_version = 1;
          state = field "event" (Json.text "created") end;
          updated_at = 10;
        }))
unfolding lookup kind_value
get_current-commit_example =
    get_current-commit digest first (fresh_of "f1") 10 empty after_first (result "opp_1" "f1") refl
      first_done
