-- ===== src/Radar/Examples.antt =====
-- A source that answers in the second attempt, and one that the user switches off.
use career_agent_harness.Base.{ℕ, zero, suc, String, true, false, [], none, some, ◌≡◌, refl}
use career_agent_harness.Base.Result.{Result, ok, err}
use career_agent_harness.Base.Table.{lookup, insert}
use career_agent_harness.Base.Text.{has_length, is_opaque_id}
use career_agent_harness.Radar.Policy.{
  Policies, fields_admitted, is_admitted, new_policy, PolicyUpdate, update_source_policy,
  updated_policy, update_row, get_source_policy, insert_or_ignore, write_back, ensure_source_policy,
  record_source_success, record_source_failure, truncate,
}
use career_agent_harness.Radar.Valid.{AllAdmitted}
use career_agent_harness.Radar.Search.{JobSource, try_search, search_loop, collect_records}
use career_agent_harness.Radar.Bounds.{Collected, collect_records-Collected}
use career_agent_harness.Radar.History.{Step, Reach, Replied, Reach-answers}

abbrev second_answer : ℕ → Result String ℕ
second_answer zero = err "timeout"
second_answer (suc n) = ok 42

abbrev board : JobSource ℕ
board = record { healthy = true; blocked = false; search = second_answer; text_of = λ e. "policy" }

nothing-AllAdmitted : AllAdmitted []
unfolding lookup
nothing-AllAdmitted id p found = absurd cc

board_named : is_opaque_id "board" ≡ true
unfolding is_opaque_id has_length
board_named = refl

collect_records-Collected_example :
    Collected board "board" board_named
      (λ n. n)
      (new_policy 0)
      (collect_records board "board" (λ n. n) [])
unfolding lookup
collect_records-Collected_example =
    collect_records-Collected board "board" board_named (λ n. n) [] nothing-AllAdmitted

two_calls : (collect_records board "board" (λ n. n) []).2 ≡ 2
unfolding collect_records search_loop try_search ensure_source_policy get_source_policy
    insert_or_ignore record_source_success record_source_failure write_back update_row is_admitted
    fields_admitted is_opaque_id has_length truncate lookup insert
two_calls = refl

abbrev switch_off : PolicyUpdate
switch_off = record {
  rate_limit_ms = none;
  max_retries = none;
  failure_threshold = none;
  enabled = some false;
  reset_failures = false;
}

abbrev switched_off : Policies
unfolding update_source_policy updated_policy ensure_source_policy get_source_policy
    insert_or_ignore write_back update_row is_admitted fields_admitted is_opaque_id has_length
    lookup insert
switched_off = (update_source_policy "board" switch_off 5 []).1

-- The failure switches the source on again.
Reach-answers_example :
    AllAdmitted switched_off × Replied (is_opaque_id "board") "board" "timeout" 9 switched_off
unfolding switched_off
Reach-answers_example =
    Reach-answers {t = []} {t' = switched_off} "board" "timeout" 9 nothing-AllAdmitted
      (Reach.next Reach.here (Step.updates "board" switch_off 5 refl))
