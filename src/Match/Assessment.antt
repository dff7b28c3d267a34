-- ===== src/Match/Assessment.antt =====
-- `assess_match` of backend/career_harness/core/match_gap/policy.py, and the validator of
-- `MatchAssessment` in core/match_gap/models.py.
use Prim.Native.Nat.{compare, Ordering}
use career_agent_harness.Base.{
  ℕ, String, Bool, true, false, not, ◌||◌, ◌&&◌, all, List, [], ◌∷◌, Option, none, some, map,
  str_eq,
}
use career_agent_harness.Base.Result.{Result, ok, err, ◌>>=◌, ◌>>◌, raise_if}
use career_agent_harness.Base.Keys.{keep, ref_eq, has_duplicates, same_set}
use career_agent_harness.Base.Compare.{compare_text, or_else}
use career_agent_harness.Base.Sort.{sort_by}
use career_agent_harness.Match.Scopes.{Scopes, set_of, inter, union, equal, is_nonempty}
use career_agent_harness.Match.Model.{
  JobRequirement, PersonalCapabilityState, EvidenceBinding, ProjectCapabilityState,
  RequirementMatchResult, MatchPolicyInput, MatchError, incomplete_results, incomplete_reference,
  no_partition, key_error,
}
use career_agent_harness.Match.Assess.{assess_requirement}
use career_agent_harness.Match.Validate.{validate, find_state}

abbrev pub by_requirement : JobRequirement → JobRequirement → Ordering
by_requirement a b =
    or_else (compare_text a.requirement_id b.requirement_id) (compare a.revision b.revision)

abbrev pub by_binding_id : EvidenceBinding → EvidenceBinding → Ordering
by_binding_id a b = compare_text a.binding_id b.binding_id

abbrev pub by_project_state : ProjectCapabilityState → ProjectCapabilityState → Ordering
by_project_state a b =
    or_else (compare_text a.capability_state_id b.capability_state_id)
      (compare a.revision b.revision)

-- `.get(requirement.capability_id)` of the three dictionaries.
unfoldable pub state_of :
    Option String → List PersonalCapabilityState → Option PersonalCapabilityState
state_of none states = none
state_of (some capability) states = find_state capability states

unfoldable pub bindings_of : Option String → List EvidenceBinding → List EvidenceBinding
bindings_of none bindings = []
bindings_of (some capability) bindings =
    sort_by by_binding_id (keep (λ b. str_eq b.capability_id capability) bindings)

unfoldable pub project_states_of :
    Option String → List ProjectCapabilityState → List ProjectCapabilityState
project_states_of none states = []
project_states_of (some capability) states =
    sort_by by_project_state (keep (λ s. str_eq s.capability_id capability) states)

-- `_assess_requirement` on what is indexed for one requirement.
unfoldable pub assess_one :
    MatchPolicyInput
    → List PersonalCapabilityState
    → JobRequirement
    → Result MatchError RequirementMatchResult
unfolding state_of bindings_of project_states_of
assess_one i states r =
    assess_requirement r (state_of r.capability_id states)
      (bindings_of r.capability_id i.evidence_bindings) i.project_evidence
      (project_states_of r.capability_id i.project_capability_states)

unfoldable pub assess_each :
    MatchPolicyInput
    → List PersonalCapabilityState
    → List JobRequirement
    → Result MatchError (List RequirementMatchResult)
assess_each i states [] = ok []
assess_each i states (r ∷ rest) = do
  result ← assess_one i states r
  results ← assess_each i states rest
  ok (result ∷ results)

abbrev pub requirement_key : JobRequirement → String × ℕ
requirement_key r = (r.requirement_id, r.revision)

abbrev pub result_key : RequirementMatchResult → String × ℕ
result_key r = (r.requirement.entity_id, r.requirement.revision)

-- `expected[key]`: of equal keys in a dictionary display, the last one counts.
unfoldable pub expected_scopes : String × ℕ → List JobRequirement → Option Scopes
expected_scopes key [] = none
expected_scopes key (r ∷ rest) = elim (expected_scopes key rest) [
  | some scopes ↦ some scopes
  | none ↦ elim (ref_eq (requirement_key r) key) [
    | true ↦ some (set_of r.required_scopes)
    | false ↦ none
  ]
]

unfoldable pub check_partition :
    Option Scopes → RequirementMatchResult → Result MatchError (Unit {0})
check_partition none r = err key_error
check_partition (some expected) r =
    raise_if
      (is_nonempty (inter (set_of r.covered_scopes) (set_of r.missing_scopes))
        || not (equal (union (set_of r.covered_scopes) (set_of r.missing_scopes)) expected))
      no_partition

unfoldable pub check_partitions :
    List JobRequirement → List RequirementMatchResult → Result MatchError (Unit {0})
check_partitions requirements [] = ok tt
check_partitions requirements (r ∷ rest) = do
  check_partition (expected_scopes (result_key r) requirements) r
  check_partitions requirements rest

-- `every_requirement_has_one_complete_result`
unfoldable pub every_requirement_has_one_complete_result :
    List JobRequirement → List RequirementMatchResult → Result MatchError (Unit {0})
unfolding check_partitions
every_requirement_has_one_complete_result requirements results = do
  raise_if
      (has_duplicates ref_eq (map result_key results)
        || not (same_set ref_eq (map result_key results) (map requirement_key requirements)))
      incomplete_results
  check_partitions requirements results

-- The fields of `RequirementInputRef` that a requirement may lack.
abbrev pub is_some : Option String → Bool
is_some none = false
is_some (some x) = true

abbrev pub is_mapped : JobRequirement → Bool
is_mapped r = is_some r.capability_id && is_some r.graph_version_id

-- `assess_match`, with the requirements of the manifest and the results. The manifest itself is
-- `build_manifest` of Manifest; its other fields are copies of fields of the input under the same
-- constraints, so that only the mapping of a requirement can make it fail.
unfoldable pub assess_match :
    MatchPolicyInput → Result MatchError (List JobRequirement × List RequirementMatchResult)
unfolding assess_each every_requirement_has_one_complete_result
assess_match i = do
  states ← validate i
  let requirements = sort_by by_requirement i.requirements
  raise_if (not (all is_mapped requirements)) incomplete_reference
  results ← assess_each i states requirements
  every_requirement_has_one_complete_result requirements results
  ok (requirements, results)
