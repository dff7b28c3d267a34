-- ===== src/Match/Examples.antt =====
-- One requirement of two scopes, a candidate who has both, one binding that supports one of them and
-- one that a model inferred; and the theorems on it.

use career_agent_harness.Base.{not, ◌&&◌, true, false, [], ◌∷◌, some, List, ◌≡◌, refl, ◌↔◌, String}
use career_agent_harness.Base.Result.{ok, err}
use career_agent_harness.Base.Keys.{keep}
use career_agent_harness.Base.Sort.{sort_by}
use career_agent_harness.Match.Scopes.{set_of, Scope}
use career_agent_harness.Match.Model.{
  JobRequirementStatus, JobRef, JobRequirement, PersonalCapabilityState, Authority, Source,
  EvidenceBinding, ReviewStatus, Freshness, ProjectEvidence, ProjectCapabilityState,
  MatchPolicyInput, covered, RequirementMatchResult, job_mismatch,
}
use career_agent_harness.Match.Assess.{
  personal_reasons, personal_scopes_of, evidence_at, source_is_qualified, binding_is_qualified,
  split_bindings, judge, assess_requirement,
}
use career_agent_harness.Match.Sets.{scope_in}
use career_agent_harness.Match.Coverage.{qualifies, state_has, supported, covered_scopes_lem}
use career_agent_harness.Match.Verdict.{verdict, classification_lem}
use career_agent_harness.Match.Support.{assess_requirement-keep, assess_requirement-states}
use career_agent_harness.Match.Validate.{
  mapping_of, check_requirements, check_personal_states, check_project_source, check_source,
  check_bindings, check_project_states, validate,
}
use career_agent_harness.Match.Assessment.{by_requirement, assess_match}
use career_agent_harness.Match.Total.{Answers}
use career_agent_harness.Match.Complete.{assess_match-Answers, assess_match-err}

abbrev job : JobRef
job = record { job_id = "job_1"; revision = 1 }

abbrev requirement : JobRequirement
requirement = record {
  requirement_id = "req_1";
  revision = 2;
  job = job;
  capability_id = some "cap_1";
  graph_version_id = some "graph_1";
  required_scopes = Scope.explain ∷ Scope.apply ∷ [];
  status = JobRequirementStatus.accepted;
}

abbrev personal : PersonalCapabilityState
personal = record {
  personal_state_id = "state_1";
  candidate_id = "me";
  capability_id = "cap_1";
  understand = false;
  explain = true;
  apply = true;
  evidence = false;
  interview_ready = false;
  revision = 1;
}

abbrev binding : String → Source → Authority → Scope → EvidenceBinding
binding id source authority scope = record {
  binding_id = id;
  personal_state_id = "state_1";
  personal_state_revision = 1;
  capability_id = "cap_1";
  source = source;
  authority = authority;
  scopes = scope ∷ [];
}

abbrev checked : EvidenceBinding
checked = binding "b1" (Source.evidence_ref "ev_1") Authority.code_verified Scope.explain

abbrev inferred : EvidenceBinding
inferred = binding "b2" (Source.project_evidence "pe_1" 1) Authority.ai_inferred Scope.apply

abbrev bindings : List EvidenceBinding
bindings = checked ∷ inferred ∷ []

abbrev evidence : List ProjectEvidence
evidence =
    record {
      evidence_id = "pe_1";
      revision = 1;
      authority = Authority.ai_inferred;
      review_status = ReviewStatus.accepted;
      freshness = Freshness.current;
    }
    ∷ []

abbrev project_states : List ProjectCapabilityState
project_states =
    record {
      capability_state_id = "pcs_1";
      revision = 1;
      project_id = "proj_1";
      capability_id = "cap_1";
    }
    ∷ []

abbrev input : MatchPolicyInput
input = record {
  opportunity = record { entity_id = "opp_1"; revision = 1 };
  opportunity_job = job;
  job = job;
  requirements = requirement ∷ [];
  official_capabilities = record { capability_id = "cap_1"; graph_version_id = "graph_1" } ∷ [];
  candidate_id = "me";
  personal_states = personal ∷ [];
  evidence_bindings = bindings;
  evidence_refs = "ev_1" ∷ [];
  project_evidence = evidence;
  project_capability_states = project_states;
}

abbrev assessed : List EvidenceBinding → List ProjectCapabilityState → RequirementMatchResult
assessed bs states =
    judge requirement (some personal) (keep (λ b. qualifies b evidence) bs)
      (keep (λ b. not (qualifies b evidence)) bs) states

covered_scopes_lem_example :
    (scope_in Scope.apply (assessed bindings project_states).covered_scopes
      ≡ scope_in Scope.apply requirement.required_scopes
        && (state_has Scope.apply (some personal) && supported Scope.apply bindings evidence))
    × (scope_in Scope.apply (assessed bindings project_states).missing_scopes
        ≡ scope_in Scope.apply requirement.required_scopes
          && not (state_has Scope.apply (some personal) && supported Scope.apply bindings evidence))
unfolding assess_requirement split_bindings binding_is_qualified source_is_qualified evidence_at
    judge personal_reasons personal_scopes_of set_of
covered_scopes_lem_example =
    covered_scopes_lem requirement (some personal) bindings evidence project_states Scope.apply
      (assessed bindings project_states) refl

classification_lem_example :
    (assessed bindings project_states).classification
    ≡ verdict requirement.required_scopes (some personal) bindings evidence project_states
unfolding assess_requirement split_bindings binding_is_qualified source_is_qualified evidence_at
    judge personal_reasons personal_scopes_of set_of
classification_lem_example =
    classification_lem requirement (some personal) bindings evidence project_states
      (assessed bindings project_states) refl

assess_requirement-keep_example :
    ((assessed (checked ∷ []) project_states).classification
      ≡ (assessed bindings project_states).classification)
    × ((s : Scope)
        → (scope_in s (assessed (checked ∷ []) project_states).covered_scopes
            ≡ scope_in s (assessed bindings project_states).covered_scopes)
          × (scope_in s (assessed (checked ∷ []) project_states).missing_scopes
              ≡ scope_in s (assessed bindings project_states).missing_scopes))
unfolding assess_requirement split_bindings binding_is_qualified source_is_qualified evidence_at
    judge personal_reasons personal_scopes_of set_of
assess_requirement-keep_example =
    assess_requirement-keep requirement (some personal) bindings evidence project_states
      (assessed bindings project_states) (assessed (checked ∷ []) project_states) refl refl

assess_requirement-states_example :
    ((assessed bindings []).covered_scopes ≡ (assessed bindings project_states).covered_scopes)
    × ((assessed bindings []).missing_scopes ≡ (assessed bindings project_states).missing_scopes)
    × (((assessed bindings project_states).classification ≡ covered)
        ↔ ((assessed bindings []).classification ≡ covered))
unfolding assess_requirement split_bindings binding_is_qualified source_is_qualified evidence_at
    judge personal_reasons personal_scopes_of set_of
assess_requirement-states_example =
    assess_requirement-states requirement (some personal) bindings evidence project_states []
      (assessed bindings project_states) (assessed bindings []) refl refl

assess_match-Answers_example :
    (xs : List RequirementMatchResult) × (assess_match input
      ≡ ok (sort_by by_requirement input.requirements, xs))
    × Answers (sort_by by_requirement input.requirements) xs
unfolding validate check_requirements mapping_of check_personal_states check_bindings check_source
    check_project_source check_project_states
assess_match-Answers_example = assess_match-Answers input (personal ∷ []) refl

assess_match-err_example :
    (assess_match (record input { job = record job { revision = 2 } }) ≡ err job_mismatch)
    ↔ (validate (record input { job = record job { revision = 2 } }) ≡ err job_mismatch)
assess_match-err_example =
    assess_match-err (record input { job = record job { revision = 2 } }) job_mismatch
