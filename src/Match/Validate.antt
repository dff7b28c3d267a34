-- ===== src/Match/Validate.antt =====
-- `_validate_and_index` of backend/career_harness/core/match_gap/policy.py: every check, in the order
-- of the code, with the message it raises.
use career_agent_harness.Base.{
  ℕ, String, Bool, true, false, not, List, [], ◌∷◌, Option, none, some, map, str_eq,
}
use career_agent_harness.Base.Result.{Result, ok, err, ◌>>=◌, ◌>>◌, raise_if}
use career_agent_harness.Base.Keys.{find, ref_eq, pair_eq, member, has_duplicates, same_set}
use career_agent_harness.Match.Model.{
  JobRequirementStatus, JobRef, JobRequirement, CapabilityNode, PersonalCapabilityState, Authority,
  code_verified, document_supported, user_confirmed, ai_inferred, Source, evidence_ref,
  project_evidence, EvidenceBinding, ProjectEvidence, ProjectCapabilityState, MatchPolicyInput,
  MatchError, job_mismatch, repeated_requirement, not_accepted, foreign_job, no_mapping,
  repeated_node, wrong_nodes, foreign_candidate, unrelated_state, ambiguous_identity,
  repeated_state, repeated_evidence_ref, repeated_project_evidence, repeated_binding,
  wrong_state_ref, missing_evidence_ref, missing_project_evidence, wrong_authority,
  unused_evidence_ref, unused_project_evidence, repeated_project_state, unrelated_project_state,
}

abbrev pub is_in : String → List String → Bool
is_in = member str_eq

abbrev pub job_eq : JobRef → JobRef → Bool
job_eq a b = ref_eq (a.job_id, a.revision) (b.job_id, b.revision)

abbrev pub is_requirement_accepted : JobRequirementStatus → Bool
is_requirement_accepted JobRequirementStatus.accepted = true
is_requirement_accepted _ = false

unfoldable pub mapping_of : Option String → Option String → Result MatchError (String × String)
mapping_of (some capability) (some version) = ok (capability, version)
mapping_of _ _ = err no_mapping

-- The loop over the requirements, from those already seen; it gives `required_capabilities`.
unfoldable pub check_requirements :
    JobRef → List String → List JobRequirement → Result MatchError (List (String × String))
unfolding mapping_of
check_requirements job seen [] = ok []
check_requirements job seen (r ∷ rest) = do
  raise_if (is_in r.requirement_id seen) repeated_requirement
  raise_if (not (is_requirement_accepted r.status)) not_accepted
  raise_if (not (job_eq r.job job)) foreign_job
  mapping ← mapping_of r.capability_id r.graph_version_id
  mappings ← check_requirements job (r.requirement_id ∷ seen) rest
  ok (mapping ∷ mappings)

abbrev pub state_ref : PersonalCapabilityState → String × ℕ
state_ref s = (s.personal_state_id, s.revision)

-- The loop over the personal states, from those already indexed, the last of them first.
unfoldable pub check_personal_states :
    String
    → List String
    → List PersonalCapabilityState
    → List PersonalCapabilityState
    → Result MatchError (List PersonalCapabilityState)
check_personal_states candidate required seen [] = ok seen
check_personal_states candidate required seen (s ∷ rest) = do
  raise_if (not (str_eq s.candidate_id candidate)) foreign_candidate
  raise_if (not (is_in s.capability_id required)) unrelated_state
  raise_if (is_in s.capability_id (map (λ x. x.capability_id) seen)) ambiguous_identity
  raise_if (member ref_eq (state_ref s) (map state_ref seen)) repeated_state
  check_personal_states candidate required (s ∷ seen) rest

abbrev pub authority_eq : Authority → Authority → Bool
authority_eq code_verified code_verified = true
authority_eq document_supported document_supported = true
authority_eq user_confirmed user_confirmed = true
authority_eq ai_inferred ai_inferred = true
authority_eq _ _ = false

-- The evidence that the bindings refer to.
pub record UsedSources : Type 0 where
  pub evidence_refs : List String
  pub project_evidence : List (String × ℕ)

abbrev pub evidence_key : ProjectEvidence → String × ℕ
evidence_key e = (e.evidence_id, e.revision)

abbrev pub find_evidence : String × ℕ → List ProjectEvidence → Option ProjectEvidence
find_evidence key = find (λ e. ref_eq (evidence_key e) key)

unfoldable pub check_project_source :
    String × ℕ → Authority → Option ProjectEvidence → Result MatchError (Unit {0})
check_project_source key authority none = err missing_project_evidence
check_project_source key authority (some source) =
    raise_if (not (authority_eq source.authority authority)) wrong_authority

-- The source of one binding, added to those used so far.
unfoldable pub check_source :
    List String
    → List ProjectEvidence
    → Authority
    → Source
    → UsedSources
    → Result MatchError UsedSources
unfolding check_project_source
check_source refs evidence authority (evidence_ref id) used = do
  raise_if (not (is_in id refs)) missing_evidence_ref
  ok (record used { evidence_refs = id ∷ used.evidence_refs })
check_source refs evidence authority (project_evidence id revision) used = do
  check_project_source (id, revision) authority (find_evidence (id, revision) evidence)
  ok (record used { project_evidence = (id, revision) ∷ used.project_evidence })

abbrev pub find_state : String → List PersonalCapabilityState → Option PersonalCapabilityState
find_state capability = find (λ s. str_eq s.capability_id capability)

abbrev pub refers_to : EvidenceBinding → Option PersonalCapabilityState → Bool
refers_to b none = false
refers_to b (some s) = ref_eq (b.personal_state_id, b.personal_state_revision) (state_ref s)

-- The loop over the bindings.
unfoldable pub check_bindings :
    List PersonalCapabilityState
    → List String
    → List ProjectEvidence
    → List String
    → UsedSources
    → List EvidenceBinding
    → Result MatchError UsedSources
unfolding check_source
check_bindings states refs evidence seen used [] = ok used
check_bindings states refs evidence seen used (b ∷ rest) = do
  raise_if (is_in b.binding_id seen) repeated_binding
  raise_if (not (refers_to b (find_state b.capability_id states))) wrong_state_ref
  more ← check_source refs evidence b.authority b.source used
  check_bindings states refs evidence (b.binding_id ∷ seen) more rest

-- The loop over the project capability states.
unfoldable pub check_project_states :
    List String → List String → List ProjectCapabilityState → Result MatchError (Unit {0})
check_project_states required seen [] = ok tt
check_project_states required seen (s ∷ rest) = do
  raise_if (is_in s.capability_state_id seen) repeated_project_state
  raise_if (not (is_in s.capability_id required)) unrelated_project_state
  check_project_states required (s.capability_state_id ∷ seen) rest

abbrev pub node_key : CapabilityNode → String × String
node_key n = (n.capability_id, n.graph_version_id)

-- `_validate_and_index`. Its dictionaries are given as the lists they are made of.
unfoldable pub validate : MatchPolicyInput → Result MatchError (List PersonalCapabilityState)
unfolding check_requirements check_personal_states check_bindings check_project_states
validate i = do
  raise_if (not (job_eq i.opportunity_job i.job)) job_mismatch
  required ← check_requirements i.opportunity_job [] i.requirements
  raise_if (has_duplicates pair_eq (map node_key i.official_capabilities)) repeated_node
  raise_if (not (same_set pair_eq (map node_key i.official_capabilities) required)) wrong_nodes
  let ids = map (λ (r : String × String). r.0) required
  states ← check_personal_states i.candidate_id ids [] i.personal_states
  raise_if (has_duplicates str_eq i.evidence_refs) repeated_evidence_ref
  raise_if (has_duplicates ref_eq (map evidence_key i.project_evidence)) repeated_project_evidence
  used ←
      check_bindings states i.evidence_refs i.project_evidence []
        (record { evidence_refs = []; project_evidence = [] }) i.evidence_bindings
  raise_if (not (same_set str_eq i.evidence_refs used.evidence_refs)) unused_evidence_ref
  raise_if (not (same_set ref_eq (map evidence_key i.project_evidence) used.project_evidence))
      unused_project_evidence
  check_project_states ids [] i.project_capability_states
  ok states
