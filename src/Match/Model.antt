-- ===== src/Match/Model.antt =====
-- What the match policy reads and gives. Texts that the policy only carries along, and times, are
-- left out. The constraints on the fields of the input (identifiers, positive revisions, lists with an
-- element at least) are those of the models it is made of, which have checked them before.
use career_agent_harness.Base.{ℕ, String, Bool, List, Option}
use career_agent_harness.Match.Scopes.{Scope}

pub data JobRequirementStatus : Type 0 where
  proposed accepted rejected superseded : JobRequirementStatus

pub record JobRef : Type 0 where
  pub job_id : String
  pub revision : ℕ

pub record JobRequirement : Type 0 where
  pub requirement_id : String
  pub revision : ℕ
  pub job : JobRef
  pub capability_id : Option String
  pub graph_version_id : Option String
  pub required_scopes : List Scope
  pub status : JobRequirementStatus

pub record CapabilityNode : Type 0 where
  pub capability_id : String
  pub graph_version_id : String

pub record PersonalCapabilityState : Type 0 where
  pub personal_state_id : String
  pub candidate_id : String
  pub capability_id : String
  pub understand : Bool
  pub explain : Bool
  pub apply : Bool
  pub evidence : Bool
  pub interview_ready : Bool
  pub revision : ℕ

-- `CapabilityEvidenceAuthority` and `ProjectEvidenceAuthority`, which have the same values.
pub data Authority : Type 0 where
  code_verified document_supported user_confirmed ai_inferred : Authority

-- A binding has exactly one source: `evidence_ref_id`, or a project evidence and its revision.
pub data Source : Type 0 where
  evidence_ref : String → Source
  project_evidence : String → ℕ → Source

pub record EvidenceBinding : Type 0 where
  pub binding_id : String
  pub personal_state_id : String
  pub personal_state_revision : ℕ
  pub capability_id : String
  pub source : Source
  pub authority : Authority
  pub scopes : List Scope

pub data ReviewStatus : Type 0 where
  proposed accepted rejected superseded : ReviewStatus

pub data Freshness : Type 0 where
  current stale unknown : Freshness

pub record ProjectEvidence : Type 0 where
  pub evidence_id : String
  pub revision : ℕ
  pub authority : Authority
  pub review_status : ReviewStatus
  pub freshness : Freshness

pub record ProjectCapabilityState : Type 0 where
  pub capability_state_id : String
  pub revision : ℕ
  pub project_id : String
  pub capability_id : String

pub record ExactRevisionRef : Type 0 where
  pub entity_id : String
  pub revision : ℕ

pub record MatchPolicyInput : Type 0 where
  pub opportunity : ExactRevisionRef
  pub opportunity_job : JobRef
  pub job : JobRef
  pub requirements : List JobRequirement
  pub official_capabilities : List CapabilityNode
  pub candidate_id : String
  pub personal_states : List PersonalCapabilityState
  pub evidence_bindings : List EvidenceBinding
  pub evidence_refs : List String
  pub project_evidence : List ProjectEvidence
  pub project_capability_states : List ProjectCapabilityState

pub data MatchClassification : Type 0 where
  covered quick_to_strengthen clear_gap : MatchClassification

pub data MatchReasonCode : Type 0 where
  personal_scopes_satisfied personal_scope_progress qualified_evidence_support : MatchReasonCode
  evidence_provenance_incomplete unqualified_evidence_excluded : MatchReasonCode
  project_capability_proximity no_qualified_recorded_support : MatchReasonCode

pub record MatchReason : Type 0 where
  pub code : MatchReasonCode
  pub scopes : List Scope
  pub binding_ids : List String
  pub project_capability_states : List ExactRevisionRef

pub record RequirementMatchResult : Type 0 where
  pub requirement : ExactRevisionRef
  pub classification : MatchClassification
  pub covered_scopes : List Scope
  pub missing_scopes : List Scope
  pub reasons : List MatchReason

-- The messages of `MatchInputError`, those of the validator of `MatchAssessment`, `no_reasons`, the
-- refusal of `RequirementMatchResult` to be made without a reason, `incomplete_reference`, that of
-- `RequirementInputRef` to be made without a capability or its graph version, and `key_error`, a failed look-up in
-- a dictionary.
pub data MatchError : Type 0 where
  job_mismatch repeated_requirement not_accepted foreign_job no_mapping : MatchError
  repeated_node wrong_nodes : MatchError
  foreign_candidate unrelated_state ambiguous_identity repeated_state : MatchError
  repeated_evidence_ref repeated_project_evidence : MatchError
  repeated_binding wrong_state_ref missing_evidence_ref missing_project_evidence : MatchError
  wrong_authority unused_evidence_ref unused_project_evidence : MatchError
  repeated_project_state unrelated_project_state : MatchError
  incomplete_results no_partition no_reasons incomplete_reference key_error : MatchError
