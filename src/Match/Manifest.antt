-- ===== src/Match/Manifest.antt =====
-- `_build_manifest` of backend/career_harness/core/match_gap/policy.py, which records what an assessment
-- was made from. The basis and the level of project states and the policy's version are left out.
use Prim.Native.Nat.{compare, Ordering}
use career_agent_harness.Base.{ℕ, String, List, Option, map}
use career_agent_harness.Base.Compare.{compare_text, or_else}
use career_agent_harness.Base.Sort.{sort_by}
use career_agent_harness.Match.Scopes.{Scope, set_of, ordered_scopes}
use career_agent_harness.Match.Model.{
  JobRequirement, CapabilityNode, PersonalCapabilityState, Authority, Source, EvidenceBinding,
  ProjectCapabilityState, ExactRevisionRef, MatchPolicyInput,
}
use career_agent_harness.Match.Assessment.{by_binding_id}

pub record RequirementInputRef : Type 0 where
  pub requirement_id : String
  pub revision : ℕ
  pub capability_id : Option String
  pub graph_version_id : Option String
  pub required_scopes : List Scope

pub record PersonalCapabilityInputRef : Type 0 where
  pub personal_state_id : String
  pub revision : ℕ
  pub candidate_id : String
  pub capability_id : String

pub record EvidenceBindingInputRef : Type 0 where
  pub binding_id : String
  pub personal_state_id : String
  pub personal_state_revision : ℕ
  pub capability_id : String
  pub source : Source
  pub authority : Authority
  pub scopes : List Scope

pub record ProjectCapabilityInputRef : Type 0 where
  pub capability_state_id : String
  pub revision : ℕ
  pub project_id : String
  pub capability_id : String

pub record MatchInputManifest : Type 0 where
  pub opportunity : ExactRevisionRef
  pub job : ExactRevisionRef
  pub requirements : List RequirementInputRef
  pub official_capabilities : List CapabilityNode
  pub personal_states : List PersonalCapabilityInputRef
  pub evidence_bindings : List EvidenceBindingInputRef
  pub project_capability_states : List ProjectCapabilityInputRef

abbrev pub requirement_ref : JobRequirement → RequirementInputRef
requirement_ref r = record {
  requirement_id = r.requirement_id;
  revision = r.revision;
  capability_id = r.capability_id;
  graph_version_id = r.graph_version_id;
  required_scopes = ordered_scopes (set_of r.required_scopes);
}

abbrev pub personal_ref : PersonalCapabilityState → PersonalCapabilityInputRef
personal_ref s = record {
  personal_state_id = s.personal_state_id;
  revision = s.revision;
  candidate_id = s.candidate_id;
  capability_id = s.capability_id;
}

abbrev pub binding_ref : EvidenceBinding → EvidenceBindingInputRef
binding_ref b = record {
  binding_id = b.binding_id;
  personal_state_id = b.personal_state_id;
  personal_state_revision = b.personal_state_revision;
  capability_id = b.capability_id;
  source = b.source;
  authority = b.authority;
  scopes = ordered_scopes (set_of b.scopes);
}

abbrev pub project_ref : ProjectCapabilityState → ProjectCapabilityInputRef
project_ref s = record {
  capability_state_id = s.capability_state_id;
  revision = s.revision;
  project_id = s.project_id;
  capability_id = s.capability_id;
}

-- The sort keys of the manifest.
abbrev pub by_node : CapabilityNode → CapabilityNode → Ordering
by_node a b =
    or_else (compare_text a.capability_id b.capability_id)
      (compare_text a.graph_version_id b.graph_version_id)

abbrev pub by_personal : PersonalCapabilityState → PersonalCapabilityState → Ordering
by_personal a b =
    or_else (compare_text a.capability_id b.capability_id) (
      or_else (compare_text a.personal_state_id b.personal_state_id)
        (compare a.revision b.revision))

abbrev pub by_project : ProjectCapabilityState → ProjectCapabilityState → Ordering
by_project a b = or_else (compare_text a.capability_id b.capability_id) (
    or_else (compare_text a.capability_state_id b.capability_state_id)
      (compare a.revision b.revision))

-- `_build_manifest`, on the requirements that `assess_match` has sorted.
unfoldable pub build_manifest : MatchPolicyInput → List JobRequirement → MatchInputManifest
build_manifest i requirements = record {
  opportunity = i.opportunity;
  job = record { entity_id = i.job.job_id; revision = i.job.revision };
  requirements = map requirement_ref requirements;
  official_capabilities = sort_by by_node i.official_capabilities;
  personal_states = map personal_ref (sort_by by_personal i.personal_states);
  evidence_bindings = map binding_ref (sort_by by_binding_id i.evidence_bindings);
  project_capability_states = map project_ref (sort_by by_project i.project_capability_states);
}
