-- ===== src/Match/Assess.antt =====
-- `_assess_requirement` of backend/career_harness/core/match_gap/policy.py and what it calls.
use career_agent_harness.Base.{
  ℕ, String, Bool, true, false, not, ◌||◌, ◌&&◌, List, [], ◌∷◌, ◌++◌, Option, none, some, map,
  if◌then◌else◌,
}
use career_agent_harness.Base.Result.{Result, ok, err, ◌>>=◌, ◌>>◌, raise_if}
use career_agent_harness.Base.Keys.{find, keep, ref_eq}
use career_agent_harness.Match.Scopes.{
  Scopes, set_of, empty_set, inter, union, diff, is_nonempty, equal, ordered_scopes,
}
use career_agent_harness.Match.Model.{
  JobRequirement, PersonalCapabilityState, Authority, ai_inferred, Source, evidence_ref,
  project_evidence, EvidenceBinding, ReviewStatus, Freshness, ProjectEvidence,
  ProjectCapabilityState, MatchClassification, covered, quick_to_strengthen, clear_gap,
  MatchReasonCode, personal_scopes_satisfied, personal_scope_progress, qualified_evidence_support,
  evidence_provenance_incomplete, unqualified_evidence_excluded, project_capability_proximity,
  no_qualified_recorded_support, MatchReason, RequirementMatchResult, MatchError, no_reasons,
  key_error,
}

-- `project_evidence[(id, revision)]`
unfoldable pub evidence_at : String → ℕ → List ProjectEvidence → Result MatchError ProjectEvidence
evidence_at id revision evidence =
    elim (find (λ x. ref_eq (x.evidence_id, x.revision) (id, revision)) evidence) [
      | none ↦ err key_error
      | some source ↦ ok source
    ]

abbrev pub is_ai_inferred : Authority → Bool
is_ai_inferred ai_inferred = true
is_ai_inferred _ = false

abbrev pub is_accepted : ReviewStatus → Bool
is_accepted ReviewStatus.accepted = true
is_accepted _ = false

abbrev pub is_current : Freshness → Bool
is_current Freshness.current = true
is_current _ = false

unfoldable pub source_is_qualified : Source → List ProjectEvidence → Result MatchError Bool
source_is_qualified (evidence_ref id) evidence = ok true
source_is_qualified (project_evidence id revision) evidence = do
  source ← evidence_at id revision evidence
  ok (is_accepted source.review_status && is_current source.freshness)

-- `_binding_is_qualified`
unfoldable pub binding_is_qualified :
    EvidenceBinding → List ProjectEvidence → Result MatchError Bool
unfolding source_is_qualified
binding_is_qualified binding evidence =
    if is_ai_inferred binding.authority
    then ok false
    else source_is_qualified binding.source evidence

abbrev pub sort_out :
    EvidenceBinding
    → Bool
    → List EvidenceBinding × List EvidenceBinding
    → List EvidenceBinding × List EvidenceBinding
sort_out binding qualified (yes_list, no_list) =
    if qualified then (binding ∷ yes_list, no_list) else (yes_list, binding ∷ no_list)

-- `qualified_bindings` and `unqualified_bindings`. Equal bindings are qualified alike, so the test
-- `binding not in qualified_bindings` is the negation of `_binding_is_qualified`.
unfoldable pub split_bindings :
    List EvidenceBinding
    → List ProjectEvidence
    → Result MatchError (List EvidenceBinding × List EvidenceBinding)
split_bindings [] evidence = ok ([], [])
split_bindings (binding ∷ rest) evidence = do
  qualified ← binding_is_qualified binding evidence
  parts ← split_bindings rest evidence
  ok (sort_out binding qualified parts)

-- `_personal_scopes`
unfoldable pub personal_scopes_of : Option PersonalCapabilityState → Scopes
personal_scopes_of none = empty_set
personal_scopes_of (some s) = record {
  understand = s.understand;
  explain = s.explain;
  apply = s.apply;
  evidence = s.evidence;
  interview_ready = s.interview_ready;
}

-- `{scope for binding in bindings for scope in binding.scopes}`
unfoldable pub scopes_of_bindings : List EvidenceBinding → Scopes
scopes_of_bindings [] = empty_set
scopes_of_bindings (b ∷ bs) = union (set_of b.scopes) (scopes_of_bindings bs)

-- The identifiers of the bindings with `required & set(binding.scopes)`.
unfoldable pub relevant_ids : Scopes → List EvidenceBinding → List String
relevant_ids required bindings =
    map (λ b. b.binding_id) (keep (λ b. is_nonempty (inter required (set_of b.scopes))) bindings)

abbrev pub is_list_nonempty {ℓ} : {A : Type ℓ} → List A → Bool
is_list_nonempty [] = false
is_list_nonempty (x ∷ xs) = true

-- A reason that carries scopes only.
abbrev pub scope_reason : MatchReasonCode → Scopes → MatchReason
scope_reason code scopes = record {
  code = code;
  scopes = ordered_scopes scopes;
  binding_ids = [];
  project_capability_states = [];
}

abbrev pub when : Bool → MatchReason → List MatchReason
when b reason = if b then reason ∷ [] else []

unfoldable pub personal_reasons : Scopes → Scopes → List MatchReason
personal_reasons personal required =
    if equal personal required
    then scope_reason personal_scopes_satisfied personal ∷ []
    else when (is_nonempty personal) (scope_reason personal_scope_progress personal)

unfoldable pub evidence_reasons :
    Scopes → Scopes → List EvidenceBinding → List EvidenceBinding → List MatchReason
evidence_reasons required qualified_scopes qualified unqualified =
    let relevant = relevant_ids required unqualified in
    when (is_nonempty qualified_scopes)
      (record (scope_reason qualified_evidence_support qualified_scopes) {
        binding_ids = relevant_ids required qualified;
      })
    ++ when (is_list_nonempty relevant) (record {
      code = unqualified_evidence_excluded;
      scopes = [];
      binding_ids = relevant;
      project_capability_states = [];
    })

-- The reasons of the branch `QUICK_TO_STRENGTHEN`.
unfoldable pub gap_reasons : Scopes → Scopes → List ProjectCapabilityState → List MatchReason
gap_reasons required qualified_scopes states =
    when (is_nonempty (diff required qualified_scopes))
      (scope_reason evidence_provenance_incomplete (diff required qualified_scopes))
    ++ when (is_list_nonempty states) (record {
      code = project_capability_proximity;
      scopes = [];
      binding_ids = [];
      project_capability_states =
          map (λ s. record { entity_id = s.capability_state_id; revision = s.revision }) states;
    })

-- The classification with the reasons that come with it.
unfoldable pub classify :
    Scopes
    → Scopes
    → Scopes
    → Scopes
    → List ProjectCapabilityState
    → MatchClassification × List MatchReason
classify required personal qualified_scopes missing states =
    if not (is_nonempty missing)
    then (covered, [])
    else if is_nonempty personal || is_nonempty qualified_scopes || is_list_nonempty states
    then (quick_to_strengthen, gap_reasons required qualified_scopes states)
    else (clear_gap, scope_reason no_qualified_recorded_support empty_set ∷ [])

-- The part of `_assess_requirement` behind the two tuples of bindings.
unfoldable pub judge :
    JobRequirement
    → Option PersonalCapabilityState
    → List EvidenceBinding
    → List EvidenceBinding
    → List ProjectCapabilityState
    → RequirementMatchResult
judge requirement state qualified unqualified states =
    let required = set_of requirement.required_scopes in
    let personal = inter (personal_scopes_of state) required in
    let qualified_scopes = inter (scopes_of_bindings qualified) required in
    let covered_set = inter personal qualified_scopes in
    let missing = diff required covered_set in
    let (classification, more) = classify required personal qualified_scopes missing states in
    record {
      requirement = record {
        entity_id = requirement.requirement_id;
        revision = requirement.revision;
      };
      classification = classification;
      covered_scopes = ordered_scopes covered_set;
      missing_scopes = ordered_scopes missing;
      reasons =
          personal_reasons personal required
          ++ evidence_reasons required qualified_scopes qualified unqualified
          ++ more;
    }

-- The constraint of `RequirementMatchResult` on its reasons.
unfoldable pub with_reasons : RequirementMatchResult → Result MatchError RequirementMatchResult
with_reasons result = raise_if (not (is_list_nonempty result.reasons)) no_reasons >> ok result

-- `_assess_requirement`
unfoldable pub assess_requirement :
    JobRequirement
    → Option PersonalCapabilityState
    → List EvidenceBinding
    → List ProjectEvidence
    → List ProjectCapabilityState
    → Result MatchError RequirementMatchResult
unfolding with_reasons
assess_requirement requirement state bindings evidence states = do
  parts ← split_bindings bindings evidence
  with_reasons (judge requirement state parts.0 parts.1 states)
