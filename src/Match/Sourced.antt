-- ===== src/Match/Sourced.antt =====
-- What the validated input of backend/career_harness/core/match_gap/policy.py gives the assessment:
-- every project evidence that a binding refers to can be found, and the requirements have different
-- identifiers.
use career_agent_harness.Base.{
  String, Bool, true, false, not, List, [], ◌∷◌, map, str_eq, all, ◌≡◌, refl, arith, is_some,
}
use career_agent_harness.Base.Result.{ok, steps_of_ok, after_raise}
use career_agent_harness.Base.Keys.{ref_eq, pair_eq, same_set, member, has_duplicates}
use career_agent_harness.Match.Model.{
  JobRef, JobRequirement, PersonalCapabilityState, Authority, Source, evidence_ref,
  project_evidence, EvidenceBinding, ProjectEvidence, MatchPolicyInput,
}
use career_agent_harness.Base.KeyLaws.{str_eq-sym}
use career_agent_harness.Match.Assessment.{is_mapped, requirement_key}
use career_agent_harness.Match.Validate.{
  is_in, mapping_of, check_requirements, UsedSources, find_evidence, check_project_source,
  check_source, check_bindings, validate, check_personal_states, refers_to, find_state, node_key,
  evidence_key, is_requirement_accepted, job_eq,
}

abbrev pub source_found : Source → List ProjectEvidence → Bool
source_found (evidence_ref id) evidence = true
source_found (project_evidence id revision) evidence =
    is_some (find_evidence (id, revision) evidence)

abbrev pub is_sourced : List ProjectEvidence → EvidenceBinding → Bool
is_sourced evidence b = source_found b.source evidence

check_source-found :
    (refs : List String) (evidence : List ProjectEvidence) (authority : Authority) (source : Source)
    (used more : UsedSources)
    → check_source refs evidence authority source used ≡ ok more
    → source_found source evidence ≡ true
unfolding check_source check_project_source
check_source-found refs evidence authority (evidence_ref id) used more h = refl
check_source-found refs evidence authority (project_evidence id revision) used more h = ground arith

check_bindings-sourced :
    (states : List PersonalCapabilityState) (refs : List String) (evidence : List ProjectEvidence)
    (seen : List String) (used more : UsedSources) (bs : List EvidenceBinding)
    → check_bindings states refs evidence seen used bs ≡ ok more
    → all (is_sourced evidence) bs ≡ true
unfolding check_bindings
check_bindings-sourced states refs evidence seen used more [] h = refl
check_bindings-sourced states refs evidence seen used more (b ∷ bs) h =
    let (_, h1) = after_raise (is_in b.binding_id seen) _ _ more h in
    let (_, h2) = after_raise (not (refers_to b (find_state b.capability_id states))) _ _ more h1 in
    let first = check_source refs evidence b.authority b.source used in
    let (used', found, rest) = steps_of_ok first _ more h2 in
    rw
      (
        check_source-found refs evidence b.authority b.source used used' found,
        check_bindings-sourced states refs evidence (b.binding_id ∷ seen) used' more bs rest,
      )
      refl

all_fresh :
    (id : String) (seen : List String) (rs : List JobRequirement)
    → all (λ r. not (is_in r.requirement_id (id ∷ seen))) rs ≡ true
    → (all (λ r. not (is_in r.requirement_id seen)) rs ≡ true)
      × (is_in id (map (λ r. r.requirement_id) rs) ≡ false)
all_fresh id seen [] h = (refl, refl)
all_fresh id seen (r ∷ rs) h = ground (arith, str_eq-sym id r.requirement_id, all_fresh id seen rs)

check_requirements-distinct :
    (job : JobRef) (seen : List String) (rs : List JobRequirement) (maps : List (String × String))
    → check_requirements job seen rs ≡ ok maps
    → (all (λ r. not (is_in r.requirement_id seen)) rs ≡ true)
      × (has_duplicates str_eq (map (λ r. r.requirement_id) rs) ≡ false)
unfolding check_requirements
check_requirements-distinct job seen [] maps h = (refl, refl)
check_requirements-distinct job seen (r ∷ rs) maps h =
    let (fresh, h1) = after_raise (is_in r.requirement_id seen) _ _ maps h in
    let (_, h2) = after_raise (not (is_requirement_accepted r.status)) _ _ maps h1 in
    let (_, h3) = after_raise (not (job_eq r.job job)) _ _ maps h2 in
    let (_, _, h4) = steps_of_ok (mapping_of r.capability_id r.graph_version_id) _ maps h3 in
    let (rest, more, _) =
      steps_of_ok (check_requirements job (r.requirement_id ∷ seen) rs) _ maps h4 in
    let ih = check_requirements-distinct job (r.requirement_id ∷ seen) rs rest more in
    let later = all_fresh r.requirement_id seen rs ih.0 in
    (rw (fresh, later.0) refl, rw (later.1, ih.1) refl)

member-keys :
    (r : JobRequirement) (rs : List JobRequirement)
    → is_in r.requirement_id (map (λ r. r.requirement_id) rs) ≡ false
    → member ref_eq (requirement_key r) (map requirement_key rs) ≡ false
member-keys r [] h = refl
member-keys r (x ∷ xs) h = ground (arith, member-keys r xs)

-- The identifiers differ, so the pairs of identifier and revision do.
has_duplicates-keys :
    (rs : List JobRequirement)
    → has_duplicates str_eq (map (λ r. r.requirement_id) rs) ≡ false
    → has_duplicates ref_eq (map requirement_key rs) ≡ false
has_duplicates-keys [] h = refl
has_duplicates-keys (r ∷ rs) h = ground (arith, member-keys r rs, has_duplicates-keys rs)

check_requirements-mapped :
    (job : JobRef) (seen : List String) (rs : List JobRequirement) (maps : List (String × String))
    → check_requirements job seen rs ≡ ok maps
    → all is_mapped rs ≡ true
unfolding check_requirements mapping_of
check_requirements-mapped job seen [] maps h = refl
check_requirements-mapped job seen (r ∷ rs) maps h =
    let (fresh, h1) = after_raise (is_in r.requirement_id seen) _ _ maps h in
    let (_, h2) = after_raise (not (is_requirement_accepted r.status)) _ _ maps h1 in
    let (_, h3) = after_raise (not (job_eq r.job job)) _ _ maps h2 in
    let (m, mapped, h4) = steps_of_ok (mapping_of r.capability_id r.graph_version_id) _ maps h3 in
    let (rest, more, _) =
      steps_of_ok (check_requirements job (r.requirement_id ∷ seen) rs) _ maps h4 in
    let ih = check_requirements-mapped job (r.requirement_id ∷ seen) rs rest more in
    let here : is_mapped r ≡ true = ground (arith, mapped) in rw (here, ih) refl

module _ (i : MatchPolicyInput) (states : List PersonalCapabilityState) where
  pub validate-sourced :
      validate i ≡ ok states
      → (all (is_sourced i.project_evidence) i.evidence_bindings ≡ true)
        × (has_duplicates ref_eq (map requirement_key i.requirements) ≡ false)
        × (all is_mapped i.requirements ≡ true)
  unfolding validate
  validate-sourced h =
      let (_, h1) = after_raise (not (job_eq i.opportunity_job i.job)) _ _ states h in
      let (required, reqs, h2) =
        steps_of_ok (check_requirements i.opportunity_job [] i.requirements) _ states h1 in
      let (_, h3) =
        after_raise (has_duplicates pair_eq (map node_key i.official_capabilities)) _ _ states h2 in
      let (_, h4) =
        after_raise (not (same_set pair_eq (map node_key i.official_capabilities) required)) _ _
          states h3 in
      let ids : List String = map (λ (r : String × String). r.0) required in
      let (found, _, h5) =
        steps_of_ok (check_personal_states i.candidate_id ids [] i.personal_states) _ states h4 in
      let (_, h6) = after_raise (has_duplicates str_eq i.evidence_refs) _ _ states h5 in
      let (_, h7) =
        after_raise (has_duplicates ref_eq (map evidence_key i.project_evidence)) _ _ states h6 in
      let (used, bound, _) =
        steps_of_ok
          (check_bindings found i.evidence_refs i.project_evidence []
            (record { evidence_refs = []; project_evidence = [] }) i.evidence_bindings)
          _ states h7 in
      (
        check_bindings-sourced found _ i.project_evidence [] _ used i.evidence_bindings bound,
        has_duplicates-keys i.requirements
            (check_requirements-distinct i.opportunity_job [] i.requirements required reqs).1,
        check_requirements-mapped i.opportunity_job [] i.requirements required reqs,
      )
