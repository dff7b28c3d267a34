-- ===== src/Match/Total.antt =====
-- `assess_match` of backend/career_harness/core/match_gap/policy.py on validated input.
use career_agent_harness.Base.{
  String, Bool, true, false, not, ◌||◌, ◌&&◌, List, [], ◌∷◌, Option, none, some, all, Bool-cases,
  ◌≡◌, refl, sym, ◌∙◌, inl, inr, arith, Option-cases,
}
use career_agent_harness.Base.Result.{ok}
use career_agent_harness.Base.Keys.{keep}
use career_agent_harness.Base.Sorted.{all-sort_by}
use career_agent_harness.Match.Scopes.{
  Scope, Scopes, set_of, inter, union, equal, is_nonempty, empty_set,
}
use career_agent_harness.Match.Model.{
  JobRequirement, PersonalCapabilityState, Source, evidence_ref, project_evidence, EvidenceBinding,
  ProjectEvidence, ProjectCapabilityState, RequirementMatchResult, MatchPolicyInput,
}
use career_agent_harness.Match.Assess.{
  evidence_at, source_is_qualified, binding_is_qualified, split_bindings, sort_out, is_ai_inferred,
  judge, assess_requirement, with_reasons,
}
use career_agent_harness.Match.Sets.{
  has, scope_in, has-set_of, has-union, is_nonempty-same, has-inter,
}
use career_agent_harness.Match.Coverage.{
  state_has, supported, qualifies, source_counts, judged, covered_scopes_lem,
}
use career_agent_harness.Match.Validate.{find_evidence}
use career_agent_harness.Match.Assessment.{
  by_binding_id, state_of, bindings_of, project_states_of, assess_one, assess_each, requirement_key,
  result_key,
}
use career_agent_harness.Match.Reasons.{judge-reasons}
use career_agent_harness.Match.Sourced.{source_found, is_sourced}

all-keep :
    (p q : EvidenceBinding → Bool) (bs : List EvidenceBinding)
    → all p bs ≡ true
    → all p (keep q bs) ≡ true
all-keep p q [] h = refl
all-keep p q (b ∷ bs) h = ground (arith, all-keep p q bs)

bindings_of-sourced :
    (capability : Option String) (evidence : List ProjectEvidence) (bs : List EvidenceBinding)
    → all (is_sourced evidence) bs ≡ true
    → all (is_sourced evidence) (bindings_of capability bs) ≡ true
unfolding bindings_of
bindings_of-sourced none evidence bs h = refl
bindings_of-sourced (some c) evidence bs h =
    all-sort_by by_binding_id (is_sourced evidence) (keep _ bs)
    ∙ all-keep (is_sourced evidence) _ bs h

source_is_qualified-found :
    (source : Source) (evidence : List ProjectEvidence)
    → source_found source evidence ≡ true
    → source_is_qualified source evidence ≡ ok (source_counts source evidence)
unfolding source_is_qualified evidence_at
source_is_qualified-found (evidence_ref id) evidence h = refl
source_is_qualified-found (project_evidence id revision) evidence h =
    elim (Option-cases (find_evidence (id, revision) evidence)) [
      | inl e ↦ absurd (ground (arith, e))
      | inr (source, e) ↦ rw (e, source_is_qualified, evidence_at, source_counts) refl
    ]

binding_is_qualified-found :
    (b : EvidenceBinding) (evidence : List ProjectEvidence)
    → is_sourced evidence b ≡ true
    → binding_is_qualified b evidence ≡ ok (qualifies b evidence)
unfolding binding_is_qualified
binding_is_qualified-found b evidence h = elim (Bool-cases (is_ai_inferred b.authority)) [
  | inl e ↦ rw e refl
  | inr e ↦ rw e (source_is_qualified-found b.source evidence h)
]

sourced_head :
    (b : EvidenceBinding) (bs : List EvidenceBinding) (evidence : List ProjectEvidence)
    → all (is_sourced evidence) (b ∷ bs) ≡ true
    → (is_sourced evidence b ≡ true) × (all (is_sourced evidence) bs ≡ true)
sourced_head b bs evidence h = ground arith

split_bindings-found :
    (bs : List EvidenceBinding) (evidence : List ProjectEvidence)
    → all (is_sourced evidence) bs ≡ true
    → (parts : List EvidenceBinding × List EvidenceBinding) × (split_bindings bs evidence
        ≡ ok parts)
unfolding split_bindings
split_bindings-found [] evidence h = (([], []), refl)
split_bindings-found (b ∷ bs) evidence h =
    let now = sourced_head b bs evidence h in
    let (parts, f) = split_bindings-found bs evidence now.1 in
    (
      sort_out b (qualifies b evidence) parts,
      rw (binding_is_qualified-found b evidence now.0, f) refl,
    )

equal-same : (a b : Scopes) → ((s : Scope) → has s a ≡ has s b) → equal a b ≡ true
equal-same a b h =
    rw
      (
        h Scope.understand,
        h Scope.explain,
        h Scope.apply,
        h Scope.evidence,
        h Scope.interview_ready,
      )
      (ground arith)

none_of_both : (s : Scope) (a b : Bool) → (a && b) && (a && not b) ≡ has s empty_set
none_of_both s a b = ground arith

one_of_both : (a b : Bool) → (a && b) || (a && not b) ≡ a
one_of_both a b = ground arith

unfoldable pub IsPartition : JobRequirement → RequirementMatchResult → Type 0
IsPartition r x =
    (is_nonempty (inter (set_of x.covered_scopes) (set_of x.missing_scopes)) ≡ false)
    × (equal (union (set_of x.covered_scopes) (set_of x.missing_scopes)) (set_of r.required_scopes)
        ≡ true)

assess_requirement-IsPartition :
    (r : JobRequirement) (state : Option PersonalCapabilityState) (bs : List EvidenceBinding)
    (evidence : List ProjectEvidence) (states : List ProjectCapabilityState)
    (res : RequirementMatchResult)
    → assess_requirement r state bs evidence states ≡ ok res
    → IsPartition r res
unfolding IsPartition
assess_requirement-IsPartition r state bs evidence states res h =
    let at_scope = λ (s : Scope). covered_scopes_lem r state bs evidence states s res h in
    let in_covered = λ (s : Scope). has-set_of s res.covered_scopes ∙ (at_scope s).0 in
    let in_missing = λ (s : Scope). has-set_of s res.missing_scopes ∙ (at_scope s).1 in
    let covered_set = set_of res.covered_scopes in
    let missing_set = set_of res.missing_scopes in
    (
      is_nonempty-same (inter covered_set missing_set) empty_set (λ s.
          has-inter s covered_set missing_set
          ∙ rw (in_covered s, in_missing s)
              (none_of_both s (scope_in s r.required_scopes)
                (state_has s state && supported s bs evidence))),
      equal-same (union covered_set missing_set) (set_of r.required_scopes) (λ s.
          has-union s covered_set missing_set
          ∙ rw (in_covered s, in_missing s, has-set_of s r.required_scopes)
              (one_of_both (scope_in s r.required_scopes)
                (state_has s state && supported s bs evidence))),
    )

-- One result for each requirement, in their order, that parts its required scopes.
unfoldable pub Answers : List JobRequirement → List RequirementMatchResult → Type 0
unfolding IsPartition
Answers [] [] = Unit
Answers (r ∷ rs) (x ∷ xs) = (result_key x ≡ requirement_key r) × IsPartition r x × Answers rs xs
Answers _ _ = ⊥

assess_requirement-key :
    (r : JobRequirement) (state : Option PersonalCapabilityState) (bs : List EvidenceBinding)
    (evidence : List ProjectEvidence) (states : List ProjectCapabilityState)
    (res : RequirementMatchResult)
    → assess_requirement r state bs evidence states ≡ ok res
    → result_key res ≡ requirement_key r
unfolding judge
assess_requirement-key r state bs evidence states res h =
    rw (sym (judged r state bs evidence states res h)) refl

module _ (i : MatchPolicyInput) (states : List PersonalCapabilityState) where
  module _ (sourced : all (is_sourced i.project_evidence) i.evidence_bindings ≡ true) where
    assess_one-Answers :
        (r : JobRequirement)
        → (x : RequirementMatchResult) × (assess_one i states r ≡ ok x)
          × (result_key x ≡ requirement_key r)
          × IsPartition r x
    unfolding assess_one assess_requirement with_reasons
    assess_one-Answers r =
        let bs = bindings_of r.capability_id i.evidence_bindings in
        let state = state_of r.capability_id states in
        let found =
          bindings_of-sourced r.capability_id i.project_evidence i.evidence_bindings sourced in
        let (parts, e) = split_bindings-found bs i.project_evidence found in
        let projects = project_states_of r.capability_id i.project_capability_states in
        let done : assess_requirement r state bs i.project_evidence projects
            ≡ ok (judge r state parts.0 parts.1 projects) =
          rw (assess_requirement, e, with_reasons, judge-reasons r state parts.0 parts.1 projects)
            refl in
        (
          judge r state parts.0 parts.1 projects,
          done,
          assess_requirement-key r state bs i.project_evidence projects _ done,
          assess_requirement-IsPartition r state bs i.project_evidence projects _ done,
        )

    pub assess_each-Answers :
        (rs : List JobRequirement)
        → (xs : List RequirementMatchResult) × (assess_each i states rs ≡ ok xs) × Answers rs xs
    unfolding assess_each Answers
    assess_each-Answers [] = ([], refl, tt)
    assess_each-Answers (r ∷ rs) =
        let (x, e, key, part) = assess_one-Answers r in
        let (xs, f, more) = assess_each-Answers rs in (x ∷ xs, rw (e, f) refl, (key, part, more))
