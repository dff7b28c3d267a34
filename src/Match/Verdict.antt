-- ===== src/Match/Verdict.antt =====
-- The classification by `_assess_requirement` of backend/career_harness/core/match_gap/policy.py.
use career_agent_harness.Base.{
  not, ◌||◌, ◌&&◌, List, Option, any, if◌then◌else◌, ◌≡◌, refl, sym, ◌∙◌, arith,
}
use career_agent_harness.Base.Result.{ok}
use career_agent_harness.Base.Keys.{keep}
use career_agent_harness.Match.Scopes.{Scope, Scopes, set_of, inter, union, diff, is_nonempty}
use career_agent_harness.Match.Model.{
  JobRequirement, PersonalCapabilityState, EvidenceBinding, ProjectEvidence, ProjectCapabilityState,
  MatchClassification, covered, quick_to_strengthen, clear_gap, RequirementMatchResult,
}
use career_agent_harness.Match.Assess.{
  personal_scopes_of, scopes_of_bindings, classify, is_list_nonempty, judge, assess_requirement,
}
use career_agent_harness.Match.Sets.{
  has_missing, has_touched, has-tabulate, tabulate, is_nonempty-any, is_nonempty-same,
}
use career_agent_harness.Match.Coverage.{
  qualifies, state_has, supported, has-scopes_of_keep, judged,
}

-- What the policy promises for one requirement.
abbrev pub verdict :
    List Scope
    → Option PersonalCapabilityState
    → List EvidenceBinding
    → List ProjectEvidence
    → List ProjectCapabilityState
    → MatchClassification
verdict required state bs evidence states =
    if not (any (λ s. not (state_has s state && supported s bs evidence)) required)
    then covered
    else if any (λ s. state_has s state || supported s bs evidence) required
        || is_list_nonempty states
    then quick_to_strengthen
    else clear_gap

classify_first :
    (r p q m : Scopes) (states : List ProjectCapabilityState)
    → (classify r p q m states).0 ≡ (
        if not (is_nonempty m)
        then covered
        else if is_nonempty (union p q) || is_list_nonempty states
        then quick_to_strengthen
        else clear_gap)
unfolding classify
classify_first r p q m states = ground arith

module _ (required : List Scope) (state : Option PersonalCapabilityState) where
  module _ (bs : List EvidenceBinding) (evidence : List ProjectEvidence) where
    abbrev missing_set : Scopes
    missing_set = diff (set_of required) (
        inter (inter (personal_scopes_of state) (set_of required))
          (inter (scopes_of_bindings (keep (λ b. qualifies b evidence) bs)) (set_of required)))

    abbrev touched_set : Scopes
    touched_set =
        union (inter (personal_scopes_of state) (set_of required))
          (inter (scopes_of_bindings (keep (λ b. qualifies b evidence) bs)) (set_of required))

    missing-any :
        is_nonempty missing_set
        ≡ any (λ s. not (state_has s state && supported s bs evidence)) required
    missing-any =
        let f = λ (s : Scope). not (state_has s state && supported s bs evidence) in
        is_nonempty-same missing_set (inter (set_of required) (tabulate f)) (λ s.
          rw
            (
              has_missing s (personal_scopes_of state) _ (set_of required),
              has-tabulate s f (set_of required),
              has-scopes_of_keep s bs evidence,
            )
            refl)
        ∙ is_nonempty-any f required

    touched-any :
        is_nonempty touched_set ≡ any (λ s. state_has s state || supported s bs evidence) required
    touched-any =
        let f = λ (s : Scope). state_has s state || supported s bs evidence in
        is_nonempty-same touched_set (inter (set_of required) (tabulate f)) (λ s.
          rw
            (
              has_touched s (personal_scopes_of state) _ (set_of required),
              has-tabulate s f (set_of required),
              has-scopes_of_keep s bs evidence,
            )
            refl)
        ∙ is_nonempty-any f required

-- Where the assessment gives a result, the classification is: covered where every required scope is
-- reached by the candidate and supported by evidence that counts; else quick to strengthen where
-- some required scope is reached or supported, or a project state exists; else a clear gap.
pub classification_lem :
    (r : JobRequirement) (state : Option PersonalCapabilityState) (bs : List EvidenceBinding)
    (evidence : List ProjectEvidence) (states : List ProjectCapabilityState)
    (res : RequirementMatchResult)
    → assess_requirement r state bs evidence states ≡ ok res
    → res.classification ≡ verdict r.required_scopes state bs evidence states
unfolding judge
classification_lem r state bs evidence states res h =
    rw
      (
        sym (judged r state bs evidence states res h),
        classify_first,
        missing-any r.required_scopes state bs evidence,
        touched-any r.required_scopes state bs evidence,
      )
      refl
