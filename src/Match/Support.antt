-- ===== src/Match/Support.antt =====
-- What evidence and project states can do to an assessment by `_assess_requirement` of
-- backend/career_harness/core/match_gap/policy.py.
use career_agent_harness.Base.{
  Bool, true, false, not, ◌||◌, ◌&&◌, List, [], ◌∷◌, ◌++◌, Option, any, any-append, if◌then◌else◌,
  ◌≡◌, refl, sym, ◌∙◌, arith, ◌↔◌,
}
use career_agent_harness.Base.Result.{ok}
use career_agent_harness.Base.Keys.{keep}
use career_agent_harness.Match.Scopes.{Scope}
use career_agent_harness.Match.Model.{
  JobRequirement, PersonalCapabilityState, EvidenceBinding, ProjectEvidence, ProjectCapabilityState,
  covered, quick_to_strengthen, clear_gap, RequirementMatchResult,
}
use career_agent_harness.Match.Assess.{judge, assess_requirement, is_list_nonempty}
use career_agent_harness.Match.Sets.{scope_in}
use career_agent_harness.Match.Coverage.{
  qualifies, state_has, supported, judged, covered_scopes_lem,
}
use career_agent_harness.Match.Verdict.{classification_lem}

any-keep :
    (p f : EvidenceBinding → Bool) (bs : List EvidenceBinding)
    → any (λ b. p b && f b) (keep p bs) ≡ any (λ b. p b && f b) bs
any-keep p f [] = refl
any-keep p f (b ∷ bs) = ground (arith, any-keep p f bs)

supported-keep :
    (s : Scope) (bs : List EvidenceBinding) (evidence : List ProjectEvidence)
    → supported s (keep (λ b. qualifies b evidence) bs) evidence ≡ supported s bs evidence
supported-keep s bs evidence = any-keep (λ b. qualifies b evidence) (λ b. scope_in s b.scopes) bs

covered_alike :
    (m t n n' : Bool)
    → ((if not m then covered else if t || n then quick_to_strengthen else clear_gap) ≡ covered)
      ↔ ((if not m then covered else if t || n' then quick_to_strengthen else clear_gap) ≡ covered)
covered_alike true t n n' = ground arith
covered_alike false t n n' = ground arith

any-same : (f g : Scope → Bool) (xs : List Scope) → ((s : Scope) → f s ≡ g s) → any f xs ≡ any g xs
any-same f g [] h = refl
any-same f g (x ∷ xs) h = rw (h x, any-same f g xs h) refl

module _ (r : JobRequirement) (state : Option PersonalCapabilityState)
    (bs : List EvidenceBinding) where
  module _ (evidence : List ProjectEvidence) (states : List ProjectCapabilityState) where
    -- Where both assessments give a result: bindings that do not count (inferred by a model, or
    -- from project evidence that is not accepted or not current) decide nothing: without them the
    -- classification and, scope by scope, what is covered and what is missing are the same.
    pub assess_requirement-keep :
        (res res' : RequirementMatchResult)
        → assess_requirement r state bs evidence states ≡ ok res
        → assess_requirement r state (keep (λ b. qualifies b evidence) bs) evidence states ≡ ok res'
        → (res'.classification ≡ res.classification)
          × ((s : Scope)
              → (scope_in s res'.covered_scopes ≡ scope_in s res.covered_scopes)
                × (scope_in s res'.missing_scopes ≡ scope_in s res.missing_scopes))
    assess_requirement-keep res res' h k =
        let kept = keep (λ b. qualifies b evidence) bs in
        (
          classification_lem r state kept evidence states res' k
              ∙ rw
                  (
                    classification_lem r state bs evidence states res h,
                    any-same (λ s. not (state_has s state && supported s kept evidence))
                        (λ s. not (state_has s state && supported s bs evidence)) r.required_scopes
                        (λ s. rw (supported-keep s bs evidence) refl),
                    any-same (λ s. state_has s state || supported s kept evidence)
                        (λ s. state_has s state || supported s bs evidence) r.required_scopes
                        (λ s. rw (supported-keep s bs evidence) refl),
                  )
                  refl,
          λ s.
              rw
                (
                  (covered_scopes_lem r state kept evidence states s res' k).0,
                  (covered_scopes_lem r state kept evidence states s res' k).1,
                  (covered_scopes_lem r state bs evidence states s res h).0,
                  (covered_scopes_lem r state bs evidence states s res h).1,
                  supported-keep s bs evidence,
                )
                (refl, refl),
        )

    -- Where both assessments give a result, further bindings take nothing away: a scope that is
    -- covered stays covered.
    pub assess_requirement-append :
        (more : List EvidenceBinding) (res res' : RequirementMatchResult) (s : Scope)
        → assess_requirement r state bs evidence states ≡ ok res
        → assess_requirement r state (bs ++ more) evidence states ≡ ok res'
        → scope_in s res.covered_scopes ≡ true
        → scope_in s res'.covered_scopes ≡ true
    assess_requirement-append more res res' s h k c =
        let before = (covered_scopes_lem r state bs evidence states s res h).0 in
        let after = (covered_scopes_lem r state (bs ++ more) evidence states s res' k).0 in
        let both = any-append (λ b. qualifies b evidence && scope_in s b.scopes) bs more in
        after ∙ rw both (ground (arith, sym before ∙ c))

    -- Where both assessments give a result, project states give no coverage: whatever they are, the
    -- scopes covered and missing are the same, and so is the answer to whether the requirement is
    -- covered.
    pub assess_requirement-states :
        (other : List ProjectCapabilityState) (res res' : RequirementMatchResult)
        → assess_requirement r state bs evidence states ≡ ok res
        → assess_requirement r state bs evidence other ≡ ok res'
        → (res'.covered_scopes ≡ res.covered_scopes)
          × (res'.missing_scopes ≡ res.missing_scopes)
          × ((res.classification ≡ covered) ↔ (res'.classification ≡ covered))
    unfolding judge
    assess_requirement-states other res res' h k =
        let e = judged r state bs evidence states res h in
        let f = judged r state bs evidence other res' k in
        let missed =
          any (λ s. not (state_has s state && supported s bs evidence)) r.required_scopes in
        let touched = any (λ s. state_has s state || supported s bs evidence) r.required_scopes in
        (
          rw (sym e, sym f) refl,
          rw (sym e, sym f) refl,
          rw
              (
                classification_lem r state bs evidence states res h,
                classification_lem r state bs evidence other res' k,
              )
              (covered_alike missed touched (is_list_nonempty states) (is_list_nonempty other)),
        )
