-- ===== src/Match/Coverage.antt =====
-- What `_assess_requirement` (backend/career_harness/core/match_gap/policy.py) covers and misses,
-- scope by scope, without the sets and the intermediate tuples of the code.
use career_agent_harness.Base.{
  Bool, true, false, not, ◌&&◌, List, [], ◌∷◌, Option, none, some, any, Bool-cases, ◌≡◌, refl, sym,
  ◌∙◌, inl, inr, arith,
}
use career_agent_harness.Base.Result.{Result, ok, steps_of_ok, after_raise}
use career_agent_harness.Base.Keys.{find, keep, ref_eq}
use career_agent_harness.Match.Scopes.{Scope, set_of, inter, diff}
use career_agent_harness.Match.Model.{
  JobRequirement, PersonalCapabilityState, Source, evidence_ref, project_evidence, EvidenceBinding,
  ProjectEvidence, ProjectCapabilityState, RequirementMatchResult, MatchError, no_reasons,
}
use career_agent_harness.Match.Assess.{
  evidence_at, is_ai_inferred, is_accepted, is_current, source_is_qualified, binding_is_qualified,
  sort_out, split_bindings, personal_scopes_of, scopes_of_bindings, judge, assess_requirement,
  is_list_nonempty, with_reasons,
}
use career_agent_harness.Match.Sets.{
  has, scope_in, has-set_of, has-union, has_covered, has_missing, scope_in-ordered_scopes,
}

-- A binding that counts: not inferred by a model, and from a source that is reviewed and current.
abbrev pub source_counts : Source → List ProjectEvidence → Bool
source_counts (evidence_ref id) evidence = true
source_counts (project_evidence id revision) evidence =
    elim (find (λ x. ref_eq (x.evidence_id, x.revision) (id, revision)) evidence) [
      | none ↦ false
      | some source ↦ is_accepted source.review_status && is_current source.freshness
    ]

abbrev pub qualifies : EvidenceBinding → List ProjectEvidence → Bool
qualifies b evidence = not (is_ai_inferred b.authority) && source_counts b.source evidence

abbrev pub state_has : Scope → Option PersonalCapabilityState → Bool
state_has s state = has s (personal_scopes_of state)

abbrev pub supported : Scope → List EvidenceBinding → List ProjectEvidence → Bool
supported s bindings evidence = any (λ b. qualifies b evidence && scope_in s b.scopes) bindings

qualified_is :
    (b : EvidenceBinding) (evidence : List ProjectEvidence) (q : Bool)
    → binding_is_qualified b evidence ≡ ok q
    → q ≡ qualifies b evidence
unfolding binding_is_qualified source_is_qualified evidence_at
qualified_is b evidence q h = ground arith

pub ok-inj : {A : Type 0} {a b : A} → ◌≡◌ {A = Result MatchError A} (ok a) (ok b) → a ≡ b
ok-inj h = cc

sort_out-keep :
    (p : EvidenceBinding → Bool) (b : EvidenceBinding) (bs : List EvidenceBinding)
    (parts : List EvidenceBinding × List EvidenceBinding)
    → parts ≡ (keep p bs, keep (λ x. not (p x)) bs)
    → (q : Bool) → q ≡ p b
    → sort_out b q parts ≡ (keep p (b ∷ bs), keep (λ x. not (p x)) (b ∷ bs))
sort_out-keep p b bs parts h true e = rw (sym e, h) refl
sort_out-keep p b bs parts h false e = rw (sym e, h) refl

-- The two tuples of bindings are the bindings that count and the others.
pub split-keep :
    (bs : List EvidenceBinding) (evidence : List ProjectEvidence)
    (parts : List EvidenceBinding × List EvidenceBinding)
    → split_bindings bs evidence ≡ ok parts
    → parts ≡ (keep (λ b. qualifies b evidence) bs, keep (λ b. not (qualifies b evidence)) bs)
unfolding split_bindings
split-keep [] evidence parts h = sym (ok-inj h)
split-keep (b ∷ bs) evidence parts h =
    let (q, e, k) = steps_of_ok (binding_is_qualified b evidence) _ parts h in
    let (rest, f, done) = steps_of_ok (split_bindings bs evidence) _ parts k in
    sym (ok-inj done)
    ∙ sort_out-keep _ b bs rest (split-keep bs evidence rest f) q (qualified_is b evidence q e)

pub has-scopes_of_keep :
    (s : Scope) (bs : List EvidenceBinding) (evidence : List ProjectEvidence)
    → has s (scopes_of_bindings (keep (λ b. qualifies b evidence) bs)) ≡ supported s bs evidence
unfolding scopes_of_bindings
has-scopes_of_keep s [] evidence = ground arith
has-scopes_of_keep s (b ∷ bs) evidence = elim (Bool-cases (qualifies b evidence)) [
  | inl e ↦ rw e (rw (has-union s, has-set_of s, has-scopes_of_keep s bs evidence) refl)
  | inr e ↦ rw e (has-scopes_of_keep s bs evidence)
]

module _ (r : JobRequirement) (state : Option PersonalCapabilityState)
    (bs : List EvidenceBinding) where
  module _ (evidence : List ProjectEvidence) (states : List ProjectCapabilityState) where
    pub judged :
        (res : RequirementMatchResult)
        → assess_requirement r state bs evidence states ≡ ok res
        → judge r state
            (keep (λ b. qualifies b evidence) bs)
            (keep (λ b. not (qualifies b evidence)) bs)
            states
          ≡ res
    unfolding assess_requirement with_reasons
    judged res h =
        let (parts, e, done) = steps_of_ok (split_bindings bs evidence) _ res h in
        let checked =
          after_raise (not (is_list_nonempty (judge r state parts.0 parts.1 states).reasons))
            no_reasons (ok (judge r state parts.0 parts.1 states)) res done in
        rw (split-keep bs evidence parts e) at (ok-inj checked.1)

    -- Where the assessment gives a result: a scope is covered where it is required, reached by the
    -- candidate and supported by evidence that counts; it is missing where it is required and not
    -- covered.
    pub covered_scopes_lem :
        (s : Scope) (res : RequirementMatchResult)
        → assess_requirement r state bs evidence states ≡ ok res
        → (scope_in s res.covered_scopes
            ≡ scope_in s r.required_scopes && (state_has s state && supported s bs evidence))
          × (scope_in s res.missing_scopes
              ≡ scope_in s r.required_scopes && not (state_has s state && supported s bs evidence))
    unfolding judge
    covered_scopes_lem s res h =
        let required = set_of r.required_scopes in
        let personal = personal_scopes_of state in
        let counted = scopes_of_bindings (keep (λ b. qualifies b evidence) bs) in
        let covered_set = inter (inter personal required) (inter counted required) in
        rw
          (
            sym (judged res h),
            scope_in-ordered_scopes s covered_set,
            scope_in-ordered_scopes s (diff required covered_set),
            has_covered s personal counted required,
            has_missing s personal counted required,
            has-set_of s r.required_scopes,
            has-scopes_of_keep s bs evidence,
          )
          (refl, refl)
