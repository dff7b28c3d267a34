-- ===== src/Match/Complete.antt =====
-- The validator of `MatchAssessment` (backend/career_harness/core/match_gap/models.py) and
-- `assess_match` (core/match_gap/policy.py) as a whole.
use career_agent_harness.Base.{
  ℕ, String, false, List, [], ◌∷◌, none, some, map, ◌≡◌, refl, sym, ◌∙◌, inl, inr, arith, ◌↔◌,
}
use career_agent_harness.Base.Result.{Result, ok, err, Result-cases}
use career_agent_harness.Base.Keys.{ref_eq, member, has_duplicates}
use career_agent_harness.Base.KeyLaws.{ref_eq-sym, ref_eq_refl, same_set_self}
use career_agent_harness.Base.Sort.{sort_by}
use career_agent_harness.Base.Sorted.{has_duplicates-sort_by, all-sort_by}
use career_agent_harness.Match.Scopes.{set_of}
use career_agent_harness.Match.Model.{
  JobRequirement, PersonalCapabilityState, RequirementMatchResult, MatchPolicyInput, MatchError,
}
use career_agent_harness.Match.Validate.{validate}
use career_agent_harness.Match.Assessment.{
  by_requirement, requirement_key, result_key, expected_scopes, check_partition, check_partitions,
  every_requirement_has_one_complete_result, assess_match, is_mapped,
}
use career_agent_harness.Match.Sourced.{validate-sourced}
use career_agent_harness.Match.Total.{IsPartition, Answers, assess_each-Answers}

expected_scopes-none :
    (key : String × ℕ) (rs : List JobRequirement)
    → member ref_eq key (map requirement_key rs) ≡ false
    → expected_scopes key rs ≡ none
unfolding expected_scopes
expected_scopes-none key [] h = refl
expected_scopes-none key (r ∷ rs) h =
    let rest = expected_scopes-none key rs (ground arith) in
    let other : ref_eq (requirement_key r) key ≡ false = ground arith in rw (rest, other) refl

-- What is expected of each requirement is that its own scopes are parted.
Expected : List JobRequirement → List JobRequirement → Type 0
Expected everything [] = Unit
Expected everything (r ∷ rs) =
    (expected_scopes (requirement_key r) everything ≡ some (set_of r.required_scopes))
    × Expected everything rs

Expected-cons :
    (x : JobRequirement) (everything rs : List JobRequirement)
    → Expected everything rs
    → Expected (x ∷ everything) rs
unfolding Expected expected_scopes
Expected-cons x everything [] h = tt
Expected-cons x everything (r ∷ rs) h = (rw h.0 refl, Expected-cons x everything rs h.1)

Expected-self :
    (rs : List JobRequirement)
    → has_duplicates ref_eq (map requirement_key rs) ≡ false
    → Expected rs rs
unfolding Expected expected_scopes
Expected-self [] h = tt
Expected-self (r ∷ rs) h =
    let fresh : member ref_eq (requirement_key r) (map requirement_key rs) ≡ false = ground arith in
    (
      rw (expected_scopes-none (requirement_key r) rs fresh, ref_eq_refl (requirement_key r)) refl,
      Expected-cons r rs rs (Expected-self rs (ground arith)),
    )

Answers-keys :
    (rs : List JobRequirement) (xs : List RequirementMatchResult)
    → Answers rs xs
    → map result_key xs ≡ map requirement_key rs
unfolding Answers
Answers-keys [] [] h = refl
Answers-keys [] (x ∷ xs) h = absurd h
Answers-keys (r ∷ rs) [] h = absurd h
Answers-keys (r ∷ rs) (x ∷ xs) (key, part, more) = rw (key, Answers-keys rs xs more) refl

check_partitions-Answers :
    (everything rs : List JobRequirement) (xs : List RequirementMatchResult)
    → Expected everything rs
    → Answers rs xs
    → check_partitions everything xs ≡ ok tt
unfolding Expected Answers IsPartition check_partitions check_partition
check_partitions-Answers everything [] [] e h = refl
check_partitions-Answers everything [] (x ∷ xs) e h = absurd h
check_partitions-Answers everything (r ∷ rs) [] e h = absurd h
check_partitions-Answers everything (r ∷ rs) (x ∷ xs) e (key, part, more) =
    rw (key, e.0, part.0, part.1) (check_partitions-Answers everything rs xs e.1 more)

accepts-Answers :
    (rs : List JobRequirement) (xs : List RequirementMatchResult)
    → has_duplicates ref_eq (map requirement_key rs) ≡ false
    → Answers rs xs
    → every_requirement_has_one_complete_result rs xs ≡ ok tt
unfolding every_requirement_has_one_complete_result
accepts-Answers rs xs h answers =
    rw (Answers-keys rs xs answers, h, same_set_self ref_eq ref_eq_refl (map requirement_key rs))
      (check_partitions-Answers rs rs xs (Expected-self rs h) answers)

-- On input that passes validation `assess_match` gives a result: one for each requirement, in the
-- order of identifier and revision, each of which parts the required scopes into covered and
-- missing ones. No dictionary look-up fails and the validator of the assessment accepts.
pub assess_match-Answers :
    (i : MatchPolicyInput) (states : List PersonalCapabilityState)
    → validate i ≡ ok states
    → (xs : List RequirementMatchResult) × (assess_match i
        ≡ ok (sort_by by_requirement i.requirements, xs))
      × Answers (sort_by by_requirement i.requirements) xs
unfolding assess_match
assess_match-Answers i states h =
    let (sourced, distinct, mapped) = validate-sourced i states h in
    let rs = sort_by by_requirement i.requirements in
    let (xs, e, answers) = assess_each-Answers i states sourced rs in
    let still =
      has_duplicates-sort_by by_requirement requirement_key ref_eq ref_eq-sym i.requirements in
    let mapped' = all-sort_by by_requirement is_mapped i.requirements ∙ mapped in
    (xs, rw (h, mapped', e, accepts-Answers rs xs (still ∙ distinct) answers) refl, answers)

not_err : {A : Type 0} {a : A} {e : MatchError} → ◌≡◌ {A = Result MatchError A} (ok a) (err e) → ⊥
not_err h = cc

-- `assess_match` raises exactly what the validation raises.
pub assess_match-err :
    (i : MatchPolicyInput) (e : MatchError) → (assess_match i ≡ err e) ↔ (validate i ≡ err e)
unfolding assess_match
assess_match-err i e = elim (Result-cases (validate i)) [
  | inl (states, h) ↦
      let (_, done, _) = assess_match-Answers i states h in
      (λ k. absurd (not_err (sym done ∙ k)), λ k. absurd (not_err (sym h ∙ k)))
  | inr (x, h) ↦ rw h (λ k. cc, λ k. cc)
]
