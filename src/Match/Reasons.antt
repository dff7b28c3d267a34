-- ===== src/Match/Reasons.antt =====
-- That `_assess_requirement` of backend/career_harness/core/match_gap/policy.py gives a reason in each
-- of its branches.
use career_agent_harness.Base.{
  Bool, true, false, not, ◌||◌, ◌&&◌, List, [], ◌∷◌, ◌++◌, Option, ◌≡◌, refl, ◌∙◌, inl, inr, arith,
  Bool-cases,
}
use career_agent_harness.Match.Scopes.{Scopes, set_of, inter, diff, is_nonempty, equal}
use career_agent_harness.Match.Model.{
  JobRequirement, PersonalCapabilityState, EvidenceBinding, ProjectCapabilityState, MatchReason,
}
use career_agent_harness.Match.Assess.{
  is_list_nonempty, when, personal_scopes_of, scopes_of_bindings, personal_reasons,
  evidence_reasons, gap_reasons, classify, judge,
}

nonempty-append :
    (xs ys : List MatchReason)
    → is_list_nonempty (xs ++ ys) ≡ is_list_nonempty xs || is_list_nonempty ys
nonempty-append [] ys = refl
nonempty-append (x ∷ xs) ys = refl

nonempty-when : (b : Bool) (x : MatchReason) → is_list_nonempty (when b x) ≡ b
nonempty-when true x = refl
nonempty-when false x = refl

-- Where nothing is missing, the candidate reaches all that is required.
one_missing : (r p q : Bool) → r && not ((p && r) && (q && r)) ≡ false → r && not (p && r) ≡ false
one_missing r p q h = ground arith

nothing_missing :
    (p q r : Scopes)
    → is_nonempty (diff r (inter (inter p r) (inter q r))) ≡ false
    → equal (inter p r) r ≡ true
nothing_missing p q r h = ground arith

personal-nonempty :
    (p r : Scopes) → is_list_nonempty (personal_reasons p r) ≡ equal p r || is_nonempty p
unfolding personal_reasons
personal-nonempty p r = ground arith

evidence-nonempty :
    (r q : Scopes) (qualified unqualified : List EvidenceBinding)
    → is_nonempty q ≡ true
    → is_list_nonempty (evidence_reasons r q qualified unqualified) ≡ true
unfolding evidence_reasons
evidence-nonempty r q qualified unqualified h = rw h refl

gap-nonempty :
    (r q : Scopes) (states : List ProjectCapabilityState)
    → is_list_nonempty states ≡ true
    → is_list_nonempty (gap_reasons r q states) ≡ true
unfolding gap_reasons
gap-nonempty r q states h = rw (nonempty-append, h) (ground arith)

classify-nonempty :
    (r p q m : Scopes) (states : List ProjectCapabilityState)
    → is_nonempty m ≡ true
    → is_nonempty p ≡ false
    → is_nonempty q ≡ false
    → is_list_nonempty (classify r p q m states).1 ≡ true
unfolding classify
classify-nonempty r p q m states h k l = elim (Bool-cases (is_list_nonempty states)) [
  | inl e ↦ rw (classify, h, k, l, e) (gap-nonempty r q states e)
  | inr e ↦ rw (classify, h, k, l, e) refl
]

-- A reason of the candidate's scopes, of the evidence or of the branch.
some_reason :
    (r p q m : Scopes) (qualified unqualified : List EvidenceBinding)
    (states : List ProjectCapabilityState)
    → (is_nonempty m ≡ false → equal p r ≡ true)
    → is_list_nonempty (personal_reasons p r)
        || (is_list_nonempty (evidence_reasons r q qualified unqualified)
            || is_list_nonempty (classify r p q m states).1)
      ≡ true
some_reason r p q m qualified unqualified states full =
    let personal = personal-nonempty p r in
    elim (Bool-cases (is_nonempty p)) [
      | inl e ↦ rw (personal, e) (ground arith)
      | inr e ↦ elim (Bool-cases (is_nonempty q)) [
        | inl f ↦ rw (evidence-nonempty r q qualified unqualified f) (ground arith)
        | inr f ↦ elim (Bool-cases (is_nonempty m)) [
          | inl g ↦ rw (classify-nonempty r p q m states g e f) (ground arith)
          | inr g ↦ rw (personal, full g) (ground arith)
        ]
      ]
    ]

-- Every result has a reason.
pub judge-reasons :
    (r : JobRequirement) (state : Option PersonalCapabilityState)
    (qualified unqualified : List EvidenceBinding) (states : List ProjectCapabilityState)
    → is_list_nonempty (judge r state qualified unqualified states).reasons ≡ true
unfolding judge
judge-reasons r state qualified unqualified states =
    let required = set_of r.required_scopes in
    let p = inter (personal_scopes_of state) required in
    let q = inter (scopes_of_bindings qualified) required in
    let m = diff required (inter p q) in
    let first = personal_reasons p required in
    let second = evidence_reasons required q qualified unqualified in
    nonempty-append (first ++ second) (classify required p q m states).1
    ∙ rw (nonempty-append first second) (
        ground (
          arith,
          some_reason required p q m qualified unqualified states
              (nothing_missing (personal_scopes_of state) (scopes_of_bindings qualified) required),
        ))
