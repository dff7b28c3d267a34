-- ===== src/Today/Refs.antt =====
-- `EntityKind` (backend/career_harness/core/common.py) and `TodaySourceRef` (core/today/models.py): the
-- equality and the order of exact references.
use Prim.Native.Nat.{compare, Ordering}
use Prim.Native.Nat.Ordering.{eq}
use career_agent_harness.Base.{
  ℕ, String, Bool, true, not, ◌&&◌, List, [], ◌∷◌, Option, some, str_eq, ◌==◌, eq_iff, eq_refl, ◌≡◌,
  refl, ap, sym, ◌∙◌, arith,
}
use career_agent_harness.Base.Keys.{find, keep}
use career_agent_harness.Base.Compare.{
  compare_text, compare_text-Lawful, compare_text-eq, compare-Lawful, Lawful, on-Lawful, or_else,
  or_else-eq, or_else-Lawful,
}

pub data EntityKind : Type 0 where
  evidence extracted_claim fact candidate capability_candidate market project project_evidence
        project_source_manifest job job_requirement match_assessment opportunity
        project_enhancement_task resume resume_patch resume_revision application interview prep
        outcome approval run snapshot context_manifest :
      EntityKind

unfoldable pub kind_value : EntityKind → String
kind_value EntityKind.evidence = "evidence"
kind_value EntityKind.extracted_claim = "extracted_claim"
kind_value EntityKind.fact = "fact"
kind_value EntityKind.candidate = "candidate"
kind_value EntityKind.capability_candidate = "capability_candidate"
kind_value EntityKind.market = "market"
kind_value EntityKind.project = "project"
kind_value EntityKind.project_evidence = "project_evidence"
kind_value EntityKind.project_source_manifest = "project_source_manifest"
kind_value EntityKind.job = "job"
kind_value EntityKind.job_requirement = "job_requirement"
kind_value EntityKind.match_assessment = "match_assessment"
kind_value EntityKind.opportunity = "opportunity"
kind_value EntityKind.project_enhancement_task = "project_enhancement_task"
kind_value EntityKind.resume = "resume"
kind_value EntityKind.resume_patch = "resume_patch"
kind_value EntityKind.resume_revision = "resume_revision"
kind_value EntityKind.application = "application"
kind_value EntityKind.interview = "interview"
kind_value EntityKind.prep = "prep"
kind_value EntityKind.outcome = "outcome"
kind_value EntityKind.approval = "approval"
kind_value EntityKind.run = "run"
kind_value EntityKind.snapshot = "snapshot"
kind_value EntityKind.context_manifest = "context_manifest"

all_kinds : List EntityKind
all_kinds =
    EntityKind.evidence ∷ EntityKind.extracted_claim ∷ EntityKind.fact ∷ EntityKind.candidate
    ∷ EntityKind.capability_candidate ∷ EntityKind.market ∷ EntityKind.project
    ∷ EntityKind.project_evidence ∷ EntityKind.project_source_manifest ∷ EntityKind.job
    ∷ EntityKind.job_requirement ∷ EntityKind.match_assessment ∷ EntityKind.opportunity
    ∷ EntityKind.project_enhancement_task ∷ EntityKind.resume ∷ EntityKind.resume_patch
    ∷ EntityKind.resume_revision ∷ EntityKind.application ∷ EntityKind.interview ∷ EntityKind.prep
    ∷ EntityKind.outcome ∷ EntityKind.approval ∷ EntityKind.run ∷ EntityKind.snapshot
    ∷ EntityKind.context_manifest ∷ []

kind_of : String → Option EntityKind
unfolding kind_value all_kinds
kind_of s = find (λ k. str_eq (kind_value k) s) all_kinds

kind_of-kind_value : (k : EntityKind) → kind_of (kind_value k) ≡ some k
unfolding kind_of kind_value all_kinds
kind_of-kind_value EntityKind.evidence = refl
kind_of-kind_value EntityKind.extracted_claim = refl
kind_of-kind_value EntityKind.fact = refl
kind_of-kind_value EntityKind.candidate = refl
kind_of-kind_value EntityKind.capability_candidate = refl
kind_of-kind_value EntityKind.market = refl
kind_of-kind_value EntityKind.project = refl
kind_of-kind_value EntityKind.project_evidence = refl
kind_of-kind_value EntityKind.project_source_manifest = refl
kind_of-kind_value EntityKind.job = refl
kind_of-kind_value EntityKind.job_requirement = refl
kind_of-kind_value EntityKind.match_assessment = refl
kind_of-kind_value EntityKind.opportunity = refl
kind_of-kind_value EntityKind.project_enhancement_task = refl
kind_of-kind_value EntityKind.resume = refl
kind_of-kind_value EntityKind.resume_patch = refl
kind_of-kind_value EntityKind.resume_revision = refl
kind_of-kind_value EntityKind.application = refl
kind_of-kind_value EntityKind.interview = refl
kind_of-kind_value EntityKind.prep = refl
kind_of-kind_value EntityKind.outcome = refl
kind_of-kind_value EntityKind.approval = refl
kind_of-kind_value EntityKind.run = refl
kind_of-kind_value EntityKind.snapshot = refl
kind_of-kind_value EntityKind.context_manifest = refl

pub record TodaySourceRef : Type 0 where
  pub entity_id : String
  pub kind : EntityKind
  pub revision : ℕ

-- Equality of the keys `(entity_id, kind, revision)`.
unfoldable pub same_ref : TodaySourceRef → TodaySourceRef → Bool
same_ref a b =
    str_eq a.entity_id b.entity_id
    && str_eq (kind_value a.kind) (kind_value b.kind)
    && a.revision == b.revision

-- The sort key `(entity_id, kind.value, revision)`.
abbrev pub by_ref : TodaySourceRef → TodaySourceRef → Ordering
by_ref a b =
    or_else (compare_text a.entity_id b.entity_id) (
      or_else (compare_text (kind_value a.kind) (kind_value b.kind))
        (compare a.revision b.revision))

-- `dict.fromkeys(refs)`, and the values of the dictionary that is keyed by the whole reference.
unfoldable pub distinct : List TodaySourceRef → List TodaySourceRef
distinct [] = []
distinct (x ∷ xs) = x ∷ keep (λ y. not (same_ref x y)) (distinct xs)

pub by_ref-Lawful : Lawful by_ref
by_ref-Lawful =
    or_else-Lawful (on-Lawful (λ (r : TodaySourceRef). r.entity_id) compare_text-Lawful) (
      or_else-Lawful (on-Lawful (λ (r : TodaySourceRef). kind_value r.kind) compare_text-Lawful)
        (on-Lawful (λ (r : TodaySourceRef). r.revision) compare-Lawful))

ref_ext :
    (a b : TodaySourceRef)
    → a.entity_id ≡ b.entity_id
    → kind_value a.kind ≡ kind_value b.kind
    → a.revision ≡ b.revision
    → a ≡ b
ref_ext a b p q r =
    let k : some a.kind ≡ some b.kind =
      sym (kind_of-kind_value a.kind) ∙ ap kind_of q ∙ kind_of-kind_value b.kind in
    let kinds : a.kind ≡ b.kind = ground arith in
    λ i. record { entity_id = p i; kind = kinds i; revision = r i }

-- References that compare equal, or that are the same, are equal.
pub by_ref-eq : (a b : TodaySourceRef) → by_ref a b ≡ eq → a ≡ b
by_ref-eq a b h =
    let first = or_else-eq (compare_text a.entity_id b.entity_id) _ h in
    let second = or_else-eq (compare_text (kind_value a.kind) (kind_value b.kind)) _ first.1 in
    ref_ext a b (compare_text-eq _ _ first.0) (compare_text-eq _ _ second.0)
      (ground (arith, second.1))

all_three : (a b c : Bool) → a && b && c ≡ true → (a ≡ true) × (b ≡ true) × (c ≡ true)
all_three a b c h = ground arith

pub same_ref-eq : (a b : TodaySourceRef) → same_ref a b ≡ true → a ≡ b
unfolding same_ref
same_ref-eq a b h =
    let (i, k, r) = all_three (str_eq a.entity_id b.entity_id) _ _ h in
    ref_ext a b ((eq_iff _ _).0 i) ((eq_iff _ _).0 k) (ground (arith, r))

pub same_ref_refl : (a : TodaySourceRef) → same_ref a a ≡ true
unfolding same_ref
same_ref_refl a = rw (eq_refl a.entity_id, eq_refl (kind_value a.kind)) (ground arith)
