-- ===== src/Context/Model.antt =====
-- The assets and the request that the selector reads, and its result
-- (backend/career_harness/core/context/models.py). Payloads and titles are left out.
use Prim.Native.Nat.{compare, Ordering}
use career_agent_harness.Base.{ℕ, String, List}
use career_agent_harness.Base.Compare.{compare_text, or_else}

pub data ContextAssetClass : Type 0 where
  personal_context career_state project_evidence market_evidence : ContextAssetClass
  career_history_outcome : ContextAssetClass

abbrev pub class_value : ContextAssetClass → String
class_value ContextAssetClass.personal_context = "personal_context"
class_value ContextAssetClass.career_state = "career_state"
class_value ContextAssetClass.project_evidence = "project_evidence"
class_value ContextAssetClass.market_evidence = "market_evidence"
class_value ContextAssetClass.career_history_outcome = "career_history_outcome"

pub record ContextAssetRef : Type 0 where
  pub asset_id : String
  pub asset_class : ContextAssetClass
  pub revision : ℕ

pub record ContextAsset : Type 0 where
  pub ref : ContextAssetRef
  pub relevance_terms : List String

pub data SelectionReason : Type 0 where
  explicit_reference relevance_term_match : SelectionReason

pub data ExclusionReason : Type 0 where
  asset_class_not_allowed no_relevance_match selection_limit : ExclusionReason

pub record IncludedContextAsset : Type 0 where
  pub ref : ContextAssetRef
  pub reason : SelectionReason
  pub matched_terms : List String

pub record ExcludedContextAsset : Type 0 where
  pub ref : ContextAssetRef
  pub reason : ExclusionReason

pub record ContextSelectionResult : Type 0 where
  pub included : List IncludedContextAsset
  pub excluded : List ExcludedContextAsset

-- Of a `ContextCompilationRequest` what the selector reads.
pub record ContextCompilationRequest : Type 0 where
  pub candidates : List ContextAsset
  pub allowed_asset_classes : List ContextAssetClass
  pub relevance_terms : List String
  pub explicit_asset_ids : List String
  pub max_assets : ℕ

-- The key `(asset_class.value, asset_id, revision)`.
abbrev pub by_asset_ref : ContextAssetRef → ContextAssetRef → Ordering
by_asset_ref a b =
    or_else (compare_text (class_value a.asset_class) (class_value b.asset_class))
      (or_else (compare_text a.asset_id b.asset_id) (compare a.revision b.revision))
