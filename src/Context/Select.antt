-- ===== src/Context/Select.antt =====
-- `DeterministicRelevanceSelector.select` of backend/career_harness/core/context/compiler.py.
use Prim.Native.Nat.{compare, Ordering}
use career_agent_harness.Base.{
  ℕ, String, Bool, List, [], ◌∷◌, ◌++◌, map, str_eq, if◌then◌else◌, length, take, drop, any,
}
use career_agent_harness.Base.Keys.{member, keep}
use career_agent_harness.Base.Compare.{compare_text, or_else}
use career_agent_harness.Base.Sort.{sort_by}
use career_agent_harness.Context.Model.{
  ContextAssetClass, class_value, ContextAsset, ContextAssetRef, explicit_reference,
  relevance_term_match, ExclusionReason, asset_class_not_allowed, no_relevance_match,
  selection_limit, IncludedContextAsset, ExcludedContextAsset, ContextSelectionResult,
  ContextCompilationRequest, by_asset_ref,
}

-- An entry of `ranked`; the asset's reference is that of what would be included.
pub record Ranked : Type 0 where
  pub explicit : ℕ
  pub matches : ℕ
  pub item : IncludedContextAsset

abbrev pub is_allowed : ContextAssetClass → List ContextAssetClass → Bool
is_allowed c = any (λ d. str_eq (class_value d) (class_value c))

-- `tuple(sorted(requested_terms & set(asset.relevance_terms)))`; the terms of an asset are distinct.
unfoldable pub matched_terms : List String → List String → List String
matched_terms requested terms = sort_by compare_text (keep (λ t. member str_eq t requested) terms)

-- What the loop has collected.
pub record Sorting : Type 0 where
  pub ranked : List Ranked
  pub excluded : List ExcludedContextAsset

abbrev pub exclude : ExclusionReason → ContextAssetRef → ExcludedContextAsset
exclude reason ref = record { ref = ref; reason = reason }

abbrev pub by_terms : ContextAssetRef → List String → Sorting → Sorting
by_terms ref [] rest = record rest { excluded = exclude no_relevance_match ref ∷ rest.excluded }
by_terms ref (t ∷ ts) rest = record rest {
  ranked =
      record {
        explicit = 0;
        matches = length (t ∷ ts);
        item = record { ref = ref; reason = relevance_term_match; matched_terms = t ∷ ts };
      }
      ∷ rest.ranked;
}

-- The body of the loop for one candidate.
unfoldable pub dispose : ContextCompilationRequest → ContextAsset → Sorting → Sorting
dispose q asset rest =
    if is_allowed asset.ref.asset_class q.allowed_asset_classes
    then (if member str_eq asset.ref.asset_id q.explicit_asset_ids
        then record rest {
          ranked =
              record {
                explicit = 1;
                matches = 0;
                item = record { ref = asset.ref; reason = explicit_reference; matched_terms = [] };
              }
              ∷ rest.ranked;
        }
        else by_terms asset.ref (matched_terms q.relevance_terms asset.relevance_terms) rest)
    else record rest { excluded = exclude asset_class_not_allowed asset.ref ∷ rest.excluded }

unfoldable pub dispose_all : ContextCompilationRequest → List ContextAsset → Sorting
dispose_all q [] = record { ranked = []; excluded = [] }
dispose_all q (asset ∷ rest) = dispose q asset (dispose_all q rest)

-- The key `(-explicit, -matches, asset_class.value, asset_id, revision)`.
abbrev pub by_rank : Ranked → Ranked → Ordering
by_rank a b =
    or_else (compare b.explicit a.explicit)
      (or_else (compare b.matches a.matches) (by_asset_ref a.item.ref b.item.ref))

abbrev pub by_excluded : ExcludedContextAsset → ExcludedContextAsset → Ordering
by_excluded a b = by_asset_ref a.ref b.ref

-- `select`
unfoldable pub select : ContextCompilationRequest → ContextSelectionResult
select q =
    let sorting = dispose_all q q.candidates in
    let ranked = sort_by by_rank sorting.ranked in
    record {
      included = map (λ (r : Ranked). r.item) (take q.max_assets ranked);
      excluded = sort_by by_excluded (
          sorting.excluded
          ++ map (λ (r : Ranked). exclude selection_limit r.item.ref) (drop q.max_assets ranked));
    }
