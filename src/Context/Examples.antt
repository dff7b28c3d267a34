-- ===== src/Context/Examples.antt =====
-- A request with an explicit asset, a relevant one, one without a match and one of another class.
use mathlib.Core.Logic.Or
use mathlib.Core.List.{Nodup, Nodup-cons, Nodup-nil, mem-cons, not-mem-nil, Perm}
use mathlib.Core.List.Perm
use career_agent_harness.Base.{
  String, List, [], ◌∷◌, ◌++◌, map, length, str_eq, ◌≤◌, ◌≡◌, refl, ap, arith,
}
use career_agent_harness.Context.Model.{
  ContextAssetClass, ContextAsset, IncludedContextAsset, ExcludedContextAsset,
  ContextCompilationRequest,
}
use career_agent_harness.Context.Select.{select}
use career_agent_harness.Base.Result.{ok}
use career_agent_harness.Context.Boundary.{
  validate_selection_boundary, every_asset_has_one_disposition, select-accepted,
}
use career_agent_harness.Context.Dispositions.{select-disposed}
use career_agent_harness.Context.Unordered.{select-perm}

abbrev asset : String → ContextAssetClass → List String → ContextAsset
asset id class terms = record {
  ref = record { asset_id = id; asset_class = class; revision = 1 };
  relevance_terms = terms;
}

abbrev request : ContextCompilationRequest
request = record {
  candidates =
      asset "notes" ContextAssetClass.career_state ("rust" ∷ [])
      ∷ asset "resume" ContextAssetClass.personal_context []
      ∷ asset "diary" ContextAssetClass.personal_context ("cooking" ∷ [])
      ∷ asset "salaries" ContextAssetClass.market_evidence ("rust" ∷ [])
      ∷ [];
  allowed_asset_classes = ContextAssetClass.personal_context ∷ ContextAssetClass.career_state ∷ [];
  relevance_terms = "rust" ∷ "python" ∷ [];
  explicit_asset_ids = "resume" ∷ [];
  max_assets = 1;
}

select-disposed_example :
    Perm
      (map (λ (i : IncludedContextAsset). i.ref) (select request).included
        ++ map (λ (e : ExcludedContextAsset). e.ref) (select request).excluded)
      (map (λ (a : ContextAsset). a.ref) request.candidates)
    × (length (select request).included ≤ request.max_assets)
select-disposed_example = select-disposed request

select-accepted_example : every_asset_has_one_disposition (select request) ≡ ok tt
unfolding validate_selection_boundary
select-accepted_example = select-accepted request refl

abbrev notes : ContextAsset
notes = asset "notes" ContextAssetClass.career_state ("rust" ∷ [])

abbrev plans : ContextAsset
plans = asset "plans" ContextAssetClass.career_state ("rust" ∷ [])

two_ids-Nodup : Nodup {A = String} ("notes" ∷ "plans" ∷ [])
two_ids-Nodup = Nodup-cons.1 (
  λ m.
      Or.elim (hlevel) (mem-cons.0 m) (λ e. absurd (ground (arith, ap (str_eq "notes") e)))
        not-mem-nil,
  Nodup-cons.1 (not-mem-nil, Nodup-nil),
)

select-perm_example :
    select (record request { candidates = plans ∷ notes ∷ [] })
    ≡ select (record request { candidates = notes ∷ plans ∷ [] })
select-perm_example =
    select-perm (record request { candidates = notes ∷ plans ∷ [] }) (plans ∷ notes ∷ [])
      two_ids-Nodup (Perm.swap plans notes [])
