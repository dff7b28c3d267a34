-- ===== src/Context/Boundary.antt =====
-- The validators of ContextCompilationRequest and ContextSelectionResult in
-- backend/career_harness/core/context/models.py, and the selector between them.

use mathlib.Core.List.Perm
use career_agent_harness.Base.{
  String, false, not, ◌||◌, ◌&&◌, List, [], ◌∷◌, ◌++◌, map, length, str_eq, ltb, any, ◌≡◌, refl,
  sym, ◌∙◌, ap, arith,
}
use career_agent_harness.Base.Result.{Result, ok, ◌>>◌, raise_if, after_raise}
use career_agent_harness.Base.Keys.{member, has_duplicates, is_subset, keep}
use career_agent_harness.Base.KeyLaws.{str_eq-sym}
use career_agent_harness.Base.Orders.{has_duplicates-perm}
use career_agent_harness.Context.Model.{
  class_value, ContextAsset, ContextAssetRef, IncludedContextAsset, ExcludedContextAsset,
  ContextSelectionResult, ContextCompilationRequest,
}
use career_agent_harness.Context.Select.{is_allowed, select}
use career_agent_harness.Context.Dispositions.{map-map, map-append, select-disposed}

pub data ContextError : Type 0 where
  repeated_classes repeated_candidates repeated_explicit unknown_explicit : ContextError
  explicit_over_limit repeated_disposition included_and_excluded : ContextError

-- `validate_selection_boundary`, but for the knowledge references, which the selector does not read.
unfoldable pub validate_selection_boundary :
    ContextCompilationRequest → Result ContextError (Unit {0})
validate_selection_boundary q = do
  raise_if (has_duplicates str_eq (map class_value q.allowed_asset_classes)) repeated_classes
  raise_if (has_duplicates str_eq (map (λ (a : ContextAsset). a.ref.asset_id) q.candidates))
      repeated_candidates
  raise_if (has_duplicates str_eq q.explicit_asset_ids) repeated_explicit
  raise_if
      (not (
        is_subset str_eq q.explicit_asset_ids
          (map (λ (a : ContextAsset). a.ref.asset_id) q.candidates)))
      unknown_explicit
  raise_if
      (ltb q.max_assets (
        length (
          keep
            (λ (a : ContextAsset).
              member str_eq a.ref.asset_id q.explicit_asset_ids
              && is_allowed a.ref.asset_class q.allowed_asset_classes)
            q.candidates)))
      explicit_over_limit
  ok tt

abbrev pub included_ids : ContextSelectionResult → List String
included_ids r = map (λ (i : IncludedContextAsset). i.ref.asset_id) r.included

abbrev pub excluded_ids : ContextSelectionResult → List String
excluded_ids r = map (λ (e : ExcludedContextAsset). e.ref.asset_id) r.excluded

-- `every_asset_has_one_disposition`
unfoldable pub every_asset_has_one_disposition :
    ContextSelectionResult → Result ContextError (Unit {0})
every_asset_has_one_disposition r = do
  raise_if (has_duplicates str_eq (included_ids r) || has_duplicates str_eq (excluded_ids r))
      repeated_disposition
  raise_if (any (λ id. member str_eq id (excluded_ids r)) (included_ids r)) included_and_excluded
  ok tt

any_member-append :
    (x : String) (xs ys : List String)
    → member str_eq x (xs ++ ys) ≡ member str_eq x xs || member str_eq x ys
any_member-append x [] ys = refl
any_member-append x (y ∷ xs) zs = ground (arith, any_member-append x xs zs)

apart :
    (xs ys : List String)
    → has_duplicates str_eq (xs ++ ys) ≡ false
    → (has_duplicates str_eq xs || has_duplicates str_eq ys ≡ false)
      × (any (λ id. member str_eq id ys) xs ≡ false)
apart [] ys h = (h, refl)
apart (x ∷ xs) ys h = ground (arith, any_member-append x xs ys, apart xs ys)

-- On a request that its validator accepts, the selector's result is accepted by the validator of the
-- result: no asset is listed twice, and none is both included and excluded.
pub select-accepted :
    (q : ContextCompilationRequest)
    → validate_selection_boundary q ≡ ok tt
    → every_asset_has_one_disposition (select q) ≡ ok tt
unfolding validate_selection_boundary every_asset_has_one_disposition
select-accepted q h =
    let id_of = λ (r : ContextAssetRef). r.asset_id in
    let (_, h1) =
      after_raise (has_duplicates str_eq (map class_value q.allowed_asset_classes)) _ _ tt h in
    let (unique, _) =
      after_raise (has_duplicates str_eq (map (λ (a : ContextAsset). a.ref.asset_id) q.candidates))
        _ _ tt h1 in
    let inc = map (λ (i : IncludedContextAsset). i.ref) (select q).included in
    let exc = map (λ (e : ExcludedContextAsset). e.ref) (select q).excluded in
    let refs = map (λ (a : ContextAsset). a.ref) q.candidates in
    let moved : has_duplicates str_eq (map id_of (inc ++ exc))
        ≡ has_duplicates str_eq (map id_of refs) =
      has_duplicates-perm str_eq str_eq-sym (Perm.map id_of (select-disposed q).0) in
    let joined : included_ids (select q) ++ excluded_ids (select q) ≡ map id_of (inc ++ exc) = sym (
      map-append id_of inc exc
      ∙ rw
          (
            map-map (λ (i : IncludedContextAsset). i.ref) id_of (select q).included,
            map-map (λ (e : ExcludedContextAsset). e.ref) id_of (select q).excluded,
          )
          refl) in
    let clean : has_duplicates str_eq (included_ids (select q) ++ excluded_ids (select q)) ≡ false =
      ap (has_duplicates str_eq) joined
      ∙ moved
      ∙ ap (has_duplicates str_eq) (map-map (λ (a : ContextAsset). a.ref) id_of q.candidates)
      ∙ unique in
    let (once, parted) = apart (included_ids (select q)) (excluded_ids (select q)) clean in
    rw (once, parted) refl
