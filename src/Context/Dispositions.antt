-- ===== src/Context/Dispositions.antt =====
-- What the selector of backend/career_harness/core/context/compiler.py does with each candidate.
use mathlib.Core.List.{Perm, append_assoc}
use mathlib.Core.List.Perm
use mathlib.Core.List.Permᴰ
use career_agent_harness.Base.{
  String, Bool, true, false, List, [], ◌∷◌, ◌++◌, map, length, take, drop, ◌≤◌, ◌≡◌, refl, sym, ap,
  arith, Bool-cases, inl, inr, length-take, take-append-drop, str_eq, if◌then◌else◌,
}
use career_agent_harness.Base.Keys.{member}
use career_agent_harness.Base.Sort.{sort_by, sort_by-perm}
use career_agent_harness.Context.Model.{
  ContextAsset, ContextAssetRef, IncludedContextAsset, ExcludedContextAsset,
  ContextCompilationRequest, selection_limit, explicit_reference,
}
use career_agent_harness.Context.Select.{
  Ranked, Sorting, is_allowed, matched_terms, by_terms, exclude, dispose, dispose_all, by_rank,
  by_excluded, select,
}

module _ {A : Type 0} {B : Type 0} (f : A → B) where
  pub map-append : (xs ys : List A) → map f (xs ++ ys) ≡ map f xs ++ map f ys
  map-append [] ys = refl
  map-append (x ∷ xs) ys = ap (λ l. f x ∷ l) (map-append xs ys)

  length-map : (xs : List A) → length (map f xs) ≡ length xs
  length-map [] = refl
  length-map (x ∷ xs) = omega (arith, length-map xs)

  pub map-map : {C : Type 0} (g : B → C) (xs : List A) → map g (map f xs) ≡ map (λ x. g (f x)) xs
  map-map g [] = refl
  map-map g (x ∷ xs) = ap (λ l. g (f x) ∷ l) (map-map g xs)

append_comm : {A : Type 0} (xs ys : List A) → Perm (xs ++ ys) (ys ++ xs)
append_comm xs ys = ∣ Permᴰ.append_comm xs ys ∣₁

abbrev pub ranked_ref : Ranked → ContextAssetRef
ranked_ref r = r.item.ref

abbrev pub refs_in : Sorting → List ContextAssetRef
refs_in s = map ranked_ref s.ranked ++ map (λ (e : ExcludedContextAsset). e.ref) s.excluded

by_terms-perm :
    (ref : ContextAssetRef) (terms : List String) (rest : Sorting)
    → Perm (refs_in (by_terms ref terms rest)) (ref ∷ refs_in rest)
by_terms-perm ref [] rest = ∣ Permᴰ.middle ref (map ranked_ref rest.ranked) _ ∣₁
by_terms-perm ref (t ∷ ts) rest = Perm.rfl

choose-perm :
    (explicit : Bool) (q : ContextCompilationRequest) (asset : ContextAsset) (rest : Sorting)
    → Perm
        (refs_in (
          if explicit
          then record rest {
            ranked =
                record {
                  explicit = 1;
                  matches = 0;
                  item = record {
                    ref = asset.ref;
                    reason = explicit_reference;
                    matched_terms = [];
                  };
                }
                ∷ rest.ranked;
          }
          else by_terms asset.ref (matched_terms q.relevance_terms asset.relevance_terms) rest))
        (asset.ref ∷ refs_in rest)
choose-perm true q asset rest = Perm.rfl
choose-perm false q asset rest = by_terms-perm asset.ref _ rest

dispose-perm :
    (q : ContextCompilationRequest) (asset : ContextAsset) (rest : Sorting)
    → Perm (refs_in (dispose q asset rest)) (asset.ref ∷ refs_in rest)
unfolding dispose
dispose-perm q asset rest =
    elim (Bool-cases (is_allowed asset.ref.asset_class q.allowed_asset_classes)) [
      | inl e ↦
          rw (e, dispose)
            (choose-perm (member str_eq asset.ref.asset_id q.explicit_asset_ids) q asset rest)
      | inr e ↦ rw (e, dispose) (∣ Permᴰ.middle asset.ref (map ranked_ref rest.ranked) _ ∣₁)
    ]

pub dispose_all-perm :
    (q : ContextCompilationRequest) (assets : List ContextAsset)
    → Perm (refs_in (dispose_all q assets)) (map (λ (a : ContextAsset). a.ref) assets)
unfolding dispose_all
dispose_all-perm q [] = Perm.rfl
dispose_all-perm q (a ∷ rest) =
    Perm.trans (dispose-perm q a (dispose_all q rest)) (Perm.cons a.ref (dispose_all-perm q rest))

module _ (q : ContextCompilationRequest) where
  abbrev sorting : Sorting
  sorting = dispose_all q q.candidates

  abbrev order : List Ranked
  order = sort_by by_rank sorting.ranked

  abbrev cut : List ExcludedContextAsset
  cut = map (λ (r : Ranked). exclude selection_limit r.item.ref) (drop q.max_assets order)

  included_refs :
      map
        (λ (i : IncludedContextAsset). i.ref)
        (map (λ (r : Ranked). r.item) (take q.max_assets order))
      ≡ map ranked_ref (take q.max_assets order)
  included_refs = map-map _ _ (take q.max_assets order)

  excluded-perm :
      Perm
        (map (λ (e : ExcludedContextAsset). e.ref) (sort_by by_excluded (sorting.excluded ++ cut)))
        (map ranked_ref (drop q.max_assets order)
          ++ map (λ (e : ExcludedContextAsset). e.ref) sorting.excluded)
  excluded-perm = Perm.trans (Perm.map _ (sort_by-perm by_excluded (sorting.excluded ++ cut))) (
      rw
        (
          map-append (λ (e : ExcludedContextAsset). e.ref) sorting.excluded cut,
          map-map (λ (r : Ranked). exclude selection_limit r.item.ref)
              (λ (e : ExcludedContextAsset). e.ref) (drop q.max_assets order),
        )
        (append_comm (map (λ (e : ExcludedContextAsset). e.ref) sorting.excluded) _))

  -- Every candidate gets exactly one disposition: the references that are included and those that
  -- are excluded are together those of the candidates. At most `max_assets` are included.
  pub select-disposed :
      Perm
        (map (λ (i : IncludedContextAsset). i.ref) (select q).included
          ++ map (λ (e : ExcludedContextAsset). e.ref) (select q).excluded)
        (map (λ (a : ContextAsset). a.ref) q.candidates)
      × (length (select q).included ≤ q.max_assets)
  unfolding select
  select-disposed = (
    Perm.trans
        (Perm.append_left (map (λ (i : IncludedContextAsset). i.ref) (select q).included)
          excluded-perm)
        (rw
          (
            included_refs,
            sym (
                append_assoc (map ranked_ref (take q.max_assets order))
                  (map ranked_ref (drop q.max_assets order))
                  (map (λ (e : ExcludedContextAsset). e.ref) sorting.excluded)),
            sym (map-append ranked_ref (take q.max_assets order) (drop q.max_assets order)),
            take-append-drop q.max_assets order,
          )
          (Perm.trans
            (Perm.append_right _ (Perm.map ranked_ref (sort_by-perm by_rank sorting.ranked)))
            (dispose_all-perm q q.candidates))),
    rw
        (
          length-map (λ (r : Ranked). r.item) (take q.max_assets order),
          length-take q.max_assets order,
        )
        (omega arith),
  )
