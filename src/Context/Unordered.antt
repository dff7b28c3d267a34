-- ===== src/Context/Unordered.antt =====
-- The order in which the candidates are given has no influence on the selection
-- (backend/career_harness/core/context/compiler.py).
use Prim.Native.Nat.{compare}
use Prim.Native.Nat.Ordering.{eq}
use mathlib.Core.Logic.Or
use mathlib.Core.List.{Mem, Nodup, Nodup-cons, mem-cons, not-mem-nil, Perm}
use mathlib.Core.List.Nodup
use mathlib.Core.List.Perm
use text.Mathlib.TextEquality.{IsScalar-prop}
use career_agent_harness.Base.{
  ℕ, String, List, [], ◌∷◌, ◌++◌, map, drop, str_eq, ◌≡◌, refl, sym, ◌∙◌, ap, arith, inl, inr,
  Bool-cases,
}
use career_agent_harness.Base.Keys.{member}
use career_agent_harness.Base.Orders.{concat_map, concat_map-perm}
use career_agent_harness.Base.Compare.{
  Lawful, compare_text, compare_text-Lawful, compare_text-eq, compare-Lawful, or_else-eq,
  or_else-Lawful, on-Lawful,
}
use career_agent_harness.Base.Sort.{sort_by, sort_by-perm, sort_by-eq_of_perm}
use career_agent_harness.Context.Model.{
  ContextAsset, ContextAssetRef, IncludedContextAsset, ExcludedContextAsset,
  ContextCompilationRequest, class_value, by_asset_ref, selection_limit,
}
use career_agent_harness.Context.Select.{
  Ranked, Sorting, is_allowed, matched_terms, by_terms, exclude, dispose, dispose_all, by_rank,
  by_excluded, select,
}
use career_agent_harness.Context.Dispositions.{
  map-append, map-map, ranked_ref, dispose_all-perm, select-disposed,
}

mem-map : {A B : Type 0} (f : A → B) (a : A) (xs : List A) → Mem a xs → Mem (f a) (map f xs)
mem-map f a [] m = absurd (not-mem-nil m)
mem-map f a (x ∷ xs) m =
    Or.elim (hlevel) (mem-cons.0 m) (λ e. mem-cons.1 (Or.inl (ap f e)))
      (λ h. mem-cons.1 (Or.inr (mem-map f a xs h)))

-- What has no key twice.
unique_by :
    {A : Type 0} (s : (a b : A) → IsProp (a ≡ b)) (f : A → String) (xs : List A)
    → Nodup (map f xs)
    → (a b : A) → Mem a xs
    → Mem b xs
    → f a ≡ f b
    → a ≡ b
unique_by s f [] n a b m k e = absurd (not-mem-nil m)
unique_by s f (x ∷ xs) n a b m k e =
    let parts = Nodup-cons.0 n in
    Or.elim (s a b) (mem-cons.0 m)
      (λ p.
        Or.elim (s a b) (mem-cons.0 k) (λ q. p ∙ sym q)
          (λ q. absurd (parts.0 (rw (← ap f p, e) (mem-map f b xs q)))))
      (λ p.
        Or.elim (s a b) (mem-cons.0 k)
          (λ q. absurd (parts.0 (rw (← ap f q, ← e) (mem-map f a xs p))))
          (λ q. unique_by s f xs parts.1 a b p q e))

by_asset_ref-Lawful : Lawful by_asset_ref
by_asset_ref-Lawful =
    or_else-Lawful
      (on-Lawful (λ (r : ContextAssetRef). class_value r.asset_class) compare_text-Lawful)
      (or_else-Lawful (on-Lawful (λ (r : ContextAssetRef). r.asset_id) compare_text-Lawful)
        (on-Lawful (λ (r : ContextAssetRef). r.revision) compare-Lawful))

by_asset_ref-id : (a b : ContextAssetRef) → by_asset_ref a b ≡ eq → a.asset_id ≡ b.asset_id
by_asset_ref-id a b h =
    let rest =
      (or_else-eq (compare_text (class_value a.asset_class) (class_value b.asset_class)) _ h).1 in
    compare_text-eq a.asset_id b.asset_id
      (or_else-eq (compare_text a.asset_id b.asset_id) (compare a.revision b.revision) rest).0

abbrev empty : Sorting
empty = record { ranked = []; excluded = [] }

by_terms-parts :
    (ref : ContextAssetRef) (terms : List String) (s : Sorting)
    → ((by_terms ref terms s).ranked ≡ (by_terms ref terms empty).ranked ++ s.ranked)
      × ((by_terms ref terms s).excluded ≡ (by_terms ref terms empty).excluded ++ s.excluded)
by_terms-parts ref [] s = (refl, refl)
by_terms-parts ref (t ∷ ts) s = (refl, refl)

-- What one candidate adds.
dispose-parts :
    (q : ContextCompilationRequest) (a : ContextAsset) (rest : Sorting)
    → ((dispose q a rest).ranked ≡ (dispose q a empty).ranked ++ rest.ranked)
      × ((dispose q a rest).excluded ≡ (dispose q a empty).excluded ++ rest.excluded)
unfolding dispose
dispose-parts q a rest = elim (Bool-cases (is_allowed a.ref.asset_class q.allowed_asset_classes)) [
  | inl e ↦ elim (Bool-cases (member str_eq a.ref.asset_id q.explicit_asset_ids)) [
    | inl f ↦ rw (dispose, e, f) (refl, refl)
    | inr f ↦
        rw (dispose, e, f)
          (by_terms-parts a.ref (matched_terms q.relevance_terms a.relevance_terms) rest)
  ]
  | inr e ↦ rw (dispose, e) (refl, refl)
]

dispose_all-parts :
    (q : ContextCompilationRequest) (assets : List ContextAsset)
    → ((dispose_all q assets).ranked
        ≡ concat_map (λ (a : ContextAsset). (dispose q a empty).ranked) assets)
      × ((dispose_all q assets).excluded
          ≡ concat_map (λ (a : ContextAsset). (dispose q a empty).excluded) assets)
unfolding dispose_all
dispose_all-parts q [] = (refl, refl)
dispose_all-parts q (a ∷ assets) =
    let (ranked, excluded) = dispose-parts q a (dispose_all q assets) in
    let (ranked', excluded') = dispose_all-parts q assets in
    (
      ranked ∙ ap (λ l. (dispose q a empty).ranked ++ l) ranked',
      excluded ∙ ap (λ l. (dispose q a empty).excluded ++ l) excluded',
    )

ranked_id : Ranked → String
ranked_id r = r.item.ref.asset_id

excluded_id : ExcludedContextAsset → String
excluded_id e = e.ref.asset_id

abbrev with_candidates : ContextCompilationRequest → List ContextAsset → ContextCompilationRequest
with_candidates q ys = record q { candidates = ys }

module _ (q : ContextCompilationRequest) (ys : List ContextAsset) where
  dispose-with_candidates :
      (a : ContextAsset) (s : Sorting) → dispose (with_candidates q ys) a s ≡ dispose q a s
  unfolding dispose
  dispose-with_candidates a s = refl

  dispose_all-with_candidates :
      (assets : List ContextAsset)
      → dispose_all (with_candidates q ys) assets ≡ dispose_all q assets
  unfolding dispose_all
  dispose_all-with_candidates [] = refl
  dispose_all-with_candidates (a ∷ assets) =
      dispose-with_candidates a (dispose_all (with_candidates q ys) assets)
      ∙ ap (dispose q a) (dispose_all-with_candidates assets)

  module _ (p : Perm q.candidates ys) where
    same_ranked : Perm (dispose_all q q.candidates).ranked (dispose_all q ys).ranked
    same_ranked =
        rw ((dispose_all-parts q q.candidates).0, (dispose_all-parts q ys).0)
          (concat_map-perm (λ (a : ContextAsset). (dispose q a empty).ranked) p)

    same_excluded : Perm (dispose_all q q.candidates).excluded (dispose_all q ys).excluded
    same_excluded =
        rw ((dispose_all-parts q q.candidates).1, (dispose_all-parts q ys).1)
          (concat_map-perm (λ (a : ContextAsset). (dispose q a empty).excluded) p)

IsSet-Ranked : (a b : Ranked) → IsProp (a ≡ b)
IsSet-Ranked a b = hlevel (IsScalar-prop)

IsSet-Excluded : (a b : ExcludedContextAsset) → IsProp (a ≡ b)
IsSet-Excluded a b = hlevel (IsScalar-prop)

candidate_ids : ContextCompilationRequest → List String
candidate_ids q = map (λ (a : ContextAsset). a.ref.asset_id) q.candidates

module _ (q : ContextCompilationRequest)
    (n : Nodup (map (λ (a : ContextAsset). a.ref.asset_id) q.candidates)) where
  refs_Nodup :
      Nodup
        (map (λ (r : ContextAssetRef). r.asset_id) (map (λ (a : ContextAsset). a.ref) q.candidates))
  refs_Nodup =
      rw (map-map (λ (a : ContextAsset). a.ref) (λ (r : ContextAssetRef). r.asset_id) q.candidates)
        n

  ranked_Nodup : Nodup (map ranked_id (dispose_all q q.candidates).ranked)
  unfolding ranked_id
  ranked_Nodup =
      let s = dispose_all q q.candidates in
      let all_ids =
        Perm.nodup
          (Perm.symm
            (Perm.map (λ (r : ContextAssetRef). r.asset_id) (dispose_all-perm q q.candidates)))
          refs_Nodup in
      let parted =
        rw
          (map-append (λ (r : ContextAssetRef). r.asset_id) (map ranked_ref s.ranked)
            (map (λ (e : ExcludedContextAsset). e.ref) s.excluded))
          at all_ids in
      let first =
        Nodup.of_append_left
          {l₁ = map (λ (r : ContextAssetRef). r.asset_id) (map ranked_ref s.ranked)} _ parted in
      rw (map-map ranked_ref (λ (r : ContextAssetRef). r.asset_id) s.ranked) at first

  excluded_Nodup : Nodup (map excluded_id (select q).excluded)
  unfolding excluded_id
  excluded_Nodup =
      let all_ids =
        Perm.nodup
          (Perm.symm (Perm.map (λ (r : ContextAssetRef). r.asset_id) (select-disposed q).0))
          refs_Nodup in
      let parted =
        rw
          (map-append (λ (r : ContextAssetRef). r.asset_id)
            (map (λ (i : IncludedContextAsset). i.ref) (select q).included)
            (map (λ (e : ExcludedContextAsset). e.ref) (select q).excluded))
          at all_ids in
      let second =
        Nodup.of_append_right
          (map (λ (r : ContextAssetRef). r.asset_id)
            (map (λ (i : IncludedContextAsset). i.ref) (select q).included))
          {l₂ = map (λ (r : ContextAssetRef). r.asset_id)
            (map (λ (e : ExcludedContextAsset). e.ref) (select q).excluded)}
          parted in
      rw
        (map-map (λ (e : ExcludedContextAsset). e.ref) (λ (r : ContextAssetRef). r.asset_id)
          (select q).excluded)
        at second

descending-Lawful : Lawful (λ (a b : ℕ). compare b a)
descending-Lawful = record {
  swap = λ a b. ground arith;
  trans = λ a b c h k. ground arith;
  same = λ a b c h. ground arith;
}

by_rank-Lawful : Lawful by_rank
by_rank-Lawful = or_else-Lawful (on-Lawful (λ (r : Ranked). r.explicit) descending-Lawful) (
    or_else-Lawful (on-Lawful (λ (r : Ranked). r.matches) descending-Lawful)
      (on-Lawful (λ (r : Ranked). r.item.ref) by_asset_ref-Lawful))

by_rank-id : (a b : Ranked) → by_rank a b ≡ eq → ranked_id a ≡ ranked_id b
unfolding ranked_id
by_rank-id a b h =
    let one = (or_else-eq (compare b.explicit a.explicit) _ h).1 in
    by_asset_ref-id a.item.ref b.item.ref (or_else-eq (compare b.matches a.matches) _ one).1

abbrev cut : ContextCompilationRequest → List ExcludedContextAsset
cut q =
    map (λ (r : Ranked). exclude selection_limit r.item.ref)
      (drop q.max_assets (sort_by by_rank (dispose_all q q.candidates).ranked))

module _ (q : ContextCompilationRequest) (ys : List ContextAsset)
    (n : Nodup (map (λ (a : ContextAsset). a.ref.asset_id) q.candidates))
    (p : Perm q.candidates ys) where
  sorted_ranked :
      sort_by by_rank (dispose_all q q.candidates).ranked
      ≡ sort_by by_rank (dispose_all q ys).ranked
  sorted_ranked =
      sort_by-eq_of_perm by_rank-Lawful (dispose_all q q.candidates).ranked
        (dispose_all q ys).ranked
        (λ a b m k e.
          unique_by IsSet-Ranked ranked_id (dispose_all q q.candidates).ranked (ranked_Nodup q n) a
            b m k (by_rank-id a b e))
        (same_ranked q ys p)

  sorted_excluded :
      sort_by by_excluded ((dispose_all q q.candidates).excluded ++ cut q)
      ≡ sort_by by_excluded ((dispose_all q ys).excluded ++ cut q)
  unfolding select excluded_id
  sorted_excluded =
      let all = (dispose_all q q.candidates).excluded ++ cut q in
      let back = λ (a : ExcludedContextAsset) (m : Mem a all).
        (Perm.mem_iff (sort_by-perm by_excluded all)).1 m in
      sort_by-eq_of_perm (on-Lawful (λ (e : ExcludedContextAsset). e.ref) by_asset_ref-Lawful) all
        ((dispose_all q ys).excluded ++ cut q)
        (λ a b m k e.
          unique_by IsSet-Excluded excluded_id (select q).excluded (excluded_Nodup q n) a b
            (back a m) (back b k) (by_asset_ref-id a.ref b.ref e))
        (Perm.append_right (cut q) (same_excluded q ys p))

-- The selection does not depend on the order of the candidates, where no two have one identifier, as
-- the validator of the request demands.
pub select-perm :
    (q : ContextCompilationRequest) (ys : List ContextAsset)
    → Nodup (map (λ (a : ContextAsset). a.ref.asset_id) q.candidates)
    → Perm q.candidates ys
    → select (record q { candidates = ys }) ≡ select q
unfolding select
select-perm q ys n p =
    rw (dispose_all-with_candidates q ys ys, ← sorted_ranked q ys n p, ← sorted_excluded q ys n p)
      refl
