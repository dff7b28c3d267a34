-- ===== src/Market/Accepted.antt =====
-- The validators of the trend accept what is built (backend/career_harness/core/market/trend.py).

use mathlib.Core.List.{Nodup, perm_ext_iff_of_Nodup}
use mathlib.Core.List.Perm
use career_agent_harness.Base.{
  suc, String, Bool, true, false, not, List, [], ◌∷◌, map, eq_refl, length, ◌==◌, all,
  length-append, ◌≡◌, refl, ◌∙◌, ap, arith,
}
use career_agent_harness.Base.Orders.{concat_map}
use career_agent_harness.Base.Compare.{compare_text, compare_text-Lawful, compare_text-eq}
use career_agent_harness.Base.Sort.{sort_by-perm, sort_by-IsSorted, IsSorted, IsSorted-eq_of_perm}
use career_agent_harness.Market.Trend.{
  MarketBinding, distinct_texts, sorted_set, sorted_texts, same_texts, aggregation_is_canonical,
  trend_of,
}
use career_agent_harness.Market.Sets.{mem-distinct_texts, distinct_texts-Nodup}
use career_agent_harness.Market.Canonical.{length-perm}

pub same_texts_refl : (xs : List String) → same_texts xs xs ≡ true
same_texts_refl [] = refl
same_texts_refl (x ∷ xs) = rw (eq_refl x, same_texts_refl xs) refl

-- A sorted list without a repetition is its own sorted set.
pub sorted_set_self : (xs : List String) → Nodup xs → IsSorted compare_text xs → sorted_set xs ≡ xs
sorted_set_self xs n s =
    let same =
      (perm_ext_iff_of_Nodup (distinct_texts-Nodup xs) n).1 (λ a. mem-distinct_texts a xs) in
    IsSorted-eq_of_perm compare_text-Lawful (sorted_set xs) xs (λ a b m k e. compare_text-eq a b e)
      (sort_by-IsSorted compare_text-Lawful (distinct_texts xs)) s
      (Perm.trans (sort_by-perm compare_text (distinct_texts xs)) same)

sorted_texts-canonical :
    (xs : List String)
    → Nodup xs
    → same_texts (sorted_texts xs) (sorted_set (sorted_texts xs)) ≡ true
sorted_texts-canonical xs n =
    let again =
      sorted_set_self (sorted_texts xs) (Perm.nodup (Perm.symm (sort_by-perm compare_text xs)) n)
        (sort_by-IsSorted compare_text-Lawful xs) in
    rw again (same_texts_refl (sorted_texts xs))

sorted_texts-length : (xs : List String) → length (sorted_texts xs) ≡ length xs
sorted_texts-length xs = length-perm (sort_by-perm compare_text xs)

distinct_texts-nonempty :
    (xs : List String) → (length xs == 0) ≡ false → (length (distinct_texts xs) == 0) ≡ false
unfolding distinct_texts
distinct_texts-nonempty [] h = h
distinct_texts-nonempty (x ∷ xs) h = ground arith

length-ids :
    (bs : List MarketBinding) → length (map (λ (b : MarketBinding). b.binding_id) bs) ≡ length bs
length-ids [] = refl
length-ids (b ∷ bs) = ap suc (length-ids bs)

-- A group: bindings, each with a reference, no two of them with one identifier.
abbrev pub has_refs : MarketBinding → Bool
has_refs b = not (length b.source_evidence_refs == 0)

abbrev pub ids_of : List MarketBinding → List String
ids_of = map (λ (b : MarketBinding). b.binding_id)

pub record IsGroup (bs : List MarketBinding) : Type 0 where
  pub nonempty : (length bs == 0) ≡ false
  pub unique : Nodup (ids_of bs)
  pub sourced : all has_refs bs ≡ true

refs_nonempty :
    (bs : List MarketBinding)
    → (length bs == 0) ≡ false
    → all has_refs bs ≡ true
    → (length (concat_map (λ (b : MarketBinding). b.source_evidence_refs) bs) == 0) ≡ false
refs_nonempty [] h k = h
refs_nonempty (b ∷ bs) h k =
    let l =
      length-append b.source_evidence_refs
        (concat_map (λ (x : MarketBinding). x.source_evidence_refs) bs) in
    ground (arith, l, k)

pub trend_of-canonical :
    (c : String) (bs : List MarketBinding)
    → IsGroup bs
    → aggregation_is_canonical (trend_of c bs) ≡ true
unfolding aggregation_is_canonical trend_of
trend_of-canonical c bs g =
    let refs = concat_map (λ (b : MarketBinding). b.source_evidence_refs) bs in
    let count : length (sorted_texts (ids_of bs)) ≡ length bs =
      sorted_texts-length (ids_of bs) ∙ length-ids bs in
    let some_ids = g.nonempty in
    let some_refs = distinct_texts-nonempty refs (refs_nonempty bs g.nonempty g.sourced) in
    let ref_count = sorted_texts-length (distinct_texts refs) in
    rw
      (
        sorted_texts-canonical (ids_of bs) g.unique,
        sorted_texts-canonical (distinct_texts refs) (distinct_texts-Nodup refs),
        count,
        ref_count,
      )
      (ground (arith, some_ids, some_refs))
