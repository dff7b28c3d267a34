-- ===== src/Market/Total.antt =====
-- The trend of stored bindings is never refused (backend/career_harness/core/market/trend.py).
use mathlib.Core.Logic.Or
use mathlib.Core.List.{Mem, Nodup, Nodup-cons, Nodup-nil, mem-cons, not-mem-nil}
use career_agent_harness.Base.{
  ℕ, String, Bool, true, false, not, List, [], ◌∷◌, none, some, map, str_eq, eq_refl, eq_iff,
  length, ◌==◌, all, ◌≡◌, refl, sym, ◌∙◌, ap, arith, inl, inr, Bool-cases,
}
use career_agent_harness.Base.Result.{ok}
use career_agent_harness.Base.Table.{Table, lookup, Distinct}
use career_agent_harness.Base.Keys.{keep}
use career_agent_harness.Base.Compare.{compare_text, compare_text-Lawful, on-Lawful}
use career_agent_harness.Base.Sort.{sort_by-IsSorted, AtMost, IsSorted}
use career_agent_harness.Market.Trend.{
  MarketBinding, BroadMarketTrend, same_texts, sorted_set, aggregation_is_canonical, capability_ids,
  expected_inputs, trend_is_canonical, group_all, trend_of, sorted_groups, items_of_groups,
  build_broad_market_trend,
}
use career_agent_harness.Market.Sorted.{by_first, Distinct-sort_by, lookup-sort_by}
use career_agent_harness.Market.Groups.{joined, in_group, Distinct-group_all, lookup-group_all}
use career_agent_harness.Market.Accepted.{
  IsGroup, ids_of, has_refs, trend_of-canonical, sorted_set_self, same_texts_refl,
}

module _ (p : MarketBinding → Bool) where
  not_kept :
      (id : String) (bs : List MarketBinding) → ¬ Mem id (ids_of bs) → ¬ Mem id (ids_of (keep p bs))
  not_kept id [] h = h
  not_kept id (b ∷ bs) h = elim (Bool-cases (p b)) [
    | inl e ↦ rw e (λ m.
        Or.elim (hlevel) (mem-cons.0 m) (λ k. h (mem-cons.1 (Or.inl k)))
          (λ k. not_kept id bs (λ x. h (mem-cons.1 (Or.inr x))) k))
    | inr e ↦ rw e (not_kept id bs (λ x. h (mem-cons.1 (Or.inr x))))
  ]

  ids_of-Nodup : (bs : List MarketBinding) → Nodup (ids_of bs) → Nodup (ids_of (keep p bs))
  ids_of-Nodup [] n = n
  ids_of-Nodup (b ∷ bs) n =
      let parts = Nodup-cons.0 n in
      elim (Bool-cases (p b)) [
        | inl e ↦ rw e (Nodup-cons.1 (not_kept b.binding_id bs parts.0, ids_of-Nodup bs parts.1))
        | inr e ↦ rw e (ids_of-Nodup bs parts.1)
      ]

  all-keep : (bs : List MarketBinding) → all has_refs bs ≡ true → all has_refs (keep p bs) ≡ true
  all-keep [] h = h
  all-keep (b ∷ bs) h = elim (Bool-cases (p b)) [
    | inl e ↦ rw e (ground (arith, h, all-keep bs))
    | inr e ↦ rw e (ground (arith, h, all-keep bs))
  ]

joined_group :
    (bs v : List MarketBinding) → joined none bs ≡ some v → (v ≡ bs) × ((length bs == 0) ≡ false)
joined_group [] v h = absurd cc
joined_group (b ∷ bs) v h = (cc, ground arith)

sorted_groups-IsGroup :
    (bs : List MarketBinding) (c : String) (v : List MarketBinding)
    → Nodup (ids_of bs)
    → all has_refs bs ≡ true
    → lookup c (sorted_groups (group_all bs [])) ≡ some v
    → IsGroup v
unfolding lookup
sorted_groups-IsGroup bs c v n sourced found =
    let same =
      lookup-sort_by (group_all bs []) c (Distinct-group_all bs [] tt) ∙ lookup-group_all c bs [] in
    let (is, some_in) = joined_group (keep (in_group c) bs) v (sym same ∙ found) in
    rw is (record {
      nonempty = some_in;
      unique = ids_of-Nodup (in_group c) bs n;
      sourced = all-keep (in_group c) bs sourced;
    })

Groups : Table (List MarketBinding) → Type 0
Groups t = (c : String) (v : List MarketBinding) → lookup c t ≡ some v → IsGroup v

items_canonical :
    (t : Table (List MarketBinding))
    → Distinct t
    → Groups t
    → all aggregation_is_canonical (map (λ (e : String × List MarketBinding). trend_of e.0 e.1) t)
      ≡ true
unfolding Groups lookup
items_canonical [] d g = refl
items_canonical ((k, v) ∷ t) d g =
    let first = trend_of-canonical k v (g k v (rw (eq_refl k) refl)) in
    let rest = items_canonical t d.1 (λ c w found. g c w (elim (Bool-cases (str_eq k c)) [
      | inl e ↦
          let at = (eq_iff k c).0 e in
          let there = ap (λ x. lookup x t) at in absurd (ground (arith, there, d.0, found))
      | inr e ↦ rw e found
    ])) in
    rw (first, rest) refl

keys_of : Table (List MarketBinding) → List String
keys_of = map (λ (e : String × List MarketBinding). e.0)

capability_ids-keys_of :
    (t : Table (List MarketBinding))
    → capability_ids (map (λ (e : String × List MarketBinding). trend_of e.0 e.1) t) ≡ keys_of t
unfolding keys_of trend_of
capability_ids-keys_of [] = refl
capability_ids-keys_of ((k, v) ∷ t) = ap (λ l. k ∷ l) (capability_ids-keys_of t)

missing_key :
    (k : String) (t : Table (List MarketBinding)) → lookup k t ≡ none → ¬ Mem k (keys_of t)
unfolding keys_of lookup
missing_key k [] h m = not-mem-nil m
missing_key k ((j, v) ∷ t) h m =
    Or.elim (hlevel) (mem-cons.0 m) (λ e. ground (arith, e, eq_refl j, h))
      (λ x. missing_key k t (ground (arith, h)) x)

keys_of-Nodup : (t : Table (List MarketBinding)) → Distinct t → Nodup (keys_of t)
unfolding keys_of
keys_of-Nodup [] d = Nodup-nil
keys_of-Nodup ((k, v) ∷ t) d = Nodup-cons.1 (missing_key k t d.0, keys_of-Nodup t d.1)

keys_of-AtMost :
    (k : String) (v : List MarketBinding) (t : Table (List MarketBinding))
    → AtMost by_first (k, v) t
    → AtMost compare_text k (keys_of t)
unfolding keys_of
keys_of-AtMost k v [] a = tt
keys_of-AtMost k v ((j, w) ∷ t) a = (a.0, keys_of-AtMost k v t a.1)

keys_of-IsSorted :
    (t : Table (List MarketBinding)) → IsSorted by_first t → IsSorted compare_text (keys_of t)
unfolding keys_of
keys_of-IsSorted [] s = tt
keys_of-IsSorted ((k, v) ∷ t) s = (keys_of-AtMost k v t s.0, keys_of-IsSorted t s.1)

-- The sorted items have the capabilities once each, in order.
capabilities_canonical :
    (bs : List MarketBinding)
    → same_texts
        (capability_ids (items_of_groups (group_all bs [])))
        (sorted_set (capability_ids (items_of_groups (group_all bs []))))
      ≡ true
unfolding items_of_groups
capabilities_canonical bs =
    let t = sorted_groups (group_all bs []) in
    let distinct = Distinct-sort_by (group_all bs []) (Distinct-group_all bs [] tt) in
    let in_order =
      sort_by-IsSorted (on-Lawful (λ (e : String × List MarketBinding). e.0) compare_text-Lawful)
        (group_all bs []) in
    rw
      (
        capability_ids-keys_of t,
        sorted_set_self (keys_of t) (keys_of-Nodup t distinct) (keys_of-IsSorted t in_order),
      )
      (same_texts_refl (keys_of t))

groups_canonical :
    (bs : List MarketBinding)
    → Nodup (ids_of bs)
    → all has_refs bs ≡ true
    → all aggregation_is_canonical (items_of_groups (group_all bs [])) ≡ true
unfolding items_of_groups Groups
groups_canonical bs n sourced =
    items_canonical (sorted_groups (group_all bs []))
      (Distinct-sort_by (group_all bs []) (Distinct-group_all bs [] tt))
      (λ c v found. sorted_groups-IsGroup bs c v n sourced found)

-- The validators never refuse what is built of bindings that have an identifier each, and a
-- reference at least, as the stored ones have: the trend is given.
pub build_broad_market_trend_ok :
    (bs : List MarketBinding) (computed_at : ℕ)
    → Nodup (map (λ (b : MarketBinding). b.binding_id) bs)
    → all (λ (b : MarketBinding). not (length b.source_evidence_refs == 0)) bs ≡ true
    → (trend : BroadMarketTrend) × (build_broad_market_trend bs computed_at ≡ ok trend)
      × (trend.items ≡ items_of_groups (group_all bs []))
unfolding build_broad_market_trend trend_is_canonical
build_broad_market_trend_ok bs computed_at n sourced =
    let items = items_of_groups (group_all bs []) in
    (
      record {
        items = items;
        input_binding_ids = expected_inputs items;
        computed_at = computed_at;
      },
      rw
          (
            groups_canonical bs n sourced,
            capabilities_canonical bs,
            same_texts_refl (expected_inputs items),
          )
          refl,
      refl,
    )
