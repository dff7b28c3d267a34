-- ===== src/Market/Canonical.antt =====
-- The trend does not depend on the order of the bindings, nor on those of a target
-- (backend/career_harness/core/market/trend.py).
use mathlib.Core.List.{Perm, Permᴰ}
use mathlib.Core.List.Perm
use mathlib.Core.List.Permᴰ
use mathlib.Core.Logic.{∥∥₁_map, ∥∥₁_elim}
use career_agent_harness.Base.{
  ℕ, suc, String, Bool, List, [], ◌∷◌, none, some, map, str_eq, length, ◌≡◌, refl, sym, ◌∙◌, ap,
  inl, inr, Bool-cases,
}
use career_agent_harness.Base.Table.{Table, lookup, Distinct}
use career_agent_harness.Base.Keys.{keep}
use career_agent_harness.Base.Orders.{concat_map-perm}
use career_agent_harness.Base.Compare.{compare_text-Lawful, on-Lawful}
use career_agent_harness.Base.Sort.{IsSorted, sort_by-IsSorted}
use career_agent_harness.Market.Trend.{
  MarketBinding, CapabilityTrend, is_broad, group_all, trend_of, sorted_groups, items_of_groups,
  build_broad_market_trend,
}
use career_agent_harness.Market.Sets.{sorted_set-perm, sorted_texts-perm}
use career_agent_harness.Market.Sorted.{
  by_first, Distinct-sort_by, lookup-sort_by, sorted_unique, map_option, map_values,
  lookup-map_values, Distinct-map_values, IsSorted-map_values,
}
use career_agent_harness.Market.Groups.{joined, in_group, Distinct-group_all, lookup-group_all}

length-go : {A : Type 0} {xs ys : List A} → Permᴰ xs ys → length xs ≡ length ys
length-go Permᴰ.nil = refl
length-go (Permᴰ.cons e q) = ap suc (length-go q)
length-go (Permᴰ.swap e f) = refl
length-go (Permᴰ.trans q r) = length-go q ∙ length-go r

pub length-perm : {A : Type 0} {xs ys : List A} → Perm xs ys → length xs ≡ length ys
length-perm p = ∥∥₁_elim p (hlevel) length-go

module _ {A : Type 0} (p : A → Bool) where
  keep-go : {xs ys : List A} → Permᴰ xs ys → Permᴰ (keep p xs) (keep p ys)
  keep-go Permᴰ.nil = Permᴰ.nil
  keep-go (Permᴰ.cons {b = b} e q) = elim (Bool-cases (p b)) [
    | inl h ↦ rw (e, h) (Permᴰ.cons refl (keep-go q))
    | inr h ↦ rw (e, h) (keep-go q)
  ]
  keep-go (Permᴰ.swap {a' = a} {b' = b} {l = l} e f) =
      rw (e, f)
        (elim (Bool-cases (p a)) [
          | inl g ↦ elim (Bool-cases (p b)) [
            | inl h ↦ rw (g, h) (Permᴰ.swap refl refl)
            | inr h ↦ rw (g, h) (Permᴰ.refl _)
          ]
          | inr g ↦ elim (Bool-cases (p b)) [
            | inl h ↦ rw (g, h) (Permᴰ.refl _)
            | inr h ↦ rw (g, h) (Permᴰ.refl _)
          ]
        ])
  keep-go (Permᴰ.trans q r) = Permᴰ.trans (keep-go q) (keep-go r)

  keep-perm : {xs ys : List A} → Perm xs ys → Perm (keep p xs) (keep p ys)
  keep-perm q = ∥∥₁_map q keep-go

abbrev broad : List MarketBinding → List MarketBinding
broad = keep (λ (b : MarketBinding). is_broad b.market_scope)

keep-in_group :
    (c : String) (bs : List MarketBinding)
    → keep (in_group c) bs ≡ keep (λ (b : MarketBinding). str_eq b.capability_id c) (broad bs)
keep-in_group c [] = refl
keep-in_group c (b ∷ bs) = elim (Bool-cases (is_broad b.market_scope)) [
  | inl e ↦ elim (Bool-cases (str_eq b.capability_id c)) [
    | inl h ↦ rw (e, h) (ap (λ l. b ∷ l) (keep-in_group c bs))
    | inr h ↦ rw (e, h) (keep-in_group c bs)
  ]
  | inr e ↦ rw e (keep-in_group c bs)
]

trend_of-perm : (c : String) (a b : List MarketBinding) → Perm a b → trend_of c a ≡ trend_of c b
unfolding trend_of
trend_of-perm c a b p =
    let count : length a ≡ length b = length-perm p in
    let ids = sorted_texts-perm _ _ (Perm.map (λ (x : MarketBinding). x.binding_id) p) in
    let refs =
      sorted_set-perm _ _ (concat_map-perm (λ (x : MarketBinding). x.source_evidence_refs) p) in
    λ i. record {
      capability_id = c;
      binding_count = count i;
      binding_ids = ids i;
      source_evidence_refs = refs i;
    }

joined_perm :
    (c : String) (a b : List MarketBinding)
    → Perm a b
    → map_option (trend_of c) (joined none a) ≡ map_option (trend_of c) (joined none b)
joined_perm c [] b p = ap (λ l. map_option (trend_of c) (joined none l)) (Perm.nil-eq p)
joined_perm c (x ∷ a) [] p = ap (λ l. map_option (trend_of c) (joined none l)) (Perm.eq-nil p)
joined_perm c (x ∷ a) (y ∷ b) p = ap some (trend_of-perm c (x ∷ a) (y ∷ b) p)

-- The items as the values of a sorted table.
abbrev trend_table : List MarketBinding → Table CapabilityTrend
trend_table bs = map_values trend_of (sorted_groups (group_all bs []))

values : Table CapabilityTrend → List CapabilityTrend
values = map (λ (e : String × CapabilityTrend). e.1)

items-values :
    (t : Table (List MarketBinding))
    → map (λ (e : String × List MarketBinding). trend_of e.0 e.1) t ≡ values (map_values trend_of t)
unfolding values map_values
items-values [] = refl
items-values ((k, v) ∷ t) = ap (λ l. trend_of k v ∷ l) (items-values t)

grouped_Distinct : (bs : List MarketBinding) → Distinct (sorted_groups (group_all bs []))
grouped_Distinct bs = Distinct-sort_by (group_all bs []) (Distinct-group_all bs [] tt)

trend_table-IsSorted : (bs : List MarketBinding) → IsSorted by_first (trend_table bs)
trend_table-IsSorted bs = IsSorted-map_values trend_of (sorted_groups (group_all bs [])) (
    sort_by-IsSorted (on-Lawful (λ (e : String × List MarketBinding). e.0) compare_text-Lawful)
      (group_all bs []))

lookup-trend_table :
    (c : String) (bs : List MarketBinding)
    → lookup c (trend_table bs)
      ≡ map_option
          (trend_of c)
          (joined none (keep (λ (b : MarketBinding). str_eq b.capability_id c) (broad bs)))
unfolding lookup
lookup-trend_table c bs =
    lookup-map_values trend_of c (sorted_groups (group_all bs []))
    ∙ ap (map_option (trend_of c)) (
        lookup-sort_by (group_all bs []) c (Distinct-group_all bs [] tt)
        ∙ lookup-group_all c bs []
        ∙ ap (joined none) (keep-in_group c bs))

trend_table-same :
    (xs ys : List MarketBinding) → Perm (broad xs) (broad ys) → trend_table xs ≡ trend_table ys
trend_table-same xs ys p =
    sorted_unique (trend_table xs) (trend_table ys) (trend_table-IsSorted xs)
      (trend_table-IsSorted ys) (Distinct-map_values trend_of _ (grouped_Distinct xs))
      (Distinct-map_values trend_of _ (grouped_Distinct ys))
      (λ c.
        lookup-trend_table c xs
        ∙ joined_perm c _ _ (keep-perm (λ (b : MarketBinding). str_eq b.capability_id c) p)
        ∙ sym (lookup-trend_table c ys))

items_of_groups-trend_table :
    (bs : List MarketBinding) → items_of_groups (group_all bs []) ≡ values (trend_table bs)
unfolding items_of_groups
items_of_groups-trend_table bs = items-values (sorted_groups (group_all bs []))

-- The trend, or its refusal, is decided by the broad bindings and does not depend on their order:
-- two lists of bindings whose broad ones are the same up to order have the same trend, whatever
-- bindings to a target stand between them.
pub build_broad_market_trend-perm :
    (xs ys : List MarketBinding) (computed_at : ℕ)
    → Perm
        (keep (λ (b : MarketBinding). is_broad b.market_scope) xs)
        (keep (λ (b : MarketBinding). is_broad b.market_scope) ys)
    → build_broad_market_trend xs computed_at ≡ build_broad_market_trend ys computed_at
unfolding build_broad_market_trend
build_broad_market_trend-perm xs ys computed_at p =
    let items =
      items_of_groups-trend_table xs
      ∙ ap values (trend_table-same xs ys p)
      ∙ sym (items_of_groups-trend_table ys) in
    rw items refl
