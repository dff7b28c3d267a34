-- ===== src/Market/Trend.antt =====
-- `build_broad_market_trend` and the validators of its result
-- (backend/career_harness/core/market/trend.py). The time of the computation is an argument.
use career_agent_harness.Base.{
  ℕ, String, Bool, true, false, not, ◌&&◌, List, [], ◌∷◌, ◌++◌, Option, map, str_eq, length, ◌==◌,
  all, if◌then◌else◌,
}
use career_agent_harness.Base.Result.{Result, ok, ◌>>◌, raise_if}
use career_agent_harness.Base.Table.{Table}
use career_agent_harness.Base.Keys.{keep}
use career_agent_harness.Base.Orders.{concat_map}
use career_agent_harness.Base.Compare.{compare_text}
use career_agent_harness.Base.Sort.{sort_by}

pub data MarketBindingScope : Type 0 where
  target broad : MarketBindingScope

pub record MarketBinding : Type 0 where
  pub binding_id : String
  pub capability_id : String
  pub market_scope : MarketBindingScope
  pub source_evidence_refs : List String
  pub opportunity_id : Option String
  pub job_requirement_id : Option String
  pub observed_at : ℕ

pub record CapabilityTrend : Type 0 where
  pub capability_id : String
  pub binding_count : ℕ
  pub binding_ids : List String
  pub source_evidence_refs : List String

pub record BroadMarketTrend : Type 0 where
  pub items : List CapabilityTrend
  pub input_binding_ids : List String
  pub computed_at : ℕ

pub data TrendError : Type 0 where
  value_error : TrendError

-- A set: each text once.
unfoldable pub distinct_texts : List String → List String
distinct_texts [] = []
distinct_texts (x ∷ xs) = x ∷ keep (λ y. not (str_eq x y)) (distinct_texts xs)

-- `sorted(set(texts))`, and `sorted(texts)`.
abbrev pub sorted_set : List String → List String
sorted_set xs = sort_by compare_text (distinct_texts xs)

abbrev pub sorted_texts : List String → List String
sorted_texts xs = sort_by compare_text xs

abbrev pub same_texts : List String → List String → Bool
same_texts [] [] = true
same_texts (x ∷ xs) (y ∷ ys) = str_eq x y && same_texts xs ys
same_texts _ _ = false

-- `aggregation_is_canonical`, with the fields that may not be empty.
unfoldable pub aggregation_is_canonical : CapabilityTrend → Bool
aggregation_is_canonical t =
    t.binding_count == length t.binding_ids
    && not (length t.binding_ids == 0)
    && not (length t.source_evidence_refs == 0)
    && same_texts t.binding_ids (sorted_set t.binding_ids)
    && same_texts t.source_evidence_refs (sorted_set t.source_evidence_refs)

abbrev pub capability_ids : List CapabilityTrend → List String
capability_ids = map (λ (t : CapabilityTrend). t.capability_id)

-- The sorted union of the items' bindings.
abbrev pub expected_inputs : List CapabilityTrend → List String
expected_inputs items = sorted_set (concat_map (λ (t : CapabilityTrend). t.binding_ids) items)

unfoldable pub trend_is_canonical : BroadMarketTrend → Bool
trend_is_canonical t =
    same_texts (capability_ids t.items) (sorted_set (capability_ids t.items))
    && same_texts t.input_binding_ids (expected_inputs t.items)

-- `grouped.setdefault(capability_id, []).append(binding)`
unfoldable pub append_to :
    String → MarketBinding → Table (List MarketBinding) → Table (List MarketBinding)
append_to id binding [] = (id, binding ∷ []) ∷ []
append_to id binding ((k, bs) ∷ t) =
    if str_eq k id then (k, bs ++ binding ∷ []) ∷ t else (k, bs) ∷ append_to id binding t

abbrev pub is_broad : MarketBindingScope → Bool
is_broad MarketBindingScope.broad = true
is_broad MarketBindingScope.target = false

-- `for binding in bindings`
unfoldable pub group_all :
    List MarketBinding → Table (List MarketBinding) → Table (List MarketBinding)
group_all [] t = t
group_all (binding ∷ bindings) t =
    group_all bindings
      (if is_broad binding.market_scope then append_to binding.capability_id binding t else t)

unfoldable pub trend_of : String → List MarketBinding → CapabilityTrend
trend_of capability_id bindings = record {
  capability_id = capability_id;
  binding_count = length bindings;
  binding_ids = sorted_texts (map (λ (b : MarketBinding). b.binding_id) bindings);
  source_evidence_refs =
      sorted_set (concat_map (λ (b : MarketBinding). b.source_evidence_refs) bindings);
}

-- `sorted(grouped.items())`: the keys differ, so the lists are never compared.
abbrev pub sorted_groups : Table (List MarketBinding) → Table (List MarketBinding)
sorted_groups t = sort_by (λ a b. compare_text a.0 b.0) t

unfoldable pub items_of_groups : Table (List MarketBinding) → List CapabilityTrend
items_of_groups t =
    map (λ (entry : String × List MarketBinding). trend_of entry.0 entry.1) (sorted_groups t)

-- Each item is validated when it is built, the trend at the end.
unfoldable pub build_broad_market_trend :
    List MarketBinding → ℕ → Result TrendError BroadMarketTrend
build_broad_market_trend bindings computed_at =
    let items = items_of_groups (group_all bindings []) in
    let trend : BroadMarketTrend = record {
      items = items;
      input_binding_ids = expected_inputs items;
      computed_at = computed_at;
    } in
    do
      raise_if (not (all aggregation_is_canonical items)) TrendError.value_error
      raise_if (not (trend_is_canonical trend)) TrendError.value_error
      ok trend
