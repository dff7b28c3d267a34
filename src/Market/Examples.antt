-- ===== src/Market/Examples.antt =====
-- Two broad bindings in two orders, once with a binding to a target between them.
use mathlib.Core.List.{Nodup, Nodup-cons, Nodup-nil, mem-cons, not-mem-nil}
use mathlib.Core.List.Perm
use mathlib.Core.Logic.Or
use career_agent_harness.Base.{String, List, [], ◌∷◌, none, str_eq, ◌≡◌, refl, ap, arith}
use career_agent_harness.Base.Result.{ok}
use career_agent_harness.Market.Trend.{
  MarketBindingScope, MarketBinding, BroadMarketTrend, group_all, items_of_groups,
  build_broad_market_trend,
}
use career_agent_harness.Market.Canonical.{build_broad_market_trend-perm}
use career_agent_harness.Market.Total.{build_broad_market_trend_ok}

abbrev binding : String → String → MarketBindingScope → List String → MarketBinding
binding id capability scope refs = record {
  binding_id = id;
  capability_id = capability;
  market_scope = scope;
  source_evidence_refs = refs;
  opportunity_id = none;
  job_requirement_id = none;
  observed_at = 0;
}

abbrev early : MarketBinding
early = binding "bind_a" "cap_rust" MarketBindingScope.broad ("ev_2" ∷ "ev_1" ∷ [])

abbrev late : MarketBinding
late = binding "bind_b" "cap_rust" MarketBindingScope.broad ("ev_2" ∷ [])

abbrev aimed : MarketBinding
aimed = binding "bind_c" "cap_rust" MarketBindingScope.target ("ev_3" ∷ [])

build_broad_market_trend-perm_example :
    build_broad_market_trend (early ∷ aimed ∷ late ∷ []) 3
    ≡ build_broad_market_trend (late ∷ early ∷ []) 3
build_broad_market_trend-perm_example =
    build_broad_market_trend-perm (early ∷ aimed ∷ late ∷ []) (late ∷ early ∷ []) 3
      (Perm.swap late early [])

two_ids-Nodup : Nodup {A = String} ("bind_a" ∷ "bind_b" ∷ [])
two_ids-Nodup = Nodup-cons.1 (
  λ m.
      Or.elim (hlevel) (mem-cons.0 m) (λ e. absurd (ground (arith, ap (str_eq "bind_a") e)))
        not-mem-nil,
  Nodup-cons.1 (not-mem-nil, Nodup-nil),
)

build_broad_market_trend_ok_example :
    (trend : BroadMarketTrend) × (build_broad_market_trend (early ∷ late ∷ []) 3 ≡ ok trend)
    × (trend.items ≡ items_of_groups (group_all (early ∷ late ∷ []) []))
build_broad_market_trend_ok_example =
    build_broad_market_trend_ok (early ∷ late ∷ []) 3 two_ids-Nodup refl
