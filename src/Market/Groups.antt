-- ===== src/Market/Groups.antt =====
-- What `grouped` of `build_broad_market_trend` holds: for each capability its broad bindings, in their
-- order (backend/career_harness/core/market/trend.py).
use mathlib.Core.List.{append_assoc}
use career_agent_harness.Base.{
  String, Bool, false, ◌&&◌, List, [], ◌∷◌, ◌++◌, Option, none, some, str_eq, eq_iff, ◌≡◌, refl,
  ◌∙◌, ap, arith, inl, inr, Bool-cases, if◌then◌else◌,
}
use career_agent_harness.Base.Table.{Table, lookup, Distinct}
use career_agent_harness.Base.Keys.{keep}
use career_agent_harness.Market.Trend.{MarketBinding, append_to, is_broad, group_all}

abbrev pub or_empty : Option (List MarketBinding) → List MarketBinding
or_empty none = []
or_empty (some bs) = bs

-- What stands in a group, and more of it.
abbrev pub joined : Option (List MarketBinding) → List MarketBinding → Option (List MarketBinding)
joined o [] = o
joined none (b ∷ bs) = some (b ∷ bs)
joined (some a) (b ∷ bs) = some (a ++ b ∷ bs)

abbrev pub in_group : String → MarketBinding → Bool
in_group id b = is_broad b.market_scope && str_eq b.capability_id id

lookup-append_to :
    (c id : String) (b : MarketBinding) (t : Table (List MarketBinding))
    → lookup c (append_to id b t)
      ≡ (if str_eq id c then joined (lookup c t) (b ∷ []) else lookup c t)
unfolding append_to lookup
lookup-append_to c id b [] = elim (Bool-cases (str_eq id c)) [
  | inl e ↦ rw e refl
  | inr e ↦ rw e refl
]
lookup-append_to c id b ((k, bs) ∷ t) = elim (Bool-cases (str_eq k id)) [
  | inl e ↦
      let same = (eq_iff k id).0 e in
      elim (Bool-cases (str_eq k c)) [
        | inl h ↦ rw (e, ← same, h) refl
        | inr h ↦ rw (e, ← same, h) refl
      ]
  | inr e ↦ elim (Bool-cases (str_eq k c)) [
    | inl h ↦
        let at = (eq_iff k c).0 h in
        let other : str_eq id c ≡ false = ground (arith, e, eq_iff k id, eq_iff id c, at) in
        rw (e, h, other) refl
    | inr h ↦ rw (e, h) (lookup-append_to c id b t)
  ]
]

Distinct-append_to :
    (id : String) (b : MarketBinding) (t : Table (List MarketBinding))
    → Distinct t
    → Distinct (append_to id b t)
unfolding append_to lookup
Distinct-append_to id b [] d = (refl, tt)
Distinct-append_to id b ((k, bs) ∷ t) d = elim (Bool-cases (str_eq k id)) [
  | inl e ↦ rw (append_to, e) d
  | inr e ↦
      let other : str_eq id k ≡ false = ground (arith, e, eq_iff k id, eq_iff id k) in
      rw (append_to, e) (lookup-append_to k id b t ∙ rw other d.0, Distinct-append_to id b t d.1)
]

joined-append :
    (o : Option (List MarketBinding)) (b : MarketBinding) (bs : List MarketBinding)
    → joined (joined o (b ∷ [])) bs ≡ joined o (b ∷ bs)
joined-append none b [] = refl
joined-append none b (c ∷ bs) = refl
joined-append (some a) b [] = refl
joined-append (some a) b (c ∷ bs) = ap some (append_assoc a (b ∷ []) (c ∷ bs))

pub Distinct-group_all :
    (bs : List MarketBinding) (t : Table (List MarketBinding))
    → Distinct t
    → Distinct (group_all bs t)
unfolding group_all
Distinct-group_all [] t d = d
Distinct-group_all (b ∷ bs) t d = elim (Bool-cases (is_broad b.market_scope)) [
  | inl e ↦ rw (group_all, e) (Distinct-group_all bs _ (Distinct-append_to b.capability_id b t d))
  | inr e ↦ rw (group_all, e) (Distinct-group_all bs t d)
]

pub lookup-group_all :
    (c : String) (bs : List MarketBinding) (t : Table (List MarketBinding))
    → lookup c (group_all bs t) ≡ joined (lookup c t) (keep (in_group c) bs)
unfolding group_all
lookup-group_all c [] t = refl
lookup-group_all c (b ∷ bs) t = elim (Bool-cases (is_broad b.market_scope)) [
  | inl e ↦
      rw (group_all, e)
        (lookup-group_all c bs (append_to b.capability_id b t)
          ∙ ap (λ o. joined o (keep (in_group c) bs)) (lookup-append_to c b.capability_id b t)
          ∙ elim (Bool-cases (str_eq b.capability_id c)) [
            | inl h ↦ rw h (joined-append (lookup c t) b (keep (in_group c) bs))
            | inr h ↦ rw h refl
          ])
  | inr e ↦ rw (group_all, e) (lookup-group_all c bs t)
]
