-- ===== src/Market/Sorted.antt =====
-- Tables sorted by their keys: a table without a repeated key keeps its look-ups when it is sorted, and
-- its look-ups determine the sorted table.
use Prim.Native.Nat.{Ordering}
use career_agent_harness.Base.{
  String, true, [], ◌∷◌, Option, none, some, str_eq, eq_iff, eq_refl, ◌≡◌, refl, sym, ◌∙◌, ap,
  arith, inl, inr, Bool-cases, if◌then◌else◌,
}
use career_agent_harness.Base.Table.{Table, lookup, Distinct}
use career_agent_harness.Base.Compare.{compare_text, compare_text-Lawful, compare_text-eq, at_most}
use career_agent_harness.Base.Sort.{insert_by, sort_by, AtMost, IsSorted}

module _ {V : Type 0} where
  abbrev pub by_first : String × V → String × V → Ordering
  by_first a b = compare_text a.0 b.0

  lookup-insert_by :
      (c k : String) (v : V) (t : Table V)
      → lookup k t ≡ none
      → lookup c (insert_by by_first (k, v) t) ≡ (if str_eq k c then some v else lookup c t)
  unfolding insert_by lookup
  lookup-insert_by c k v [] free = refl
  lookup-insert_by c k v ((j, w) ∷ t) free = elim (Bool-cases (at_most (compare_text k j))) [
    | inl e ↦ rw (insert_by, e) refl
    | inr e ↦
        rw (insert_by, e)
          (ground
            (arith, free, eq_iff k j, eq_iff j k, eq_iff k c, eq_iff j c, lookup-insert_by c k v t))
  ]

  Distinct-insert_by :
      (k : String) (v : V) (t : Table V)
      → lookup k t ≡ none
      → Distinct t
      → Distinct (insert_by by_first (k, v) t)
  unfolding insert_by lookup
  Distinct-insert_by k v [] free d = (refl, tt)
  Distinct-insert_by k v ((j, w) ∷ t) free d = elim (Bool-cases (at_most (compare_text k j))) [
    | inl e ↦ rw (insert_by, e) (free, d)
    | inr e ↦
        let free' : lookup k t ≡ none = ground (arith, free) in
        rw (insert_by, e)
          (
            ground (arith, lookup-insert_by j k v t free', d.0, free, eq_iff k j, eq_iff j k),
            Distinct-insert_by k v t free' d.1,
          )
  ]

  sort_by_keeps :
      (t : Table V)
      → Distinct t
      → Distinct (sort_by by_first t) × ((c : String) → lookup c (sort_by by_first t) ≡ lookup c t)
  unfolding sort_by lookup
  sort_by_keeps [] d = (tt, λ c. refl)
  sort_by_keeps ((k, v) ∷ t) d =
      let (distinct, same) = sort_by_keeps t d.1 in
      let free = same k ∙ d.0 in
      (
        Distinct-insert_by k v (sort_by by_first t) free distinct,
        λ c. lookup-insert_by c k v (sort_by by_first t) free ∙ rw (same c) refl,
      )

  pub Distinct-sort_by : (t : Table V) → Distinct t → Distinct (sort_by by_first t)
  Distinct-sort_by t d = (sort_by_keeps t d).0

  pub lookup-sort_by :
      (t : Table V) (c : String) → Distinct t → lookup c (sort_by by_first t) ≡ lookup c t
  lookup-sort_by t c d = (sort_by_keeps t d).1 c

  AtMost-lookup :
      (j k : String) (w v : V) (t : Table V)
      → AtMost by_first (j, w) t
      → lookup k t ≡ some v
      → at_most (compare_text j k) ≡ true
  unfolding lookup
  AtMost-lookup j k w v [] a found = absurd cc
  AtMost-lookup j k w v ((i, x) ∷ t) a found = elim (Bool-cases (str_eq i k)) [
    | inl e ↦ let same : i ≡ k = (eq_iff i k).0 e in rw (← same) a.0
    | inr e ↦ AtMost-lookup j k w v t a.1 (ground (arith, found, e))
  ]

  -- The first keys of two sorted tables with the same look-ups.
  same_first :
      (k j : String) (v w : V) (s t : Table V)
      → AtMost by_first (k, v) s
      → AtMost by_first (j, w) t
      → ((c : String) → lookup c ((k, v) ∷ s) ≡ lookup c ((j, w) ∷ t))
      → k ≡ j
  unfolding lookup
  same_first k j v w s t a b same = elim (Bool-cases (str_eq k j)) [
    | inl e ↦ (eq_iff k j).0 e
    | inr e ↦
        let right : lookup k t ≡ some v =
          ground (arith, same k, e, eq_refl k, eq_iff j k, eq_iff k j) in
        let left : lookup j s ≡ some w = ground (arith, same j, e, eq_refl j) in
        let high = AtMost-lookup j k w v t b right in
        let low = AtMost-lookup k j v w s a left in
        compare_text-eq k j (ground (arith, high, low, compare_text-Lawful.swap k j))
  ]

  -- Two sorted tables with the same look-ups are the same.
  pub sorted_unique :
      (s t : Table V)
      → IsSorted by_first s
      → IsSorted by_first t
      → Distinct s
      → Distinct t
      → ((c : String) → lookup c s ≡ lookup c t)
      → s ≡ t
  unfolding lookup
  sorted_unique [] [] a b d e same = refl
  sorted_unique [] ((j, w) ∷ t) a b d e same = absurd (ground (arith, same j, eq_refl j))
  sorted_unique ((k, v) ∷ s) [] a b d e same = absurd (ground (arith, same k, eq_refl k))
  sorted_unique ((k, v) ∷ s) ((j, w) ∷ t) a b d e same =
      let first = same_first k j v w s t a.0 b.0 same in
      let value : v ≡ w = ground (arith, same k, eq_refl k, eq_iff j k, first) in
      let rest = sorted_unique s t a.1 b.1 d.1 e.1 (λ c. elim (Bool-cases (str_eq k c)) [
        | inl h ↦
            let at : k ≡ c = (eq_iff k c).0 h in
            ap (λ x. lookup x s) (sym at) ∙ d.0 ∙ sym e.0 ∙ ap (λ x. lookup x t) (sym first ∙ at)
        | inr h ↦ ground (arith, same c, h, first)
      ]) in
      λ i. (first i, value i) ∷ rest i

abbrev pub map_option : {V W : Type 0} → (V → W) → Option V → Option W
map_option f none = none
map_option f (some v) = some (f v)

module _ {V W : Type 0} (f : String → V → W) where
  -- The same keys with other values.
  unfoldable pub map_values : Table V → Table W
  map_values [] = []
  map_values ((k, v) ∷ t) = (k, f k v) ∷ map_values t

  pub lookup-map_values :
      (c : String) (t : Table V) → lookup c (map_values t) ≡ map_option (f c) (lookup c t)
  unfolding map_values lookup
  lookup-map_values c [] = refl
  lookup-map_values c ((k, v) ∷ t) = elim (Bool-cases (str_eq k c)) [
    | inl e ↦ rw e (ap (λ x. some (f x v)) ((eq_iff k c).0 e))
    | inr e ↦ rw e (lookup-map_values c t)
  ]

  pub Distinct-map_values : (t : Table V) → Distinct t → Distinct (map_values t)
  unfolding map_values
  Distinct-map_values [] d = tt
  Distinct-map_values ((k, v) ∷ t) d =
      (lookup-map_values k t ∙ ap (map_option (f k)) d.0, Distinct-map_values t d.1)

  AtMost-map_values :
      (k : String) (v : V) (t : Table V)
      → AtMost by_first (k, v) t
      → AtMost by_first (k, f k v) (map_values t)
  unfolding map_values
  AtMost-map_values k v [] a = tt
  AtMost-map_values k v ((j, w) ∷ t) a = (a.0, AtMost-map_values k v t a.1)

  pub IsSorted-map_values : (t : Table V) → IsSorted by_first t → IsSorted by_first (map_values t)
  unfolding map_values
  IsSorted-map_values [] s = tt
  IsSorted-map_values ((k, v) ∷ t) s = (AtMost-map_values k v t s.0, IsSorted-map_values t s.1)
