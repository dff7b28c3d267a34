-- ===== src/Tasks/Selection.antt =====
-- The task that the `SELECT` of `claim_next` picks.
use career_agent_harness.Base.{
  ℕ, String, true, false, [], ◌∷◌, none, some, ◌≡◌, inl, inr, arith, eq_iff, Option-cases,
}
use career_agent_harness.Base.Table.{Table, lookup, Distinct}
use career_agent_harness.Tasks.Model.{Row}
use career_agent_harness.Tasks.Lease.{is_ready, is_before, first_ready}

is_before_total : (r s : Row) → is_before r s ≡ false → is_before s r ≡ true
unfolding is_before
is_before_total r s h = ground arith

is_before_trans : (r s t : Row) → is_before r s ≡ true → is_before s t ≡ true → is_before r t ≡ true
unfolding is_before
is_before_trans r s t h k = ground arith

is_before_refl : (r : Row) → is_before r r ≡ true
unfolding is_before
is_before_refl r = ground arith

module _ (stage : String) (now : ℕ) where
  -- What is picked from a table of distinct keys stands in it, and is ready.
  pub first_ready-IsReady :
      (t : Table Row) (k : String) (r : Row)
      → Distinct t
      → first_ready stage now t ≡ some (k, r)
      → (lookup k t ≡ some r) × (is_ready stage now r ≡ true)
  unfolding first_ready lookup
  first_ready-IsReady [] k r d h = ground arith
  first_ready-IsReady ((j, s) ∷ t) k r d h =
      ground (arith, first_ready-IsReady t k r d.1, d.0, eq_iff j k)

  -- Nothing is picked only where no task of the stage is ready.
  pub first_ready-none :
      (t : Table Row) (j : String) (s : Row)
      → first_ready stage now t ≡ none
      → lookup j t ≡ some s
      → is_ready stage now s ≡ false
  unfolding first_ready lookup
  first_ready-none [] j s h l = ground arith
  first_ready-none ((i, x) ∷ t) j s h l = ground (arith, first_ready-none t j s)

  -- No ready task is before the one that is picked.
  pub first_ready-first :
      (t : Table Row) (k j : String) (r s : Row)
      → first_ready stage now t ≡ some (k, r)
      → lookup j t ≡ some s
      → is_ready stage now s ≡ true
      → is_before r s ≡ true
  unfolding first_ready lookup
  first_ready-first [] k j r s h l y = ground arith
  first_ready-first ((i, x) ∷ t) k j r s h l y = elim (Option-cases (first_ready stage now t)) [
    | inl e ↦ ground (arith, first_ready-none t j s, is_before_refl x, e)
    | inr ((k', r'), e) ↦ ground (
      arith,
      e,
      first_ready-first t k' j r' s,
      is_before_refl x,
      is_before_total x r',
      is_before_trans x r' s,
      is_before_refl r',
    )
  ]
