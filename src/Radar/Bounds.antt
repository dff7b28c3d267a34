-- ===== src/Radar/Bounds.antt =====
-- How often a source is called, and when it is switched off
-- (backend/career_harness/services/opportunity_radar_service.py,
-- backend/career_harness/db/job_staging_repository.py).
use career_agent_harness.Base.{
  ℕ, zero, suc, ◌+◌, String, true, false, not, ◌||◌, none, some, ◌≡◌, refl, arith, inl, inr,
  Bool-cases,
}
use career_agent_harness.Base.Result.{Result, ok}
use career_agent_harness.Base.Table.{lookup}
use career_agent_harness.Base.Text.{is_opaque_id}
use career_agent_harness.Radar.Policy.{JobSourcePolicy, Policies}
use career_agent_harness.Radar.Valid.{
  AllAdmitted, current_policy, Written-AllAdmitted, after_failure, ensure_source_policy_lem,
  current_policy_admitted,
}
use career_agent_harness.Radar.Ended.{Ended, earlier}
use career_agent_harness.Radar.Rounds.{Ends, Going, Going-next, behind, attempt-Ends}
use career_agent_harness.Radar.Search.{
  JobSource, CollectError, Searched, search_loop, result_of_search, search_with, collect_records,
}

module _ {R : Type 0} (source : JobSource R) (id : String) (named : is_opaque_id id ≡ true)
    (clock : ℕ → ℕ) where
  search_loop-Ends :
      (left count threshold retries from : ℕ) (q : JobSourcePolicy) (s : Searched R)
      → Going source id named clock count threshold retries left from q s
      → Ends source id named clock count threshold retries from
          (search_loop source id clock (suc left) from s)
  search_loop-Ends zero count threshold retries from q s g =
      let rounds = g.rounds in
      attempt-Ends source id named clock zero count threshold retries from q s g
        (λ m t e w below more. absurd (omega (arith, rounds, more)))
  search_loop-Ends (suc left) count threshold retries from q s g =
      attempt-Ends source id named clock (suc left) count threshold retries from q s g
        (λ m t e w below more. earlier source id count threshold retries from m _ _ _ e (
          search_loop-Ends left count threshold retries (from + 1) (after_failure m (clock from) q)
            (behind source id named clock from s m t)
            (Going-next source id named clock count threshold retries left from q s m t g w below)))
      -- The source was not called, or its search ended in one of the two ways.

  pub data Collected (p : JobSourcePolicy) (x : Result CollectError R × Policies × ℕ) : Type 0 where
    refused : (p.disabled || not source.healthy || source.blocked) ≡ true → x.2 ≡ 0 → Collected p x
    searched :
        (p.disabled || not source.healthy || source.blocked) ≡ false
        → Ended source id p.failure_count p.failure_threshold p.max_retries 0 x.0 x.1 x.2
        → Collected p x

  first_round :
      (p : JobSourcePolicy) (t : Policies)
      → AllAdmitted t
      → lookup id t ≡ some p
      → p.disabled ≡ false
      → Going source id named clock p.failure_count p.failure_threshold p.max_retries p.max_retries
          0 p
          (record {
            raw_records = none;
            last_error = none;
            escaped = none;
            policies = t;
            calls = 0;
          })
  first_round p t v stored enabled = record {
    admitted = v;
    stored = stored;
    enabled = enabled;
    counted = omega arith;
    limited = refl;
    retried = refl;
    rounds = omega arith;
    below = inl refl;
    no_records = refl;
    no_escape = refl;
  }

  searched_from : JobSourcePolicy → Policies → Searched R
  searched_from p t =
      search_loop source id clock (p.max_retries + 1) 0
        (record { raw_records = none; last_error = none; escaped = none; policies = t; calls = 0 })

  search_with-searched_from :
      (p : JobSourcePolicy) (t : Policies)
      → p.disabled ≡ false
      → (not source.healthy || source.blocked) ≡ false
      → search_with source id clock (ok p, t) ≡ (
        result_of_search (searched_from p t),
        (searched_from p t).policies,
        (searched_from p t).calls,
      )
  unfolding searched_from
  search_with-searched_from p t on e = rw (on, e) refl

  searched_from-Ends :
      (p : JobSourcePolicy) (t : Policies)
      → AllAdmitted t
      → lookup id t ≡ some p
      → p.disabled ≡ false
      → Ends source id named clock p.failure_count p.failure_threshold p.max_retries 0
          (searched_from p t)
  unfolding searched_from
  searched_from-Ends p t v stored on =
      let one_more : p.max_retries + 1 ≡ suc p.max_retries = omega arith in
      rw one_more (
        search_loop-Ends p.max_retries p.failure_count p.failure_threshold p.max_retries 0 p _
          (first_round p t v stored on))

  Collected-searched :
      (p : JobSourcePolicy) (t : Policies)
      → AllAdmitted t
      → lookup id t ≡ some p
      → p.disabled ≡ false
      → (not source.healthy || source.blocked) ≡ false
      → Collected p (search_with source id clock (ok p, t))
  Collected-searched p t v stored on e =
      rw (search_with-searched_from p t on e)
        (Collected.searched (ground (arith, on, e)) (searched_from-Ends p t v stored on))

  search_with-Collected :
      (p : JobSourcePolicy) (t : Policies)
      → AllAdmitted t
      → lookup id t ≡ some p
      → Collected p (search_with source id clock (ok p, t))
  search_with-Collected p t v stored = elim (Bool-cases p.disabled) [
    | inl off ↦ rw off (Collected.refused (ground (arith, off)) refl)
    | inr on ↦ elim (Bool-cases (not source.healthy || source.blocked)) [
      | inl e ↦ rw (on, e) (Collected.refused (ground (arith, e)) refl)
      | inr e ↦ Collected-searched p t v stored on e
    ]
  ]

  -- A source that is switched off, not healthy or blocked by its terms is not called. Any other is
  -- called until it answers: at most once more than its policy allows retries, and not again once the
  -- failures, counted on from the stored ones, reach the threshold of its policy. An answer is the
  -- result and sets the count to 0, and the source stays switched on; without one the result is
  -- the exception of the last call, each call is counted as a failure, and the source is switched
  -- off exactly where the threshold is reached. All of that where
  -- the identifier of the source is an `OpaqueId` and the stored policies are admitted.
  pub collect_records-Collected :
      (t : Policies)
      → AllAdmitted t
      → Collected (current_policy (lookup id t) (clock 0)) (collect_records source id clock t)
  unfolding collect_records
  collect_records-Collected t v =
      let (t', ensured, w) = ensure_source_policy_lem id (clock 0) t named v in
      let admitted = current_policy_admitted id (clock 0) t v in
      rw ensured (
        search_with-Collected (current_policy (lookup id t) (clock 0)) t'
          (Written-AllAdmitted w admitted v) w.stored)
