-- ===== src/Radar/Ended.antt =====
-- How the search of a source can end
-- (backend/career_harness/services/opportunity_radar_service.py,
-- backend/career_harness/db/job_staging_repository.py).
use career_agent_harness.Base.{
  ℕ, ◌+◌, ◌≤◌, ◌<◌, String, false, some, leb, ◌≡◌, ◌⊎◌, ◌∙◌, ap, arith, inl, inr, Bool-cases,
}
use career_agent_harness.Base.Result.{Result, ok, err}
use career_agent_harness.Base.Table.{lookup}
use career_agent_harness.Radar.Policy.{JobSourcePolicy, Policies}
use career_agent_harness.Radar.Search.{JobSource, CollectError}

module _ {R : Type 0} (source : JobSource R) where
  -- The attempts from one on, before another, failed.
  abbrev pub Failed : ℕ → ℕ → Type 0
  Failed from to = (j : ℕ) → from ≤ j → j < to → (m : String) × (source.search j ≡ err m)

  -- How the search of a source ends whose policy at its start had a count of failures, a threshold and a
  -- number of retries.
  pub data Ended (id : String) (count threshold retries from : ℕ) (r : Result CollectError R)
      (t : Policies) (calls : ℕ) : Type 0 where
    found :
        (k : ℕ) (records : R) (p : JobSourcePolicy)
        → r ≡ ok records
        → calls ≡ k + 1
        → from ≤ k
        → k ≤ retries
        → Failed from k
        → source.search k ≡ ok records
        → (k ≡ 0) ⊎ (count + k < threshold)
        → lookup id t ≡ some p
        → p.failure_count ≡ 0
        → p.disabled ≡ false
        → Ended id count threshold retries from r t calls
    exhausted :
        (k : ℕ) (message : String) (p : JobSourcePolicy)
        → r ≡ err (CollectError.source_error message)
        → calls ≡ k + 1
        → from ≤ k
        → k ≤ retries
        → Failed from k
        → source.search k ≡ err message
        → (k ≡ 0) ⊎ (count + k < threshold)
        → (k ≡ retries) ⊎ (threshold ≤ count + (k + 1))
        → lookup id t ≡ some p
        → p.failure_count ≡ count + (k + 1)
        → p.disabled ≡ leb threshold (count + (k + 1))
        → Ended id count threshold retries from r t calls

  Failed-earlier :
      (from k : ℕ) (m : String) → source.search from ≡ err m → Failed (from + 1) k → Failed from k
  Failed-earlier from k m e f x lo hi = elim (Bool-cases (leb (from + 1) x)) [
    | inl above ↦ f x (ground (arith, above)) hi
    | inr at ↦ let same : x ≡ from = ground (arith, at, lo) in (m, ap source.search same ∙ e)
  ]

  module _ (id : String) where
    -- One more failed attempt in front.
    pub earlier :
        (count threshold retries from : ℕ) (m : String) (r : Result CollectError R) (t : Policies)
        (calls : ℕ)
        → source.search from ≡ err m
        → Ended id count threshold retries (from + 1) r t calls
        → Ended id count threshold retries from r t calls
    earlier count threshold retries from m r t calls e
          (Ended.found k records p a b c d f g h i j l) =
        Ended.found k records p a b (omega (arith, c)) d (Failed-earlier from k m e f) g h i j l
    earlier count threshold retries from m r t calls e
          (Ended.exhausted k message p a b c d f g h h' i j l) =
        Ended.exhausted k message p a b (omega (arith, c)) d (Failed-earlier from k m e f) g h h' i
          j l
