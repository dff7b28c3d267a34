-- ===== src/Radar/Rounds.antt =====
-- One round of the loop of `collect`, and how a search ends
-- (backend/career_harness/services/opportunity_radar_service.py,
-- backend/career_harness/db/job_staging_repository.py).
use career_agent_harness.Base.{
  ℕ, suc, ◌+◌, ◌≤◌, ◌<◌, String, Bool, true, false, ◌||◌, none, some, leb, if◌then◌else◌, ◌≡◌, ◌⊎◌,
  refl, ◌∙◌, ap, arith, inl, inr, Bool-cases,
}
use career_agent_harness.Base.Result.{ok, err, Result-cases}
use career_agent_harness.Base.Table.{lookup}
use career_agent_harness.Base.Text.{is_opaque_id}
use career_agent_harness.Radar.Policy.{
  JobSourcePolicy, Policies, succeeded, record_source_success, record_source_failure,
}
use career_agent_harness.Radar.Valid.{
  AllAdmitted, current_policy, Written, Written-AllAdmitted, after_failure, after_failure_admitted,
  record_source_success_lem, record_source_failure_lem,
}
use career_agent_harness.Radar.Ended.{Ended}
use career_agent_harness.Radar.Search.{
  JobSource, CollectError, Searched, try_search, search_loop, result_of_search,
}

module _ {R : Type 0} (source : JobSource R) where
  module _ (id : String) (named : is_opaque_id id ≡ true) (clock : ℕ → ℕ) where
    abbrev pub Ends : ℕ → ℕ → ℕ → ℕ → Searched R → Type 0
    Ends count threshold retries from s =
        Ended source id count threshold retries from (result_of_search s) s.policies s.calls

    step_ok :
        (left from : ℕ) (s : Searched R) (records : R) (p : JobSourcePolicy) (t : Policies)
        → source.search from ≡ ok records
        → record_source_success id (clock from) s.policies ≡ (ok p, t)
        → search_loop source id clock (suc left) from s
          ≡ record s { raw_records = some records; policies = t; calls = from + 1 }
    unfolding search_loop try_search
    step_ok left from s records p t e done = rw (try_search, e, done) refl

    step_err :
        (left from : ℕ) (s : Searched R) (m : String) (p : JobSourcePolicy) (t : Policies)
        → source.search from ≡ err m
        → record_source_failure id m (clock from) s.policies ≡ (ok p, t)
        → search_loop source id clock (suc left) from s ≡ (
            if leb p.max_retries from || p.disabled
            then record s {
              last_error = some (CollectError.source_error m);
              policies = t;
              calls = from + 1;
            }
            else search_loop source id clock left (from + 1) (record s {
              last_error = some (CollectError.source_error m);
              policies = t;
              calls = from + 1;
            }))
    unfolding search_loop try_search
    step_err left from s m p t e done = rw (try_search, e, done) refl

    -- Where an iteration begins: the policy is there and switched on, and the attempts before failed.
    pub record Going (count threshold retries left from : ℕ) (q : JobSourcePolicy) (s : Searched R)
        : Type 0 where
      pub admitted : AllAdmitted s.policies
      pub stored : lookup id s.policies ≡ some q
      pub enabled : q.disabled ≡ false
      pub counted : q.failure_count ≡ count + from
      pub limited : q.failure_threshold ≡ threshold
      pub retried : q.max_retries ≡ retries
      pub rounds : from + left ≡ retries
      pub below : (from ≡ 0) ⊎ (count + from < threshold)
      pub no_records : s.raw_records ≡ none
      pub no_escape : s.escaped ≡ none

    Ends-ok :
        (count threshold retries left from : ℕ) (q : JobSourcePolicy) (s : Searched R) (records : R)
        → Going count threshold retries left from q s
        → source.search from ≡ ok records
        → Ends count threshold retries from (search_loop source id clock (suc left) from s)
    Ends-ok count threshold retries left from q s records g e =
        let (t, done, w) = record_source_success_lem id (clock from) s.policies named g.admitted in
        let stored = g.stored in
        let rounds = g.rounds in
        let found : succeeded (clock from) (current_policy (lookup id s.policies) (clock from))
            ≡ succeeded (clock from) q =
          rw stored refl in
        rw (step_ok left from s records _ t e done) (
          Ended.found from records (succeeded (clock from) q) (rw (g.no_escape) refl) refl
            (omega arith) (omega (arith, rounds)) (λ j lo hi. absurd (omega (arith, lo, hi))) e
            g.below (w.stored ∙ ap some found) refl g.enabled)

    pub Going-next :
        (count threshold retries left from : ℕ) (q : JobSourcePolicy) (s : Searched R) (m : String)
        (t : Policies)
        → Going count threshold retries (suc left) from q s
        → Written id (after_failure m (clock from) q) s.policies t
        → leb threshold (count + (from + 1)) ≡ false
        → Going count threshold retries left (from + 1) (after_failure m (clock from) q) (record s {
          last_error = some (CollectError.source_error m);
          policies = t;
          calls = from + 1;
        })
    Going-next count threshold retries left from q s m t g w below =
        let counted = g.counted in
        let rounds = g.rounds in
        let limited = g.limited in
        record {
          admitted =
              Written-AllAdmitted w
                (after_failure_admitted m (clock from) q (g.admitted id q g.stored)) g.admitted;
          stored = w.stored;
          enabled = rw (counted, limited) (ground (arith, below));
          counted = omega (arith, counted);
          limited = limited;
          retried = g.retried;
          rounds = omega (arith, rounds);
          below = inr (ground (arith, below));
          no_records = g.no_records;
          no_escape = g.no_escape;
        }

    -- The last attempt: no retry is left, or the policy is switched off by it.
    Ends-err :
        (count threshold retries left from : ℕ) (q : JobSourcePolicy) (s : Searched R) (m : String)
        (t : Policies)
        → Going count threshold retries left from q s
        → source.search from ≡ err m
        → Written id (after_failure m (clock from) q) s.policies t
        → (from ≡ retries) ⊎ (threshold ≤ count + (from + 1))
        → Ends count threshold retries from (record s {
          last_error = some (CollectError.source_error m);
          policies = t;
          calls = from + 1;
        })
    Ends-err count threshold retries left from q s m t g e w why =
        let counted = g.counted in
        let rounds = g.rounds in
        let limited = g.limited in
        Ended.exhausted from m (after_failure m (clock from) q)
          (rw (g.no_escape, g.no_records) refl) refl (omega arith) (omega (arith, rounds))
          (λ j lo hi. absurd (omega (arith, lo, hi))) e g.below why w.stored
          (omega (arith, counted)) (ground (arith, counted, limited))

    failure_found :
        (m : String) (now : ℕ) (q : JobSourcePolicy) (t : Policies)
        → AllAdmitted t
        → lookup id t ≡ some q
        → (t' : Policies) × (record_source_failure id m now t ≡ (ok (after_failure m now q), t'))
          × Written id (after_failure m now q) t t'
    failure_found m now q t v stored =
        let (t', done, w) = record_source_failure_lem id m now t named v in
        let same : current_policy (lookup id t) now ≡ q = rw stored refl in
        (t', done ∙ ap (λ x. (ok (after_failure m now x), t')) same, rw same at w)

    -- Whether the loop stops behind a failure.
    stops : ℕ → JobSourcePolicy → Bool
    stops from q = leb q.max_retries from || leb q.failure_threshold (q.failure_count + 1)

    stops_why :
        (count threshold retries left from : ℕ) (q : JobSourcePolicy) (s : Searched R)
        → Going count threshold retries left from q s
        → stops from q ≡ true
        → (from ≡ retries) ⊎ (threshold ≤ count + (from + 1))
    unfolding stops
    stops_why count threshold retries left from q s g h =
        let counted = g.counted in
        let rounds = g.rounds in
        let limited = g.limited in
        let retried = g.retried in
        elim (Bool-cases (leb q.max_retries from)) [
          | inl e ↦ inl (ground (arith, e, retried, rounds))
          | inr e ↦ inr (ground (arith, h, e, counted, limited))
        ]

    goes_on :
        (count threshold retries left from : ℕ) (q : JobSourcePolicy) (s : Searched R)
        → Going count threshold retries left from q s
        → stops from q ≡ false
        → (leb threshold (count + (from + 1)) ≡ false) × (from < retries)
    unfolding stops
    goes_on count threshold retries left from q s g h =
        let counted = g.counted in
        let limited = g.limited in
        let retried = g.retried in (ground (arith, h, counted, limited), ground (arith, h, retried))

    abbrev pub behind : ℕ → Searched R → String → Policies → Searched R
    behind from s m t = record s {
      last_error = some (CollectError.source_error m);
      policies = t;
      calls = from + 1;
    }

    pub attempt-Ends :
        (left count threshold retries from : ℕ) (q : JobSourcePolicy) (s : Searched R)
        → Going count threshold retries left from q s
        → ((m : String) (t : Policies)
            → source.search from ≡ err m
            → Written id (after_failure m (clock from) q) s.policies t
            → leb threshold (count + (from + 1)) ≡ false
            → from < retries
            → Ends count threshold retries from
                (search_loop source id clock left (from + 1) (behind from s m t)))
        → Ends count threshold retries from (search_loop source id clock (suc left) from s)
    unfolding stops
    attempt-Ends left count threshold retries from q s g next =
        elim (Result-cases (source.search from)) [
          | inl (records, e) ↦ Ends-ok count threshold retries left from q s records g e
          | inr (m, e) ↦
              let (t, done, w) = failure_found m (clock from) q s.policies g.admitted g.stored in
              let step = step_err left from s m (after_failure m (clock from) q) t e done in
              elim (Bool-cases (stops from q)) [
                | inl stop ↦
                    rw (step, stop)
                      (Ends-err count threshold retries left from q s m t g e w
                        (stops_why count threshold retries left from q s g stop))
                | inr on ↦
                    let (below, more) = goes_on count threshold retries left from q s g on in
                    rw (step, on) (next m t e w below more)
              ]
        ]
