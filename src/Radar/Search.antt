-- ===== src/Radar/Search.antt =====
-- The search of `OpportunityRadarService.collect`
-- (backend/career_harness/services/opportunity_radar_service.py), up to the records that it found. The
-- pause between the attempts is left out.
use career_agent_harness.Base.{
  ℕ, zero, suc, ◌+◌, String, Bool, not, ◌||◌, Option, none, some, leb, if◌then◌else◌,
}
use career_agent_harness.Base.Result.{Result, ok, err}
use career_agent_harness.Radar.Policy.{
  JobSourcePolicy, PolicyError, Policies, ensure_source_policy, record_source_success,
  record_source_failure,
}

-- A source: what its health and terms say, the answer of the call of `search` in each attempt,
-- which may raise an exception with some text, and the text of an exception of the repository.
pub record JobSource (R : Type 0) : Type 0 where
  pub healthy : Bool
  pub blocked : Bool
  pub search : ℕ → Result String R
  pub text_of : PolicyError → String

pub data CollectError : Type 0 where
  source_disabled source_blocked failed_without_error : CollectError
  source_error : String → CollectError
  policy_error : PolicyError → CollectError

-- The variables of the loop: `raw_records`, `last_error`, the exception that left it, the table, and
-- how often the source was called.
pub record Searched (R : Type 0) : Type 0 where
  pub raw_records : Option R
  pub last_error : Option CollectError
  pub escaped : Option PolicyError
  pub policies : Policies
  pub calls : ℕ

module _ {R : Type 0} where
  abbrev pub error_text : JobSource R → CollectError → String
  error_text source (CollectError.source_error message) = message
  error_text source (CollectError.policy_error e) = source.text_of e
  error_text source e = ""

  -- Behind `record_source_success`, which stands in the `try` too.
  abbrev pub after_success :
      R
      → Searched R
      → Result PolicyError JobSourcePolicy × Policies
      → Searched R × Option CollectError
  after_success records s (ok policy, t) =
      (record s { raw_records = some records; policies = t }, none)
  after_success records s (err e, t) =
      (record s { raw_records = some records; policies = t }, some (CollectError.policy_error e))

  -- The body of the `try`, and what it raised.
  unfoldable pub try_search :
      JobSource R → String → ℕ → ℕ → Searched R → Searched R × Option CollectError
  try_search source source_id attempt now s = elim (source.search attempt) [
    | ok records ↦
        after_success records (record s { calls = attempt + 1 })
          (record_source_success source_id now s.policies)
    | err message ↦ (record s { calls = attempt + 1 }, some (CollectError.source_error message))
  ]

  -- The end of an iteration that failed; `rest` is the next iteration.
  abbrev pub after_failed :
      ℕ
      → Searched R
      → (JobSourcePolicy → Searched R → Searched R)
      → Result PolicyError JobSourcePolicy × Policies
      → Searched R
  after_failed attempt s rest (err e, t) = record s { escaped = some e; policies = t }
  after_failed attempt s rest (ok policy, t) =
      let next = rest policy (record s { policies = t }) in
      if leb policy.max_retries attempt || policy.disabled then record s { policies = t } else next

  abbrev pub next_attempt :
      JobSource R
      → String
      → ℕ
      → ℕ
      → (JobSourcePolicy → Searched R → Searched R)
      → Searched R × Option CollectError
      → Searched R
  next_attempt source source_id attempt now rest (s, none) = s
  next_attempt source source_id attempt now rest (s, some error) =
      after_failed attempt (record s { last_error = some error }) rest
        (record_source_failure source_id (error_text source error) now s.policies)

  -- `for attempt in range(policy.max_retries + 1)`, with the attempts that are left.
  unfoldable pub search_loop : JobSource R → String → (ℕ → ℕ) → ℕ → ℕ → Searched R → Searched R
  search_loop source source_id clock zero attempt s = s
  search_loop source source_id clock (suc left) attempt s =
      next_attempt source source_id attempt (clock attempt)
        (λ policy s'. search_loop source source_id clock left (attempt + 1) s')
        (try_search source source_id attempt (clock attempt) s)

  -- `if raw_records is None: raise …`
  abbrev pub result_of_search : Searched R → Result CollectError R
  result_of_search s = elim s.escaped [
    | some e ↦ err (CollectError.policy_error e)
    | none ↦ elim s.raw_records [
      | some records ↦ ok records
      | none ↦ elim s.last_error [ none ↦ err CollectError.failed_without_error | some e ↦ err e ]
    ]
  ]

  abbrev pub not_searched : CollectError → Policies → Result CollectError R × Policies × ℕ
  not_searched e t = (err e, t, 0)

  abbrev pub search_with :
      JobSource R
      → String
      → (ℕ → ℕ)
      → Result PolicyError JobSourcePolicy × Policies
      → Result CollectError R × Policies × ℕ
  search_with source source_id clock (err e, t) = not_searched (CollectError.policy_error e) t
  search_with source source_id clock (ok policy, t) =
      let start : Searched R = record {
        raw_records = none;
        last_error = none;
        escaped = none;
        policies = t;
        calls = 0;
      } in
      let s = search_loop source source_id clock (policy.max_retries + 1) 0 start in
      if policy.disabled
      then not_searched CollectError.source_disabled t
      else if not source.healthy || source.blocked
      then not_searched CollectError.source_blocked t
      else (result_of_search s, s.policies, s.calls)

  -- The records, or what `collect` raises before it stages any, the policies afterwards, and how
  -- often the source was called.
  unfoldable pub collect_records :
      JobSource R → String → (ℕ → ℕ) → Policies → Result CollectError R × Policies × ℕ
  collect_records source source_id clock t =
      search_with source source_id clock (ensure_source_policy source_id (clock 0) t)
