-- ===== src/Radar/Policy.antt =====
-- The policies of job sources (backend/career_harness/core/job_source.py) and the methods of
-- JobStagingRepository on them (backend/career_harness/db/job_staging_repository.py). Each gives its
-- answer, or an exception, and the table it leaves behind.
use career_agent_harness.Base.{
  ℕ, zero, suc, ◌+◌, String, Bool, true, false, not, ◌&&◌, ◌||◌, Option, none, some, leb,
  if◌then◌else◌,
}
use career_agent_harness.Base.Result.{Result, ok, err}
use career_agent_harness.Base.Table.{Table, lookup, insert}
use career_agent_harness.Base.Text.{has_length, is_opaque_id}

pub record JobSourcePolicy : Type 0 where
  pub rate_limit_ms : ℕ
  pub max_retries : ℕ
  pub failure_threshold : ℕ
  pub failure_count : ℕ
  pub disabled : Bool
  pub last_error : Option String
  pub updated_at : ℕ

pub data PolicyError : Type 0 where
  validation_error runtime_error : PolicyError

abbrev pub is_short : Option String → Bool
is_short none = true
is_short (some s) = has_length 0 2048 s

-- The fields but `source_id` are those that `JobSourcePolicy` admits.
unfoldable pub fields_admitted : JobSourcePolicy → Bool
fields_admitted p =
    leb p.rate_limit_ms 300000
    && leb p.max_retries 5
    && leb 1 p.failure_threshold
    && leb p.failure_threshold 20
    && is_short p.last_error

-- The constraints of `JobSourcePolicy`; `source_id`, the key of the table, is an `OpaqueId`.
unfoldable pub is_admitted : String → JobSourcePolicy → Bool
is_admitted source_id p = is_opaque_id source_id && fields_admitted p

abbrev pub Policies : Type 0
Policies = Table JobSourcePolicy

-- `_policy(row) if row else None`
abbrev pub policy_of_row :
    String → Option JobSourcePolicy → Result PolicyError (Option JobSourcePolicy)
policy_of_row source_id none = ok none
policy_of_row source_id (some row) =
    if is_admitted source_id row then ok (some row) else err PolicyError.validation_error

-- `if result is None: raise RuntimeError(…)`
abbrev pub must_exist :
    Result PolicyError (Option JobSourcePolicy) → Result PolicyError JobSourcePolicy
must_exist (ok none) = err PolicyError.runtime_error
must_exist (ok (some p)) = ok p
must_exist (err e) = err e

-- `text[:limit]`
unfoldable pub truncate : ℕ → String → String
truncate zero s = String.[]
truncate (suc n) String.[] = String.[]
truncate (suc n) (String.◌∷◌ c s) = String.◌∷◌ c (truncate n s)

abbrev pub new_policy : ℕ → JobSourcePolicy
new_policy now = record {
  rate_limit_ms = 0;
  max_retries = 2;
  failure_threshold = 3;
  failure_count = 0;
  disabled = false;
  last_error = none;
  updated_at = now;
}

-- What the statements write into the row of a source.
abbrev pub succeeded : ℕ → JobSourcePolicy → JobSourcePolicy
succeeded now row = record row { failure_count = 0; last_error = none; updated_at = now }

abbrev pub failure_written : ℕ → Bool → String → ℕ → JobSourcePolicy → JobSourcePolicy
failure_written failure_count disabled error now row = record row {
  failure_count = failure_count;
  disabled = disabled;
  last_error = some (truncate 2048 error);
  updated_at = now;
}

-- `UPDATE … WHERE source_id=:source_id`
unfoldable pub update_row : String → (JobSourcePolicy → JobSourcePolicy) → Policies → Policies
update_row source_id change t = elim (lookup source_id t) [
  | none ↦ t
  | some row ↦ insert source_id (change row) t
]

unfoldable pub get_source_policy : String → Policies → Result PolicyError (Option JobSourcePolicy)
get_source_policy source_id t = policy_of_row source_id (lookup source_id t)

-- `INSERT OR IGNORE`
unfoldable pub insert_or_ignore : String → JobSourcePolicy → Policies → Policies
insert_or_ignore source_id row t = elim (lookup source_id t) [
  | none ↦ insert source_id row t
  | some existing ↦ t
]

unfoldable pub ensure_source_policy :
    String → ℕ → Policies → Result PolicyError JobSourcePolicy × Policies
ensure_source_policy source_id now t = elim (get_source_policy source_id t) [
  | err e ↦ (err e, t)
  | ok found ↦ elim found [
    | some policy ↦ (ok policy, t)
    | none ↦
        let t' = insert_or_ignore source_id (new_policy now) t in
        (must_exist (get_source_policy source_id t'), t')
  ]
]

-- A row that is there is written and read back.
unfoldable pub write_back :
    String
    → (JobSourcePolicy → JobSourcePolicy)
    → Policies
    → Result PolicyError JobSourcePolicy × Policies
write_back source_id change t =
    let t' = update_row source_id change t in (must_exist (get_source_policy source_id t'), t')

-- What follows once the policy of a source is there.
abbrev pub with_policy :
    Result PolicyError JobSourcePolicy × Policies
    → (JobSourcePolicy → Policies → Result PolicyError JobSourcePolicy × Policies)
    → Result PolicyError JobSourcePolicy × Policies
with_policy (ok current, t) rest = rest current t
with_policy (err e, t) rest = (err e, t)

unfoldable pub record_source_success :
    String → ℕ → Policies → Result PolicyError JobSourcePolicy × Policies
record_source_success source_id now t =
    with_policy (ensure_source_policy source_id now t)
      (λ current t'. write_back source_id (succeeded now) t')

unfoldable pub record_source_failure :
    String → String → ℕ → Policies → Result PolicyError JobSourcePolicy × Policies
record_source_failure source_id error now t =
    with_policy (ensure_source_policy source_id now t) (λ current t'.
      let failure_count = current.failure_count + 1 in
      let disabled = leb current.failure_threshold failure_count in
      write_back source_id (failure_written failure_count disabled error now) t')

-- The arguments of `update_source_policy`.
pub record PolicyUpdate : Type 0 where
  pub rate_limit_ms : Option ℕ
  pub max_retries : Option ℕ
  pub failure_threshold : Option ℕ
  pub enabled : Option Bool
  pub reset_failures : Bool

-- `current if value is None else value`
abbrev pub or_kept : {A : Type 0} → Option A → A → A
or_kept none current = current
or_kept (some value) current = value

abbrev pub is_enabling : Option Bool → Bool
is_enabling none = false
is_enabling (some enabled) = enabled

abbrev pub next_disabled : Option Bool → Bool → Bool
next_disabled none disabled = disabled
next_disabled (some enabled) disabled = not enabled

-- The policy that `update_source_policy` builds.
unfoldable pub updated_policy : PolicyUpdate → JobSourcePolicy → JobSourcePolicy
updated_policy u current =
    let resets = u.reset_failures || is_enabling u.enabled in
    record {
      rate_limit_ms = or_kept u.rate_limit_ms current.rate_limit_ms;
      max_retries = or_kept u.max_retries current.max_retries;
      failure_threshold = or_kept u.failure_threshold current.failure_threshold;
      failure_count = if resets then 0 else current.failure_count;
      disabled = next_disabled u.enabled current.disabled;
      last_error = if resets then none else current.last_error;
      updated_at = current.updated_at;
    }

abbrev pub overwritten : JobSourcePolicy → ℕ → JobSourcePolicy → JobSourcePolicy
overwritten policy now row = record policy { updated_at = now }

unfoldable pub update_source_policy :
    String → PolicyUpdate → ℕ → Policies → Result PolicyError JobSourcePolicy × Policies
update_source_policy source_id u now t =
    with_policy (ensure_source_policy source_id now t) (λ current t'.
      let policy = updated_policy u current in
      if is_admitted source_id policy
      then write_back source_id (overwritten policy now) t'
      else (err PolicyError.validation_error, t'))
