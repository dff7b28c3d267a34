-- ===== src/Radar/History.antt =====
-- The stored policies over any sequence of the methods that write them
-- (backend/career_harness/db/job_staging_repository.py).
use career_agent_harness.Base.{ℕ, String, Bool, true, false, ◌≡◌, refl, ap, inl, inr, Bool-cases}
use career_agent_harness.Base.Result.{ok, err}
use career_agent_harness.Base.Table.{lookup}
use career_agent_harness.Base.Text.{is_opaque_id}
use career_agent_harness.Radar.Policy.{
  Policies, PolicyError, PolicyUpdate, succeeded, ensure_source_policy, record_source_success,
  record_source_failure, update_source_policy,
}
use career_agent_harness.Radar.Valid.{
  AllAdmitted, Written-AllAdmitted, current_policy, current_policy_admitted, after_failure,
  after_failure_admitted, succeeded_admitted, ensure_source_policy_lem, record_source_success_lem,
  record_source_failure_lem, ensure_unnamed, update_source_policy_lem,
}

-- One call of a method, whatever it answers.
pub data Step (t t' : Policies) : Type 0 where
  ensures : (id : String) (now : ℕ) → (ensure_source_policy id now t).1 ≡ t' → Step t t'
  succeeds : (id : String) (now : ℕ) → (record_source_success id now t).1 ≡ t' → Step t t'
  fails : (id error : String) (now : ℕ) → (record_source_failure id error now t).1 ≡ t' → Step t t'
  updates :
      (id : String) (u : PolicyUpdate) (now : ℕ)
      → (update_source_policy id u now t).1 ≡ t'
      → Step t t'

pub data Reach (t : Policies) : Policies → Type 0 where
  here : Reach t t
  next : {mid t' : Policies} → Reach t mid → Step mid t' → Reach t t'

succeeds-AllAdmitted :
    (id : String) (now : ℕ) (t : Policies)
    → AllAdmitted t
    → AllAdmitted (record_source_success id now t).1
unfolding record_source_success
succeeds-AllAdmitted id now t v = elim (Bool-cases (is_opaque_id id)) [
  | inl named ↦
      let (t', done, w) = record_source_success_lem id now t named v in
      rw done
        (Written-AllAdmitted w (succeeded_admitted now _ (current_policy_admitted id now t v)) v)
  | inr unnamed ↦
      let (t', refused, v') = ensure_unnamed id now t unnamed v in
      rw (record_source_success, refused) v'
]

fails-AllAdmitted :
    (id error : String) (now : ℕ) (t : Policies)
    → AllAdmitted t
    → AllAdmitted (record_source_failure id error now t).1
unfolding record_source_failure
fails-AllAdmitted id error now t v = elim (Bool-cases (is_opaque_id id)) [
  | inl named ↦
      let (t', done, w) = record_source_failure_lem id error now t named v in
      rw done (
        Written-AllAdmitted w
          (after_failure_admitted error now _ (current_policy_admitted id now t v)) v)
  | inr unnamed ↦
      let (t', refused, v') = ensure_unnamed id now t unnamed v in
      rw (record_source_failure, refused) v'
]

ensures-AllAdmitted :
    (id : String) (now : ℕ) (t : Policies)
    → AllAdmitted t
    → AllAdmitted (ensure_source_policy id now t).1
ensures-AllAdmitted id now t v = elim (Bool-cases (is_opaque_id id)) [
  | inl named ↦
      let (t', done, w) = ensure_source_policy_lem id now t named v in
      rw done (Written-AllAdmitted w (current_policy_admitted id now t v) v)
  | inr unnamed ↦ (let (t', refused, v') = ensure_unnamed id now t unnamed v in rw refused v')
]

Step-AllAdmitted : {t t' : Policies} → Step t t' → AllAdmitted t → AllAdmitted t'
Step-AllAdmitted {t} (Step.ensures id now h) v = rw (← h) (ensures-AllAdmitted id now t v)
Step-AllAdmitted {t} (Step.succeeds id now h) v = rw (← h) (succeeds-AllAdmitted id now t v)
Step-AllAdmitted {t} (Step.fails id error now h) v = rw (← h) (fails-AllAdmitted id error now t v)
Step-AllAdmitted {t} (Step.updates id u now h) v = rw (← h) (update_source_policy_lem id u now t v)

Reach-AllAdmitted : {t t' : Policies} → Reach t t' → AllAdmitted t → AllAdmitted t'
Reach-AllAdmitted Reach.here v = v
Reach-AllAdmitted (Reach.next before step) v = Step-AllAdmitted step (Reach-AllAdmitted before v)

-- What ensuring a source and recording of it answer, by whether its identifier is an `OpaqueId`.
abbrev pub Replied : Bool → String → String → ℕ → Policies → Type 0
Replied true id error now t =
    ((ensure_source_policy id now t).0 ≡ ok (current_policy (lookup id t) now))
    × ((record_source_success id now t).0 ≡ ok (succeeded now (current_policy (lookup id t) now)))
    × ((record_source_failure id error now t).0
        ≡ ok (after_failure error now (current_policy (lookup id t) now)))
Replied false id error now t =
    ((ensure_source_policy id now t).0 ≡ err PolicyError.validation_error)
    × ((record_source_success id now t).0 ≡ err PolicyError.validation_error)
    × ((record_source_failure id error now t).0 ≡ err PolicyError.validation_error)

answers_now :
    (id error : String) (now : ℕ) (t : Policies)
    → AllAdmitted t
    → Replied (is_opaque_id id) id error now t
unfolding record_source_success record_source_failure
answers_now id error now t v = elim (Bool-cases (is_opaque_id id)) [
  | inl named ↦ rw named (
    ap (λ x. x.0) (ensure_source_policy_lem id now t named v).1,
    ap (λ x. x.0) (record_source_success_lem id now t named v).1,
    ap (λ x. x.0) (record_source_failure_lem id error now t named v).1,
  )
  | inr unnamed ↦
      let refused = (ensure_unnamed id now t unnamed v).1 in
      rw unnamed (
        ap (λ x. x.0) refused,
        rw (record_source_success, refused) refl,
        rw (record_source_failure, refused) refl,
      )
]

-- After any sequence of the methods on policies, refused updates included, from a table on whose
-- policies are admitted but for their identifiers: they still are. To ensure a source, to record a
-- success and to record a failure never raises where its identifier is an `OpaqueId`; they answer with
-- the stored or the new policy, with the one whose count is 0, and with the one that counts one
-- failure more and is switched off exactly from its threshold on. For any other identifier each of
-- the three raises a validation error, for ever.
pub Reach-answers :
    {t t' : Policies} (id error : String) (now : ℕ)
    → AllAdmitted t
    → Reach t t'
    → AllAdmitted t' × Replied (is_opaque_id id) id error now t'
Reach-answers {t} {t'} id error now v reach =
    let v' = Reach-AllAdmitted reach v in (v', answers_now id error now t' v')
