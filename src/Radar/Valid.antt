-- ===== src/Radar/Valid.antt =====
-- What the methods on policies write (backend/career_harness/db/job_staging_repository.py).
use career_agent_harness.Base.{
  ℕ, zero, suc, ◌+◌, ◌≤◌, String, Bool, true, false, Option, none, some, leb, length, str_eq,
  eq_iff, ◌≡◌, refl, sym, ◌∙◌, ap, arith, inl, inr, Bool-cases, Option-cases,
}
use career_agent_harness.Base.Result.{ok, err}
use career_agent_harness.Base.Table.{lookup, insert, lookup-insert, lookup-insert_self}
use career_agent_harness.Base.Text.{codes, has_length, is_opaque_id}
use career_agent_harness.Radar.Policy.{
  JobSourcePolicy, PolicyError, is_short, fields_admitted, is_admitted, Policies, truncate,
  new_policy, succeeded, failure_written, update_row, get_source_policy, insert_or_ignore,
  ensure_source_policy, write_back, record_source_success, record_source_failure, PolicyUpdate,
  updated_policy, overwritten, update_source_policy,
}

length-truncate : (n : ℕ) (s : String) → length (codes (truncate n s)) ≤ n
unfolding truncate
length-truncate zero s = omega arith
length-truncate (suc n) String.[] = omega arith
length-truncate (suc n) (String.◌∷◌ c s) = omega (arith, length-truncate n s)

truncate_short : (s : String) → is_short (some (truncate 2048 s)) ≡ true
unfolding has_length
truncate_short s = let fits = length-truncate 2048 s in ground (arith, fits)

-- Every stored policy is one that `JobSourcePolicy` admits, but for its identifier.
abbrev pub AllAdmitted : Policies → Type 0
AllAdmitted t =
    (id : String) (p : JobSourcePolicy) → lookup id t ≡ some p → fields_admitted p ≡ true

-- The policy of a source, or that of a new one.
abbrev pub current_policy : Option JobSourcePolicy → ℕ → JobSourcePolicy
current_policy none now = new_policy now
current_policy (some p) now = p

-- The table has this policy for the source, and the others as before.
pub record Written (id : String) (p : JobSourcePolicy) (t t' : Policies) : Type 0 where
  pub stored : lookup id t' ≡ some p
  pub others : (other : String) → str_eq id other ≡ false → lookup other t' ≡ lookup other t

pub Written-AllAdmitted :
    {id : String} {p : JobSourcePolicy} {t t' : Policies}
    → Written id p t t'
    → fields_admitted p ≡ true
    → AllAdmitted t
    → AllAdmitted t'
Written-AllAdmitted {id} {p} {t} {t'} w admitted v other q found =
    elim (Bool-cases (str_eq id other)) [
      | inl e ↦
          let there : lookup other t' ≡ some p =
            ap (λ k. lookup k t') (sym ((eq_iff id other).0 e)) ∙ w.stored in
          let same : q ≡ p = cc in rw same admitted
      | inr e ↦ v other q (sym (w.others other e) ∙ found)
    ]

insert-Written : (id : String) (p : JobSourcePolicy) (t : Policies) → Written id p t (insert id p t)
insert-Written id p t = record {
  stored = lookup-insert_self id p t;
  others = λ other e. lookup-insert id other p t ∙ rw e refl;
}

get_found :
    (id : String) (p : JobSourcePolicy) (t : Policies)
    → is_opaque_id id ≡ true
    → lookup id t ≡ some p
    → fields_admitted p ≡ true
    → get_source_policy id t ≡ ok (some p)
unfolding get_source_policy is_admitted
get_found id p t named found admitted = rw (found, is_admitted, named, admitted) refl

get_missing : (id : String) (t : Policies) → lookup id t ≡ none → get_source_policy id t ≡ ok none
unfolding get_source_policy
get_missing id t missing = rw missing refl

update_row_found :
    (id : String) (change : JobSourcePolicy → JobSourcePolicy) (p : JobSourcePolicy) (t : Policies)
    → lookup id t ≡ some p
    → update_row id change t ≡ insert id (change p) t
unfolding update_row
update_row_found id change p t found = rw (update_row, found) refl

write_back_found :
    (id : String) (change : JobSourcePolicy → JobSourcePolicy) (p : JobSourcePolicy) (t : Policies)
    → is_opaque_id id ≡ true
    → lookup id t ≡ some p
    → fields_admitted (change p) ≡ true
    → write_back id change t ≡ (ok (change p), insert id (change p) t)
unfolding write_back
write_back_found id change p t named found admitted =
    rw
      (
        write_back,
        update_row_found id change p t found,
        get_found id (change p) (insert id (change p) t) named (lookup-insert_self id (change p) t)
            admitted,
      )
      refl

new_admitted : (now : ℕ) → fields_admitted (new_policy now) ≡ true
unfolding fields_admitted
new_admitted now = refl

pub current_policy_admitted :
    (id : String) (now : ℕ) (t : Policies)
    → AllAdmitted t
    → fields_admitted (current_policy (lookup id t) now) ≡ true
current_policy_admitted id now t v = elim (Option-cases (lookup id t)) [
  | inl e ↦ rw e (new_admitted now)
  | inr (p, e) ↦ rw e (v id p e)
]

pub ensure_source_policy_lem :
    (id : String) (now : ℕ) (t : Policies)
    → is_opaque_id id ≡ true
    → AllAdmitted t
    → (t' : Policies) × (ensure_source_policy id now t
        ≡ (ok (current_policy (lookup id t) now), t'))
      × Written id (current_policy (lookup id t) now) t t'
unfolding ensure_source_policy insert_or_ignore
ensure_source_policy_lem id now t named v = elim (Option-cases (lookup id t)) [
  | inl e ↦
      let back =
        get_found id (new_policy now) (insert id (new_policy now) t) named
          (lookup-insert_self id _ t) (new_admitted now) in
      (
        insert id (new_policy now) t,
        rw (ensure_source_policy, get_missing id t e, insert_or_ignore, e, back) refl,
        rw e (insert-Written id (new_policy now) t),
      )
  | inr (p, e) ↦ (
    t,
    rw (ensure_source_policy, get_found id p t named e (v id p e), e) refl,
    rw e (record { stored = e; others = λ other ne. refl }),
  )
]

-- A change of the ensured policy.
changed :
    (id : String) (change : JobSourcePolicy → JobSourcePolicy) (p : JobSourcePolicy)
    (t t' : Policies)
    → is_opaque_id id ≡ true
    → Written id p t t'
    → fields_admitted (change p) ≡ true
    → (t'' : Policies) × (write_back id change t' ≡ (ok (change p), t''))
      × Written id (change p) t t''
changed id change p t t' named w admitted =
    let again = insert-Written id (change p) t' in
    (
      insert id (change p) t',
      write_back_found id change p t' named w.stored admitted,
      record {
        stored = again.stored;
        others = λ other ne. again.others other ne ∙ w.others other ne;
      },
    )

pub succeeded_admitted :
    (now : ℕ) (p : JobSourcePolicy)
    → fields_admitted p ≡ true
    → fields_admitted (succeeded now p) ≡ true
unfolding fields_admitted
succeeded_admitted now p h = ground (arith, h)

failed_admitted :
    (n : ℕ) (b : Bool) (error : String) (now : ℕ) (p : JobSourcePolicy)
    → fields_admitted p ≡ true
    → fields_admitted (failure_written n b error now p) ≡ true
unfolding fields_admitted
failed_admitted n b error now p h = ground (arith, h, truncate_short error)

overwritten_admitted :
    (now : ℕ) (p row : JobSourcePolicy)
    → fields_admitted p ≡ true
    → fields_admitted (overwritten p now row) ≡ true
unfolding fields_admitted
overwritten_admitted now p row h = h

-- What a failure makes of a policy.
abbrev pub after_failure : String → ℕ → JobSourcePolicy → JobSourcePolicy
after_failure error now p =
    failure_written (p.failure_count + 1) (leb p.failure_threshold (p.failure_count + 1)) error now
      p

pub after_failure_admitted :
    (error : String) (now : ℕ) (p : JobSourcePolicy)
    → fields_admitted p ≡ true
    → fields_admitted (after_failure error now p) ≡ true
after_failure_admitted error now p h =
    failed_admitted (p.failure_count + 1) (leb p.failure_threshold (p.failure_count + 1)) error now
      p h

pub record_source_success_lem :
    (id : String) (now : ℕ) (t : Policies)
    → is_opaque_id id ≡ true
    → AllAdmitted t
    → (t' : Policies) × (record_source_success id now t
        ≡ (ok (succeeded now (current_policy (lookup id t) now)), t'))
      × Written id (succeeded now (current_policy (lookup id t) now)) t t'
unfolding record_source_success
record_source_success_lem id now t named v =
    let p = current_policy (lookup id t) now in
    let (t', ensured, w) = ensure_source_policy_lem id now t named v in
    let (t'', done, w') =
      changed id (succeeded now) p t t' named w
        (succeeded_admitted now p (current_policy_admitted id now t v)) in
    (t'', rw (record_source_success, ensured) done, w')

pub record_source_failure_lem :
    (id error : String) (now : ℕ) (t : Policies)
    → is_opaque_id id ≡ true
    → AllAdmitted t
    → (t' : Policies) × (record_source_failure id error now t
        ≡ (ok (after_failure error now (current_policy (lookup id t) now)), t'))
      × Written id (after_failure error now (current_policy (lookup id t) now)) t t'
unfolding record_source_failure
record_source_failure_lem id error now t named v =
    let p = current_policy (lookup id t) now in
    let (t', ensured, w) = ensure_source_policy_lem id now t named v in
    let admitted =
      failed_admitted (p.failure_count + 1) (leb p.failure_threshold (p.failure_count + 1)) error
        now p (current_policy_admitted id now t v) in
    let (t'', done, w') =
      changed id
        (failure_written (p.failure_count + 1) (leb p.failure_threshold (p.failure_count + 1)) error
          now)
        p t t' named w admitted in
    (t'', rw (record_source_failure, ensured) done, w')

-- A source whose identifier is not an `OpaqueId` is stored where it is not yet there, and refused.
pub ensure_unnamed :
    (id : String) (now : ℕ) (t : Policies)
    → is_opaque_id id ≡ false
    → AllAdmitted t
    → (t' : Policies) × (ensure_source_policy id now t ≡ (err PolicyError.validation_error, t'))
      × AllAdmitted t'
unfolding ensure_source_policy get_source_policy insert_or_ignore is_admitted
ensure_unnamed id now t unnamed v = elim (Option-cases (lookup id t)) [
  | inl e ↦ (
    insert id (new_policy now) t,
    rw
        (
          ensure_source_policy,
          get_source_policy,
          e,
          insert_or_ignore,
          e,
          lookup-insert_self id (new_policy now) t,
          is_admitted,
          unnamed,
        )
        refl,
    Written-AllAdmitted (insert-Written id (new_policy now) t) (new_admitted now) v,
  )
  | inr (p, e) ↦ (t, rw (ensure_source_policy, get_source_policy, e, is_admitted, unnamed) refl, v)
]

update_named :
    (id : String) (u : PolicyUpdate) (now : ℕ) (t : Policies)
    → is_opaque_id id ≡ true
    → AllAdmitted t
    → AllAdmitted (update_source_policy id u now t).1
unfolding update_source_policy is_admitted
update_named id u now t named v =
    let p = current_policy (lookup id t) now in
    let (t', ensured, w) = ensure_source_policy_lem id now t named v in
    let admitted = current_policy_admitted id now t v in
    elim (Bool-cases (fields_admitted (updated_policy u p))) [
      | inl e ↦
          let ok_now = overwritten_admitted now (updated_policy u p) p e in
          let (t'', done, w') =
            changed id (overwritten (updated_policy u p) now) p t t' named w ok_now in
          rw (update_source_policy, ensured, is_admitted, named, e, done)
            (Written-AllAdmitted w' ok_now v)
      | inr e ↦
          rw (update_source_policy, ensured, is_admitted, named, e)
            (Written-AllAdmitted w admitted v)
    ]

-- An update is refused where the policy it builds is not admitted, and else stored.
pub update_source_policy_lem :
    (id : String) (u : PolicyUpdate) (now : ℕ) (t : Policies)
    → AllAdmitted t
    → AllAdmitted (update_source_policy id u now t).1
unfolding update_source_policy
update_source_policy_lem id u now t v = elim (Bool-cases (is_opaque_id id)) [
  | inl named ↦ update_named id u now t named v
  | inr unnamed ↦
      let (t', refused, v') = ensure_unnamed id now t unnamed v in
      rw (update_source_policy, refused) v'
]
