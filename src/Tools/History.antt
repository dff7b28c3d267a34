-- ===== src/Tools/History.antt =====
-- The registry over its whole history (backend/career_harness/core/tools/registry.py).
use career_agent_harness.Base.{
  ℕ, ◌≤◌, String, true, not, ◌&&◌, some, str_eq, is_some, if◌then◌else◌, ltb, ◌≡◌, refl, sym, ◌∙◌,
  ap, arith, inl, inr, eq_iff, Bool-cases, Option-cases,
}
use career_agent_harness.Base.Result.{
  Result, ok, err, steps_of_ok, after_raise, ok_injective, Result-cases,
}
use career_agent_harness.Base.Table.{Table, lookup, lookup-insert}
use career_agent_harness.Base.Json.{Json}
use career_agent_harness.Tools.Schema.{ToolError}
use career_agent_harness.Tools.Model.{ToolCallContext, Handler, ToolDefinition, Registry, is_valid}
use career_agent_harness.Tools.Registry.{
  Services, register, authorize_and_validate, handler_of, within_limit, run_handler, attempt,
  conclude, execute,
}
use career_agent_harness.Tools.Guard.{execute-audit}

module _ {W O : Type 0} (services : Services W O) where
  -- Definitions that passed `__post_init__` are registered, and tools are called.
  pub data Step (s s' : Registry W O) : Type 0 where
    registers : (d : ToolDefinition W O) → is_valid d ≡ true → (register d s).1 ≡ s' → Step s s'
    executes :
        (name : String) (arguments : Table Json) (context : ToolCallContext)
        → (execute services name arguments context s).1 ≡ s'
        → Step s s'

  pub data Reach (s : Registry W O) : Registry W O → Type 0 where
    here : Reach s s
    next : {mid s' : Registry W O} → Reach s mid → Step mid s' → Reach s s'

  execute-tools :
      (name : String) (arguments : Table Json) (context : ToolCallContext) (s : Registry W O)
      → (execute services name arguments context s).1.tools ≡ s.tools
  unfolding execute
  execute-tools name arguments context s = elim (Option-cases (lookup name s.tools)) [
    | inl e ↦ rw (execute, e) refl
    | inr (d, e) ↦ (execute-audit services name d arguments context s e).1
  ]

  register-tools :
      (d : ToolDefinition W O) (s : Registry W O) (name : String)
      → lookup name (register d s).1.tools ≡ (
          if not (is_some (lookup d.name s.tools)) && str_eq d.name name
          then some d
          else lookup name s.tools)
  unfolding register
  register-tools d s name = elim (Bool-cases (is_some (lookup d.name s.tools))) [
    | inl e ↦ rw (register, e) refl
    | inr e ↦ rw (register, e) (lookup-insert d.name name d s.tools)
  ]

  Step-kept :
      {s s' : Registry W O} (name : String) (d : ToolDefinition W O)
      → Step s s'
      → lookup name s.tools ≡ some d
      → lookup name s'.tools ≡ some d
  Step-kept {s} name d (Step.executes called arguments context h) found =
      rw (← h, execute-tools called arguments context s) found
  Step-kept {s} name d (Step.registers new valid h) found =
      elim (Bool-cases (str_eq new.name name)) [
        | inl e ↦
            let same = (eq_iff new.name name).0 e in
            let taken = ap is_some (ap (λ k. lookup k s.tools) same ∙ found) in
            rw (← h) (register-tools new s name ∙ rw taken found)
        | inr e ↦ rw (← h) (register-tools new s name ∙ ground (arith, e, found))
      ]

  -- Every tool of the registry is valid.
  abbrev pub AllValid : Registry W O → Type 0
  AllValid s =
      (name : String) (d : ToolDefinition W O) → lookup name s.tools ≡ some d → is_valid d ≡ true

  Step-AllValid : {s s' : Registry W O} → Step s s' → AllValid s → AllValid s'
  Step-AllValid {s} (Step.executes called arguments context h) v name d found = v name d (
      sym (ap (lookup name) (execute-tools called arguments context s))
      ∙ ap (λ (x : Registry W O). lookup name x.tools) h
      ∙ found)
  Step-AllValid {s} (Step.registers new valid h) v name d found =
      let found' =
        sym (register-tools new s name)
        ∙ ap (λ (x : Registry W O). lookup name x.tools) h
        ∙ found in
      elim (Bool-cases (not (is_some (lookup new.name s.tools)) && str_eq new.name name)) [
        | inl e ↦ let same : new ≡ d = ground (arith, rw e at found') in rw (← same) valid
        | inr e ↦ v name d (rw e at found')
      ]

  -- A tool that is registered is never replaced, and every registered tool is a valid one.
  Reach-kept :
      {s s' : Registry W O} (name : String) (d : ToolDefinition W O)
      → Reach s s'
      → lookup name s.tools ≡ some d
      → lookup name s'.tools ≡ some d
  Reach-kept name d Reach.here found = found
  Reach-kept name d (Reach.next before step) found =
      Step-kept name d step (Reach-kept name d before found)

  Reach-AllValid : {s s' : Registry W O} → Reach s s' → AllValid s → AllValid s'
  Reach-AllValid Reach.here v = v
  Reach-AllValid (Reach.next before step) v = Step-AllValid step (Reach-AllValid before v)

  within_limit_ok :
      (d : ToolDefinition W O) (output o : O)
      → within_limit services d output ≡ ok o
      → (n : ℕ) × (services.encoded_size o ≡ ok n) × (n ≤ d.output_limit_bytes)
  unfolding within_limit
  within_limit_ok d output o h =
      let (n, size, rest) = steps_of_ok (services.encoded_size output) _ o h in
      let (fits, done) = after_raise (ltb d.output_limit_bytes n) _ _ o rest in
      (n, ap services.encoded_size (sym (ok_injective done)) ∙ size, ground (arith, fits))

  run_handler_ok :
      (d : ToolDefinition W O) (normalized : Table Json)
      (m : Result ToolError (Handler W O) × Registry W O) (o : O)
      → (run_handler services d normalized m).0 ≡ ok o
      → (n : ℕ) × (services.encoded_size o ≡ ok n) × (n ≤ d.output_limit_bytes)
  unfolding run_handler
  run_handler_ok d normalized (err e, s) o h = absurd cc
  run_handler_ok d normalized (ok handler, s) o h =
      let (output, _, rest) = steps_of_ok (handler normalized s.world).0 _ o h in
      within_limit_ok d output o rest

  attempt_ok :
      (d : ToolDefinition W O) (arguments : Table Json) (context : ToolCallContext)
      (s : Registry W O) (o : O)
      → (attempt services d arguments context s).0 ≡ ok o
      → (n : ℕ) × (services.encoded_size o ≡ ok n) × (n ≤ d.output_limit_bytes)
  unfolding attempt
  attempt_ok d arguments context s o h =
      elim (Result-cases (authorize_and_validate services d arguments context s.world)) [
        | inl (normalized, e) ↦
            run_handler_ok d normalized (handler_of d s) o (rw (e, attempt) at h)
        | inr (raised, e) ↦ absurd (ground (arith, rw (e, attempt) at h))
      ]

  conclude_ok :
      (d : ToolDefinition W O) (context : ToolCallContext) (m : Result ToolError O × Registry W O)
      (o : O)
      → (conclude d context m).0 ≡ ok o
      → m.0 ≡ ok o
  unfolding conclude
  conclude_ok d context (ok output, s) o h = cc
  conclude_ok d context (err e, s) o h = absurd cc

  execute_ok :
      (name : String) (arguments : Table Json) (context : ToolCallContext) (s : Registry W O)
      (o : O)
      → (execute services name arguments context s).0 ≡ ok o
      → (d : ToolDefinition W O) × (lookup name s.tools ≡ some d)
        × (n : ℕ) × (services.encoded_size o ≡ ok n)
        × (n ≤ d.output_limit_bytes)
  unfolding execute
  execute_ok name arguments context s o h = elim (Option-cases (lookup name s.tools)) [
    | inl e ↦ absurd (ground (arith, rw (execute, e) at h))
    | inr (d, e) ↦
        let (n, size, fits) = attempt_ok d arguments context s o (
          conclude_ok d context (attempt services d arguments context s) o
            (rw (execute, e) at h)) in
        (d, e, n, size, fits)
  ]

  is_valid-limit : (d : ToolDefinition W O) → is_valid d ≡ true → d.output_limit_bytes ≤ 1000000
  unfolding is_valid
  is_valid-limit d h = ground (arith, h)

  -- An output that a call gives has a JSON of at most the limit of the tool of that name, which was
  -- valid when it was registered and never replaced, and so of at most 1,000,000 bytes, whatever
  -- registrations and calls came before, from a registry of valid tools on.
  pub execute-size :
      {s0 s : Registry W O} (name : String) (arguments : Table Json) (context : ToolCallContext)
      (o : O)
      → AllValid s0
      → Reach s0 s
      → (execute services name arguments context s).0 ≡ ok o
      → (d : ToolDefinition W O) × (lookup name s.tools ≡ some d)
        × ((n : ℕ) × (services.encoded_size o ≡ ok n) × (n ≤ d.output_limit_bytes) × (n ≤ 1000000))
        × ((first : ToolDefinition W O) → lookup name s0.tools ≡ some first → d ≡ first)
  execute-size {s0} {s} name arguments context o v reach h =
      let (d, found, n, size, fits) = execute_ok name arguments context s o h in
      let limit = is_valid-limit d (Reach-AllValid reach v name d found) in
      (
        d,
        found,
        (n, size, fits, omega (arith, fits, limit)),
        λ first was. let kept = Reach-kept name first reach was in cc,
      )
