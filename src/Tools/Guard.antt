-- ===== src/Tools/Guard.antt =====
-- What a call of a tool needs, and what it leaves behind
-- (backend/career_harness/core/tools/registry.py).
use career_agent_harness.Base.{
  String, Bool, true, false, not, ◌∷◌, some, if◌then◌else◌, ◌≡◌, ◌⊎◌, refl, ◌∙◌, ap, arith, inl,
  inr, Option-cases,
}
use career_agent_harness.Base.Result.{
  Result, ok, err, raise_if, steps_of_ok, after_raise, Result-cases,
}
use career_agent_harness.Base.Table.{Table, lookup}
use career_agent_harness.Base.Json.{Json}
use career_agent_harness.Base.Keys.{member, is_subset}
use career_agent_harness.Tools.Schema.{ToolFailureCategory, ToolError, validate_object}
use career_agent_harness.Tools.Model.{
  ToolCallContext, same_permission, same_scope_kind, same_scope, Handler, ToolDefinition, Registry,
}
use career_agent_harness.Tools.Registry.{
  audit_of, Services, category_of, status_of, needs_approval, check_approval,
  authorize_and_validate, keep_loaded, handler_of, run_handler, attempt, record_audit, conclude,
  execute,
}

module _ {W O : Type 0} (services : Services W O) where
  -- The caller has the scope and the permissions of the tool, a write is approved, and the arguments
  -- are valid.
  pub record Permitted (d : ToolDefinition W O) (arguments : Table Json) (context : ToolCallContext)
      (world : W) : Type 0 where
    pub in_scope : member same_scope context.scope context.allowed_scopes ≡ true
    pub for_scope : member same_scope_kind context.scope.kind d.scope_kinds ≡ true
    pub with_permissions : is_subset same_permission d.permissions context.permissions ≡ true
    pub approved :
        needs_approval d ≡ true
        → (approval : String) × (context.approval_id ≡ some approval)
          × (services.approval_checker context.principal_id approval d.name world ≡ ok true)
    pub valid :
        (normalized : Table Json) × (validate_object services.python arguments d.input_schema
          ≡ ok normalized)

  raised_approval :
      (valid : Bool)
      → raise_if (not valid) (ToolError.tool_call_error ToolFailureCategory.approval) ≡ ok tt
      → valid ≡ true
  raised_approval true h = refl
  raised_approval false h = absurd cc

  check_approval_ok :
      (d : ToolDefinition W O) (context : ToolCallContext) (world : W)
      → check_approval services d context world ≡ ok tt
      → (approval : String) × (context.approval_id ≡ some approval)
        × (services.approval_checker context.principal_id approval d.name world ≡ ok true)
  unfolding check_approval
  check_approval_ok d context world h = elim (Option-cases context.approval_id) [
    | inl e ↦ absurd (ground (arith, rw (e, check_approval) at h))
    | inr (approval, e) ↦
        let (valid, approved, done) =
          steps_of_ok (services.approval_checker context.principal_id approval d.name world) _ tt
            (rw (e, check_approval) at h) in
        (approval, e, approved ∙ ap ok (raised_approval valid done))
  ]

  authorize_ok :
      (d : ToolDefinition W O) (arguments : Table Json) (context : ToolCallContext) (world : W)
      (normalized : Table Json)
      → authorize_and_validate services d arguments context world ≡ ok normalized
      → Permitted d arguments context world
  unfolding authorize_and_validate
  authorize_ok d arguments context world normalized h =
      let (scope, h1) =
        after_raise (not (member same_scope context.scope context.allowed_scopes)) _ _ normalized
          h in
      let (kind, h2) =
        after_raise (not (member same_scope_kind context.scope.kind d.scope_kinds)) _ _ normalized
          h1 in
      let (permissions, h3) =
        after_raise (not (is_subset same_permission d.permissions context.permissions)) _ _
          normalized h2 in
      let (u, approval, h4) =
        steps_of_ok (if needs_approval d then check_approval services d context world else ok tt) _
          normalized h3 in
      record {
        in_scope = ground (arith, scope);
        for_scope = ground (arith, kind);
        with_permissions = ground (arith, permissions);
        approved = λ write. check_approval_ok d context world (rw write at approval);
        valid = (normalized, h4);
      }

  -- A call of a registered tool either is permitted, or fails, runs and loads no handler, and leaves
  -- the registry and the world as they were but for the one event that tells of its failure.
  pub execute-Permitted :
      (name : String) (d : ToolDefinition W O) (arguments : Table Json) (context : ToolCallContext)
      (s : Registry W O)
      → lookup name s.tools ≡ some d
      → Permitted d arguments context s.world
        ⊎ ((category : ToolFailureCategory) × (execute services name arguments context s
              ≡ (err category, record_audit (audit_of d context "failed" (some category)) s)))
  unfolding execute attempt conclude
  execute-Permitted name d arguments context s found =
      elim (Result-cases (authorize_and_validate services d arguments context s.world)) [
        | inl (normalized, e) ↦ inl (authorize_ok d arguments context s.world normalized e)
        | inr (raised, e) ↦ inr (category_of raised, rw (execute, attempt, found, e) refl)
      ]

  keep_loaded-audit :
      (name : String) (s : Registry W O) (m : Result ToolError (Handler W O) × W)
      → ((keep_loaded name s m).1.audit ≡ s.audit) × ((keep_loaded name s m).1.tools ≡ s.tools)
  keep_loaded-audit name s (ok h, world) = (refl, refl)
  keep_loaded-audit name s (err e, world) = (refl, refl)

  handler_of-audit :
      (d : ToolDefinition W O) (s : Registry W O)
      → ((handler_of d s).1.audit ≡ s.audit) × ((handler_of d s).1.tools ≡ s.tools)
  unfolding handler_of
  handler_of-audit d s = elim (Option-cases d.handler) [
    | inr (h, e) ↦ rw (handler_of, e) (refl, refl)
    | inl e ↦ elim (Option-cases (lookup d.name s.loaded)) [
      | inr (h, f) ↦ rw (handler_of, e, f) (refl, refl)
      | inl f ↦ elim (Option-cases d.deferred_loader) [
        | inl g ↦ rw (handler_of, e, f, g) (refl, refl)
        | inr (load, g) ↦ rw (handler_of, e, f, g) (keep_loaded-audit d.name s (load s.world))
      ]
    ]
  ]

  run_handler-audit :
      (d : ToolDefinition W O) (normalized : Table Json)
      (m : Result ToolError (Handler W O) × Registry W O)
      → ((run_handler services d normalized m).1.audit ≡ m.1.audit)
        × ((run_handler services d normalized m).1.tools ≡ m.1.tools)
  unfolding run_handler
  run_handler-audit d normalized (ok h, s) = (refl, refl)
  run_handler-audit d normalized (err e, s) = (refl, refl)

  attempt-audit :
      (d : ToolDefinition W O) (arguments : Table Json) (context : ToolCallContext)
      (s : Registry W O)
      → ((attempt services d arguments context s).1.audit ≡ s.audit)
        × ((attempt services d arguments context s).1.tools ≡ s.tools)
  unfolding attempt
  attempt-audit d arguments context s =
      elim (Result-cases (authorize_and_validate services d arguments context s.world)) [
        | inl (normalized, e) ↦
            let (audit, tools) = run_handler-audit d normalized (handler_of d s) in
            let (audit', tools') = handler_of-audit d s in
            rw (attempt, e) (audit ∙ audit', tools ∙ tools')
        | inr (raised, e) ↦ rw (attempt, e) (refl, refl)
      ]

  conclude-audit :
      (d : ToolDefinition W O) (context : ToolCallContext) (m : Result ToolError O × Registry W O)
      → ((conclude d context m).1.audit
          ≡ audit_of d context
              (status_of (conclude d context m).0).0
              (status_of (conclude d context m).0).1
            ∷ m.1.audit)
        × ((conclude d context m).1.tools ≡ m.1.tools)
  unfolding conclude
  conclude-audit d context (ok output, s) = (refl, refl)
  conclude-audit d context (err e, s) = (refl, refl)

  -- A call of a registered tool, whatever becomes of it, stores exactly one event, in front of those
  -- before it: that it is completed where the caller gets an output, and failed with the very
  -- category that the caller gets otherwise. The registered tools stay the same.
  pub execute-audit :
      (name : String) (d : ToolDefinition W O) (arguments : Table Json) (context : ToolCallContext)
      (s : Registry W O)
      → lookup name s.tools ≡ some d
      → ((execute services name arguments context s).1.audit
          ≡ audit_of d context
              (status_of (execute services name arguments context s).0).0
              (status_of (execute services name arguments context s).0).1
            ∷ s.audit)
        × ((execute services name arguments context s).1.tools ≡ s.tools)
  unfolding execute attempt
  execute-audit name d arguments context s found =
      let (audit, tools) = conclude-audit d context (attempt services d arguments context s) in
      let (audit', tools') = attempt-audit d arguments context s in
      rw (execute, found) (rw audit' at audit, tools ∙ tools')
