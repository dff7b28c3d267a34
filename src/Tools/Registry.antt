-- ===== src/Tools/Registry.antt =====
-- `ToolRegistry` of backend/career_harness/core/tools/registry.py.
use career_agent_harness.Base.{
  ℕ, String, Bool, true, false, not, ◌∷◌, Option, none, some, is_some, if◌then◌else◌, ltb,
}
use career_agent_harness.Base.Result.{Result, ok, err, ◌>>=◌, ◌>>◌, raise_if}
use career_agent_harness.Base.Table.{Table, lookup, insert}
use career_agent_harness.Base.Json.{Json}
use career_agent_harness.Base.Keys.{member, is_subset}
use career_agent_harness.Tools.Schema.{ToolFailureCategory, ToolError, Python, validate_object}
use career_agent_harness.Tools.Model.{
  ToolPermission, ToolCallContext, same_permission, same_scope_kind, same_scope, scope_kind_value,
  Handler, ToolDefinition, ToolAudit, Registry,
}

-- `DatabaseToolAuditSink.record`
abbrev pub audit_of :
    {W O : Type 0}
    → ToolDefinition W O
    → ToolCallContext
    → String
    → Option ToolFailureCategory
    → ToolAudit
audit_of definition context status failure_category = record {
  tool_name = definition.name;
  tool_source = definition.source;
  tool_version = definition.version;
  principal_id = context.principal_id;
  scope_kind = scope_kind_value context.scope.kind;
  scope_id = context.scope.scope_id;
  status = status;
  failure_category = failure_category;
  approval_present = is_some context.approval_id;
}

abbrev pub category_of : ToolError → ToolFailureCategory
category_of (ToolError.tool_call_error category) = category
category_of ToolError.exception = ToolFailureCategory.execution

abbrev pub status_of :
    {O : Type 0} → Result ToolFailureCategory O → String × Option ToolFailureCategory
status_of (ok output) = ("completed", none)
status_of (err category) = ("failed", some category)

-- What the registry is given: Python's conversions, the approval checker, which may raise, and the
-- number of bytes of the JSON of an output, which may raise too.
pub record Services (W O : Type 0) : Type 0 where
  pub python : Python
  pub approval_checker : String → String → String → W → Result ToolError Bool
  pub encoded_size : O → Result ToolError ℕ

module _ {W O : Type 0} where
  -- `ToolRegistry.register`
  unfoldable pub register : ToolDefinition W O → Registry W O → Bool × Registry W O
  register definition s =
      if is_some (lookup definition.name s.tools)
      then (false, s)
      else (true, record s { tools = insert definition.name definition s.tools })

  abbrev pub needs_approval : ToolDefinition W O → Bool
  needs_approval definition = member same_permission ToolPermission.write definition.permissions

  unfoldable pub check_approval :
      Services W O → ToolDefinition W O → ToolCallContext → W → Result ToolError (Unit {0})
  check_approval services definition context world = elim context.approval_id [
    | none ↦ err (ToolError.tool_call_error ToolFailureCategory.approval)
    | some approval ↦
        services.approval_checker context.principal_id approval definition.name world >>= λ valid.
        raise_if (not valid) (ToolError.tool_call_error ToolFailureCategory.approval)
  ]

  -- `ToolRegistry._authorize_and_validate`
  unfoldable pub authorize_and_validate :
      Services W O
      → ToolDefinition W O
      → Table Json
      → ToolCallContext
      → W
      → Result ToolError (Table Json)
  authorize_and_validate services definition arguments context world = do
    raise_if (not (member same_scope context.scope context.allowed_scopes))
        (ToolError.tool_call_error ToolFailureCategory.permission)
    raise_if (not (member same_scope_kind context.scope.kind definition.scope_kinds))
        (ToolError.tool_call_error ToolFailureCategory.permission)
    raise_if (not (is_subset same_permission definition.permissions context.permissions))
        (ToolError.tool_call_error ToolFailureCategory.permission)
    (if needs_approval definition then check_approval services definition context world else ok tt)
    validate_object services.python arguments definition.input_schema

  -- A handler that was loaded is kept.
  abbrev pub keep_loaded :
      String
      → Registry W O
      → Result ToolError (Handler W O) × W
      → Result ToolError (Handler W O) × Registry W O
  keep_loaded name s (ok handler, world) =
      (ok handler, record s { loaded = insert name handler s.loaded; world = world })
  keep_loaded name s (err e, world) = (err e, record s { world = world })

  -- `ToolRegistry._handler`; the failure of its `assert` is an exception.
  unfoldable pub handler_of :
      ToolDefinition W O → Registry W O → Result ToolError (Handler W O) × Registry W O
  handler_of definition s = elim definition.handler [
    | some handler ↦ (ok handler, s)
    | none ↦ elim (lookup definition.name s.loaded) [
      | some existing ↦ (ok existing, s)
      | none ↦ elim definition.deferred_loader [
        | none ↦ (err ToolError.exception, s)
        | some load ↦ keep_loaded definition.name s (load s.world)
      ]
    ]
  ]

  -- `if len(encoded) > definition.output_limit_bytes: raise`
  unfoldable pub within_limit : Services W O → ToolDefinition W O → O → Result ToolError O
  within_limit services definition output = do
    size ← services.encoded_size output
    raise_if (ltb definition.output_limit_bytes size)
        (ToolError.tool_call_error ToolFailureCategory.output_limit)
    ok output

  unfoldable pub run_handler :
      Services W O
      → ToolDefinition W O
      → Table Json
      → Result ToolError (Handler W O) × Registry W O
      → Result ToolError O × Registry W O
  run_handler services definition normalized (err e, s) = (err e, s)
  run_handler services definition normalized (ok handler, s) =
      let (output, world) = handler normalized s.world in
      (output >>= within_limit services definition, record s { world = world })

  -- The body of the `try` of `execute`.
  unfoldable pub attempt :
      Services W O
      → ToolDefinition W O
      → Table Json
      → ToolCallContext
      → Registry W O
      → Result ToolError O × Registry W O
  attempt services definition arguments context s =
      elim (authorize_and_validate services definition arguments context s.world) [
        | err e ↦ (err e, s)
        | ok normalized ↦ run_handler services definition normalized (handler_of definition s)
      ]

  -- `self._audit.record`
  abbrev pub record_audit : ToolAudit → Registry W O → Registry W O
  record_audit audit s = record s { audit = audit ∷ s.audit }

  -- The `except` clauses of `execute`, and what stands behind them.
  unfoldable pub conclude :
      ToolDefinition W O
      → ToolCallContext
      → Result ToolError O × Registry W O
      → Result ToolFailureCategory O × Registry W O
  conclude definition context (ok output, s) =
      (ok output, record_audit (audit_of definition context "completed" none) s)
  conclude definition context (err e, s) = (
    err (category_of e),
    record_audit (audit_of definition context "failed" (some (category_of e))) s,
  )

  -- `ToolRegistry.execute`
  unfoldable pub execute :
      Services W O
      → String
      → Table Json
      → ToolCallContext
      → Registry W O
      → Result ToolFailureCategory O × Registry W O
  execute services name arguments context s = elim (lookup name s.tools) [
    | none ↦ (err ToolFailureCategory.not_found, s)
    | some definition ↦
        conclude definition context (attempt services definition arguments context s)
  ]
