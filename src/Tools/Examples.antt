-- ===== src/Tools/Examples.antt =====
-- A tool that counts its calls, which needs an approval.
use career_agent_harness.Base.{
  ℕ, ◌+◌, ◌≤◌, String, true, false, not, [], ◌∷◌, Option, none, some, str_eq, any, is_some, ◌≡◌,
  ◌⊎◌, refl,
}
use career_agent_harness.Base.Result.{ok, err}
use career_agent_harness.Base.Table.{Table, lookup, insert}
use career_agent_harness.Base.Json.{Json}
use career_agent_harness.Tools.Schema.{
  ToolFailureCategory, Python, schema_type, has_type, coerce, InputSchema, expected_type,
  coerce_arguments, validate_object,
}
use career_agent_harness.Tools.Model.{
  ToolPermission, ToolScopeKind, ToolScope, ToolCallContext, ToolDefinition, Registry, is_tool_name,
  is_valid,
}
use career_agent_harness.Tools.Registry.{
  audit_of, Services, record_audit, register, execute, attempt, conclude, run_handler, handler_of,
  within_limit, authorize_and_validate, check_approval,
}
use career_agent_harness.Tools.Typed.{IsTyped, names_of, validate_object-IsTyped}
use career_agent_harness.Tools.Guard.{Permitted, execute-Permitted, execute-audit}
use career_agent_harness.Tools.History.{Reach, Step, AllValid, execute-size}

abbrev python : Python
python = record {
  is_decimal = λ s. str_eq s "-7";
  int = λ s. some (true, 7);
  float = λ s. none;
  casefold = λ s. s;
}

abbrev services : Services ℕ ℕ
services = record {
  python = python;
  approval_checker = λ principal approval name world. ok (str_eq approval "ok");
  encoded_size = λ n. ok n;
}

abbrev schema : InputSchema
schema = record {
  type_name = some "object";
  properties = ("by", some "integer") ∷ [];
  required = "by" ∷ [];
  closed = true;
}

abbrev counter : ToolDefinition ℕ ℕ
counter = record {
  name = "kb.count";
  source = "core";
  version = "1";
  input_schema = schema;
  permissions = ToolPermission.write ∷ [];
  scope_kinds = ToolScopeKind.user ∷ [];
  output_limit_bytes = 64;
  handler = some (λ arguments world. (ok world, world + 1));
  deferred_loader = none;
}

abbrev mine : ToolScope
mine = record { kind = ToolScopeKind.user; scope_id = "me" }

abbrev context_of : Option String → ToolCallContext
context_of approval = record {
  principal_id = "agent";
  scope = mine;
  allowed_scopes = mine ∷ [];
  permissions = ToolPermission.write ∷ [];
  approval_id = approval;
}

abbrev arguments : Table Json
arguments = ("by", Json.text "-7") ∷ []

abbrev empty : Registry ℕ ℕ
empty = record { tools = []; loaded = []; audit = []; world = 5 }

abbrev registry : Registry ℕ ℕ
registry = record { tools = ("kb.count", counter) ∷ []; loaded = []; audit = []; world = 5 }

empty-AllValid : AllValid services empty
unfolding lookup
empty-AllValid name d found = absurd cc

validate_object-IsTyped_example :
    (names_of (("by", Json.int true 7) ∷ []) ≡ names_of arguments)
    × IsTyped schema (("by", Json.int true 7) ∷ [])
    × (any (λ name. not (is_some (lookup name (("by", Json.int true 7) ∷ [])))) schema.required
        ≡ false)
    × (schema.closed ≡ true
        → any
            (λ (entry : String × Json). not (is_some (lookup entry.0 schema.properties)))
            (("by", Json.int true 7) ∷ [])
          ≡ false)
    × (validate_object python (("by", Json.int true 7) ∷ []) schema
        ≡ ok (("by", Json.int true 7) ∷ []))
unfolding validate_object coerce_arguments coerce expected_type schema_type has_type lookup
validate_object-IsTyped_example =
    validate_object-IsTyped python schema arguments (("by", Json.int true 7) ∷ []) refl

execute-Permitted_example :
    Permitted services counter arguments (context_of (some "ok")) 5
    ⊎ ((category : ToolFailureCategory) × (execute services "kb.count" arguments
            (context_of (some "ok"))
            registry
          ≡ (
            err category,
            record_audit
                (audit_of counter (context_of (some "ok")) "failed" (some category))
                registry,
          )))
unfolding lookup
execute-Permitted_example =
    execute-Permitted services "kb.count" counter arguments (context_of (some "ok")) registry refl

execute-audit_example :
    ((execute services "kb.count" arguments (context_of none) registry).1.audit
      ≡ audit_of counter (context_of none) "failed" (some ToolFailureCategory.approval) ∷ [])
    × ((execute services "kb.count" arguments (context_of none) registry).1.tools ≡ registry.tools)
unfolding lookup execute attempt conclude authorize_and_validate check_approval
execute-audit_example =
    execute-audit services "kb.count" counter arguments (context_of none) registry refl

execute-size_example :
    (d : ToolDefinition ℕ ℕ) × (lookup "kb.count" registry.tools ≡ some d)
    × ((n : ℕ) × (services.encoded_size 5 ≡ ok n) × (n ≤ d.output_limit_bytes) × (n ≤ 1000000))
    × ((first : ToolDefinition ℕ ℕ) → lookup "kb.count" empty.tools ≡ some first → d ≡ first)
unfolding execute attempt conclude run_handler handler_of within_limit authorize_and_validate
    check_approval validate_object coerce_arguments coerce expected_type schema_type has_type lookup
    is_valid is_tool_name register insert
execute-size_example =
    execute-size services {s0 = empty} {s = registry} "kb.count" arguments (context_of (some "ok"))
      5 empty-AllValid (Reach.next Reach.here (Step.registers counter refl refl)) refl
