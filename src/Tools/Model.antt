-- ===== src/Tools/Model.antt =====
-- The data of the tool registry (backend/career_harness/core/tools/registry.py). A handler acts on the
-- world `W` and gives an output of `O`, or raises.
use career_agent_harness.Base.{
  ℕ, String, Bool, false, not, ◌||◌, ◌&&◌, List, [], ◌∷◌, Option, none, some, str_eq, all, is_some,
  length, leb, ◌==◌, if◌then◌else◌,
}
use career_agent_harness.Base.Result.{Result}
use career_agent_harness.Base.Table.{Table}
use career_agent_harness.Base.Json.{Json}
use career_agent_harness.Base.Text.{codes, between}
use career_agent_harness.Tools.Schema.{ToolFailureCategory, ToolError, InputSchema}

pub data ToolPermission : Type 0 where
  read write network filesystem : ToolPermission

pub data ToolScopeKind : Type 0 where
  user workspace knowledge_base capability : ToolScopeKind

abbrev pub permission_value : ToolPermission → String
permission_value ToolPermission.read = "read"
permission_value ToolPermission.write = "write"
permission_value ToolPermission.network = "network"
permission_value ToolPermission.filesystem = "filesystem"

abbrev pub scope_kind_value : ToolScopeKind → String
scope_kind_value ToolScopeKind.user = "user"
scope_kind_value ToolScopeKind.workspace = "workspace"
scope_kind_value ToolScopeKind.knowledge_base = "knowledge_base"
scope_kind_value ToolScopeKind.capability = "capability"

pub record ToolScope : Type 0 where
  pub kind : ToolScopeKind
  pub scope_id : String

pub record ToolCallContext : Type 0 where
  pub principal_id : String
  pub scope : ToolScope
  pub allowed_scopes : List ToolScope
  pub permissions : List ToolPermission
  pub approval_id : Option String

abbrev pub same_permission : ToolPermission → ToolPermission → Bool
same_permission p q = str_eq (permission_value p) (permission_value q)

abbrev pub same_scope_kind : ToolScopeKind → ToolScopeKind → Bool
same_scope_kind p q = str_eq (scope_kind_value p) (scope_kind_value q)

abbrev pub same_scope : ToolScope → ToolScope → Bool
same_scope s t = same_scope_kind s.kind t.kind && str_eq s.scope_id t.scope_id

abbrev pub Handler : Type 0 → Type 0 → Type 0
Handler W O = Table Json → W → Result ToolError O × W

abbrev pub Loader : Type 0 → Type 0 → Type 0
Loader W O = W → Result ToolError (Handler W O) × W

pub record ToolDefinition (W O : Type 0) : Type 0 where
  pub name : String
  pub source : String
  pub version : String
  pub input_schema : InputSchema
  pub permissions : List ToolPermission
  pub scope_kinds : List ToolScopeKind
  pub output_limit_bytes : ℕ
  pub handler : Option (Handler W O)
  pub deferred_loader : Option (Loader W O)

is_name_character : ℕ → Bool
is_name_character c =
    between b'a' b'z' c || between b'0' b'9' c || c == b'_' || c == b'.' || c == b'-'

name_matches : List ℕ → Bool
unfolding is_name_character
name_matches [] = false
name_matches (c ∷ cs) =
    between b'a' b'z' c && all is_name_character cs && leb 2 (length cs) && leb (length cs) 127

-- `_TOOL_NAME.fullmatch(name)`
unfoldable pub is_tool_name : String → Bool
unfolding name_matches
is_tool_name name = name_matches (codes name)

abbrev pub is_object : Option String → Bool
is_object none = false
is_object (some t) = str_eq t "object"

module _ {W O : Type 0} where
  -- `ToolDefinition.__post_init__` does not raise.
  unfoldable pub is_valid : ToolDefinition W O → Bool
  is_valid d =
      is_tool_name d.name
      && is_object d.input_schema.type_name
      && (if is_some d.handler then not (is_some d.deferred_loader) else is_some d.deferred_loader)
      && leb 1 d.output_limit_bytes
      && leb d.output_limit_bytes 1000000

-- The payload of the event that DatabaseToolAuditSink stores.
pub record ToolAudit : Type 0 where
  pub tool_name : String
  pub tool_source : String
  pub tool_version : String
  pub principal_id : String
  pub scope_kind : String
  pub scope_id : String
  pub status : String
  pub failure_category : Option ToolFailureCategory
  pub approval_present : Bool

-- The registry, the stored events, the newest first, and the world.
pub record Registry (W O : Type 0) : Type 0 where
  pub tools : Table (ToolDefinition W O)
  pub loaded : Table (Handler W O)
  pub audit : List ToolAudit
  pub world : W
