-- ===== src/Tools/Schema.antt =====
-- `_validate_object` and `_coerce` of backend/career_harness/core/tools/registry.py. A schema is taken to
-- be well formed: its `properties` map names to objects, and its `required` is a list of names.
use career_agent_harness.Base.{
  ℕ, String, Bool, true, false, not, ◌||◌, ◌&&◌, List, [], ◌∷◌, Option, none, some, str_eq, any,
  is_some, if◌then◌else◌,
}
use career_agent_harness.Base.Result.{Result, ok, err, ◌>>=◌, ◌>>◌, raise_if}
use career_agent_harness.Base.Table.{Table, lookup}
use career_agent_harness.Base.Json.{Json}

pub data ToolFailureCategory : Type 0 where
  not_found validation permission approval execution output_limit : ToolFailureCategory

-- What a call of Python code raises: a ToolCallError, or another exception.
pub data ToolError : Type 0 where
  tool_call_error : ToolFailureCategory → ToolError
  exception : ToolError

-- `re.fullmatch(r"-?\d+", s)`, `int(s)` and `float(s)` with none for their ValueError, and
-- `s.casefold()`.
pub record Python : Type 0 where
  pub is_decimal : String → Bool
  pub int : String → Option (Bool × ℕ)
  pub float : String → Option String
  pub casefold : String → String

-- The values of `type` that `_coerce` knows.
pub data SchemaType : Type 0 where
  string integer number boolean array object anything : SchemaType

unfoldable pub schema_type : Option String → SchemaType
schema_type none = SchemaType.anything
schema_type (some t) =
    if str_eq t "string"
    then SchemaType.string
    else if str_eq t "integer"
    then SchemaType.integer
    else if str_eq t "number"
    then SchemaType.number
    else if str_eq t "boolean"
    then SchemaType.boolean
    else if str_eq t "array"
    then SchemaType.array
    else if str_eq t "object"
    then SchemaType.object
    else SchemaType.anything

abbrev pub integer_of : Option (Bool × ℕ) → Option Json
integer_of none = none
integer_of (some (negative, n)) = some (Json.int negative n)

abbrev pub number_of : Option String → Option Json
number_of none = none
number_of (some s) = some (Json.float s)

-- The text of a Boolean.
unfoldable pub boolean_of : String → Option Json
boolean_of folded =
    if str_eq folded "true" || str_eq folded "false"
    then some (Json.bool (str_eq folded "true"))
    else none

-- `isinstance` against the type; a Boolean counts as no number.
unfoldable pub has_type : SchemaType → Json → Bool
has_type SchemaType.string v = elim v [ Json.text s ↦ true | _ ↦ false ]
has_type SchemaType.integer v = elim v [ Json.int negative n ↦ true | _ ↦ false ]
has_type SchemaType.number v = elim v [
  | Json.int negative n ↦ true
  | Json.float s ↦ true
  | _ ↦ false
]
has_type SchemaType.boolean v = elim v [ Json.bool b ↦ true | _ ↦ false ]
has_type SchemaType.array v = elim v [ Json.arr xs ↦ true | _ ↦ false ]
has_type SchemaType.object v = elim v [ Json.obj fs ↦ true | _ ↦ false ]
has_type SchemaType.anything v = true

-- A value that is passed on as it is, or refused.
abbrev pub if_typed : SchemaType → Json → Option Json
if_typed t v = if has_type t v then some v else none

-- `_coerce`; none stands for its TypeError or ValueError.
unfoldable pub coerce : Python → Json → SchemaType → Option Json
coerce py v SchemaType.integer = elim v [
  | Json.text s ↦
      if py.is_decimal s then integer_of (py.int s) else if_typed SchemaType.integer (Json.text s)
  | w ↦ if_typed SchemaType.integer w
]
coerce py v SchemaType.number = elim v [
  | Json.text s ↦ number_of (py.float s)
  | w ↦ if_typed SchemaType.number w
]
coerce py v SchemaType.boolean = elim v [
  | Json.text s ↦ boolean_of (py.casefold s)
  | w ↦ if_typed SchemaType.boolean w
]
coerce py v t = if_typed t v

pub record InputSchema : Type 0 where
  pub type_name : Option String
  pub properties : Table (Option String)
  pub required : List String
  -- whether `additionalProperties` is False
  pub closed : Bool

-- `properties.get(name, {}).get("type")`
unfoldable pub expected_type : String → InputSchema → Option String
expected_type name schema = elim (lookup name schema.properties) [ none ↦ none | some t ↦ t ]

unfoldable pub coerce_arguments : Python → InputSchema → Table Json → Result ToolError (Table Json)
coerce_arguments py schema [] = ok []
coerce_arguments py schema ((name, value) ∷ arguments) =
    let rest = coerce_arguments py schema arguments in
    elim (coerce py value (schema_type (expected_type name schema))) [
      | none ↦ err (ToolError.tool_call_error ToolFailureCategory.validation)
      | some v ↦ rest >>= λ normalized. ok ((name, v) ∷ normalized)
    ]

-- `_validate_object`
unfoldable pub validate_object : Python → Table Json → InputSchema → Result ToolError (Table Json)
validate_object py arguments schema = do
  raise_if
      (any (λ (entry : String × Json). not (is_some (lookup entry.0 schema.properties))) arguments
        && schema.closed)
      (ToolError.tool_call_error ToolFailureCategory.validation)
  raise_if (any (λ name. not (is_some (lookup name arguments))) schema.required)
      (ToolError.tool_call_error ToolFailureCategory.validation)
  coerce_arguments py schema arguments
