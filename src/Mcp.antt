-- ===== src/Mcp.antt =====
-- `check_arguments` and `run_tool` of vsearch/mcp.py. The state of the world that a tool acts on is `W`.
-- How Python writes a value into a message is the argument `Repr`.
pub mod Values
pub mod Server
pub mod Argument
pub mod Checked
pub mod Valid
pub mod Replies
pub mod Tests
use distributed_vector_searc.Mcp.Values.{
  get, item, Kind, array, boolean, integer, kind_of, is_instance, has_kind, less_than, fields_of,
}
use distributed_vector_searc.Prelude.{
  ℕ, zero, suc, ◌+◌, ◌*◌, ◌^◌, Bool, true, false, not, ◌&&◌, ◌||◌, List, [], ◌∷◌, ◌++◌, map, Option,
  none, some, Result, Error, ok, err, ◌>>=◌, ◌==◌, if◌then◌else◌, ltb, leb, all, list_ord, nat_ord,
}
use distributed_vector_searc.Python.Text.{Text, text_eq, codes}
use distributed_vector_searc.Python.Json.{
  ℤ, pos, negsuc, Json, null, bool, int, float, str, arr, obj, Items, Fields, end, field, elements,
  entries,
}
use distributed_vector_searc.Python.Sorting.{sorted}

-- `repr` of a text, of a list of texts, and of a JSON value, and `str` of a JSON value.
pub record Repr : Type 0 where
  pub text : Text → Text
  pub texts : List Text → Text
  pub value : Json → Text
  pub plain : Json → Text

-- `"minimum" in rule and value < rule["minimum"]`, and the same for a maximum.
unfoldable pub is_below : Json → Option Json → Result Bool
unfolding less_than
is_below value none = ok false
is_below value (some minimum) = less_than value minimum

unfoldable pub is_above : Json → Option Json → Result Bool
unfolding less_than
is_above value none = ok false
is_above value (some maximum) = less_than maximum value

-- `all(isinstance(item, item_type) for item in value)`
unfoldable pub items_are : Kind → Json → Bool
unfolding is_instance
items_are kind (arr items) = all (λ item. is_instance item kind) (elements items)
items_are kind _ = true

-- `rule["type"] == "array" and "items" in rule`, with the name and the kind of the items.
unfoldable pub item_kind : Kind → Fields → Result (Option (Json × Kind))
unfolding get item kind_of fields_of
item_kind array rule = elim (get (codes "items") rule) [
  | none ↦ ok none
  | some items ↦ do
    inner ← fields_of items
    name ← item (codes "type") inner
    kind ← kind_of name
    ok (some (name, kind))
]
item_kind _ rule = ok none

unfoldable pub item_problem : Repr → Text → Json → Option (Json × Kind) → Option Text
unfolding items_are
item_problem repr name value none = none
item_problem repr name value (some (type, kind)) =
    if items_are kind value
    then none
    else some
        (codes "every item of " ++ repr.text name ++ codes " must be of type " ++ repr.plain type)

-- What is said of a bound that is broken; the bound is there then.
abbrev pub plain_or_empty : Repr → Option Json → Text
plain_or_empty repr none = []
plain_or_empty repr (some value) = repr.plain value

-- The tests of one argument, each after those before it: the items, the maximum, the minimum, the type.
unfoldable pub items_problem : Repr → Text → Json → Kind → Fields → Result (Option Text)
unfolding item_kind item_problem
items_problem repr name value kind rule = do
  items ← item_kind kind rule
  ok (item_problem repr name value items)

unfoldable pub maximum_problem : Repr → Text → Json → Kind → Fields → Result (Option Text)
unfolding is_above items_problem
maximum_problem repr name value kind rule = do
  above ← is_above value (get (codes "maximum") rule)
  elim above [
    | true ↦ ok (
        some (
          codes "argument "
          ++ repr.text name
          ++ codes " must be at most "
          ++ plain_or_empty repr (get (codes "maximum") rule)))
    | false ↦ items_problem repr name value kind rule
  ]

unfoldable pub minimum_problem : Repr → Text → Json → Kind → Fields → Result (Option Text)
unfolding is_below maximum_problem
minimum_problem repr name value kind rule = do
  below ← is_below value (get (codes "minimum") rule)
  elim below [
    | true ↦ ok (
        some (
          codes "argument "
          ++ repr.text name
          ++ codes " must be at least "
          ++ plain_or_empty repr (get (codes "minimum") rule)))
    | false ↦ maximum_problem repr name value kind rule
  ]

unfoldable pub argument_problem : Repr → Text → Json → Fields → Result (Option Text)
unfolding item kind_of has_kind minimum_problem
argument_problem repr name value rule = do
  type ← item (codes "type") rule
  kind ← kind_of type
  elim (has_kind value kind) [
    | false ↦
        ok (
          some
            (codes "argument " ++ repr.text name ++ codes " must be of type " ++ repr.plain type))
    | true ↦ minimum_problem repr name value kind rule
  ]

-- `for name in schema.get("required", [])`
unfoldable pub missing : Repr → List Json → Fields → Result (Option Text)
unfolding get
missing repr [] arguments = ok none
missing repr (str name ∷ required) arguments = elim (get name arguments) [
  | none ↦ ok (some (codes "missing required argument " ++ repr.text name))
  | some value ↦ missing repr required arguments
]
missing repr (_ ∷ required) arguments = err Error.type_error

-- `for name, value in arguments.items()`
unfoldable pub problems : Repr → Fields → Fields → Result (Option Text)
unfolding get fields_of argument_problem sorted
problems repr properties end = ok none
problems repr properties (field name value arguments) = elim (get name properties) [
  | none ↦ ok (
      some (
        codes "unknown argument "
        ++ repr.text name
        ++ codes "; this tool takes "
        ++ repr.texts (sorted (map (λ e. e.0) (entries properties)))))
  | some rule ↦ do
    fields ← fields_of rule
    problem ← argument_problem repr name value fields
    elim problem [ some text ↦ ok (some text) | none ↦ problems repr properties arguments ]
]

-- `schema.get("properties", {})` and `schema.get("required", [])`
unfoldable pub properties_of : Fields → Result Fields
unfolding get fields_of
properties_of schema = elim (get (codes "properties") schema) [
  | none ↦ ok end
  | some value ↦ fields_of value
]

unfoldable pub required_of : Fields → Result (List Json)
unfolding get
required_of schema = elim (get (codes "required") schema) [
  | none ↦ ok []
  | some (arr names) ↦ ok (elements names)
  | some _ ↦ err Error.type_error
]

-- `check_arguments`: the problem as a sentence, or None.
unfoldable pub check_arguments : Repr → Fields → Json → Result (Option Text)
unfolding properties_of required_of missing problems
check_arguments repr schema (obj arguments) = do
  properties ← properties_of schema
  required ← required_of schema
  absent ← missing repr required arguments
  elim absent [ some text ↦ ok (some text) | none ↦ problems repr properties arguments ]
check_arguments repr schema _ = ok (some (codes "the arguments must be an object"))

-- What a handler does: text, a `ToolError` with its message, or another exception with its type's name.
pub data Outcome : Type 0 where
  returned : Text → Outcome
  tool_error : Text → Outcome
  exception : Text → Text → Outcome

pub record Tool (W : Type 0) : Type 0 where
  pub name : Text
  pub description : Text
  pub input_schema : Fields
  pub handler : W → Json → W × Outcome
  pub mutating : Bool

unfoldable pub outcome_text : Text → Outcome → Text × Bool
outcome_text name (returned text) = (text, false)
outcome_text name (tool_error text) = (text, true)
outcome_text name (exception type text) =
    (name ++ codes " failed unexpectedly: " ++ type ++ codes ": " ++ text, true)

unfoldable pub run_tool : {W : Type 0} → Repr → Tool W → Json → W → W × Result (Text × Bool)
unfolding check_arguments outcome_text
run_tool repr tool arguments w = elim (check_arguments repr tool.input_schema arguments) [
  | err e ↦ (w, err e)
  | ok (some problem) ↦
      (w, ok (codes "Cannot call " ++ tool.name ++ codes ": " ++ problem ++ codes ".", true))
  | ok none ↦
      let (w', outcome) = tool.handler w arguments in (w', ok (outcome_text tool.name outcome))
]
